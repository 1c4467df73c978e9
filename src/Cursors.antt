-- ===== src/Cursors.antt =====
-- The pixels of the cursor, in gpu-wddm/src/vidpn.rs: the shapes that the operating system gives are
-- turned into the pixels of a framebuffer.
pub mod Pixels
pub mod Mono
pub mod Masked
pub mod Images
pub mod Shown
pub mod Passes
pub mod Outlined
pub mod Resolved
pub mod Drawn
pub mod MonoPlain
pub mod MonoDrawn
pub mod MaskedDrawn
pub mod MaskedBytes
mod Tests
