-- ===== src/Outputs.antt =====
-- The outputs of an adapter, in gpu-wddm/src/vidpn.rs: framebuffers, the cursor of an output, and the
-- requests that show it.
pub mod Framebuffers
pub mod Pointers
pub mod Displays
pub mod Kept
pub mod Placed
pub mod Asked
pub mod Calls
pub mod Moves
pub mod Screen
mod Tests
