-- ===== src/Outputs/Pointers.antt =====
-- `Cursor`: a framebuffer with a place on the screen and a hotspot.
use virtio_drivers_windows.Base.{
  ℕ, ◌+◌, ◌*◌, ◌/◌, Bool, false, List, length, take, drop, ◌++◌, leb, ◌==◌, ◌&&◌, Outcome, ok,
  panic, ◌>>=◌, for_range, if◌then◌else◌,
}
use virtio_drivers_windows.Cursors.Mono.{write_mono}
use virtio_drivers_windows.Cursors.Masked.{write_masked_color}
use virtio_drivers_windows.Requests.{State, Host}
use virtio_drivers_windows.Requests.Monad.{Action, continue_with, pure}
use virtio_drivers_windows.Requests.Scanouts
use virtio_drivers_windows.Outputs.Framebuffers.{
  Framebuffer, format_stride, try_new, transfer_to_host,
}

pub record Cursor : Type 0 where
  pub pixels : Framebuffer
  pub hotspot : ℕ × ℕ
  pub position : ℕ × ℕ
  pub hidden : Bool

-- `gpu::Format::B8G8R8A8UNORM`.
abbrev pub b8g8r8a8unorm : ℕ
b8g8r8a8unorm = 1

unfoldable pub set_position : ℕ → ℕ → Cursor → Cursor
set_position x y c = record c { position = (x, y) }

unfoldable pub set_hotspot : ℕ → ℕ → Cursor → Cursor
set_hotspot x_hot y_hot c = record c { hotspot = (x_hot, y_hot) }

-- One turn of the loop of `write_bgra`: `copy_from_slice` between a row of the source and one of the
-- framebuffer. A range outside its slice panics.
unfoldable pub copy_row : List ℕ → ℕ → ℕ → ℕ → List ℕ → Outcome (List ℕ)
copy_row src src_stride dst_stride row pixels =
    if leb (row * dst_stride + src_stride) (length pixels)
      && leb ((row + 1) * src_stride) (length src)
    then ok (
        take (row * dst_stride) pixels
        ++ (take src_stride (drop (row * src_stride) src)
            ++ drop (row * dst_stride + src_stride) pixels))
    else panic

unfoldable pub write_bgra : ℕ → List ℕ → ℕ → List ℕ → Outcome (List ℕ)
unfolding for_range copy_row
write_bgra dst_w src src_stride pixels =
    if src_stride == 0
    then panic
    else for_range (length src / src_stride) 0 (copy_row src src_stride (dst_w * format_stride))
        pixels

-- The shapes that a cursor can get, with their bytes and the bytes in a row.
pub data Shape : Type 0 where
  bgra mono masked_color : List ℕ → ℕ → Shape

abbrev pub draw : Shape → ℕ → List ℕ → Outcome (List ℕ)
draw (bgra src stride) dst_w = write_bgra dst_w src stride
draw (mono mask stride) dst_w = write_mono dst_w mask stride
draw (masked_color colours stride) dst_w = write_masked_color dst_w colours stride

-- The cursor with a shape drawn into its pixels.
abbrev pub with_shape : Shape → Cursor → Outcome Cursor
with_shape shape c = draw shape c.pixels.width c.pixels.pixels >>= λ bytes.
    ok (record c { pixels = record (c.pixels) { pixels = bytes } })

-- `Cursor::try_new`.
unfoldable pub try_new_cursor :
    (h : Host) → (ℕ → ℕ → ℕ) → (width height x_hot y_hot x y : ℕ) → Action (State h.env) Cursor
unfolding try_new
try_new_cursor h physical width height x_hot y_hot x y s =
    continue_with (try_new h physical width height b8g8r8a8unorm s) (λ pixels.
      pure
        (record { pixels = pixels; hotspot = (x_hot, y_hot); position = (x, y); hidden = false }))

module _ (h : Host) where
  unfoldable pub transfer_pixels : Cursor → Action (State h.env) (Unit {0})
  unfolding transfer_to_host
  transfer_pixels c = transfer_to_host h c.pixels

  -- `Cursor::move` and `Cursor::update`.
  unfoldable pub move_to : ℕ → Cursor → Action (State h.env) (Unit {0})
  unfolding Scanouts.move_cursor
  move_to scanout c = let (x, y) = c.position in Scanouts.move_cursor h scanout x y

  unfoldable pub update : ℕ → Cursor → Action (State h.env) (Unit {0})
  unfolding Scanouts.update_cursor
  update scanout c =
      let (x, y) = c.position in
      let (x_hot, y_hot) = c.hotspot in Scanouts.update_cursor h scanout c.pixels.id x_hot y_hot x y
