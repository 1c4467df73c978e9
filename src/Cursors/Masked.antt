-- ===== src/Cursors/Masked.antt =====
-- `Cursor::write_masked_color`: a cursor of pixels with a mask in place of the alpha.
use virtio_drivers_windows.Base.{
  ℕ, ◌+◌, ◌*◌, ◌/◌, ◌^◌, Bool, false, List, length, get_elem?, replicate, Outcome, ok, panic,
  unwrap, ◌>>=◌, for_range, ◌==◌, if◌then◌else◌, ◌||◌, not,
}
use virtio_drivers_windows.Cursors.Pixels.{from_u32, write_to_prefix, transparent, opaque, inverted}
use virtio_drivers_windows.Cursors.Mono.{resolve_inverted}

pub record Copied : Type 0 where
  pub pixels : List ℕ
  pub has_inverted : Bool

-- The value of a pixel, by its blue, green, red and mask.
unfoldable pub masked_pix : ℕ → ℕ → ℕ → ℕ → ℕ
masked_pix b g r mask = if mask == 0 then opaque + (r * 2 ^ 16 + g * 2 ^ 8 + b) else inverted

module _ (dst_w mask_stride : ℕ) (masked_color : List ℕ) where
  unfoldable pub copy_pixel : ℕ → ℕ → Copied → Outcome Copied
  unfolding masked_pix write_to_prefix from_u32
  copy_pixel y x s = do
    let start = y * mask_stride + x * 4
    b ← unwrap (get_elem? masked_color start)
    g ← unwrap (get_elem? masked_color (start + 1))
    r ← unwrap (get_elem? masked_color (start + 2))
    mask ← unwrap (get_elem? masked_color (start + 3))
    pixels ← write_to_prefix (y * dst_w + x) (from_u32 (masked_pix b g r mask)) s.pixels
    ok (record { pixels = pixels; has_inverted = s.has_inverted || not (mask == 0) })

unfoldable pub write_masked_color : ℕ → List ℕ → ℕ → List ℕ → Outcome (List ℕ)
unfolding for_range copy_pixel resolve_inverted
write_masked_color dst_w masked_color mask_stride pixels = if mask_stride == 0 then panic else (do
  let w = mask_stride / 4
  let h = length masked_color / mask_stride
  s ←
      for_range h 0 (λ y. for_range w 0 (copy_pixel dst_w mask_stride masked_color y))
        (record { pixels = replicate (length pixels) 0; has_inverted = false })
  if s.has_inverted then resolve_inverted dst_w w h transparent s.pixels else ok s.pixels)
