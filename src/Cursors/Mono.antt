-- ===== src/Cursors/Mono.antt =====
-- `Cursor::write_mono`: a cursor of two masks with one bit for each pixel.
use Prim.Native.Nat.{bit_and}
use virtio_drivers_windows.Base.{
  ℕ, ◌+◌, ◌*◌, ◌/◌, Bool, true, false, not, List, length, take, drop, get_elem?, replicate, Outcome,
  ok, panic, unwrap, ◌>>=◌, for_range, ◌==◌, if◌then◌else◌, ◌&&◌, ◌||◌,
}
use virtio_drivers_windows.Cursors.Pixels.{
  from_u32, write_to_prefix, transparent, opaque, inverted, background, foreground, outline,
  replace_inverted,
}

-- What the loop over the masks changes; `bit` is that of the current row.
pub record Scan : Type 0 where
  pub pixels : List ℕ
  pub has_inverted : Bool
  pub bit : ℕ

-- The value of a pixel, by its bits; the bits of the two parts of a sum are apart.
unfoldable pub mono_pix : Bool → Bool → ℕ
mono_pix true true = inverted
mono_pix true false = transparent
mono_pix false true = opaque + foreground
mono_pix false false = opaque + background

abbrev pub bit_set : ℕ → ℕ → Bool
bit_set byte bit = not (bit_and byte bit == 0)

-- `bit >>= 1`, and back to the highest one behind the lowest.
unfoldable pub next_bit : ℕ → ℕ
next_bit bit = if bit / 2 == 0 then 0x80 else bit / 2

module _ (dst_w mask_stride : ℕ) (and_mask xor_mask : List ℕ) where
  unfoldable pub scan_pixel : ℕ → ℕ → Scan → Outcome Scan
  unfolding mono_pix next_bit write_to_prefix from_u32
  scan_pixel y x s = do
    let byte_idx = y * mask_stride + x / 8
    and_byte ← unwrap (get_elem? and_mask byte_idx)
    xor_byte ← unwrap (get_elem? xor_mask byte_idx)
    let and = bit_set and_byte s.bit
    let xor = bit_set xor_byte s.bit
    pixels ← write_to_prefix (y * dst_w + x) (from_u32 (mono_pix and xor)) s.pixels
    ok (record {
      pixels = pixels;
      has_inverted = s.has_inverted || (and && xor);
      bit = next_bit s.bit;
    })

  unfoldable pub scan_row : ℕ → ℕ → Scan → Outcome Scan
  unfolding for_range scan_pixel
  scan_row w y s = for_range w 0 (scan_pixel y) (record s { bit = 0x80 })

-- The loops over the pixels behind `has_inverted`.
unfoldable pub resolve_inverted : ℕ → ℕ → ℕ → ℕ → List ℕ → Outcome (List ℕ)
unfolding for_range outline replace_inverted
resolve_inverted dst_w w h pix pixels = do
  outlined ← for_range h 0 (λ y. for_range w 0 (outline dst_w w h y)) pixels
  for_range h 0 (λ y. for_range w 0 (replace_inverted dst_w pix y)) outlined

-- The pixels of the framebuffer and its width are taken from the cursor.
unfoldable pub write_mono : ℕ → List ℕ → ℕ → List ℕ → Outcome (List ℕ)
unfolding scan_row resolve_inverted
write_mono dst_w mask mask_stride pixels = if mask_stride == 0 then panic else (do
  let w = mask_stride * 8
  let h = length mask / (mask_stride * 2)
  let and_mask = take (length mask / 2) mask
  let xor_mask = drop (length mask / 2) mask
  s ←
      for_range h 0 (scan_row dst_w mask_stride and_mask xor_mask w)
        (record { pixels = replicate (length pixels) 0; has_inverted = false; bit = 0x80 })
  if s.has_inverted then resolve_inverted dst_w w h (opaque + foreground) s.pixels else ok s.pixels)
