-- ===== src/Cursors/Pixels.antt =====
-- `BGRA`, and the pixels in the bytes of a framebuffer.
use virtio_drivers_windows.Base.{
  ℕ, zero, suc, ◌+◌, ◌*◌, ◌/◌, ◌%◌, ◌^◌, Bool, false, true, List, ◌∷◌, Outcome, ok, panic, ◌>>=◌,
  if◌then◌else◌, ltb, ◌==◌, ◌-◌,
}

-- The fields in the order of the struct, which is that of the bytes.
pub record Bgra : Type 0 where
  pub b : ℕ
  pub r : ℕ
  pub g : ℕ
  pub a : ℕ

-- `From<u32>` and `Into<u32>`: the shifts, with the bytes apart.
unfoldable pub from_u32 : ℕ → Bgra
from_u32 pix = record {
  b = pix % 256;
  g = pix / 2 ^ 8 % 256;
  r = pix / 2 ^ 16 % 256;
  a = pix / 2 ^ 24 % 256;
}

unfoldable pub into_u32 : Bgra → ℕ
into_u32 p = p.a * 2 ^ 24 + p.r * 2 ^ 16 + p.g * 2 ^ 8 + p.b

abbrev pub bytes_before : Bgra → List ℕ → List ℕ
bytes_before p rest = p.b ∷ p.r ∷ p.g ∷ p.a ∷ rest

-- A pixel and what follows it: `read_from_prefix` with the `unwrap` behind it.
abbrev pub first_pixel : List ℕ → Outcome (Bgra × List ℕ)
first_pixel (b ∷ r ∷ g ∷ a ∷ rest) = ok (record { b = b; r = r; g = g; a = a }, rest)
first_pixel _ = panic

-- The pixel that starts at byte `index * 4`.
unfoldable pub pixel_at : ℕ → List ℕ → Outcome Bgra
pixel_at zero bytes = do (p, rest) ← first_pixel bytes; ok p
pixel_at (suc index) bytes = do (q, rest) ← first_pixel bytes; pixel_at index rest

-- `BGRA::read_from_prefix_into_u32(&pixels[index * 4..])`.
unfoldable pub read_from_prefix_into_u32 : ℕ → List ℕ → Outcome ℕ
unfolding pixel_at into_u32
read_from_prefix_into_u32 index bytes = do p ← pixel_at index bytes; ok (into_u32 p)

-- `write_to_prefix(&mut pixels[index * 4..])`, with its `unwrap`.
unfoldable pub write_to_prefix : ℕ → Bgra → List ℕ → Outcome (List ℕ)
write_to_prefix zero p bytes = do (q, rest) ← first_pixel bytes; ok (bytes_before p rest)
write_to_prefix (suc index) p bytes = do
  (q, rest) ← first_pixel bytes
  rest' ← write_to_prefix index p rest
  ok (bytes_before q rest')

-- `BACKGROUND` and the other constants of `Cursor`.
abbrev pub background : ℕ
background = 0

abbrev pub foreground : ℕ
foreground = 0x00FFFFFF

abbrev pub transparent : ℕ
transparent = 0

abbrev pub opaque : ℕ
opaque = 0xFF000000

abbrev pub inverted : ℕ
inverted = 0x80000000

-- `||` of conditions that may panic: the second is only looked at if the first is false.
abbrev pub or_else : Outcome Bool → Outcome Bool → Outcome Bool
or_else o p = o >>= λ b. if b then ok true else p

-- The two loops that both writers of masks have where a pixel is inverted: the transparent pixels
-- beside one that is inverted become black, and then the inverted ones such a pixel.
module _ (dst_w w h : ℕ) where
  unfoldable pub is_inverted_at : Bool → ℕ → List ℕ → Outcome Bool
  unfolding read_from_prefix_into_u32
  is_inverted_at inside index pixels =
      if inside
      then (read_from_prefix_into_u32 index pixels >>= λ v. ok (v == inverted))
      else ok false

  unfoldable pub has_inverted_neighbor : ℕ → ℕ → List ℕ → Outcome Bool
  unfolding is_inverted_at
  has_inverted_neighbor y x pixels =
      let index = y * dst_w + x in
      or_else (is_inverted_at (ltb 0 x) (index - 1) pixels) (
        or_else (is_inverted_at (ltb (x + 1) w) (index + 1) pixels) (
          or_else (is_inverted_at (ltb 0 y) (index - dst_w) pixels)
            (is_inverted_at (ltb (y + 1) h) (index + dst_w) pixels)))

  unfoldable pub outline : ℕ → ℕ → List ℕ → Outcome (List ℕ)
  unfolding has_inverted_neighbor write_to_prefix from_u32
  outline y x pixels = do
    v ← read_from_prefix_into_u32 (y * dst_w + x) pixels
    if v == transparent
        then (do
          near ← has_inverted_neighbor y x pixels
          if near
              then write_to_prefix (y * dst_w + x) (from_u32 (opaque + background)) pixels
              else ok pixels)
        else ok pixels

unfoldable pub replace_inverted : ℕ → ℕ → ℕ → ℕ → List ℕ → Outcome (List ℕ)
unfolding read_from_prefix_into_u32 write_to_prefix from_u32
replace_inverted dst_w pix y x pixels = do
  v ← read_from_prefix_into_u32 (y * dst_w + x) pixels
  if v == inverted then write_to_prefix (y * dst_w + x) (from_u32 pix) pixels else ok pixels
