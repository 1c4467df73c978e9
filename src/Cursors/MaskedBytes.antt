-- ===== src/Cursors/MaskedBytes.antt =====
-- The bytes that `Cursor::write_masked_color` of gpu-wddm/src/vidpn.rs leaves for the device.
use virtio_drivers_windows.Base.{
  ℕ, zero, suc, ◌+◌, ◌*◌, ◌/◌, ◌%◌, ◌^◌, ◌<◌, ◌≤◌, ◌≡◌, refl, not, List, [], ◌∷◌, ok, arith, length,
  if◌then◌else◌, ◌==◌, Yields, Yields-map, ◌∙◌, Bool-cases, inl, inr,
}
use virtio_drivers_windows.Cursors.Pixels.{Bgra, from_u32, pixel_at}
use virtio_drivers_windows.Cursors.Images.{in_grid, byte_at, masked_image}
use virtio_drivers_windows.Cursors.Masked.{write_masked_color}
use virtio_drivers_windows.Cursors.Drawn.{Shows}
use virtio_drivers_windows.Cursors.MaskedDrawn.{AreBytes, byte_at-lt, write_masked_color-Shows}

-- The bytes of a pixel, in their order.
abbrev pub four_bytes : List ℕ → ℕ → List ℕ
four_bytes ps k =
    byte_at ps (k * 4)
    ∷ byte_at ps (k * 4 + 1)
    ∷ byte_at ps (k * 4 + 2)
    ∷ byte_at ps (k * 4 + 3)
    ∷ []

skip_pixel :
    (b r g a : ℕ) (rest : List ℕ) (i j : ℕ)
    → i ≡ suc (suc (suc (suc j)))
    → byte_at (b ∷ r ∷ g ∷ a ∷ rest) i ≡ byte_at rest j
unfolding byte_at
skip_pixel b r g a rest i j e = rw e refl

pixel_at-bytes :
    (k : ℕ) (ps : List ℕ) (p : Bgra)
    → pixel_at k ps ≡ ok p
    → four_bytes ps k ≡ p.b ∷ p.r ∷ p.g ∷ p.a ∷ []
unfolding pixel_at byte_at
pixel_at-bytes zero [] p e = absurd (cc)
pixel_at-bytes zero (b ∷ []) p e = absurd (cc)
pixel_at-bytes zero (b ∷ r ∷ []) p e = absurd (cc)
pixel_at-bytes zero (b ∷ r ∷ g ∷ []) p e = absurd (cc)
pixel_at-bytes zero (b ∷ r ∷ g ∷ a ∷ rest) p e = cc
pixel_at-bytes (suc k) [] p e = absurd (cc)
pixel_at-bytes (suc k) (b ∷ []) p e = absurd (cc)
pixel_at-bytes (suc k) (b ∷ r ∷ []) p e = absurd (cc)
pixel_at-bytes (suc k) (b ∷ r ∷ g ∷ []) p e = absurd (cc)
pixel_at-bytes (suc k) (b ∷ r ∷ g ∷ a ∷ rest) p e =
    rw
      (
        skip_pixel b r g a rest (suc k * 4) (k * 4) (omega arith),
        skip_pixel b r g a rest (suc k * 4 + 1) (k * 4 + 1) (omega arith),
        skip_pixel b r g a rest (suc k * 4 + 2) (k * 4 + 2) (omega arith),
        skip_pixel b r g a rest (suc k * 4 + 3) (k * 4 + 3) (omega arith),
      )
      (pixel_at-bytes k rest p e)

-- Blue, red, green and an opaque alpha of a pixel of the shape whose mask byte is 0, which have their
-- blue, green and red in this order, and four zeros for any other pixel.
abbrev pub masked_bytes : ℕ → List ℕ → ℕ → ℕ → List ℕ
masked_bytes stride colours x y =
    let start = y * stride + x * 4 in
    if not (in_grid (stride / 4) (length colours / stride) x y)
    then 0 ∷ 0 ∷ 0 ∷ 0 ∷ []
    else if byte_at colours (start + 3) == 0
    then byte_at colours start
      ∷ byte_at colours (start + 2)
      ∷ byte_at colours (start + 1)
      ∷ 255
      ∷ []
    else 0 ∷ 0 ∷ 0 ∷ 0 ∷ []

abbrev parts : ℕ → List ℕ
parts v = v % 256 ∷ v / 2 ^ 16 % 256 ∷ v / 2 ^ 8 % 256 ∷ v / 2 ^ 24 % 256 ∷ []

parts-colour :
    (b g r : ℕ)
    → b < 256
    → g < 256
    → r < 256
    → parts (0xFF000000 + (r * 2 ^ 16 + g * 2 ^ 8 + b)) ≡ b ∷ r ∷ g ∷ 255 ∷ []
parts-colour b g r p q s = ground arith

parts-masked_image :
    (stride : ℕ) (colours : List ℕ) (x y : ℕ)
    → AreBytes colours
    → parts (masked_image stride colours x y) ≡ masked_bytes stride colours x y
unfolding masked_image
parts-masked_image stride colours x y a =
    let start = y * stride + x * 4 in
    elim (Bool-cases (in_grid (stride / 4) (length colours / stride) x y)) [
      | inr e ↦ rw e refl
      | inl e ↦ rw e (elim (Bool-cases (byte_at colours (start + 3) == 0)) [
        | inr f ↦ rw f refl
        | inl f ↦ rw f (
            parts-colour (byte_at colours start) (byte_at colours (start + 1))
              (byte_at colours (start + 2)) (byte_at-lt colours start a)
              (byte_at-lt colours (start + 1) a) (byte_at-lt colours (start + 2) a))
      ])
    ]

-- A framebuffer of `n` pixels, `d` in a row, with the bytes of the masked shape.
pub record Painted (d n stride : ℕ) (colours ps : List ℕ) : Type 0 where
  pub bytes : length ps ≡ n * 4
  pub painted : (k : ℕ) → k < n → four_bytes ps k ≡ masked_bytes stride colours (k % d) (k / d)

-- The framebuffer has `n` pixels of four bytes, `d` in a row, and room for the shape, of `stride` bytes
-- a row and four bytes a pixel: blue, green, red and the mask. Then the bytes that were there do not
-- matter, no step panics, and each pixel inside the shape whose mask byte is 0 gets the bytes blue,
-- red, green and 255, in this order, and every other pixel four zeros.
pub write_masked_color-Painted :
    (d n stride : ℕ) (colours pixels : List ℕ)
    → 0 < d
    → 0 < stride
    → stride / 4 ≤ d
    → length colours / stride * d ≤ n
    → AreBytes colours
    → length pixels ≡ n * 4
    → Yields (Painted d n stride colours) (write_masked_color d colours stride pixels)
unfolding from_u32
write_masked_color-Painted d n stride colours pixels pos some_stride wide fits bytes e =
    Yields-map (Shows d n (masked_image stride colours)) (Painted d n stride colours)
      (write_masked_color d colours stride pixels)
      (write_masked_color-Shows d n stride colours pixels pos some_stride wide fits bytes e)
      λ ps s. record {
        bytes = s.bytes;
        painted = λ k l.
            pixel_at-bytes k ps (from_u32 (masked_image stride colours (k % d) (k / d)))
              (s.pixels k l)
            ∙ parts-masked_image stride colours (k % d) (k / d) bytes;
      }
