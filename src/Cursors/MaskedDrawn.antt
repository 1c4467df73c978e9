-- ===== src/Cursors/MaskedDrawn.antt =====
-- `write_masked_color` draws the image of its colours.
use native.Mathlib.Nat.{suc-mul, mul-le-mul_right, div-mul-le_self}
use virtio_drivers_windows.Base.{
  ℕ, zero, suc, ◌+◌, ◌*◌, ◌/◌, ◌^◌, ◌<◌, ◌≤◌, ◌≡◌, refl, false, not, List, [], ◌∷◌, arith, length,
  if◌then◌else◌, ◌==◌, ◌||◌, Yields, Yields-bind, Yields-map, for_range, ◌∙◌, subst, replicate,
  Bool-cases, inl, inr,
}
use virtio_drivers_windows.Cursors.Pixels.{from_u32, write_to_prefix, inverted, opaque, transparent}
use virtio_drivers_windows.Cursors.Images.{Image, in_grid, byte_at, masked_image}
use virtio_drivers_windows.Cursors.Masked.{Copied, masked_pix, copy_pixel, write_masked_color}
use virtio_drivers_windows.Cursors.Shown.{Between, Between-write, Between-skip}
use virtio_drivers_windows.Cursors.Passes.{IsBounded, index-lt, columns-Yields, rows-Yields}
use virtio_drivers_windows.Cursors.Outlined.{outlined, settled}
use virtio_drivers_windows.Cursors.Drawn.{
  Shows, blank, Flagged, Flagged-step, Flagged-skip, finish-Shows, blank-Between,
}
use virtio_drivers_windows.Cursors.MonoPlain.{get_elem?-byte_at, in_grid-lt}

-- The elements of a `[u8]`.
abbrev pub AreBytes : List ℕ → Type 0
AreBytes [] = Unit {0}
AreBytes (b ∷ bs) = (b < 256) × AreBytes bs

pub byte_at-lt : (bs : List ℕ) (i : ℕ) → AreBytes bs → byte_at bs i < 256
unfolding byte_at
byte_at-lt [] i a = omega arith
byte_at-lt (b ∷ bs) zero a = a.0
byte_at-lt (b ∷ bs) (suc i) a = byte_at-lt bs i a.1

masked_pix-lt : (b g r m : ℕ) → b < 256 → g < 256 → r < 256 → masked_pix b g r m < 2 ^ 32
unfolding masked_pix
masked_pix-lt b g r m p q s = ground arith

masked_pix-inverted : (b g r m : ℕ) → (masked_pix b g r m == inverted) ≡ not (m == 0)
unfolding masked_pix
masked_pix-inverted b g r m = ground arith

-- No pixel is transparent, so none is outlined.
masked_pix-settled :
    (b g r m other : ℕ)
    → (if (if masked_pix b g r m == transparent then other else masked_pix b g r m) == inverted
        then transparent
        else (if masked_pix b g r m == transparent then other else masked_pix b g r m))
      ≡ (if m == 0 then opaque + (r * 2 ^ 16 + g * 2 ^ 8 + b) else transparent)
unfolding masked_pix
masked_pix-settled b g r m other = ground arith

module _ (d n stride : ℕ) (colours : List ℕ) (pos : 0 < d) (wide : stride / 4 ≤ d)
    (fits : length colours / stride * d ≤ n) (bytes : AreBytes colours) where
  abbrev w : ℕ
  w = stride / 4

  abbrev h : ℕ
  h = length colours / stride

  -- Part `i` of a pixel: blue, green, red, mask.
  abbrev part : ℕ → ℕ → ℕ → ℕ
  part i x y = byte_at colours (y * stride + x * 4 + i)

  abbrev pixel : ℕ → ℕ → ℕ
  pixel x y =
      masked_pix (byte_at colours (y * stride + x * 4)) (part 1 x y) (part 2 x y) (part 3 x y)

  copied : Image
  copied x y = if in_grid w h x y then pixel x y else 0

  copied_inside : (x y : ℕ) → x < w → y < h → copied x y ≡ pixel x y
  unfolding copied
  copied_inside x y p q = ground arith

  copied_outside : (x y : ℕ) → in_grid w h x y ≡ false → copied x y ≡ 0
  unfolding copied
  copied_outside x y e = rw e refl

  copied-IsBounded : IsBounded copied
  unfolding copied
  copied-IsBounded x y = ground (
    arith,
    masked_pix-lt (byte_at colours (y * stride + x * 4)) (part 1 x y) (part 2 x y) (part 3 x y)
        (byte_at-lt colours (y * stride + x * 4) bytes)
        (byte_at-lt colours (y * stride + x * 4 + 1) bytes)
        (byte_at-lt colours (y * stride + x * 4 + 2) bytes),
  )

  copied-masked_image :
      (x y : ℕ)
      → settled w h transparent (outlined w h copied) x y ≡ masked_image stride colours x y
  unfolding settled outlined masked_image
  copied-masked_image x y = elim (Bool-cases (in_grid w h x y)) [
    | inl e ↦
        let (p, q) = in_grid-lt w h x y e in
        rw (e, copied_inside x y p q)
          (masked_pix-settled (byte_at colours (y * stride + x * 4)) (part 1 x y) (part 2 x y)
            (part 3 x y) _)
    | inr e ↦ rw e (copied_outside x y e)
  ]

  index-lt-length : (x y : ℕ) → x < w → y < h → y * stride + x * 4 + 3 < length colours
  index-lt-length x y p q = omega (
    arith,
    div-mul-le_self (length colours) stride,
    suc-mul y stride,
    mul-le-mul_right {m = suc y} {n = h} stride q,
  )

  record Copying (bound : ℕ) (s : Copied) : Type 0 where
    shows : Between d pos n copied blank bound s.pixels
    flagged : Flagged d n w h pos wide fits copied s.has_inverted bound

  outside_row : (i j : ℕ) → w ≤ i → copied i j ≡ 0
  outside_row i j l = copied_outside i j (ground arith)

  below : (i j : ℕ) → h ≤ j → copied i j ≡ 0
  below i j l = copied_outside i j (ground arith)

  copy_pixel-Copying :
      (x y : ℕ) (s : Copied)
      → x < w
      → y < h
      → Copying (y * d + x) s
      → Yields (Copying (suc (y * d + x))) (copy_pixel d stride colours y x s)
  unfolding copy_pixel
  copy_pixel-Copying x y s p q c =
      rw
        (
          get_elem?-byte_at colours (y * stride + x * 4) (omega (arith, index-lt-length x y p q)),
          get_elem?-byte_at colours (y * stride + x * 4 + 1)
              (omega (arith, index-lt-length x y p q)),
          get_elem?-byte_at colours (y * stride + x * 4 + 2)
              (omega (arith, index-lt-length x y p q)),
          get_elem?-byte_at colours (y * stride + x * 4 + 3) (index-lt-length x y p q),
        )
        (Yields-bind (Between d pos n copied blank (suc (y * d + x))) (Copying (suc (y * d + x)))
          (write_to_prefix (y * d + x) (from_u32 (pixel x y)) s.pixels) _
          (subst
            (λ v.
              Yields (Between d pos n copied blank (suc (y * d + x)))
                (write_to_prefix (y * d + x) (from_u32 v) s.pixels))
            (copied_inside x y p q)
            (Between-write d pos n copied blank x y s.pixels (omega arith)
              (index-lt d n w h pos wide fits x y p q) c.shows))
          λ qs v. record {
            shows = v;
            flagged =
                Flagged-step d n w h pos wide fits copied s.has_inverted
                  (s.has_inverted || not (part 3 x y == 0)) x y (omega arith) (λ e. ground arith)
                  (λ e. rw (copied_inside x y p q) (
                    masked_pix-inverted (byte_at colours (y * stride + x * 4)) (part 1 x y)
                      (part 2 x y) (part 3 x y)
                    ∙ ground arith))
                  c.flagged;
          })

  row-Copying :
      (y : ℕ) (s : Copied)
      → y < h
      → Copying (y * d) s
      → Yields (Copying (suc y * d)) (for_range w 0 (copy_pixel d stride colours y) s)
  row-Copying y s q c =
      Yields-map (Copying (y * d + w)) (Copying (suc y * d))
        (for_range w 0 (copy_pixel d stride colours y) s)
        (columns-Yields d n w h pos wide fits Copying y (copy_pixel d stride colours y) s
          (λ x t p. copy_pixel-Copying x y t p q) c)
        λ t b. record {
          shows = Between-skip d pos n copied blank w y t.pixels wide outside_row b.shows;
          flagged =
              Flagged-skip d n w h pos wide fits copied t.has_inverted y outside_row b.flagged;
        }

-- With room for the shape, the pixels read back as the image of the colours.
pub write_masked_color-Shows :
    (d n stride : ℕ) (colours pixels : List ℕ)
    → 0 < d
    → 0 < stride
    → stride / 4 ≤ d
    → length colours / stride * d ≤ n
    → AreBytes colours
    → length pixels ≡ n * 4
    → Yields (Shows d n (masked_image stride colours)) (write_masked_color d colours stride pixels)
unfolding write_masked_color
write_masked_color-Shows d n stride colours pixels pos some_stride wide fits bytes e =
    let none_zero : (stride == 0) ≡ false = ground arith in
    rw none_zero (
      Yields-bind (Copying d n stride colours pos wide fits bytes (length colours / stride * d))
        (Shows d n (masked_image stride colours)) _ _
        (rows-Yields d n (stride / 4) (length colours / stride) pos wide fits
          (Copying d n stride colours pos wide fits bytes)
          (λ y. for_range (stride / 4) 0 (copy_pixel d stride colours y))
          (record { pixels = replicate (length pixels) 0; has_inverted = false })
          (row-Copying d n stride colours pos wide fits bytes)
          (record {
            shows = blank-Between d n pos (copied d n stride colours pos wide fits bytes) pixels e;
            flagged = λ f k l. absurd (omega arith);
          }))
        λ s c.
          finish-Shows d n (stride / 4) (length colours / stride) pos wide fits
            (copied d n stride colours pos wide fits bytes) (masked_image stride colours)
            transparent (omega arith) (copied-IsBounded d n stride colours pos wide fits bytes)
            (copied-masked_image d n stride colours pos wide fits bytes) s.has_inverted s.pixels
            c.flagged c.shows (below d n stride colours pos wide fits bytes))
