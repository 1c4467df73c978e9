-- ===== src/Cursors/MonoDrawn.antt =====
-- `write_mono` draws the image of its masks.
use virtio_drivers_windows.Base.{
  ℕ, suc, ◌+◌, ◌*◌, ◌/◌, ◌<◌, ◌≤◌, ◌≡◌, refl, Bool, true, false, List, arith, length, ◌==◌, ◌&&◌,
  ◌||◌, Yields, Yields-bind, Yields-map, for_range, for_range-Yields, ap, sym, ◌∙◌, subst,
  replicate,
}
use virtio_drivers_windows.Cursors.Pixels.{from_u32, write_to_prefix, inverted, opaque, foreground}
use virtio_drivers_windows.Cursors.Images.{Image, bit_at, byte_at, mono_image}
use virtio_drivers_windows.Cursors.Mono.{
  Scan, mono_pix, bit_set, next_bit, scan_pixel, scan_row, write_mono,
}
use virtio_drivers_windows.Cursors.Shown.{Between, Between-write, Between-skip}
use virtio_drivers_windows.Cursors.Passes.{index-lt, rows-Yields}
use virtio_drivers_windows.Cursors.Drawn.{
  Shows, blank, Flagged, Flagged-step, Flagged-skip, finish-Shows, blank-Between,
}
use virtio_drivers_windows.Cursors.MonoPlain.{
  and_mask, xor_mask, plain, and_byte, xor_byte, plain-IsBounded, plain_inside, plain_outside,
  plain-mono_image, column_bit, next_bit-column_bit,
}

not_inverted : (flag a b : Bool) → (flag || (a && b)) ≡ false → (mono_pix a b == inverted) ≡ false
unfolding mono_pix
not_inverted true a b e = cc
not_inverted false true true e = cc
not_inverted false true false e = refl
not_inverted false false true e = refl
not_inverted false false false e = refl

or-is_false : (a b : Bool) → (a || b) ≡ false → a ≡ false
or-is_false true b e = e
or-is_false false b e = refl

bit_set-bit_at :
    (stride : ℕ) (m : List ℕ) (x y bit : ℕ)
    → bit ≡ column_bit x
    → bit_at stride m x y ≡ bit_set (byte_at m (y * stride + x / 8)) bit
unfolding bit_at
bit_set-bit_at stride m x y bit b = ap (λ t. bit_set (byte_at m (y * stride + x / 8)) t) (sym b)

module _ (d n stride : ℕ) (mask : List ℕ) (pos : 0 < d) (wide : stride * 8 ≤ d)
    (fits : length mask / (stride * 2) * d ≤ n) where
  abbrev width : ℕ
  width = stride * 8

  abbrev height : ℕ
  height = length mask / (stride * 2)

  abbrev drawn : Image
  drawn = plain d n stride mask pos wide fits

  abbrev ands : List ℕ
  ands = and_mask d n stride mask pos wide fits

  abbrev xors : List ℕ
  xors = xor_mask d n stride mask pos wide fits

  -- The state of the loop at some index: what is drawn, and whether a pixel is inverted.
  record Scanning (bound : ℕ) (s : Scan) : Type 0 where
    shows : Between d pos n drawn blank bound s.pixels
    flagged : Flagged d n width height pos wide fits drawn s.has_inverted bound

  flag-or :
      (x y : ℕ) (flag : Bool)
      → x < width
      → y < height
      → Flagged d n width height pos wide fits drawn flag (y * d + x)
      → Flagged d n width height pos wide fits drawn
          (flag || (bit_at stride ands x y && bit_at stride xors x y))
          (suc (y * d + x))
  flag-or x y flag p q f =
      Flagged-step d n width height pos wide fits drawn flag
        (flag || (bit_at stride ands x y && bit_at stride xors x y)) x y (omega arith)
        (or-is_false flag (bit_at stride ands x y && bit_at stride xors x y))
        (λ e.
          rw (plain_inside d n stride mask pos wide fits x y p q)
            (not_inverted flag (bit_at stride ands x y) (bit_at stride xors x y) e))
        f

  scan_pixel-Scanning :
      (x y : ℕ) (s : Scan)
      → x < width
      → y < height
      → s.bit ≡ column_bit x
      → Scanning (y * d + x) s
      → Yields
          (λ t. (t.bit ≡ column_bit (suc x)) × Scanning (suc (y * d + x)) t)
          (scan_pixel d stride ands xors y x s)
  unfolding scan_pixel
  scan_pixel-Scanning x y s p q b c =
      rw
        (
          and_byte d n stride mask pos wide fits x y p q,
          xor_byte d n stride mask pos wide fits x y p q,
        )
        (Yields-bind (Between d pos n drawn blank (suc (y * d + x)))
          (λ t. (t.bit ≡ column_bit (suc x)) × Scanning (suc (y * d + x)) t)
          (write_to_prefix (y * d + x)
            (from_u32 (
              mono_pix (bit_set (byte_at ands (y * stride + x / 8)) s.bit)
                (bit_set (byte_at xors (y * stride + x / 8)) s.bit)))
            s.pixels)
          _
          (subst
            (λ v.
              Yields (Between d pos n drawn blank (suc (y * d + x)))
                (write_to_prefix (y * d + x) (from_u32 v) s.pixels))
            (plain_inside d n stride mask pos wide fits x y p q
              ∙ rw (bit_set-bit_at stride ands x y s.bit b, bit_set-bit_at stride xors x y s.bit b)
                  refl)
            (Between-write d pos n drawn blank x y s.pixels (omega arith)
              (index-lt d n width height pos wide fits x y p q) c.shows))
          λ qs v. (
            ap next_bit b ∙ next_bit-column_bit x,
            record {
              shows = v;
              flagged =
                  subst
                    (λ a.
                      Flagged d n width height pos wide fits drawn (s.has_inverted || a)
                        (suc (y * d + x)))
                    (rw
                      (
                        bit_set-bit_at stride ands x y s.bit b,
                        bit_set-bit_at stride xors x y s.bit b,
                      )
                      refl)
                    (flag-or x y s.has_inverted p q c.flagged);
            },
          ))

  outside_row : (i j : ℕ) → width ≤ i → drawn i j ≡ 0
  outside_row i j l = plain_outside d n stride mask pos wide fits i j (ground arith)

  below : (i j : ℕ) → height ≤ j → drawn i j ≡ 0
  below i j l = plain_outside d n stride mask pos wide fits i j (ground arith)

  -- Between a row and the next one there is nothing to draw.
  row_end : (y : ℕ) (s : Scan) → Scanning (y * d + width) s → Scanning (suc y * d) s
  row_end y s c = record {
    shows = Between-skip d pos n drawn blank width y s.pixels wide outside_row c.shows;
    flagged =
        Flagged-skip d n width height pos wide fits drawn s.has_inverted y outside_row c.flagged;
  }

  scan_row-Scanning :
      (y : ℕ) (s : Scan)
      → y < height
      → Scanning (y * d) s
      → Yields (Scanning (suc y * d)) (scan_row d stride ands xors width y s)
  unfolding scan_row
  scan_row-Scanning y s q c =
      Yields-map (λ t. (t.bit ≡ column_bit width) × Scanning (y * d + width) t)
        (Scanning (suc y * d))
        (for_range width 0 (scan_pixel d stride ands xors y) (record s { bit = 0x80 }))
        (for_range-Yields (λ x t. (t.bit ≡ column_bit x) × Scanning (y * d + x) t)
          (scan_pixel d stride ands xors y) width 0 width (record s { bit = 0x80 }) (omega arith)
          (λ x t u p b.
            subst
              (λ i.
                Yields (λ r. (r.bit ≡ column_bit (suc x)) × Scanning i r)
                  (scan_pixel d stride ands xors y x t))
              (omega arith) (scan_pixel-Scanning x y t p q b.0 b.1))
          (
            refl,
            subst (λ i. Scanning i (record s { bit = 0x80 })) (omega arith)
                (record { shows = c.shows; flagged = c.flagged }),
          ))
        (λ t b. row_end y t b.1)

  zeros :
      (ps : List ℕ)
      → length ps ≡ n * 4
      → Scanning 0 (record { pixels = replicate (length ps) 0; has_inverted = false; bit = 0x80 })
  zeros ps e = record {
    shows = blank-Between d n pos drawn ps e;
    flagged = λ e k l. absurd (omega arith);
  }

-- The framebuffer has `n` pixels, `d` in a row, and room for the shape that the two masks of
-- `stride` bytes a row give. Then the bytes that were there do not matter, no step panics, and each
-- pixel is that of the image of the masks. Inside the shape it is white where the XOR mask is set and
-- black where neither mask is; where the AND mask alone is set it is black if a pixel of the shape
-- beside it has both, and transparent otherwise. Outside the shape it is transparent.
pub write_mono-Shows :
    (d n stride : ℕ) (mask pixels : List ℕ)
    → 0 < stride
    → stride * 8 ≤ d
    → length mask / (stride * 2) * d ≤ n
    → length pixels ≡ n * 4
    → Yields (Shows d n (mono_image stride mask)) (write_mono d mask stride pixels)
unfolding write_mono
write_mono-Shows d n stride mask pixels some_stride wide fits e =
    let pos : 0 < d = omega arith in
    let none_zero : (stride == 0) ≡ false = ground arith in
    rw none_zero (
      Yields-bind (Scanning d n stride mask pos wide fits (length mask / (stride * 2) * d))
        (Shows d n (mono_image stride mask)) _ _
        (rows-Yields d n (stride * 8) (length mask / (stride * 2)) pos wide fits
          (Scanning d n stride mask pos wide fits)
          (scan_row d stride (ands d n stride mask pos wide fits)
            (xors d n stride mask pos wide fits) (stride * 8))
          (record { pixels = replicate (length pixels) 0; has_inverted = false; bit = 0x80 })
          (scan_row-Scanning d n stride mask pos wide fits)
          (zeros d n stride mask pos wide fits pixels e))
        λ s c.
          finish-Shows d n (stride * 8) (length mask / (stride * 2)) pos wide fits
            (drawn d n stride mask pos wide fits) (mono_image stride mask) (opaque + foreground)
            (omega arith) (plain-IsBounded d n stride mask pos wide fits)
            (plain-mono_image d n stride mask pos wide fits) s.has_inverted s.pixels c.flagged
            c.shows (below d n stride mask pos wide fits))
