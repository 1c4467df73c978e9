-- ===== src/Cursors/MonoPlain.antt =====
-- The image that the first loop of `write_mono` draws, with pixels that are inverted.
use native.Mathlib.Nat.{suc-mul, mul-le-mul_right, div-mul-le_self, mul_assoc}
use virtio_drivers_windows.Base.{
  ℕ, zero, suc, ◌+◌, ◌-◌, ◌*◌, ◌/◌, ◌%◌, ◌^◌, ◌<◌, ◌≤◌, ◌≡◌, refl, Bool, true, false, not, List, [],
  ◌∷◌, arith, length, length-take, length-drop, if◌then◌else◌, ltb, ltb→lt, ◌==◌, ◌&&◌, ap, ◌∙◌,
  Bool-cases, inl, inr, get_elem?, some, take, drop,
}
use virtio_drivers_windows.Cursors.Pixels.{inverted, transparent, opaque, foreground, background}
use virtio_drivers_windows.Cursors.Images.{Image, in_grid, beside, byte_at, bit_at, mono_image}
use virtio_drivers_windows.Cursors.Mono.{mono_pix, next_bit}
use virtio_drivers_windows.Cursors.Passes.{IsBounded}
use virtio_drivers_windows.Cursors.Outlined.{outlined, settled}

pub get_elem?-byte_at : (xs : List ℕ) (i : ℕ) → i < length xs → get_elem? xs i ≡ some (byte_at xs i)
unfolding byte_at
get_elem?-byte_at [] i l = absurd (omega arith)
get_elem?-byte_at (x ∷ xs) zero l = refl
get_elem?-byte_at (x ∷ xs) (suc i) l = get_elem?-byte_at xs i (omega arith)

-- The bit of a column.
abbrev pub column_bit : ℕ → ℕ
column_bit x = 2 ^ (7 - x % 8)

next_bit_table : (r : ℕ) → r < 8 → next_bit (2 ^ (7 - r)) ≡ 2 ^ (7 - suc r % 8)
unfolding next_bit
next_bit_table zero l = refl
next_bit_table (suc zero) l = refl
next_bit_table (suc (suc zero)) l = refl
next_bit_table (suc (suc (suc zero))) l = refl
next_bit_table (suc (suc (suc (suc zero)))) l = refl
next_bit_table (suc (suc (suc (suc (suc zero))))) l = refl
next_bit_table (suc (suc (suc (suc (suc (suc zero)))))) l = refl
next_bit_table (suc (suc (suc (suc (suc (suc (suc zero))))))) l = refl
next_bit_table (suc (suc (suc (suc (suc (suc (suc (suc r)))))))) l = absurd (omega arith)

pub next_bit-column_bit : (x : ℕ) → next_bit (column_bit x) ≡ column_bit (suc x)
next_bit-column_bit x = next_bit_table (x % 8) (omega arith) ∙ ap (λ r. 2 ^ (7 - r)) (omega arith)

and_congr : (a b c : Bool) → (a ≡ true → b ≡ c) → (a && b) ≡ (a && c)
and_congr true b c f = f refl
and_congr false b c f = refl

pub beside_congr :
    (w h x y : ℕ) (test test' : ℕ → ℕ → Bool)
    → x < w
    → y < h
    → ((i j : ℕ) → i < w → j < h → test i j ≡ test' i j)
    → beside w h test x y ≡ beside w h test' x y
unfolding beside
beside_congr w h x y test test' p q f =
    rw
      (
        and_congr (ltb 0 x) (test (x - 1) y) (test' (x - 1) y) (λ t. f (x - 1) y (omega arith) q),
        and_congr (ltb (x + 1) w) (test (x + 1) y) (test' (x + 1) y)
            (λ t. f (x + 1) y (ltb→lt (x + 1) w t) q),
        and_congr (ltb 0 y) (test x (y - 1)) (test' x (y - 1)) (λ t. f x (y - 1) p (omega arith)),
        and_congr (ltb (y + 1) h) (test x (y + 1)) (test' x (y + 1))
            (λ t. f x (y + 1) p (ltb→lt (y + 1) h t)),
      )
      refl

pub in_grid-lt : (w h x y : ℕ) → in_grid w h x y ≡ true → (x < w) × (y < h)
in_grid-lt w h x y e = ground arith

-- A pixel behind the two loops, by its bits and whether an inverted one is beside it.
resolved_pix :
    (a b near : Bool)
    → (if (if mono_pix a b == transparent
            then (if near then opaque + background else mono_pix a b)
            else mono_pix a b)
          == inverted
        then opaque + foreground
        else (if mono_pix a b == transparent
            then (if near then opaque + background else mono_pix a b)
            else mono_pix a b))
      ≡ (if b
          then opaque + foreground
          else if not a
          then opaque + background
          else if near
          then opaque + background
          else transparent)
unfolding mono_pix
resolved_pix true true near = refl
resolved_pix true false true = refl
resolved_pix true false false = refl
resolved_pix false true near = refl
resolved_pix false false near = refl

module _ (d n stride : ℕ) (mask : List ℕ) (pos : 0 < d) (wide : stride * 8 ≤ d)
    (fits : length mask / (stride * 2) * d ≤ n) where
  abbrev pub w : ℕ
  w = stride * 8

  abbrev pub h : ℕ
  h = length mask / (stride * 2)

  abbrev pub and_mask : List ℕ
  and_mask = take (length mask / 2) mask

  abbrev pub xor_mask : List ℕ
  xor_mask = drop (length mask / 2) mask

  unfoldable pub plain : Image
  plain x y =
      if in_grid w h x y
      then mono_pix (bit_at stride and_mask x y) (bit_at stride xor_mask x y)
      else 0

  rows_fit : h * stride ≤ length mask / 2
  rows_fit = omega (arith, div-mul-le_self (length mask) (stride * 2), mul_assoc h stride 2)

  byte_idx-lt : (x y : ℕ) → x < w → y < h → y * stride + x / 8 < length mask / 2
  byte_idx-lt x y p q =
      omega (arith, rows_fit, suc-mul y stride, mul-le-mul_right {m = suc y} {n = h} stride q)

  pub and_byte :
      (x y : ℕ)
      → x < w
      → y < h
      → get_elem? and_mask (y * stride + x / 8) ≡ some (byte_at and_mask (y * stride + x / 8))
  and_byte x y p q =
      get_elem?-byte_at and_mask (y * stride + x / 8)
        (ground (arith, length-take (length mask / 2) mask, byte_idx-lt x y p q))

  pub xor_byte :
      (x y : ℕ)
      → x < w
      → y < h
      → get_elem? xor_mask (y * stride + x / 8) ≡ some (byte_at xor_mask (y * stride + x / 8))
  xor_byte x y p q =
      get_elem?-byte_at xor_mask (y * stride + x / 8)
        (ground (arith, length-drop (length mask / 2) mask, byte_idx-lt x y p q))

  pub plain-IsBounded : IsBounded plain
  unfolding plain mono_pix
  plain-IsBounded x y = ground arith

  plain-inverted :
      (x y : ℕ)
      → x < w
      → y < h
      → (plain x y == inverted) ≡ (bit_at stride and_mask x y && bit_at stride xor_mask x y)
  unfolding plain mono_pix
  plain-inverted x y p q = ground arith

  pub plain_inside :
      (x y : ℕ)
      → x < w
      → y < h
      → plain x y ≡ mono_pix (bit_at stride and_mask x y) (bit_at stride xor_mask x y)
  unfolding plain
  plain_inside x y p q = ground arith

  pub plain_outside : (x y : ℕ) → in_grid w h x y ≡ false → plain x y ≡ 0
  unfolding plain
  plain_outside x y e = rw e refl

  pub plain-mono_image :
      (x y : ℕ)
      → settled w h (opaque + foreground) (outlined w h plain) x y ≡ mono_image stride mask x y
  unfolding settled outlined mono_image
  plain-mono_image x y = elim (Bool-cases (in_grid w h x y)) [
    | inl e ↦
        let (p, q) = in_grid-lt w h x y e in
        rw
          (
            e,
            plain_inside x y p q,
            beside_congr w h x y (λ i j. plain i j == inverted)
                (λ i j. bit_at stride and_mask i j && bit_at stride xor_mask i j) p q
                plain-inverted,
          )
          (resolved_pix (bit_at stride and_mask x y) (bit_at stride xor_mask x y)
            (beside w h (λ i j. bit_at stride and_mask i j && bit_at stride xor_mask i j) x y))
    | inr e ↦ rw e (plain_outside x y e)
  ]
