-- ===== src/Cursors/Outlined.antt =====
-- What the loops over inverted pixels do: each pixel becomes what the image before says.
use native.Mathlib.Nat.{suc-mul}
use virtio_drivers_windows.Base.{
  ℕ, suc, ◌+◌, ◌-◌, ◌*◌, ◌^◌, ◌<◌, ◌≤◌, ◌≡◌, refl, Bool, true, false, List, ok, arith,
  if◌then◌else◌, ltb, ◌==◌, ◌&&◌, ◌||◌, Yields, ap, ◌∙◌, subst, Bool-cases, inl, inr, ◌⊎◌, ltb→lt,
}
use virtio_drivers_windows.Cursors.Pixels.{
  from_u32, write_to_prefix, is_inverted_at, has_inverted_neighbor, outline, inverted, transparent,
  opaque, background, or_else,
}
use virtio_drivers_windows.Cursors.Images.{Image, in_grid, beside}
use virtio_drivers_windows.Cursors.Shown.{Between, Between-write, Between-keep}
use virtio_drivers_windows.Cursors.Passes.{IsBounded, index-lt, read-Between, read-here}

-- Transparent pixels beside an inverted one become black.
unfoldable pub outlined : ℕ → ℕ → Image → Image
outlined w h img x y =
    if in_grid w h x y
    then (if img x y == transparent
        then (if beside w h (λ i j. img i j == inverted) x y then opaque + background else img x y)
        else img x y)
    else img x y

-- Inverted pixels get another value.
unfoldable pub settled : ℕ → ℕ → ℕ → Image → Image
settled w h pix img x y =
    if in_grid w h x y then (if img x y == inverted then pix else img x y) else img x y

abbrev in_mixed : Image → Image → ℕ → ℕ → Bool → ℕ
in_mixed new old x y b = if b then new x y else old x y

or_else-ok : (a b : Bool) → or_else (ok a) (ok b) ≡ ok (a || b)
or_else-ok true b = refl
or_else-ok false b = refl

module _ (d n w h : ℕ) (pos : 0 < d) (wide : w ≤ d) (fits : h * d ≤ n) (img : Image) where
  outlined-inverted :
      (x y : ℕ) (b : Bool)
      → (in_mixed (outlined w h img) img x y b == inverted) ≡ (img x y == inverted)
  unfolding outlined
  outlined-inverted x y true = ground arith
  outlined-inverted x y false = refl

  pub outlined-IsBounded : IsBounded img → IsBounded (outlined w h img)
  unfolding outlined
  outlined-IsBounded b x y = ground (arith, b x y)

  pub settled-IsBounded : (pix : ℕ) → pix < 2 ^ 32 → IsBounded img → IsBounded (settled w h pix img)
  unfolding settled
  settled-IsBounded pix p b x y = ground (arith, b x y)

  abbrev pub Current : ℕ → List ℕ → Type 0
  Current bound ps = Between d pos n (outlined w h img) img bound ps

  row_below : (y : ℕ) → (y + 1) * d ≡ suc y * d
  row_below y = ap (λ j. j * d) (omega arith)

  row_above : (y : ℕ) → 0 < y → y * d ≡ (y - 1) * d + d
  row_above y p = let e : y ≡ suc (y - 1) = omega arith in ap (λ j. j * d) e ∙ suc-mul (y - 1) d

  is_inverted_at_lem :
      (inside : Bool) (index i j bound : ℕ) (ps : List ℕ)
      → IsBounded img
      → Current bound ps
      → (inside ≡ true → (i < w) × (j < h) × (index ≡ j * d + i))
      → is_inverted_at d w h inside index ps ≡ ok (inside && (img i j == inverted))
  unfolding is_inverted_at
  is_inverted_at_lem false index i j bound ps b c f = refl
  is_inverted_at_lem true index i j bound ps b c f =
      let (p, q, e) = f refl in
      rw
        (
          e,
          read-Between d n w h pos wide fits (outlined w h img) img bound i j ps
              (outlined-IsBounded b) b p q c,
        )
        (ap ok (outlined-inverted i j (ltb (j * d + i) bound)))

  has_inverted_neighbor_lem :
      (x y bound : ℕ) (ps : List ℕ)
      → IsBounded img
      → x < w
      → y < h
      → Current bound ps
      → has_inverted_neighbor d w h y x ps ≡ ok (beside w h (λ i j. img i j == inverted) x y)
  unfolding has_inverted_neighbor beside
  has_inverted_neighbor_lem x y bound ps b p q c =
      rw
        (
          is_inverted_at_lem (ltb 0 x) (y * d + x - 1) (x - 1) y bound ps b c
              (λ t. omega (arith, ltb→lt 0 x t)),
          is_inverted_at_lem (ltb (x + 1) w) (y * d + x + 1) (x + 1) y bound ps b c
              (λ t. omega (arith, ltb→lt (x + 1) w t)),
          is_inverted_at_lem (ltb 0 y) (y * d + x - d) x (y - 1) bound ps b c
              (λ t. omega (arith, ltb→lt 0 y t, row_above y (ltb→lt 0 y t))),
          is_inverted_at_lem (ltb (y + 1) h) (y * d + x + d) x (y + 1) bound ps b c
              (λ t. omega (arith, ltb→lt (y + 1) h t, suc-mul y d, row_below y)),
          or_else-ok,
          or_else-ok,
          or_else-ok,
        )
        refl

  abbrev next_to : ℕ → ℕ → Bool
  next_to = beside w h (λ i j. img i j == inverted)

  outlined-black :
      (x y : ℕ)
      → x < w
      → y < h
      → (img x y == transparent) ≡ true
      → next_to x y ≡ true
      → outlined w h img x y ≡ opaque + background
  unfolding outlined
  outlined-black x y p q t e = ground arith

  outlined_same :
      (x y : ℕ)
      → x < w
      → y < h
      → ((img x y == transparent) ≡ false) ⊎ (next_to x y ≡ false)
      → outlined w h img x y ≡ img x y
  unfolding outlined
  outlined_same x y p q (inl t) = ground arith
  outlined_same x y p q (inr t) = ground arith

  outline_write :
      (x y : ℕ) (ps : List ℕ)
      → x < w
      → y < h
      → Current (y * d + x) ps
      → Yields (Current (suc (y * d + x))) (
          if img x y == transparent
          then (if next_to x y
              then write_to_prefix (y * d + x) (from_u32 (opaque + background)) ps
              else ok ps)
          else ok ps)
  outline_write x y ps p q c = elim (Bool-cases (img x y == transparent)) [
    | inl t ↦ elim (Bool-cases (next_to x y)) [
      | inl e ↦
          rw (t, e)
            (subst
              (λ v.
                Yields (Current (suc (y * d + x))) (write_to_prefix (y * d + x) (from_u32 v) ps))
              (outlined-black x y p q t e)
              (Between-write d pos n (outlined w h img) img x y ps (omega arith)
                (index-lt d n w h pos wide fits x y p q) c))
      | inr e ↦
          rw (t, e)
            (Between-keep d pos n (outlined w h img) img x y ps (omega arith)
              (outlined_same x y p q (inr e)) c)
    ]
    | inr t ↦ rw t (
        Between-keep d pos n (outlined w h img) img x y ps (omega arith)
          (outlined_same x y p q (inl t)) c)
  ]

  pub outline-Current :
      (x y : ℕ) (ps : List ℕ)
      → IsBounded img
      → x < w
      → y < h
      → Current (y * d + x) ps
      → Yields (Current (suc (y * d + x))) (outline d w h y x ps)
  unfolding outline
  outline-Current x y ps b p q c =
      rw
        (
          read-here d n w h pos wide fits (outlined w h img) img x y ps (outlined-IsBounded b) b p q
              c,
          has_inverted_neighbor_lem x y (y * d + x) ps b p q c,
        )
        (outline_write x y ps p q c)
