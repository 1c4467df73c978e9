-- ===== src/Cursors/Shown.antt =====
-- Framebuffers of which the pixels up to some index show one image, and the others another one.
use native.Mathlib.Nat.{
  mul-add-div_right, div-eq_of_lt, mul-add-mod_self_right, mod-eq_of_lt, suc-mul,
}
use virtio_drivers_windows.Base.{
  ℕ, zero, suc, ◌+◌, ◌*◌, ◌/◌, ◌%◌, ◌^◌, ◌<◌, ◌≤◌, ◌≡◌, ◌≢◌, refl, List, [], ◌∷◌, ok, arith,
  if◌then◌else◌, ltb, length, Yields, Yields-bind, Yields-map, dec_le, dec_lt, ℕ_discrete, ◌-◌, ap,
  ◌∙◌,
}
use virtio_drivers_windows.Cursors.Pixels.{
  Bgra, from_u32, into_u32, pixel_at, write_to_prefix, bytes_before,
}
use virtio_drivers_windows.Cursors.Images.{Image}

-- A write leaves the other pixels alone.
abbrev pub Written : ℕ → Bgra → List ℕ → List ℕ → Type 0
Written i p ps ps' =
    (length ps' ≡ length ps)
    × (pixel_at i ps' ≡ ok p)
    × ((k : ℕ) → k ≢ i → pixel_at k ps' ≡ pixel_at k ps)

rest_same :
    (p q : Bgra) (rest : List ℕ) (k : ℕ)
    → k ≢ 0
    → pixel_at k (bytes_before p rest) ≡ pixel_at k (bytes_before q rest)
unfolding pixel_at
rest_same p q rest zero n = absurd (n refl)
rest_same p q rest (suc k) n = refl

later_same :
    (i : ℕ) (q : Bgra) (rest rest' : List ℕ)
    → ((k : ℕ) → k ≢ i → pixel_at k rest' ≡ pixel_at k rest)
    → (k : ℕ) → k ≢ suc i
    → pixel_at k (bytes_before q rest') ≡ pixel_at k (bytes_before q rest)
unfolding pixel_at
later_same i q rest rest' o zero n = refl
later_same i q rest rest' o (suc k) n = o k (λ e. n (ap suc e))

pub write_to_prefix-Written :
    (i : ℕ) (p : Bgra) (ps : List ℕ)
    → i * 4 + 4 ≤ length ps
    → Yields (Written i p ps) (write_to_prefix i p ps)
unfolding write_to_prefix pixel_at
write_to_prefix-Written i p [] h = absurd (omega arith)
write_to_prefix-Written i p (b ∷ []) h = absurd (omega arith)
write_to_prefix-Written i p (b ∷ r ∷ []) h = absurd (omega arith)
write_to_prefix-Written i p (b ∷ r ∷ g ∷ []) h = absurd (omega arith)
write_to_prefix-Written zero p (b ∷ r ∷ g ∷ a ∷ rest) h =
    (refl, refl, rest_same p (record { b = b; r = r; g = g; a = a }) rest)
write_to_prefix-Written (suc i) p (b ∷ r ∷ g ∷ a ∷ rest) h =
    Yields-bind (Written i p rest) (Written (suc i) p (b ∷ r ∷ g ∷ a ∷ rest))
      (write_to_prefix i p rest) (λ rest'. ok (b ∷ r ∷ g ∷ a ∷ rest'))
      (write_to_prefix-Written i p rest (omega arith))
      λ rest' w. (
        omega (arith, w.0),
        w.1,
        later_same i (record { b = b; r = r; g = g; a = a }) rest rest' w.2,
      )

into_u32-from_u32 : (v : ℕ) → v < 2 ^ 32 → into_u32 (from_u32 v) ≡ v
unfolding into_u32 from_u32
into_u32-from_u32 v h = omega arith

choose_later :
    (k b b' m o : ℕ)
    → b ≤ b'
    → (b ≤ k → k < b' → m ≡ o)
    → (if ltb k b then m else o) ≡ (if ltb k b' then m else o)
choose_later k b b' m o l f = elim (dec_le b k) [
  | yes p ↦ elim (dec_lt k b') [ yes q ↦ ground (arith, f p q) | no q ↦ ground arith ]
  | no p ↦ ground arith
]

choose_before : (k m o : ℕ) → m ≡ (if ltb k (suc k) then m else o)
choose_before k m o = ground arith

module _ (d : ℕ) (pos : 0 < d) where
  pub div-index : (x y : ℕ) → x < d → (y * d + x) / d ≡ y
  div-index x y h = omega (arith, mul-add-div_right pos y x, div-eq_of_lt h)

  pub mod-index : (x y : ℕ) → x < d → (y * d + x) % d ≡ x
  mod-index x y h = mul-add-mod_self_right y d x ∙ mod-eq_of_lt h

  pub mod-row : (k y : ℕ) → y * d ≤ k → k < suc y * d → k % d ≡ k - y * d
  mod-row k y p q =
      let e : k ≡ y * d + (k - y * d) = omega arith in
      ap (λ j. j % d) e ∙ mod-index (k - y * d) y (omega (arith, suc-mul y d))

  -- `n` pixels, of which those before `bound` show `new` and the others `old`.
  pub record Between (n : ℕ) (new old : Image) (bound : ℕ) (ps : List ℕ) : Type 0 where
    pub bytes : length ps ≡ n * 4
    pub shown :
        (k : ℕ)
        → k < n
        → pixel_at k ps
          ≡ ok (from_u32 (if ltb k bound then new (k % d) (k / d) else old (k % d) (k / d)))

  module _ (n : ℕ) (new old : Image) where
    -- A pixel is written that shows the new image.
    pub Between-write :
        (x y : ℕ) (ps : List ℕ)
        → x < d
        → y * d + x < n
        → Between n new old (y * d + x) ps
        → Yields
            (Between n new old (suc (y * d + x)))
            (write_to_prefix (y * d + x) (from_u32 (new x y)) ps)
    Between-write x y ps l i b =
        Yields-map (Written (y * d + x) (from_u32 (new x y)) ps)
          (Between n new old (suc (y * d + x)))
          (write_to_prefix (y * d + x) (from_u32 (new x y)) ps)
          (write_to_prefix-Written (y * d + x) (from_u32 (new x y)) ps (omega (arith, b.bytes)))
          λ ps' w. record {
            bytes = w.0 ∙ b.bytes;
            shown = λ k j. elim (ℕ_discrete k (y * d + x)) [
              | yes e ↦ rw e (
                  w.1
                  ∙ ap (λ v. ok (from_u32 v))
                      (rw (mod-index x y l, div-index x y l)
                        (choose_before (y * d + x) (new x y) (old x y))))
              | no ne ↦
                  w.2 k ne
                  ∙ b.shown k j
                  ∙ ap (λ v. ok (from_u32 v))
                      (choose_later k (y * d + x) (suc (y * d + x)) (new (k % d) (k / d))
                        (old (k % d) (k / d)) (omega arith) (λ p q. absurd (ne (omega arith))))
            ];
          }

    -- A pixel is left that shows both images.
    pub Between-keep :
        (x y : ℕ) (ps : List ℕ)
        → x < d
        → new x y ≡ old x y
        → Between n new old (y * d + x) ps
        → Between n new old (suc (y * d + x)) ps
    Between-keep x y ps l e b = record {
      bytes = b.bytes;
      shown = λ k j.
          b.shown k j
          ∙ ap (λ v. ok (from_u32 v))
              (choose_later k (y * d + x) (suc (y * d + x)) (new (k % d) (k / d))
                (old (k % d) (k / d)) (omega arith)
                (λ p q.
                  let same : k ≡ y * d + x = omega arith in
                  rw (same, mod-index x y l, div-index x y l) e));
    }

    -- Behind the row, where the images agree.
    pub Between-skip :
        (w y : ℕ) (ps : List ℕ)
        → w ≤ d
        → ((i j : ℕ) → w ≤ i → new i j ≡ old i j)
        → Between n new old (y * d + w) ps
        → Between n new old (suc y * d) ps
    Between-skip w y ps l e b = record {
      bytes = b.bytes;
      shown = λ k j.
          b.shown k j
          ∙ ap (λ v. ok (from_u32 v))
              (choose_later k (y * d + w) (suc y * d) (new (k % d) (k / d)) (old (k % d) (k / d))
                (omega (arith, suc-mul y d))
                (λ p q. e (k % d) (k / d) (omega (arith, mod-row k y (omega arith) q))));
    }
