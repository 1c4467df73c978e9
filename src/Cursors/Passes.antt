-- ===== src/Cursors/Passes.antt =====
-- A loop over rows and columns that turns one image into another one.
use native.Mathlib.Nat.{mul-le-mul_right, suc-mul, le-div_iff_mul-le}
use virtio_drivers_windows.Base.{
  ℕ, suc, ◌+◌, ◌*◌, ◌/◌, ◌%◌, ◌^◌, ◌<◌, ◌≤◌, ◌≡◌, List, Outcome, ok, arith, if◌then◌else◌, ltb,
  Yields, Yields-map, for_range, for_range-Yields, ap, ◌∙◌, subst, dec_lt,
}
use virtio_drivers_windows.Cursors.Pixels.{from_u32, into_u32, read_from_prefix_into_u32}
use virtio_drivers_windows.Cursors.Images.{Image}
use virtio_drivers_windows.Cursors.Shown.{Between, Between-skip, mod-index, div-index}

abbrev pub IsBounded : Image → Type 0
IsBounded img = (x y : ℕ) → img x y < 2 ^ 32

pub into_u32-from_u32 : (v : ℕ) → v < 2 ^ 32 → into_u32 (from_u32 v) ≡ v
unfolding into_u32 from_u32
into_u32-from_u32 v h = omega arith

module _ (d n w h : ℕ) (pos : 0 < d) (wide : w ≤ d) (fits : h * d ≤ n) where
  pub index-lt : (x y : ℕ) → x < w → y < h → y * d + x < n
  index-lt x y p q = omega (arith, suc-mul y d, mul-le-mul_right {m = suc y} {n = h} d q)

  -- What a read sees while the loop is at some index.
  pub read-Between :
      (new old : Image) (bound x y : ℕ) (ps : List ℕ)
      → IsBounded new
      → IsBounded old
      → x < w
      → y < h
      → Between d pos n new old bound ps
      → read_from_prefix_into_u32 (y * d + x) ps
        ≡ ok (if ltb (y * d + x) bound then new x y else old x y)
  unfolding read_from_prefix_into_u32
  read-Between new old bound x y ps bn bo p q b =
      rw
        (
          b.shown (y * d + x) (index-lt x y p q),
          mod-index d pos x y (omega arith),
          div-index d pos x y (omega arith),
        )
        (ap ok (into_u32-from_u32 _ (ground (arith, bn x y, bo x y))))

  pub read-here :
      (new old : Image) (x y : ℕ) (ps : List ℕ)
      → IsBounded new
      → IsBounded old
      → x < w
      → y < h
      → Between d pos n new old (y * d + x) ps
      → read_from_prefix_into_u32 (y * d + x) ps ≡ ok (old x y)
  read-here new old x y ps bn bo p q b =
      read-Between new old (y * d + x) x y ps bn bo p q b ∙ ap ok (ground arith)

  module _ {S : Type 0} (P : ℕ → S → Type 0) where
    -- A loop over the columns and one over the rows, from what a turn does to the invariant.
    pub columns-Yields :
        (y : ℕ) (body : ℕ → S → Outcome S) (s : S)
        → ((x : ℕ) (t : S) → x < w → P (y * d + x) t → Yields (P (suc (y * d + x))) (body x t))
        → P (y * d) s
        → Yields (P (y * d + w)) (for_range w 0 body s)
    columns-Yields y body s step p =
        for_range-Yields (λ x. P (y * d + x)) body w 0 w s (omega arith)
          (λ x t l u q. subst (λ b. Yields (P b) (body x t)) (omega arith) (step x t u q))
          (subst (λ b. P b s) (omega arith) p)

    pub rows-Yields :
        (row : ℕ → S → Outcome S) (s : S)
        → ((y : ℕ) (t : S) → y < h → P (y * d) t → Yields (P (suc y * d)) (row y t))
        → P 0 s
        → Yields (P (h * d)) (for_range h 0 row s)
    rows-Yields row s step p =
        for_range-Yields (λ y. P (y * d)) row h 0 h s (omega arith) (λ y t l u q. step y t u q)
          (subst (λ b. P b s) (omega arith) p)

  module _ (new old : Image) (body : ℕ → ℕ → List ℕ → Outcome (List ℕ)) where
    pub grid-Between :
        (ps : List ℕ)
        → ((i j : ℕ) → w ≤ i → new i j ≡ old i j)
        → ((x y : ℕ) (qs : List ℕ)
            → x < w
            → y < h
            → Between d pos n new old (y * d + x) qs
            → Yields (Between d pos n new old (suc (y * d + x))) (body y x qs))
        → Between d pos n new old 0 ps
        → Yields (Between d pos n new old (h * d)) (for_range h 0 (λ y. for_range w 0 (body y)) ps)
    grid-Between ps agree step b =
        rows-Yields (Between d pos n new old) (λ y. for_range w 0 (body y)) ps
          (λ y qs l p.
            Yields-map (Between d pos n new old (y * d + w)) (Between d pos n new old (suc y * d))
              (for_range w 0 (body y) qs)
              (columns-Yields (Between d pos n new old) y (body y) qs
                (λ x rs u q. step x y rs u l q) p)
              (λ rs q. Between-skip d pos n new old w y rs wide agree q))
          b

  -- After the loop only the new image is left, and another loop can begin.
  pub Between-next :
      (next new old : Image) (ps : List ℕ)
      → ((i j : ℕ) → h ≤ j → new i j ≡ old i j)
      → Between d pos n new old (h * d) ps
      → Between d pos n next new 0 ps
  Between-next next new old ps agree b = record {
    bytes = b.bytes;
    shown = λ k l.
        b.shown k l
        ∙ ap (λ v. ok (from_u32 v))
            (elim (dec_lt k (h * d)) [
              | yes p ↦ ground arith
              | no p ↦
                  ground (arith, agree (k % d) (k / d) ((le-div_iff_mul-le pos).1 (omega arith)))
            ]);
  }
