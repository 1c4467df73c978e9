-- ===== src/Cursors/Drawn.antt =====
-- The end of both writers of masks: the inverted pixels are resolved if there was one.
use virtio_drivers_windows.Base.{
  length-replicate, ℕ_discrete, ℕ, zero, suc, ◌+◌, ◌*◌, ◌/◌, ◌%◌, ◌^◌, ◌<◌, ◌≤◌, ◌≡◌, refl, Bool,
  true, false, List, ok, arith, length, if◌then◌else◌, ltb, ◌==◌, Yields, Yields-map, ap, sym, ◌∙◌,
  subst, replicate, dec_lt, ◌&&◌, ltb→lt, ◌-◌,
}
use virtio_drivers_windows.Cursors.Pixels.{
  from_u32, into_u32, pixel_at, read_from_prefix_into_u32, inverted,
}
use virtio_drivers_windows.Cursors.Images.{Image, beside}
use virtio_drivers_windows.Cursors.Mono.{resolve_inverted}
use virtio_drivers_windows.Cursors.Shown.{Between, mod-row, mod-index, div-index}
use virtio_drivers_windows.Cursors.Passes.{IsBounded, into_u32-from_u32, index-lt, Between-next}
use virtio_drivers_windows.Cursors.Outlined.{
  outlined-IsBounded, settled-IsBounded, outlined, settled,
}
use virtio_drivers_windows.Cursors.Resolved.{resolve_inverted-Between}

-- A framebuffer of `n` pixels, `d` in a row, that shows an image.
pub record Shows (d n : ℕ) (img : Image) (ps : List ℕ) : Type 0 where
  pub bytes : length ps ≡ n * 4
  pub pixels : (k : ℕ) → k < n → pixel_at k ps ≡ ok (from_u32 (img (k % d) (k / d)))
  pub reads : (k : ℕ) → k < n → read_from_prefix_into_u32 k ps ≡ ok (img (k % d) (k / d))

abbrev pub blank : Image
blank x y = 0

four : (n : ℕ) → suc n * 4 ≡ suc (suc (suc (suc (n * 4))))
four n = omega arith

and-is_false : (a b : Bool) → (a ≡ true → b ≡ false) → (a && b) ≡ false
and-is_false true b f = f refl
and-is_false false b f = refl

beside-is_false :
    (w h x y : ℕ) (test : ℕ → ℕ → Bool)
    → x < w
    → y < h
    → ((i j : ℕ) → i < w → j < h → test i j ≡ false)
    → beside w h test x y ≡ false
unfolding beside
beside-is_false w h x y test p q f =
    rw
      (
        and-is_false (ltb 0 x) (test (x - 1) y) (λ t. f (x - 1) y (omega arith) q),
        and-is_false (ltb (x + 1) w) (test (x + 1) y) (λ t. f (x + 1) y (ltb→lt (x + 1) w t) q),
        and-is_false (ltb 0 y) (test x (y - 1)) (λ t. f x (y - 1) p (omega arith)),
        and-is_false (ltb (y + 1) h) (test x (y + 1)) (λ t. f x (y + 1) p (ltb→lt (y + 1) h t)),
      )
      refl

first : (k m o : ℕ) → (if ltb k 0 then m else o) ≡ o
first k m o = ground arith

-- `fill(0)`.
replicate-pixel : (n k : ℕ) → k < n → pixel_at k (replicate (n * 4) 0) ≡ ok (from_u32 0)
unfolding pixel_at from_u32
replicate-pixel zero k l = absurd (omega arith)
replicate-pixel (suc n) zero l = rw (four n) refl
replicate-pixel (suc n) (suc k) l = rw (four n) (replicate-pixel n k (omega arith))

pub blank-Between :
    (d n : ℕ) (pos : 0 < d) (img : Image) (ps : List ℕ)
    → length ps ≡ n * 4
    → Between d pos n img blank 0 (replicate (length ps) 0)
blank-Between d n pos img ps e = record {
  bytes = length-replicate (length ps) 0 ∙ e;
  shown = λ k l. rw e (replicate-pixel n k l ∙ ap (λ v. ok (from_u32 v)) (ground arith));
}

module _ (d n w h : ℕ) (pos : 0 < d) (wide : w ≤ d) (fits : h * d ≤ n) (img : Image) where
  -- Where no pixel is inverted the flag may be down.
  abbrev pub Flagged : Bool → ℕ → Type 0
  Flagged flag bound =
      flag ≡ false → (k : ℕ) → k < bound → (img (k % d) (k / d) == inverted) ≡ false

  pub Flagged-step :
      (flag flag' : Bool) (x y : ℕ)
      → x < d
      → (flag' ≡ false → flag ≡ false)
      → (flag' ≡ false → (img x y == inverted) ≡ false)
      → Flagged flag (y * d + x)
      → Flagged flag' (suc (y * d + x))
  Flagged-step flag flag' x y p old new f e k l = elim (ℕ_discrete k (y * d + x)) [
    | yes same ↦ rw (same, mod-index d pos x y p, div-index d pos x y p) (new e)
    | no ne ↦ f (old e) k (omega arith)
  ]

  pub Flagged-skip :
      (flag : Bool) (y : ℕ)
      → ((i j : ℕ) → w ≤ i → img i j ≡ 0)
      → Flagged flag (y * d + w)
      → Flagged flag (suc y * d)
  Flagged-skip flag y outside f e k l = elim (dec_lt k (y * d + w)) [
    | yes p ↦ f e k p
    | no p ↦ rw (outside (k % d) (k / d) (omega (arith, mod-row d pos k y (omega arith) l))) refl
  ]

  plain_same :
      (pix x y : ℕ)
      → ((i j : ℕ) → i < w → j < h → (img i j == inverted) ≡ false)
      → settled w h pix (outlined w h img) x y ≡ img x y
  unfolding settled outlined
  plain_same pix x y f = elim (dec_lt x w) [
    | yes p ↦ elim (dec_lt y h) [
      | yes q ↦
          ground (arith, f x y p q, beside-is_false w h x y (λ i j. img i j == inverted) p q f)
      | no q ↦ ground arith
    ]
    | no p ↦ ground arith
  ]

  Between-Shows :
      (next img' : Image) (ps : List ℕ)
      → IsBounded img'
      → ((x y : ℕ) → img x y ≡ img' x y)
      → Between d pos n next img 0 ps
      → Shows d n img' ps
  unfolding read_from_prefix_into_u32
  Between-Shows next img' ps b e c = record {
    bytes = c.bytes;
    pixels = λ k l.
        c.shown k l
        ∙ ap (λ v. ok (from_u32 v))
            (first k (next (k % d) (k / d)) (img (k % d) (k / d)) ∙ e (k % d) (k / d));
    reads = λ k l. rw (c.shown k l) (
        ap ok (
          ap (λ v. into_u32 (from_u32 v))
            (first k (next (k % d) (k / d)) (img (k % d) (k / d)) ∙ e (k % d) (k / d))
          ∙ into_u32-from_u32 (img' (k % d) (k / d)) (b (k % d) (k / d))));
  }

module _ (d n w h : ℕ) (pos : 0 < d) (wide : w ≤ d) (fits : h * d ≤ n) (img img' : Image) (pix : ℕ)
    (small : pix < 2 ^ 32) (bounded : IsBounded img)
    (same : (x y : ℕ) → settled w h pix (outlined w h img) x y ≡ img' x y) where
  result-IsBounded : IsBounded img'
  result-IsBounded x y =
      subst (λ v. v < 2 ^ 32) (same x y)
        (settled-IsBounded d n w h pos wide fits (outlined w h img) pix small
          (outlined-IsBounded d n w h pos wide fits img bounded) x y)

  no_inverted :
      Flagged d n w h pos wide fits img false (h * d)
      → (i j : ℕ) → i < w
      → j < h
      → (img i j == inverted) ≡ false
  no_inverted f i j p q =
      rw (mod-index d pos i j (omega arith), div-index d pos i j (omega arith)) at
        (f refl (j * d + i) (index-lt d (h * d) w h pos wide (omega arith) i j p q))

  -- The image after the loop over the shape turns into one without inverted pixels.
  pub finish-Shows :
      (flag : Bool) (ps : List ℕ)
      → Flagged d n w h pos wide fits img flag (h * d)
      → Between d pos n img blank (h * d) ps
      → ((i j : ℕ) → h ≤ j → img i j ≡ 0)
      → Yields (Shows d n img') (if flag then resolve_inverted d w h pix ps else ok ps)
  finish-Shows true ps f c below =
      Yields-map (Between d pos n blank (settled w h pix (outlined w h img)) 0) (Shows d n img')
        (resolve_inverted d w h pix ps)
        (resolve_inverted-Between d n w h pos wide fits pix blank img ps small bounded
          (Between-next d n w h pos wide fits (outlined w h img) img blank ps below c))
        (λ qs.
          Between-Shows d n w h pos wide fits (settled w h pix (outlined w h img)) blank img' qs
            result-IsBounded same)
  finish-Shows false ps f c below =
      Between-Shows d n w h pos wide fits img blank img' ps result-IsBounded
        (λ x y. sym (plain_same d n w h pos wide fits img pix x y (no_inverted f)) ∙ same x y)
        (Between-next d n w h pos wide fits blank img blank ps below c)
