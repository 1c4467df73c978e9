-- ===== src/Cursors/Resolved.antt =====
-- `resolve_inverted`: the outline of the inverted pixels and what takes their place.
use virtio_drivers_windows.Base.{
  ℕ, suc, ◌+◌, ◌*◌, ◌^◌, ◌<◌, ◌≤◌, ◌≡◌, true, false, List, ok, arith, if◌then◌else◌, ◌==◌, Yields,
  Yields-bind, Yields-map, for_range, subst, Bool-cases, inl, inr,
}
use virtio_drivers_windows.Cursors.Pixels.{
  from_u32, write_to_prefix, outline, replace_inverted, inverted,
}
use virtio_drivers_windows.Cursors.Images.{Image}
use virtio_drivers_windows.Cursors.Mono.{resolve_inverted}
use virtio_drivers_windows.Cursors.Shown.{Between, Between-write, Between-keep}
use virtio_drivers_windows.Cursors.Passes.{
  IsBounded, index-lt, read-here, grid-Between, Between-next,
}
use virtio_drivers_windows.Cursors.Outlined.{
  outlined, settled, outline-Current, outlined-IsBounded, settled-IsBounded,
}

module _ (d n w h : ℕ) (pos : 0 < d) (wide : w ≤ d) (fits : h * d ≤ n) where
  module _ (pix : ℕ) (small : pix < 2 ^ 32) (img : Image) (bounded : IsBounded img) where
    abbrev Settling : ℕ → List ℕ → Type 0
    Settling bound ps = Between d pos n (settled w h pix img) img bound ps

    settled-pix :
        (x y : ℕ) → x < w → y < h → (img x y == inverted) ≡ true → settled w h pix img x y ≡ pix
    unfolding settled
    settled-pix x y p q t = ground arith

    settled_same : (x y : ℕ) → (img x y == inverted) ≡ false → settled w h pix img x y ≡ img x y
    unfolding settled
    settled_same x y t = ground arith

    settled_outside_row : (i j : ℕ) → w ≤ i → settled w h pix img i j ≡ img i j
    unfolding settled
    settled_outside_row i j l = ground arith

    settled_below : (i j : ℕ) → h ≤ j → settled w h pix img i j ≡ img i j
    unfolding settled
    settled_below i j l = ground arith

    replace_write :
        (x y : ℕ) (ps : List ℕ)
        → x < w
        → y < h
        → Settling (y * d + x) ps
        → Yields
            (Settling (suc (y * d + x)))
            (if img x y == inverted then write_to_prefix (y * d + x) (from_u32 pix) ps else ok ps)
    replace_write x y ps p q c = elim (Bool-cases (img x y == inverted)) [
      | inl t ↦ rw t (
          subst
            (λ v. Yields (Settling (suc (y * d + x))) (write_to_prefix (y * d + x) (from_u32 v) ps))
            (settled-pix x y p q t)
            (Between-write d pos n (settled w h pix img) img x y ps (omega arith)
              (index-lt d n w h pos wide fits x y p q) c))
      | inr t ↦ rw t (
          Between-keep d pos n (settled w h pix img) img x y ps (omega arith) (settled_same x y t)
            c)
    ]

    replace_inverted-Settling :
        (x y : ℕ) (ps : List ℕ)
        → x < w
        → y < h
        → Settling (y * d + x) ps
        → Yields (Settling (suc (y * d + x))) (replace_inverted d pix y x ps)
    unfolding replace_inverted
    replace_inverted-Settling x y ps p q c =
        rw
          (read-here d n w h pos wide fits (settled w h pix img) img x y ps
            (settled-IsBounded d n w h pos wide fits img pix small bounded) bounded p q c)
          (replace_write x y ps p q c)

    replaced :
        (next : Image) (ps : List ℕ)
        → Settling 0 ps
        → Yields
            (Between d pos n next (settled w h pix img) 0)
            (for_range h 0 (λ y. for_range w 0 (replace_inverted d pix y)) ps)
    replaced next ps c =
        Yields-map (Settling (h * d)) (Between d pos n next (settled w h pix img) 0)
          (for_range h 0 (λ y. for_range w 0 (replace_inverted d pix y)) ps)
          (grid-Between d n w h pos wide fits (settled w h pix img) img (replace_inverted d pix) ps
            settled_outside_row replace_inverted-Settling c)
          (λ qs b.
            Between-next d n w h pos wide fits next (settled w h pix img) img qs settled_below b)

  pub outlined_outside_row : (img : Image) (i j : ℕ) → w ≤ i → outlined w h img i j ≡ img i j
  unfolding outlined
  outlined_outside_row img i j l = ground arith

  pub outlined_below : (img : Image) (i j : ℕ) → h ≤ j → outlined w h img i j ≡ img i j
  unfolding outlined
  outlined_below img i j l = ground arith

  -- A framebuffer that shows an image shows the outlined and settled one behind the two loops.
  pub resolve_inverted-Between :
      (pix : ℕ) (next img : Image) (ps : List ℕ)
      → pix < 2 ^ 32
      → IsBounded img
      → Between d pos n (outlined w h img) img 0 ps
      → Yields
          (Between d pos n next (settled w h pix (outlined w h img)) 0)
          (resolve_inverted d w h pix ps)
  unfolding resolve_inverted
  resolve_inverted-Between pix next img ps small b c =
      Yields-bind (Between d pos n (settled w h pix (outlined w h img)) (outlined w h img) 0)
        (Between d pos n next (settled w h pix (outlined w h img)) 0)
        (for_range h 0 (λ y. for_range w 0 (outline d w h y)) ps)
        (for_range h 0 (λ y. for_range w 0 (replace_inverted d pix y)))
        (Yields-map (Between d pos n (outlined w h img) img (h * d))
          (Between d pos n (settled w h pix (outlined w h img)) (outlined w h img) 0)
          (for_range h 0 (λ y. for_range w 0 (outline d w h y)) ps)
          (grid-Between d n w h pos wide fits (outlined w h img) img (outline d w h) ps
            (outlined_outside_row img)
            (λ x y qs. outline-Current d n w h pos wide fits img x y qs b) c)
          (λ qs.
            Between-next d n w h pos wide fits (settled w h pix (outlined w h img))
              (outlined w h img) img qs (outlined_below img)))
        (replaced pix small (outlined w h img) (outlined-IsBounded d n w h pos wide fits img b)
          next)
