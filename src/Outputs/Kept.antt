-- ===== src/Outputs/Kept.antt =====
-- No shape changes the number of bytes of a framebuffer, whatever its length and stride.
use virtio_drivers_windows.Base.{
  ℕ, zero, suc, ◌+◌, ◌*◌, ◌/◌, ◌≤◌, ◌≡◌, refl, List, [], ◌∷◌, ◌++◌, length, take, drop,
  length-append, length-take, length-drop, leb, ◌==◌, ◌&&◌, ok, panic, unwrap, get_elem?, Allows,
  Allows-bind, Allows-then, Allows-if, for_range, for_range-Allows, ◌∙◌, length-replicate,
  Bool-cases, inl, inr, arith,
}
use virtio_drivers_windows.Cursors.Pixels.{
  Bgra, transparent, opaque, foreground, background, inverted, from_u32, write_to_prefix,
  read_from_prefix_into_u32, has_inverted_neighbor, outline, replace_inverted,
}
use virtio_drivers_windows.Cursors.Mono.{
  Scan, mono_pix, bit_set, scan_pixel, scan_row, resolve_inverted, write_mono,
}
use virtio_drivers_windows.Cursors.Masked.{Copied, masked_pix, copy_pixel, write_masked_color}
use virtio_drivers_windows.Outputs.Pointers.{
  Shape, bgra, mono, masked_color, draw, copy_row, write_bgra,
}

abbrev HasLength : ℕ → List ℕ → Type 0
HasLength n ps = length ps ≡ n

write-HasLength :
    (i : ℕ) (p : Bgra) (ps : List ℕ) (n : ℕ)
    → length ps ≡ n
    → Allows (HasLength n) (write_to_prefix i p ps)
unfolding write_to_prefix
write-HasLength zero p [] n e = tt
write-HasLength zero p (b ∷ []) n e = tt
write-HasLength zero p (b ∷ r ∷ []) n e = tt
write-HasLength zero p (b ∷ r ∷ g ∷ []) n e = tt
write-HasLength zero p (b ∷ r ∷ g ∷ a ∷ rest) n e = e
write-HasLength (suc i) p [] n e = tt
write-HasLength (suc i) p (b ∷ []) n e = tt
write-HasLength (suc i) p (b ∷ r ∷ []) n e = tt
write-HasLength (suc i) p (b ∷ r ∷ g ∷ []) n e = tt
write-HasLength (suc i) p (b ∷ r ∷ g ∷ a ∷ rest) n e =
    Allows-bind (HasLength (length rest)) (HasLength n) (write_to_prefix i p rest)
      (λ rest'. ok (b ∷ r ∷ g ∷ a ∷ rest')) (write-HasLength i p rest (length rest) refl)
      (λ rest' l. omega (arith, l, e))

module _ (n : ℕ) where
  outline-HasLength :
      (d w h y x : ℕ) (ps : List ℕ) → HasLength n ps → Allows (HasLength n) (outline d w h y x ps)
  unfolding outline
  outline-HasLength d w h y x ps e =
      Allows-then (HasLength n) (read_from_prefix_into_u32 (y * d + x) ps) _ λ v.
        Allows-if (HasLength n) (v == transparent) _ (ok ps)
          (Allows-then (HasLength n) (has_inverted_neighbor d w h y x ps) _ λ near.
            Allows-if (HasLength n) near _ (ok ps)
              (write-HasLength (y * d + x) (from_u32 (opaque + background)) ps n e) e)
          e

  replace_inverted-HasLength :
      (d pix y x : ℕ) (ps : List ℕ)
      → HasLength n ps
      → Allows (HasLength n) (replace_inverted d pix y x ps)
  unfolding replace_inverted
  replace_inverted-HasLength d pix y x ps e =
      Allows-then (HasLength n) (read_from_prefix_into_u32 (y * d + x) ps) _ λ v.
        Allows-if (HasLength n) (v == inverted) _ (ok ps)
          (write-HasLength (y * d + x) (from_u32 pix) ps n e) e

  copied-length :
      (src ps : List ℕ) (start stride from : ℕ)
      → length ps ≡ n
      → start + stride ≤ length ps
      → from + stride ≤ length src
      → length (take start ps ++ (take stride (drop from src) ++ drop (start + stride) ps)) ≡ n
  copied-length src ps start stride from e p q = ground (
    arith,
    length-append (take start ps) (take stride (drop from src) ++ drop (start + stride) ps),
    length-append (take stride (drop from src)) (drop (start + stride) ps),
    length-take start ps,
    length-take stride (drop from src),
    length-drop from src,
    length-drop (start + stride) ps,
  )

  row_after : (row stride : ℕ) → (row + 1) * stride ≡ row * stride + stride
  row_after row stride = grind arith

  copy_row-HasLength :
      (src : List ℕ) (stride dst_stride row : ℕ) (ps : List ℕ)
      → HasLength n ps
      → Allows (HasLength n) (copy_row src stride dst_stride row ps)
  unfolding copy_row
  copy_row-HasLength src stride dst_stride row ps e =
      elim (Bool-cases
        (leb (row * dst_stride + stride) (length ps) && leb ((row + 1) * stride) (length src))) [
          | inl t ↦ rw t (
              copied-length src ps (row * dst_stride) stride (row * stride) e (ground arith)
                (ground (arith, row_after row stride)))
          | inr f ↦ rw f tt
        ]

  resolve_inverted-HasLength :
      (d w h pix : ℕ) (ps : List ℕ)
      → HasLength n ps
      → Allows (HasLength n) (resolve_inverted d w h pix ps)
  unfolding resolve_inverted
  resolve_inverted-HasLength d w h pix ps e =
      Allows-bind (HasLength n) (HasLength n)
        (for_range h 0 (λ y. for_range w 0 (outline d w h y)) ps) _
        (for_range-Allows (HasLength n) (λ y. for_range w 0 (outline d w h y)) h 0 ps
          (λ y qs.
            for_range-Allows (HasLength n) (outline d w h y) w 0 qs (outline-HasLength d w h y))
          e)
        (λ qs.
          for_range-Allows (HasLength n) (λ y. for_range w 0 (replace_inverted d pix y)) h 0 qs
            (λ y rs.
              for_range-Allows (HasLength n) (replace_inverted d pix y) w 0 rs
                (replace_inverted-HasLength d pix y)))

  scan_pixel-HasLength :
      (d stride : ℕ) (ands xors : List ℕ) (y x : ℕ) (s : Scan)
      → HasLength n s.pixels
      → Allows (λ t. HasLength n t.pixels) (scan_pixel d stride ands xors y x s)
  unfolding scan_pixel
  scan_pixel-HasLength d stride ands xors y x s e =
      Allows-then (λ t. HasLength n t.pixels) (unwrap (get_elem? ands (y * stride + x / 8))) _
        λ a.
          Allows-then (λ t. HasLength n t.pixels) (unwrap (get_elem? xors (y * stride + x / 8))) _
            λ b.
              Allows-bind (HasLength n) (λ t. HasLength n t.pixels) _ _
                (write-HasLength (y * d + x)
                  (from_u32 (mono_pix (bit_set a s.bit) (bit_set b s.bit))) s.pixels n e)
                (λ ps l. l)

  copy_pixel-HasLength :
      (d stride : ℕ) (colours : List ℕ) (y x : ℕ) (s : Copied)
      → HasLength n s.pixels
      → Allows (λ t. HasLength n t.pixels) (copy_pixel d stride colours y x s)
  unfolding copy_pixel
  copy_pixel-HasLength d stride colours y x s e =
      let start = y * stride + x * 4 in
      Allows-then (λ t. HasLength n t.pixels) (unwrap (get_elem? colours start)) _
        λ b.
          Allows-then (λ t. HasLength n t.pixels) (unwrap (get_elem? colours (start + 1))) _
            λ g.
              Allows-then (λ t. HasLength n t.pixels) (unwrap (get_elem? colours (start + 2))) _
                λ r.
                  Allows-then (λ t. HasLength n t.pixels) (unwrap (get_elem? colours (start + 3))) _
                    λ m.
                      Allows-bind (HasLength n) (λ t. HasLength n t.pixels) _ _
                        (write-HasLength (y * d + x) (from_u32 (masked_pix b g r m)) s.pixels n e)
                        (λ ps l. l)

  pub draw-HasLength :
      (shape : Shape) (d : ℕ) (ps : List ℕ)
      → length ps ≡ n
      → Allows (λ ps'. length ps' ≡ n) (draw shape d ps)
  unfolding write_bgra write_mono write_masked_color scan_row
  draw-HasLength (bgra src stride) d ps e = Allows-if (HasLength n) (stride == 0) panic _ tt (
      for_range-Allows (HasLength n) (copy_row src stride (d * 4)) (length src / stride) 0 ps
        (λ row qs. copy_row-HasLength src stride (d * 4) row qs) e)
  draw-HasLength (mono mask stride) d ps e = Allows-if (HasLength n) (stride == 0) panic _ tt (
      Allows-bind (λ t. HasLength n t.pixels) (HasLength n) _ _
        (for_range-Allows (λ t. HasLength n t.pixels) _ (length mask / (stride * 2)) 0 _
          (λ y t l.
            for_range-Allows (λ r. HasLength n r.pixels) _ (stride * 8) 0 _
              (λ x r. scan_pixel-HasLength d stride _ _ y x r) l)
          (length-replicate (length ps) 0 ∙ e))
        (λ t l.
          Allows-if (HasLength n) t.has_inverted _ (ok t.pixels)
            (resolve_inverted-HasLength d (stride * 8) (length mask / (stride * 2))
              (opaque + foreground) t.pixels l)
            l))
  draw-HasLength (masked_color colours stride) d ps e =
      Allows-if (HasLength n) (stride == 0) panic _ tt (
        Allows-bind (λ t. HasLength n t.pixels) (HasLength n) _ _
          (for_range-Allows (λ t. HasLength n t.pixels) _ (length colours / stride) 0 _
            (λ y t.
              for_range-Allows (λ r. HasLength n r.pixels) _ (stride / 4) 0 t
                (copy_pixel-HasLength d stride colours y))
            (length-replicate (length ps) 0 ∙ e))
          (λ t l.
            Allows-if (HasLength n) t.has_inverted _ (ok t.pixels)
              (resolve_inverted-HasLength d (stride / 4) (length colours / stride) transparent
                t.pixels l)
              l))
