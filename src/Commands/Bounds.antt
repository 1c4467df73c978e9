-- ===== src/Commands/Bounds.antt =====
-- The memory that a copy between resources needs, and what it writes into it.
use virtio_drivers_windows.Base.{
  ℕ, suc, ◌+◌, ◌*◌, ◌%◌, ◌≤◌, ◌<◌, ◌≡◌, refl, ap, sym, map, ◌-◌, ◌⊎◌, inl, inr, true, Option, some,
  List, [], ◌∷◌, ◌++◌, length, drop, length-append, Outcome, ok, panic, u32_size, arith, dec_le,
}
use virtio_drivers_windows.Tracker.{FenceTracker}
use virtio_drivers_windows.Wire.{Wire, ControlType, Message, size_cmd_submit_3d}
use virtio_drivers_windows.Wire.Headers.{new_header}
use virtio_drivers_windows.Commands.{CommandId, no_flags, new}
use virtio_drivers_windows.Commands.Dma.{
  flatten, Rect, write_elements, submit_3d, blit_regions, virgl_blit, words_bytes, size_copy_region,
  virgl_blit_dma_len, copy_region,
}
use virtio_drivers_windows.Commands.Writes.{
  length-flatten, AllSized, with_header-fits, with_header-short, write_elements-fits,
}

module _ (w : Wire) where
  length-words_bytes : (xs : List ℕ) → length (words_bytes w xs) ≡ length xs * 4
  length-words_bytes [] = refl
  length-words_bytes (x ∷ xs) = omega (
    arith,
    length-append (w.word_bytes x) (words_bytes w xs),
    w.length-word x,
    length-words_bytes xs,
  )

  -- The words of a `VIRGL_CCMD_RESOURCE_COPY_REGION`, an operation 17 of 13 words: where the copy
  -- goes, with the corner of the rectangle, and where it comes from, with the corner moved by the
  -- delta; then the size of the rectangle, one layer deep. Both are on level 0 and layer 0.
  abbrev pub copy_words : ℕ → ℕ → ℕ × ℕ → Rect → List ℕ
  copy_words src dst delta r =
      (17 + 13 * 65536)
      ∷ dst
      ∷ 0
      ∷ r.left
      ∷ r.top
      ∷ 0
      ∷ src
      ∷ 0
      ∷ ((r.left + delta.0) % u32_size)
      ∷ ((r.top + delta.1) % u32_size)
      ∷ 0
      ∷ ((r.right + u32_size - r.left) % u32_size)
      ∷ ((r.bottom + u32_size - r.top) % u32_size)
      ∷ 1
      ∷ []

  -- One after the other, each word in its bytes.
  abbrev pub copies_bytes : ℕ → ℕ → ℕ × ℕ → List Rect → List ℕ
  copies_bytes src dst delta [] = []
  copies_bytes src dst delta (r ∷ rs) =
      flatten (map w.word_bytes (copy_words src dst delta r)) ++ copies_bytes src dst delta rs

  words_bytes-flatten : (xs : List ℕ) → words_bytes w xs ≡ flatten (map w.word_bytes xs)
  words_bytes-flatten [] = refl
  words_bytes-flatten (x ∷ xs) = ap (λ l. w.word_bytes x ++ l) (words_bytes-flatten xs)

  blit_regions-copies :
      (src dst : ℕ) (delta : ℕ × ℕ) (rects : List Rect)
      → flatten (blit_regions w src dst delta rects) ≡ copies_bytes src dst delta rects
  unfolding copy_region
  blit_regions-copies src dst delta [] = refl
  blit_regions-copies src dst delta (r ∷ rs) = rw (blit_regions-copies src dst delta rs) (
      ap (λ l. l ++ copies_bytes src dst delta rs)
        (words_bytes-flatten (copy_words src dst delta r)))

  blit_regions-AllSized :
      (src dst : ℕ) (delta : ℕ × ℕ) (rects : List Rect)
      → AllSized size_copy_region (blit_regions w src dst delta rects)
        × (length (blit_regions w src dst delta rects) ≡ length rects)
  unfolding copy_region
  blit_regions-AllSized src dst delta [] = (tt, refl)
  blit_regions-AllSized src dst delta (rect ∷ rects) =
      let (s, l) = blit_regions-AllSized src dst delta rects in
      ((length-words_bytes (copy_region dst 0 _ src 0 _ _), s), ap suc l)

  pub submit_3d-fits :
      (context ring : Option ℕ) (n : ℕ) (body' : List ℕ) (fill : List ℕ → Outcome (List ℕ))
      (dma : List ℕ) (t : FenceTracker)
      → size_cmd_submit_3d + n ≤ length dma
      → ((body : List ℕ) → length body ≡ n → fill body ≡ ok body')
      → let (header, t') = new_header ControlType.submit_3d true context ring t in
        let slice = w.bytes (Message.cmd_submit_3d header (n % u32_size)) ++ body' in
        submit_3d w context ring n fill dma t
        ≡ ok (
          new CommandId.submit ring no_flags (some slice),
          slice ++ drop (size_cmd_submit_3d + n) dma,
          t',
        )
  unfolding submit_3d
  submit_3d-fits context ring n body' fill dma t fits f =
      let (header, t') = new_header ControlType.submit_3d true context ring t in
      let hdr = w.bytes (Message.cmd_submit_3d header (n % u32_size)) in
      rw
        (with_header-fits size_cmd_submit_3d n hdr body' fill dma (w.length-submit header _) fits f)
        refl

  pub submit_3d-short :
      (context ring : Option ℕ) (n : ℕ) (fill : List ℕ → Outcome (List ℕ)) (dma : List ℕ)
      (t : FenceTracker)
      → length dma < size_cmd_submit_3d + n
      → submit_3d w context ring n fill dma t ≡ panic
  unfolding submit_3d
  submit_3d-short context ring n fill dma t h =
      rw (with_header-short size_cmd_submit_3d n _ fill dma h) refl

  -- Memory for at least as many bytes as `virgl_blit_dma_len` says gets a header with the size of the
  -- body, and behind it, for each rectangle in order, an operation 17 of 13 words that copies to the
  -- rectangle in the destination from the rectangle moved by the delta in the source, both on level 0
  -- and layer 0, one layer deep. The command has exactly these bytes, as many as the length says, and
  -- the rest of the memory is left as it was. Less memory is a panic.
  pub virgl_blit-dma :
      (context ring : Option ℕ) (src dst : ℕ) (delta : ℕ × ℕ) (rects : List Rect) (dma : List ℕ)
      (t : FenceTracker)
      → let n = virgl_blit_dma_len rects in
        let (header, t') = new_header ControlType.submit_3d true context ring t in
        let slice =
          w.bytes (Message.cmd_submit_3d header (size_copy_region * length rects % u32_size))
          ++ copies_bytes src dst delta rects in
        ((n ≤ length dma)
          × (virgl_blit w context src dst delta rects ring dma t
              ≡ ok (new CommandId.submit ring no_flags (some slice), slice ++ drop n dma, t'))
          × (length slice ≡ n))
        ⊎ ((length dma < n) × (virgl_blit w context src dst delta rects ring dma t ≡ panic))
  unfolding virgl_blit
  virgl_blit-dma context ring src dst delta rects dma t =
      let n = size_copy_region * length rects in
      let regions = blit_regions w src dst delta rects in
      let (s, l) = blit_regions-AllSized src dst delta rects in
      let e : length regions * size_copy_region ≡ n = omega (arith, l) in
      rw (sym (blit_regions-copies src dst delta rects))
        (elim (dec_le (virgl_blit_dma_len rects) (length dma)) [
          | yes fits ↦ inl (
            fits,
            submit_3d-fits context ring n (flatten regions)
                (write_elements size_copy_region 0 regions) dma t fits
                (λ body b.
                  write_elements-fits size_copy_region 0 regions [] body s refl (omega arith)),
            omega (
              arith,
              length-append
                  (w.bytes (
                    Message.cmd_submit_3d (new_header ControlType.submit_3d true context ring t).0
                      (n % u32_size)))
                  (flatten regions),
              w.length-submit (new_header ControlType.submit_3d true context ring t).0
                  (n % u32_size),
              length-flatten size_copy_region regions s,
            ),
          )
          | no short ↦ inr (omega arith, submit_3d-short context ring n _ dma t (omega arith))
        ])
