-- ===== src/Buffers/Contents.antt =====
-- A buffer holds what it was made from.
use virtio_drivers_windows.Base.{
  ℕ, ◌+◌, ◌^◌, ◌≤◌, ◌<◌, ◌≡◌, refl, sym, ◌⊎◌, inl, inr, true, List, ◌++◌, append_assoc, arith, ok,
  err, no_memory, length, drop, replicate, length-append, take-append, drop-append, dec_le, max,
}
use virtio_drivers_windows.Buffers.{
  MaybeInlineBuffer, inline, boxed, write_at, as_len, try_from_hdr_with_body, as_ref, into_boxed,
}

-- Header and body written at the start of a large enough array.
written :
    (hdr body zeros : List ℕ)
    → write_at (length hdr) body (write_at 0 hdr zeros)
      ≡ (hdr ++ body) ++ drop (length hdr + length body) (hdr ++ drop (length hdr) zeros)
written hdr body zeros =
    let p : 0 + length hdr ≡ length hdr = omega arith in
    rw (p, take-append hdr (drop (length hdr) zeros)) (sym (append_assoc hdr body _))

module _ (page_size max_inline : ℕ) (fits : max_inline < 2 ^ 16) where
  as_ref-inline :
      (bytes rest : List ℕ)
      → length bytes ≤ max_inline
      → as_ref (inline (as_len (length bytes)) (bytes ++ rest)) ≡ ok bytes
  unfolding as_ref
  as_ref-inline bytes rest h =
      let p : as_len (length bytes) ≡ length bytes = omega arith in
      rw (p, take-append bytes rest) (ground (arith, length-append bytes rest))

  hdr_with_body-inline :
      (hdr body : List ℕ)
      → length hdr + length body ≤ max_inline
      → ((b : MaybeInlineBuffer) × (try_from_hdr_with_body page_size max_inline true hdr body
            ≡ ok b)
          × (as_ref b ≡ ok (hdr ++ body))
          × (into_boxed true b (length hdr) ≡ ok body))
  unfolding try_from_hdr_with_body into_boxed
  hdr_with_body-inline hdr body h =
      let rest =
        drop (length hdr + length body) (hdr ++ drop (length hdr) (replicate max_inline 0)) in
      let b = inline (as_len (length hdr + length body)) ((hdr ++ body) ++ rest) in
      let e : as_ref b ≡ ok (hdr ++ body) =
        ground (arith, as_ref-inline (hdr ++ body) rest, length-append hdr body) in
      (
        b,
        rw (sym (written hdr body (replicate max_inline 0))) (ground arith),
        e,
        rw e (ground (arith, drop-append hdr body, length-append hdr body)),
      )

  -- With memory at hand, a header and a body that fit beside the length or in a page make a buffer
  -- that holds the header followed by the body, and from which stripping the header leaves the
  -- body. Longer ones are refused for want of memory.
  pub as_ref-try_from_hdr_with_body :
      (hdr body : List ℕ)
      → ((length hdr + length body ≤ max page_size max_inline)
          × ((b : MaybeInlineBuffer) × (try_from_hdr_with_body page_size max_inline true hdr body
                ≡ ok b)
              × (as_ref b ≡ ok (hdr ++ body))
              × (into_boxed true b (length hdr) ≡ ok body)))
        ⊎ ((max page_size max_inline < length hdr + length body)
            × (try_from_hdr_with_body page_size max_inline true hdr body ≡ err no_memory))
  unfolding as_ref try_from_hdr_with_body into_boxed
  as_ref-try_from_hdr_with_body hdr body = elim (dec_le (length hdr + length body) max_inline) [
    | yes h ↦ inl (omega arith, hdr_with_body-inline hdr body h)
    | no h ↦ elim (dec_le (length hdr + length body) page_size) [
      | yes k ↦ inl (
        omega arith,
        (
          boxed (hdr ++ body),
          ground arith,
          refl,
          ground (arith, drop-append hdr body, length-append hdr body),
        ),
      )
      | no k ↦ inr (omega arith, ground arith)
    ]
  ]
