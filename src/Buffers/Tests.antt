-- ===== src/Buffers/Tests.antt =====
-- Buffers at concrete inputs.
use virtio_drivers_windows.Base.{
  ℕ, ◌+◌, ◌/◌, ◌≤◌, ◌<◌, ◌≡◌, refl, ◌⊎◌, ◌↔◌, true, List, [], ◌∷◌, ◌++◌, ok, err, no_memory, arith,
  length, max,
}
use virtio_drivers_windows.Buffers.{
  MaybeInlineBuffer, inline, try_from_hdr_with_body, as_ref, into_boxed, slice_in_one_page,
}
use virtio_drivers_windows.Buffers.Contents.{as_ref-try_from_hdr_with_body}
use virtio_drivers_windows.Buffers.Pages.{slice_in_one_page_iff}

abbrev hdr : List ℕ
hdr = 1 ∷ 2 ∷ []

abbrev body : List ℕ
body = 3 ∷ 4 ∷ 5 ∷ []

as_ref-try_from_hdr_with_body_example :
    ((length hdr + length body ≤ max 4096 4)
      × ((b : MaybeInlineBuffer) × (try_from_hdr_with_body 4096 4 true hdr body ≡ ok b)
          × (as_ref b ≡ ok (hdr ++ body))
          × (into_boxed true b (length hdr) ≡ ok body)))
    ⊎ ((max 4096 4 < length hdr + length body)
        × (try_from_hdr_with_body 4096 4 true hdr body ≡ err no_memory))
as_ref-try_from_hdr_with_body_example = as_ref-try_from_hdr_with_body 4096 4 (omega arith) hdr body

short :
    try_from_hdr_with_body 4096 8 true hdr body ≡ ok (inline 5 (1 ∷ 2 ∷ 3 ∷ 4 ∷ 5 ∷ 0 ∷ 0 ∷ 0 ∷ []))
unfolding try_from_hdr_with_body
short = refl

slice_in_one_page_iff_example :
    (slice_in_one_page 4096 4090 6 ≡ true) ↔ ((i : ℕ) → i < 6 → (4090 + i) / 4096 ≡ 4090 / 4096)
slice_in_one_page_iff_example = slice_in_one_page_iff 4096 4090 6 (omega arith)
