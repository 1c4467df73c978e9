-- ===== src/Wire/Headers.antt =====
-- `GpuChannel::new_header`: the header of a request, with a new fence if the request is to have one.
use virtio_drivers_windows.Base.{
  ◌==◌, ℕ, ◌+◌, ◌/◌, ◌%◌, ◌<◌, ◌≡◌, refl, Bool, true, false, Option, none, some, u64_size,
  if◌then◌else◌,
}
use virtio_drivers_windows.Tracker.{FenceTracker, next_fence, query}
use virtio_drivers_windows.Tracker.Laws.{IsValid, next_fence-IsValid, query-next_fence}
use virtio_drivers_windows.Wire.{ControlType, CtrlHeader, gpu_flag_fence, gpu_flag_ring_index}

-- The flags and the fence, from no flags.
unfoldable pub fence_field : Bool → FenceTracker → ℕ × ℕ × FenceTracker
fence_field true t = let (fence, t') = next_fence t in (gpu_flag_fence, fence, t')
fence_field false t = (0, 0, t)

-- The flag of the ring is another bit than that of the fence, so that setting it adds it.
abbrev pub ring_field : ℕ → Option ℕ → ℕ × ℕ
ring_field flags (some ring_idx) = (flags + gpu_flag_ring_index, ring_idx)
ring_field flags none = (flags, 0)

abbrev pub ctx_field : Option ℕ → ℕ
ctx_field (some ctx_id) = ctx_id
ctx_field none = 0

unfoldable pub new_header :
    ControlType → Bool → Option ℕ → Option ℕ → FenceTracker → CtrlHeader × FenceTracker
unfolding fence_field
new_header hdr_type fence context ring t =
    let (flags, fence_id, t') = fence_field fence t in
    let (flags', ring_idx) = ring_field flags ring in
    (
      record {
        hdr_type = hdr_type;
        flags = flags';
        fence_id = fence_id;
        ctx_id = ctx_field context;
        ring_idx = ring_idx;
      },
      t',
    )

-- The two flags of a header.
abbrev pub has_fence : CtrlHeader → Bool
has_fence h = if h.flags % 2 == 1 then true else false

abbrev pub has_ring : CtrlHeader → Bool
has_ring h = if h.flags / 2 % 2 == 1 then true else false

-- A header has the flag of the fence exactly if a fence was asked for, and the flag of the ring
-- exactly if a ring was given, and carries the ring and the context that it was given. From a valid
-- tracker, a header with a fence has one that is not signaled, and leaves a valid tracker; a header
-- without a fence leaves the tracker as it was.
pub new_header_lem :
    (hdr_type : ControlType) (fence : Bool) (context ring : Option ℕ) (t : FenceTracker)
    → IsValid t
    → t.next_fence + 1 < u64_size
    → let (h, t') = new_header hdr_type fence context ring t in
      (h.hdr_type ≡ hdr_type)
      × (has_fence h ≡ fence)
      × ((if has_ring h then some h.ring_idx else none) ≡ ring)
      × (h.ctx_id ≡ ctx_field context)
      × IsValid t'
      × (if fence then query t' h.fence_id ≡ false else t' ≡ t)
unfolding new_header
new_header_lem hdr_type true context (some r) t v h =
    (refl, refl, refl, refl, next_fence-IsValid v h, (query-next_fence v h).0)
new_header_lem hdr_type true context none t v h =
    (refl, refl, refl, refl, next_fence-IsValid v h, (query-next_fence v h).0)
new_header_lem hdr_type false context (some r) t v h = (refl, refl, refl, refl, v, refl)
new_header_lem hdr_type false context none t v h = (refl, refl, refl, refl, v, refl)
