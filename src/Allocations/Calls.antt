-- ===== src/Allocations/Calls.antt =====
-- The calls on an allocation, one after the other.
use virtio_drivers_windows.Base.{ℕ, Bool, true, Option, none, some, ◌≡◌, invalid_handle}
use virtio_drivers_windows.Wire.{BlobInfo}
use virtio_drivers_windows.Requests.{State, Host}
use virtio_drivers_windows.Requests.Monad.{
  Run, returned, failed, panicked, Action, ◌>>=◌, continue_with,
}
use virtio_drivers_windows.Requests.Resources.{resource_unmap_blob, resource_unref}
use virtio_drivers_windows.Devices.{Device, ignored}
use virtio_drivers_windows.Allocations.{
  Resource, Allocation, Session, DeviceSpecific, resource_3d, blob, is_created, mapped_range,
  map_blob, unmap_blob, set_blob_info, open_on,
}
use virtio_drivers_windows.Allocations.Asked.{CmdSent, BlobMade}

pub data Call : Type 0 where
  open_call : Device → Bool → Call
  map_call : Device → Call
  unmap_call : Device → Call
  info_call : BlobInfo → Call

pub data Answer : Type 0 where
  opened : DeviceSpecific → Answer
  mapped : (place size caching : ℕ) → Answer
  finished : Answer

-- The offset that a blob is mapped at.
abbrev pub offset_of : {Offset : Type 0} → Resource Offset → Option Offset
offset_of (resource_3d size) = none
offset_of (blob b) = b.map

module _ (h : Host) where
  abbrev pub answer : {A : Type 0} → (A → Answer) → Run (Session h) A → Run (Session h) Answer
  answer f r = continue_with r (λ a t. returned (f a) t)

  abbrev pub informed : Option (Allocation h.env.Offset) → Action (Session h) Answer
  informed none s = failed invalid_handle s
  informed (some a) s = returned finished (record s { alloc = a })

  unfoldable pub run_call : Call → Action (Session h) Answer
  unfolding open_on map_blob unmap_blob set_blob_info
  run_call (open_call d owned) s = answer opened (open_on h d owned s)
  run_call (map_call d) s = answer (λ r. mapped (r.0) (r.1) (r.2)) (map_blob h d s)
  run_call (unmap_call d) s = answer (λ u. finished) (unmap_blob h d s)
  run_call (info_call info) s = informed (set_blob_info h info s.alloc) s

  -- Destroying an allocation, told from the offset that it is mapped at.
  abbrev pub released : Option h.env.Offset → ℕ → Action (State h.env) (Unit {0})
  released none id = ignored h (resource_unref h id)
  released (some o) id =
      ignored h (resource_unmap_blob h id o) >>= λ u. ignored h (resource_unref h id)

  -- What there is after a call on an allocation.
  abbrev pub Answered : Call → Allocation h.env.Offset → Answer → Allocation h.env.Offset → Type 0
  Answered (open_call d owned) a (opened ds) a' =
      (mapped_range h a' ≡ mapped_range h a)
      × (is_created a' ≡ true)
      × (a'.cmd ≡ none)
      × (ds.owned ≡ owned)
  Answered (open_call d owned) a (mapped place size caching) a' = ⊥
  Answered (open_call d owned) a finished a' = ⊥
  Answered (map_call d) a (mapped place size caching) a' =
      (mapped_range h a ≡ none) × (mapped_range h a' ≡ some (place, size))
  Answered (map_call d) a (opened ds) a' = ⊥
  Answered (map_call d) a finished a' = ⊥
  Answered (unmap_call d) a x a' = mapped_range h a' ≡ none
  Answered (info_call info) a x a' = mapped_range h a' ≡ mapped_range h a

  abbrev pub Refused : Call → Allocation h.env.Offset → Allocation h.env.Offset → Type 0
  Refused (open_call d owned) a a' = mapped_range h a' ≡ mapped_range h a
  Refused (map_call d) a a' = mapped_range h a' ≡ mapped_range h a
  Refused (unmap_call d) a a' = mapped_range h a' ≡ none
  Refused (info_call info) a a' = mapped_range h a' ≡ mapped_range h a

  -- What a call that returns has asked the device for, in the order of the requests.
  abbrev pub Requested : Call → Session h → Type 0
  Requested (open_call d owned) s =
      (c c' : State h.env) × CmdSent h s.alloc.cmd s.chan c
      × BlobMade h s.alloc.id (is_created s.alloc) s.alloc.resource c c'
  Requested (map_call d) s = Unit {0}
  Requested (unmap_call d) s = Unit {0}
  Requested (info_call info) s = Unit {0}

  -- A panic is that of a request.
  abbrev pub Blamed : Call → Session h → Type 0
  Blamed (unmap_call d) s =
      (o : h.env.Offset) × (offset_of s.alloc.resource ≡ some o)
      × (resource_unmap_blob h s.alloc.id o s.chan ≡ panicked)
  Blamed (open_call d owned) s = Unit {0}
  Blamed (map_call d) s = Unit {0}
  Blamed (info_call info) s = ⊥
