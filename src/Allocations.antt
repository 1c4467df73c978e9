-- ===== src/Allocations.antt =====
-- `Allocation` and `DeviceSpecificAllocation` of gpu-wddm/src/allocation.rs: how a blob becomes a
-- resource, is mapped and unmapped, and is destroyed by gpu-wddm/src/adapter.rs. The use counts are in
-- Busy and the attached pages in Pages.
pub mod Calls
pub mod Mapped
pub mod Asked
pub mod Opened
pub mod Known
mod Tests
use virtio_drivers_windows.Base.{
  ℕ, ◌+◌, ◌-◌, ◌*◌, ◌/◌, ◌%◌, Bool, true, false, not, ◌&&◌, Option, none, some, List, ◌==◌,
  if◌then◌else◌, u64_size, invalid_parameter, already_committed,
}
use mathlib.Core.Option
use virtio_drivers_windows.Wire.{BlobInfo}
use virtio_drivers_windows.Requests.{State, Host}
use virtio_drivers_windows.Requests.Monad.{
  Run, returned, failed, panicked, Action, pure, ◌>>=◌, ◌>>◌, continue_with,
}
use virtio_drivers_windows.Requests.Contexts.{CapsetId}
use virtio_drivers_windows.Requests.Resources.{resource_unmap_blob, resource_unref}
use virtio_drivers_windows.Devices.{
  Device, is_virgl, context_internal, context_attach_resource_internal, context_attach_virgl,
  context_submit_3d, context_create_blob, context_map_blob, context_unmap_blob, ignored,
}

pub record Blob (Offset : Type 0) : Type 0 where
  pub id : ℕ
  pub mem : ℕ
  pub flags : ℕ
  pub info : Option BlobInfo
  pub map : Option Offset
  pub size : ℕ

-- `VirtioResource`; of a 3D resource, its size only.
pub data Resource (Offset : Type 0) : Type 0 where
  resource_3d : ℕ → Resource Offset
  blob : Blob Offset → Resource Offset

pub record Allocation (Offset : Type 0) : Type 0 where
  pub id : ℕ
  pub flags : ℕ
  pub resource : Resource Offset
  pub cmd : Option (List ℕ)

abbrev pub is_blob : {Offset : Type 0} → Resource Offset → Bool
is_blob (resource_3d size) = false
is_blob (blob b) = true

-- `Allocation::new`: a 3D resource has been created already.
unfoldable pub new : {Offset : Type 0} → ℕ → Option (List ℕ) → Resource Offset → Allocation Offset
new id cmd resource = record {
  id = id;
  flags = if is_blob resource then 0 else 1;
  resource = resource;
  cmd = cmd;
}

-- The flags `ALLOCATION_FLAG_CREATED` and `ALLOCATION_FLAG_MAPPED`.
abbrev pub is_created : {Offset : Type 0} → Allocation Offset → Bool
is_created a = a.flags % 2 == 1

abbrev pub is_mapped : {Offset : Type 0} → Allocation Offset → Bool
is_mapped a = a.flags / 2 % 2 == 1

unfoldable pub set_flag_mapped : ℕ → Bool → ℕ
set_flag_mapped flags true = if flags / 2 % 2 == 1 then flags else flags + 2
set_flag_mapped flags false = if flags / 2 % 2 == 1 then flags - 2 else flags

-- An allocation with the channel that its methods use.
pub record Session (h : Host) : Type 0 where
  pub chan : State h.env
  pub alloc : Allocation h.env.Offset

-- What the devices that opened an allocation know of it.
pub record DeviceSpecific : Type 0 where
  pub owned : Bool
  pub virgl : Bool

module _ (h : Host) where
  abbrev pub moved : {A : Type 0} → Run (State h.env) A → Session h → Run (Session h) A
  moved (returned a c) s = returned a (record s { chan = c })
  moved (failed e c) s = failed e (record s { chan = c })
  moved panicked s = panicked

  -- A method of the channel.
  abbrev pub on_chan : {A : Type 0} → Action (State h.env) A → Action (Session h) A
  on_chan m s = moved (m s.chan) s

  -- The offset is in units of pages.
  unfoldable pub mapped_range : Allocation h.env.Offset → Option (ℕ × ℕ)
  mapped_range a = elim (a.resource) [
    | resource_3d size ↦ none
    | blob b ↦ elim (b.map) [
      | none ↦ none
      | some o ↦ some (h.env.offset o * h.env.platform.page_size % u64_size, b.size)
    ]
  ]

  -- The blob with the offset that it is mapped at, or none.
  abbrev pub put_map : Bool → Blob h.env.Offset → Option h.env.Offset → Session h → Session h
  put_map mapped b o s = record s {
    alloc = record (s.alloc) {
      flags = set_flag_mapped s.alloc.flags mapped;
      resource = blob (record b { map = o });
    };
  }

  abbrev pub map_new : Device → Blob h.env.Offset → Action (Session h) (ℕ × ℕ × ℕ)
  map_new d b s =
      continue_with (on_chan (context_map_blob h d s.alloc.id b.size) s)
        (λ r t. returned (r.1, b.size, r.2) (put_map true b (some (r.0)) t))

  abbrev pub map_resource : Device → Resource h.env.Offset → Action (Session h) (ℕ × ℕ × ℕ)
  map_resource d (resource_3d size) s = failed invalid_parameter s
  map_resource d (blob b) s =
      if b.flags % 2 == 1
      then if is_mapped s.alloc then failed already_committed s else map_new d b s
      else failed invalid_parameter s

  -- The place in the memory of the device, the size and how it may be cached.
  unfoldable pub map_blob : Device → Action (Session h) (ℕ × ℕ × ℕ)
  unfolding context_map_blob set_flag_mapped
  map_blob d s = map_resource d s.alloc.resource s

  abbrev pub unmap_taken :
      Device → Blob h.env.Offset → Option h.env.Offset → Action (Session h) (Unit {0})
  unmap_taken d b none s = panicked
  unmap_taken d b (some o) s = on_chan (context_unmap_blob h s.alloc.id o) (put_map false b none s)

  abbrev pub unmap_resource : Device → Resource h.env.Offset → Action (Session h) (Unit {0})
  unmap_resource d (resource_3d size) s = panicked
  unmap_resource d (blob b) s = unmap_taken d b b.map s

  unfoldable pub unmap_blob : Device → Action (Session h) (Unit {0})
  unfolding context_unmap_blob set_flag_mapped
  unmap_blob d s =
      if is_mapped s.alloc then unmap_resource d s.alloc.resource s else failed invalid_parameter s

  abbrev pub put_info : BlobInfo → Resource h.env.Offset → Option (Resource h.env.Offset)
  put_info info (resource_3d size) = none
  put_info info (blob b) = some (blob (record b { info = some info }))

  unfoldable pub set_blob_info :
      BlobInfo → Allocation h.env.Offset → Option (Allocation h.env.Offset)
  set_blob_info info a = Option.map (λ r. record a { resource = r }) (put_info info a.resource)

  -- The first device sends the command that allocates the memory.
  abbrev pub send_cmd : Device → Option (List ℕ) → Action (Session h) (Unit {0})
  send_cmd d none s = returned tt s
  send_cmd d (some cmd) s =
      on_chan (context_submit_3d h d cmd) (record s { alloc = record (s.alloc) { cmd = none } })

  abbrev pub create : Device → Resource h.env.Offset → Action (Session h) (Unit {0})
  create d (resource_3d size) s = returned tt s
  create d (blob b) s = on_chan (context_create_blob h d s.alloc.id b.id b.mem b.flags b.size) s

  abbrev pub create_once : Device → Action (Session h) (Unit {0})
  create_once d s =
      if is_created s.alloc
      then returned tt s
      else create d s.alloc.resource
          (record s { alloc = record (s.alloc) { flags = s.alloc.flags + 1 } })

  abbrev pub runs_virgl : Option (ℕ × CapsetId) → Bool
  runs_virgl none = false
  runs_virgl (some c) = is_virgl (c.1)

  abbrev pub attach : Device → Bool → Action (Session h) DeviceSpecific
  attach d owned s =
      let shadow_virgl =
        not (is_blob s.alloc.resource) && not (runs_virgl (context_internal d false)) in
      on_chan
        (do
          if shadow_virgl then context_attach_virgl h d s.alloc.id else pure tt
          context_attach_resource_internal h d s.alloc.id false
          pure (record { owned = owned; virgl = shadow_virgl }))
        s

  -- `DeviceSpecificAllocation::new`.
  unfoldable pub open_on : Device → Bool → Action (Session h) DeviceSpecific
  unfolding context_internal context_submit_3d context_create_blob context_attach_virgl
      context_attach_resource_internal
  open_on d owned s =
      continue_with (send_cmd d s.alloc.cmd s)
        (λ u t. continue_with (create_once d t) (λ v. attach d owned))

  abbrev pub unmap_last : Resource h.env.Offset → ℕ → Action (State h.env) (Unit {0})
  unmap_last (resource_3d size) id s = panicked
  unmap_last (blob b) id s = elim (b.map) [
    | none ↦ panicked
    | some o ↦ ignored h (resource_unmap_blob h id o) s
  ]

  -- `Adapter::destroy_allocation_inner`.
  unfoldable pub destroy_allocation_inner :
      Allocation h.env.Offset → Action (State h.env) (Unit {0})
  unfolding resource_unmap_blob resource_unref
  destroy_allocation_inner a = do
    (if is_mapped a then unmap_last a.resource a.id else pure tt)
    ignored h (resource_unref h a.id)
