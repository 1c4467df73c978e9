-- ===== src/Devices.antt =====
-- `Device` of gpu-wddm/src/device.rs: the contexts of a process at the device, and the requests that
-- go through them. Its command buffers and presents are left out.
pub mod Blits
mod Tests
use virtio_drivers_windows.Base.{
  ℕ, ◌++◌, ◌/◌, ◌%◌, Bool, true, false, Option, none, some, List, length, drop, leb, ◌==◌,
  if◌then◌else◌, reinitialization_needed, not_supported, buffer_too_small,
}
use virtio_drivers_windows.Commands.Dma.{wrapping_sub}
use virtio_drivers_windows.Wire.{Message, ControlType, size_cmd_submit_3d}
use virtio_drivers_windows.Requests.{State, Host}
use virtio_drivers_windows.Requests.Monad.{
  Run, returned, failed, panicked, Action, pure, fail, ◌>>=◌, ◌>>◌, some_or, attempt,
}
use virtio_drivers_windows.Requests.Queues.{new_header}
use virtio_drivers_windows.Requests.Contexts
use virtio_drivers_windows.Requests.Contexts.{
  CapsetId, virgl, virgl2, gfxstream, venus, cross_domain, drm,
}
use virtio_drivers_windows.Requests.Capsets.{capset_mask}
use virtio_drivers_windows.Requests.Resources
use virtio_drivers_windows.Requests.Submits.{submit_async}

pub record Context3d : Type 0 where
  pub id : ℕ
  pub capset : CapsetId

-- `query_buffer` is the identifier of the resource.
pub record Device : Type 0 where
  pub main_context : Option Context3d
  pub virgl_blit_context : Option Context3d
  pub query_buffer : Option ℕ

abbrev pub is_virgl : CapsetId → Bool
is_virgl virgl = true
is_virgl virgl2 = true
is_virgl gfxstream = false
is_virgl venus = false
is_virgl cross_domain = false
is_virgl drm = false

-- Whether a context of such a capset has another one beside it for blits.
abbrev pub has_shadow : CapsetId → Bool
has_shadow virgl = false
has_shadow virgl2 = false
has_shadow gfxstream = false
has_shadow venus = true
has_shadow cross_domain = false
has_shadow drm = true

abbrev pub named : Option Context3d → Option (ℕ × CapsetId)
named none = none
named (some c) = some (c.id, c.capset)

unfoldable pub context_internal : Device → Bool → Option (ℕ × CapsetId)
context_internal d true = named d.virgl_blit_context
context_internal d false = named d.main_context

abbrev pub virgl_beside : Option Context3d → Option Context3d → Option (ℕ × CapsetId)
virgl_beside blit none = none
virgl_beside blit (some main) =
    if is_virgl main.capset then some (main.id, main.capset) else named blit

unfoldable pub context_virgl : Device → Option (ℕ × CapsetId)
context_virgl d = virgl_beside d.virgl_blit_context d.main_context

-- A device with the channel that its methods use.
pub record Opened (h : Host) : Type 0 where
  pub chan : State h.env
  pub device : Device

module _ (h : Host) where
  abbrev pub context_of : Device → Bool → Action (State h.env) (ℕ × CapsetId)
  context_of d shadow_virgl = some_or (context_internal d shadow_virgl) reinitialization_needed

  unfoldable pub context_attach_resource_internal :
      Device → ℕ → Bool → Action (State h.env) (Unit {0})
  unfolding context_internal Contexts.context_attach_resource
  context_attach_resource_internal d res_id shadow_virgl = do
    c ← context_of d shadow_virgl
    Contexts.context_attach_resource h c.0 res_id

  unfoldable pub context_detach_resource_internal :
      Device → ℕ → Bool → Action (State h.env) (Unit {0})
  unfolding context_internal Contexts.context_detach_resource
  context_detach_resource_internal d res_id shadow_virgl = do
    c ← context_of d shadow_virgl
    Contexts.context_detach_resource h c.0 res_id

  unfoldable pub context_attach_virgl : Device → ℕ → Action (State h.env) (Unit {0})
  unfolding context_attach_resource_internal
  context_attach_virgl d res_id = context_attach_resource_internal d res_id true

  -- The header over the first bytes of the data, which has a place for it.
  unfoldable pub context_submit_3d : Device → List ℕ → Action (State h.env) (Unit {0})
  unfolding context_internal submit_async
  context_submit_3d d cmd = do
    c ← context_of d false
    header ← new_header h ControlType.submit_3d false (some c.0) none
    let bytes =
        h.env.wire.bytes
          (Message.cmd_submit_3d header (wrapping_sub (length cmd) size_cmd_submit_3d))
    if leb (length bytes) (length cmd) then pure tt else fail buffer_too_small
    submit_async h (bytes ++ drop (length bytes) cmd)

  unfoldable pub context_create_blob : Device → ℕ → ℕ → ℕ → ℕ → ℕ → Action (State h.env) (Unit {0})
  unfolding context_internal Resources.resource_create_blob
  context_create_blob d res_id blob_id mem flags size = do
    c ← context_of d false
    Resources.resource_create_blob h c.0 res_id blob_id mem flags size

  unfoldable pub context_map_blob : Device → ℕ → ℕ → Action (State h.env) (h.env.Offset × ℕ × ℕ)
  unfolding context_internal Resources.resource_map_blob
  context_map_blob d res_id size = do
    c ← context_of d false
    Resources.resource_map_blob h c.0 res_id size

  unfoldable pub context_unmap_blob : ℕ → h.env.Offset → Action (State h.env) (Unit {0})
  unfolding Resources.resource_unmap_blob
  context_unmap_blob res_id offset = Resources.resource_unmap_blob h res_id offset

  -- `Context3D::try_new`.
  abbrev pub try_new_context : CapsetId → List ℕ → Action (State h.env) Context3d
  try_new_context capset name = do
    id ← Contexts.context_create h capset name
    pure (record { id = id; capset = capset })

  abbrev pub put_blit : Run (State h.env) Context3d → Device → Run (Opened h) (Unit {0})
  put_blit (returned c s) d =
      returned tt (record { chan = s; device = record d { virgl_blit_context = some c } })
  put_blit (failed e s) d = failed e (record { chan = s; device = d })
  put_blit panicked d = panicked

  -- The new main context, and the one for blits where it needs one.
  abbrev pub init_with :
      ℕ → CapsetId → List ℕ → Device → Run (State h.env) Context3d → Run (Opened h) (Unit {0})
  init_with supported capset shadow_name d (returned c s) =
      let d' = record d { main_context = some c } in
      if has_shadow capset
      then put_blit
          (try_new_context (if supported / capset_mask virgl2 % 2 == 1 then virgl2 else virgl)
            shadow_name s)
          d'
      else returned tt (record { chan = s; device = d' })
  init_with supported capset shadow_name d (failed e s) = failed e (record { chan = s; device = d })
  init_with supported capset shadow_name d panicked = panicked

  -- `shadow_name` is the text that the names of a context for blits are formatted to.
  unfoldable pub init_context : ℕ → CapsetId → List ℕ → List ℕ → Action (Opened h) (Unit {0})
  unfolding Contexts.context_create
  init_context supported capset debug_name shadow_name s =
      if supported / capset_mask capset % 2 == 1
      then init_with supported capset shadow_name s.device
          (try_new_context capset debug_name s.chan)
      else failed not_supported s

  -- What a failed call of `drop` leaves undone is not repeated.
  abbrev pub ignored : Action (State h.env) (Unit {0}) → Action (State h.env) (Unit {0})
  ignored m = attempt m >>= λ r. pure tt

  abbrev pub destroy_context : Option Context3d → Action (State h.env) (Unit {0})
  destroy_context none = pure tt
  destroy_context (some c) = ignored (Contexts.context_destroy h c.id)

  abbrev pub detach_query : Option Context3d → ℕ → Action (State h.env) (Unit {0})
  detach_query none id = pure tt
  detach_query (some blit) id = ignored (Contexts.context_detach_resource h blit.id id)

  abbrev pub drop_query : Option Context3d → Option ℕ → Action (State h.env) (Unit {0})
  drop_query blit none = pure tt
  drop_query blit (some id) = do
    ignored (Resources.resource_detach_backing h id)
    detach_query blit id
    ignored (Resources.resource_unref h id)

  unfoldable pub drop_device : Device → Action (State h.env) (Unit {0})
  unfolding Contexts.context_destroy Contexts.context_detach_resource
      Resources.resource_detach_backing Resources.resource_unref
  drop_device d = do
    drop_query d.virgl_blit_context d.query_buffer
    destroy_context d.main_context
    destroy_context d.virgl_blit_context
