-- ===== src/Requests/Contexts.antt =====
-- The contexts of `GpuChannel`, and the resources in them.
use virtio_drivers_windows.Base.{
  ℕ, ◌-◌, true, Option, none, some, List, ◌++◌, insufficient_resources, buffer_too_small, length,
  replicate, ltb, if◌then◌else◌,
}
use virtio_drivers_windows.Handler.Interface.{Callback}
use virtio_drivers_windows.Ids.{next_nonzero, free}
use virtio_drivers_windows.Wire.{Message, ControlType, size_ctrl_header}
use virtio_drivers_windows.Requests.{State, Host}
use virtio_drivers_windows.Requests.Monad.{Action, pure, fail, ◌>>=◌, ◌>>◌, some_or, gets}
use virtio_drivers_windows.Requests.Queues.{
  Target, new_header, check, request_async, request_blocking,
}

-- `CapsetId`, and its number.
pub data CapsetId : Type 0 where
  virgl virgl2 gfxstream venus cross_domain drm : CapsetId

abbrev pub capset_number : CapsetId → ℕ
capset_number virgl = 1
capset_number virgl2 = 2
capset_number gfxstream = 3
capset_number venus = 4
capset_number cross_domain = 5
capset_number drm = 6

module _ (h : Host) where
  abbrev pub free_context : ℕ → State h.env → State h.env
  free_context id s = record s { gpu = record (s.gpu) { context_id = free s.gpu.context_id id } }

  abbrev pub next_context_id : Action (State h.env) (Option ℕ)
  next_context_id = gets (λ s.
      let (id, ids) = next_nonzero s.gpu.context_id in
      (id, record s { gpu = record (s.gpu) { context_id = ids } }))

  -- `debug_name` has 64 bytes.
  unfoldable pub context_create : CapsetId → List ℕ → Action (State h.env) ℕ
  unfolding request_blocking
  context_create capset_id name = do
    id ← next_context_id
    ctx_id ← some_or id insufficient_resources
    (if ltb 64 (length name) then fail buffer_too_small else pure tt)
    header ← new_header h ControlType.ctx_create true (some ctx_id) none
    resp ← request_blocking h Target.control size_ctrl_header (
        Message.cmd_ctx_create header (length name) (capset_number capset_id)
          (name ++ replicate (64 - length name) 0))
    check h resp ControlType.ok_nodata
    pure ctx_id

  unfoldable pub context_destroy : ℕ → Action (State h.env) (Unit {0})
  unfolding request_async
  context_destroy id = do
    header ← new_header h ControlType.ctx_destroy true (some id) none
    request_async h Target.control size_ctrl_header (Message.bare header)
        (Callback.free_context_id id)

  unfoldable pub context_attach_resource : ℕ → ℕ → Action (State h.env) (Unit {0})
  unfolding request_blocking
  context_attach_resource ctx_id res_id = do
    header ← new_header h ControlType.ctx_attach_resource true (some ctx_id) none
    resp ←
        request_blocking h Target.control size_ctrl_header (Message.cmd_ctx_resource header res_id)
    check h resp ControlType.ok_nodata

  unfoldable pub context_detach_resource : ℕ → ℕ → Action (State h.env) (Unit {0})
  unfolding request_blocking
  context_detach_resource ctx_id res_id = do
    header ← new_header h ControlType.ctx_detach_resource true (some ctx_id) none
    resp ←
        request_blocking h Target.control size_ctrl_header (Message.cmd_ctx_resource header res_id)
    check h resp ControlType.ok_nodata
