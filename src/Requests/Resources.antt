-- ===== src/Requests/Resources.antt =====
-- The resources of `GpuChannel`.
use virtio_drivers_windows.Base.{
  ℕ, ◌*◌, ◌/◌, ◌%◌, true, false, Option, none, some, no_memory, u32_size, u64_size,
}
use virtio_drivers_windows.Handler.Interface.{Callback}
use virtio_drivers_windows.Ids.{next_nonzero, free}
use virtio_drivers_windows.Wire.{Message, ControlType, Rect, Allocate3d, size_ctrl_header}
use virtio_drivers_windows.Requests.{State, Host}
use virtio_drivers_windows.Requests.Monad.{
  Action, pure, ◌>>=◌, ◌>>◌, some_or, inspect_err, gets, modify,
}
use virtio_drivers_windows.Requests.Queues.{
  Target, new_header, check, request_async, request_blocking,
}

module _ (h : Host) where
  abbrev pub next_resource_id : Action (State h.env) (Option ℕ)
  next_resource_id = gets (λ s.
      let (id, ids) = next_nonzero s.gpu.resource_id in
      (id, record s { gpu = record (s.gpu) { resource_id = ids } }))

  -- `self.data.resource_id.free(id)`.
  abbrev pub free_resource : ℕ → State h.env → State h.env
  free_resource id s = record s { gpu = record (s.gpu) { resource_id = free s.gpu.resource_id id } }

  -- A request that gives an identifier back if the device refuses it.
  unfoldable pub send_or_free : ℕ → Message → Action (State h.env) (Unit {0})
  unfolding request_blocking
  send_or_free id req = do
    resp ← request_blocking h Target.control size_ctrl_header req
    inspect_err (check h resp ControlType.ok_nodata) (free_resource id)

  unfoldable pub resource_create_2d : ℕ → ℕ → ℕ → Action (State h.env) ℕ
  unfolding send_or_free
  resource_create_2d width height format = do
    id ← next_resource_id
    resource_id ← some_or id no_memory
    header ← new_header h ControlType.resource_create_2d true none none
    send_or_free resource_id (Message.resource_create_2d header resource_id format width height)
    pure resource_id

  unfoldable pub resource_create_3d : Allocate3d → Action (State h.env) ℕ
  unfolding send_or_free
  resource_create_3d info = do
    id ← next_resource_id
    resource_id ← some_or id no_memory
    header ← new_header h ControlType.resource_create_3d true none none
    send_or_free resource_id (Message.cmd_resource_create_3d header resource_id info)
    pure resource_id

  -- Without entries of guest memory.
  unfoldable pub resource_create_blob : ℕ → ℕ → ℕ → ℕ → ℕ → ℕ → Action (State h.env) (Unit {0})
  unfolding request_blocking
  resource_create_blob ctx_id res_id blob_id mem flags size = do
    header ← new_header h ControlType.resource_create_blob true (some ctx_id) none
    resp ←
        request_blocking h Target.control size_ctrl_header
          (Message.cmd_resource_create_blob header res_id mem flags 0 blob_id size)
    check h resp ControlType.ok_nodata

  abbrev pub allocate_offset : ℕ → Action (State h.env) (Option h.env.Offset)
  allocate_offset pages = gets (λ s.
      let (o, offsets) = h.env.allocate s.offsets pages in (o, record s { offsets = offsets }))

  unfoldable pub resource_map_blob : ℕ → ℕ → ℕ → Action (State h.env) (h.env.Offset × ℕ × ℕ)
  unfolding request_blocking
  resource_map_blob ctx_id res_id size = do
    o ← allocate_offset (size / h.env.platform.page_size % u32_size)
    offset ← some_or o no_memory
    let bar_offset = h.env.offset offset * h.env.platform.page_size % u64_size
    header ← new_header h ControlType.resource_map_blob true (some ctx_id) none
    resp ←
        request_blocking h Target.control h.env.wire.size_resp_map_info
          (Message.cmd_resource_map_blob header res_id bar_offset)
    check h resp ControlType.ok_map_info
    pure (offset, bar_offset, h.env.wire.map_info resp)

  -- The response is not looked at.
  unfoldable pub resource_unmap_blob : ℕ → h.env.Offset → Action (State h.env) (Unit {0})
  unfolding request_blocking
  resource_unmap_blob id offset = do
    modify (λ s. record s { offsets = h.env.free_offset s.offsets offset })
    header ← new_header h ControlType.resource_unmap_blob true none none
    resp ←
        request_blocking h Target.control size_ctrl_header
          (Message.cmd_resource_unmap_blob header id)
    pure tt

  unfoldable pub resource_transfer_to_host_2d : Rect → ℕ → ℕ → Action (State h.env) (Unit {0})
  unfolding send_or_free
  resource_transfer_to_host_2d rect offset resource_id = do
    header ← new_header h ControlType.transfer_to_host_2d true none none
    send_or_free resource_id (Message.transfer_to_host_2d header rect offset resource_id)

  unfoldable pub resource_flush : ℕ → Rect → Action (State h.env) (Unit {0})
  unfolding request_async
  resource_flush id rect = do
    header ← new_header h ControlType.resource_flush false none none
    request_async h Target.control size_ctrl_header (Message.resource_flush header id rect)
        Callback.nothing

  unfoldable pub resource_detach_backing : ℕ → Action (State h.env) (Unit {0})
  unfolding request_blocking
  resource_detach_backing id = do
    header ← new_header h ControlType.resource_detach_backing true none none
    resp ←
        request_blocking h Target.control size_ctrl_header
          (Message.resource_detach_backing header id)
    check h resp ControlType.ok_nodata

  unfoldable pub resource_unref : ℕ → Action (State h.env) (Unit {0})
  unfolding request_async
  resource_unref id = do
    header ← new_header h ControlType.resource_unref true none none
    request_async h Target.control size_ctrl_header (Message.resource_unref header id)
        (Callback.free_resource_id id)
