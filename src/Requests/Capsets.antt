-- ===== src/Requests/Capsets.antt =====
-- What `GpuChannel` asks the device about itself: capsets, displays and their EDIDs.
use virtio_drivers_windows.Base.{
  ℕ, zero, suc, ◌+◌, ◌/◌, ◌%◌, ◌^◌, true, Option, none, some, List, Status, no_memory,
  io_device_error, unsuccessful, ◌⊎◌, inl, inr, length, take, replicate, set, ltb, leb, ◌==◌,
  if◌then◌else◌,
}
use virtio_drivers_windows.Buffers.{as_ref, into_boxed}
use virtio_drivers_windows.Wire.{Message, ControlType, Rect, size_ctrl_header}
use virtio_drivers_windows.Requests.{State, Host}
use virtio_drivers_windows.Requests.Monad.{panicked, Action, pure, fail, ◌>>=◌, ◌>>◌, lift}
use virtio_drivers_windows.Requests.Queues.{
  Target, new_header, check, zeroed_buffer, ask, read_from_prefix, request_blocking,
  request_blocking_into_buf,
}
use virtio_drivers_windows.Requests.Monad.{attempt}
use virtio_drivers_windows.Requests.Contexts.{
  CapsetId, capset_number, virgl, virgl2, gfxstream, venus, cross_domain, drm,
}

pub record CapsetInfo : Type 0 where
  pub version : ℕ
  pub size : ℕ

-- `CapsetId::try_from`.
abbrev pub try_from_u32 : ℕ → Option CapsetId
try_from_u32 v =
    if v == 1
    then some virgl
    else if v == 2
    then some virgl2
    else if v == 3
    then some gfxstream
    else if v == 4
    then some venus
    else if v == 5
    then some cross_domain
    else if v == 6
    then some drm
    else none

-- `CapsetMask::from`, and the bitwise or of a mask and a single bit, which is the `union` of bitflags.
abbrev pub capset_mask : CapsetId → ℕ
capset_mask id = 2 ^ capset_number id

abbrev pub union : ℕ → ℕ → ℕ
union mask bit = if mask / bit % 2 == 1 then mask else mask + bit

abbrev pub Table : Type 0
Table = ℕ × List CapsetInfo

module _ (h : Host) where
  unfoldable pub get_capset_info : ℕ → Action (State h.env) (ℕ × CapsetInfo)
  unfolding request_blocking
  get_capset_info capset_index = do
    header ← new_header h ControlType.get_capset_info true none none
    resp ←
        request_blocking h Target.control h.env.wire.size_resp_capset_info
          (Message.cmd_get_capset_info header capset_index)
    check h resp ControlType.ok_capset_info
    pure (
      h.env.wire.capset_id resp,
      record {
        version = h.env.wire.capset_max_version resp;
        size = h.env.wire.capset_max_size resp;
      },
    )

  -- The capset that the device reported under an index, entered in the mask and the table.
  unfoldable pub enter : Status ⊎ (ℕ × CapsetInfo) → Table → Action (State h.env) Table
  enter (inl e) table = pure table
  enter (inr (id, info)) (mask, infos) = elim (try_from_u32 id) [
    | none ↦ pure (mask, infos)
    | some capset_id ↦
        if ltb (length infos) id
        then pure (mask, infos)
        else if ltb id (length infos)
        then pure (union mask (capset_mask capset_id), set infos id info)
        else (λ s. panicked)
  ]

  -- The loop from `capset_index` on, with `k` left.
  unfoldable pub enter_all : ℕ → ℕ → Table → Action (State h.env) Table
  unfolding enter get_capset_info
  enter_all zero capset_index table = pure table
  enter_all (suc k) capset_index table = do
    reported ← attempt (get_capset_info capset_index)
    table' ← enter reported table
    enter_all k (suc capset_index) table'

  unfoldable pub get_capset_infos : ℕ → Action (State h.env) Table
  unfolding enter_all
  get_capset_infos num_capsets = do
    (mask, infos) ← enter_all num_capsets 0 (0, replicate 64 (record { version = 0; size = 0 }))
    if mask == 0 then fail unsuccessful else pure (mask, infos)

  unfoldable pub get_capset : CapsetId → CapsetInfo → Action (State h.env) (List ℕ)
  unfolding request_blocking_into_buf as_ref into_boxed
  get_capset id info = do
    header ← new_header h ControlType.get_capset true none none
    output ← zeroed_buffer h Target.control (size_ctrl_header + info.size)
    response ←
        request_blocking_into_buf h Target.control
          (Message.cmd_get_capset header (capset_number id) info.version) output
    bytes ← lift (as_ref response)
    hdr ← read_from_prefix h size_ctrl_header bytes
    check h hdr ControlType.ok_capset
    memory ← ask h
    lift (into_boxed memory response size_ctrl_header)

  unfoldable pub get_display_info : Action (State h.env) (List Rect)
  unfolding request_blocking
  get_display_info = do
    header ← new_header h ControlType.get_display_info true none none
    resp ← request_blocking h Target.control h.env.wire.size_resp_display_info (Message.bare header)
    check h resp ControlType.ok_display_info
    pure (h.env.wire.pmodes resp)

  -- `ref_from_prefix` of a response, whose error is turned into a status.
  abbrev pub ref_from_prefix : ℕ → List ℕ → Action (State h.env) (List ℕ)
  ref_from_prefix size bytes =
      if leb size (length bytes) then pure (take size bytes) else fail io_device_error

  -- `Edid`: the bytes, and how many of them count.
  unfoldable pub get_edid : ℕ → Action (State h.env) (List ℕ × ℕ)
  unfolding request_blocking_into_buf as_ref
  get_edid scanout = do
    header ← new_header h ControlType.get_edid true none none
    output ← zeroed_buffer h Target.control h.env.wire.size_resp_edid
    out ← request_blocking_into_buf h Target.control (Message.cmd_get_edid header scanout) output
    bytes ← lift (as_ref out)
    resp ← ref_from_prefix h.env.wire.size_resp_edid bytes
    check h resp ControlType.ok_edid
    memory ← ask h
    if memory then pure (h.env.wire.edid resp, h.env.wire.edid_size resp) else fail no_memory
