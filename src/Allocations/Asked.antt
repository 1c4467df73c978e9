-- ===== src/Allocations/Asked.antt =====
-- What opening an allocation asks of the device.
use virtio_drivers_windows.Base.{
  ℕ, suc, ◌++◌, Bool, true, false, Option, none, some, List, length, drop, ◌≡◌, refl, ◌⊎◌, inl, inr,
  Outcome, ok, reinitialization_needed, buffer_too_small, leb, if◌then◌else◌,
}
use virtio_drivers_windows.Buffers.{MaybeInlineBuffer, boxed, try_new_zeroed_size}
use virtio_drivers_windows.Handler.Errors.{VirtioError}
use virtio_drivers_windows.Handler.Interface.{Callback}
use virtio_drivers_windows.Wire.Headers
use virtio_drivers_windows.Wire.{
  CtrlHeader, Message, ControlType, size_ctrl_header, size_cmd_submit_3d,
}
use virtio_drivers_windows.Requests.{State, Host}
use virtio_drivers_windows.Requests.Monad.{
  Run, returned, failed, panicked, continue_with, pure, fail,
}
use virtio_drivers_windows.Requests.Queues.{
  Target, push_buffer, request_blocking, check, checked, zeroed_buffer, request_async_buf,
}
use virtio_drivers_windows.Requests.Submits.{submit_async}
use virtio_drivers_windows.Requests.Leaving.{Leaves, Leaves-bind, some_or-keeps, lift-keeps}
use virtio_drivers_windows.Requests.Resources.{resource_create_blob}
use virtio_drivers_windows.Devices.{
  Device, context_internal, context_of, context_submit_3d, context_create_blob,
}
use virtio_drivers_windows.Commands.Dma.{wrapping_sub}
use virtio_drivers_windows.Allocations.{Resource, resource_3d, blob}

module _ (h : Host) where
  -- The command for the context of the device, if there is one, is put behind what waits: the bytes of
  -- a header, and those of the command behind these.
  abbrev pub CmdSent : Option (List ℕ) → State h.env → State h.env → Type 0
  CmdSent none c c' = c' ≡ c
  CmdSent (some cmd) c c' =
      (header : CtrlHeader) × (output : MaybeInlineBuffer) × (before : State h.env)
      × (before.control ≡ c.control)
      × (let bytes =
            h.env.wire.bytes
              (Message.cmd_submit_3d header (wrapping_sub (length cmd) size_cmd_submit_3d)) in
          c'
          ≡ push_buffer h Target.control
              (record {
                input = boxed (bytes ++ drop (length bytes) cmd);
                output = output;
                callback = Callback.nothing;
              })
              before)

  -- The device has answered that it has created a resource.
  abbrev pub Accepted : (id mem flags blob_id size : ℕ) → State h.env → State h.env → Type 0
  Accepted id mem flags blob_id size c c' =
      (header : CtrlHeader) × (response : List ℕ) × (before : State h.env) × (before.control
        ≡ c.control)
      × (request_blocking h Target.control size_ctrl_header
            (Message.cmd_resource_create_blob header id mem flags 0 blob_id size) before
          ≡ returned response c')
      × (h.env.wire.check_type response ControlType.ok_nodata ≡ inr tt)

  -- A blob that was not created is now, and nothing is asked for any other resource.
  abbrev pub BlobMade : ℕ → Bool → Resource h.env.Offset → State h.env → State h.env → Type 0
  BlobMade id created (resource_3d size) c c' = c' ≡ c
  BlobMade id true (blob b) c c' = c' ≡ c
  BlobMade id false (blob b) c c' = Accepted id b.mem b.flags b.id b.size c c'

  roomy-keeps :
      (P : State h.env → Type 0) (b : Bool) (s : State h.env)
      → P s
      → Leaves
          (λ (u : Unit {0}) t. P t)
          (λ t. Unit {0})
          ((if b then pure tt else fail buffer_too_small) s)
  roomy-keeps P true s p = p
  roomy-keeps P false s p = tt

  module _ (c : State h.env) where
    abbrev SameControl : State h.env → Type 0
    SameControl t = t.control ≡ c.control

    -- The buffer for the response.
    abbrev zeroed : State h.env → Outcome MaybeInlineBuffer
    zeroed v =
        try_new_zeroed_size h.env.platform.page_size h.env.control_out (h.env.memory v.asked)
          size_ctrl_header

    pub context_submit_3d-CmdSent :
        (d : Device) (cmd : List ℕ)
        → Leaves (λ u t. CmdSent (some cmd) c t) (λ t. Unit {0}) (context_submit_3d h d cmd c)
    unfolding context_submit_3d submit_async request_async_buf
    context_submit_3d-CmdSent d cmd =
        Leaves-bind (λ x t. SameControl t) (λ u t. CmdSent (some cmd) c t) (λ t. Unit {0})
          (context_of h d false c) _
          (some_or-keeps SameControl (context_internal d false) reinitialization_needed c refl)
          λ x t p.
            let (header, f) =
              Headers.new_header ControlType.submit_3d false (some (x.0)) none t.gpu.fence in
            let t' : State h.env = record t { gpu = record (t.gpu) { fence = f } } in
            let bytes =
              h.env.wire.bytes
                (Message.cmd_submit_3d header (wrapping_sub (length cmd) size_cmd_submit_3d)) in
            Leaves-bind (λ u v. SameControl v) (λ u v. CmdSent (some cmd) c v) (λ v. Unit {0})
              ((if leb (length bytes) (length cmd) then pure tt else fail buffer_too_small) t') _
              (roomy-keeps SameControl (leb (length bytes) (length cmd)) t' p)
              λ u v q.
                Leaves-bind (λ output w. SameControl w × (zeroed v ≡ ok output))
                  (λ u w. CmdSent (some cmd) c w) (λ w. Unit {0})
                  (zeroed_buffer h Target.control size_ctrl_header v) _
                  (lift-keeps SameControl (zeroed v) (record v { asked = suc v.asked }) q)
                  λ output w z. (header, output, w, z.0, refl)

    checked-Accepted :
        (id mem flags blob_id size : ℕ) (header : CtrlHeader) (before : State h.env) (resp : List ℕ)
        (t : State h.env) (x : VirtioError ⊎ Unit {0})
        → SameControl before
        → request_blocking h Target.control size_ctrl_header
            (Message.cmd_resource_create_blob header id mem flags 0 blob_id size)
            before
          ≡ returned resp t
        → h.env.wire.check_type resp ControlType.ok_nodata ≡ x
        → Leaves (λ u v. Accepted id mem flags blob_id size c v) (λ v. Unit {0}) (checked h x t)
    checked-Accepted id mem flags blob_id size header before resp t (inl x) p e k = tt
    checked-Accepted id mem flags blob_id size header before resp t (inr u) p e k =
        (header, resp, before, p, e, k)

    answered-Accepted :
        (id mem flags blob_id size : ℕ) (header : CtrlHeader) (before : State h.env)
        (r : Run (State h.env) (List ℕ))
        → SameControl before
        → request_blocking h Target.control size_ctrl_header
            (Message.cmd_resource_create_blob header id mem flags 0 blob_id size)
            before
          ≡ r
        → Leaves
            (λ u v. Accepted id mem flags blob_id size c v)
            (λ v. Unit {0})
            (continue_with r (λ resp. check h resp ControlType.ok_nodata))
    answered-Accepted id mem flags blob_id size header before (returned resp t) p e =
        checked-Accepted id mem flags blob_id size header before resp t
          (h.env.wire.check_type resp ControlType.ok_nodata) p e refl
    answered-Accepted id mem flags blob_id size header before (failed x t) p e = tt
    answered-Accepted id mem flags blob_id size header before panicked p e = tt

    pub context_create_blob-Accepted :
        (d : Device) (id mem flags blob_id size : ℕ)
        → Leaves
            (λ u v. Accepted id mem flags blob_id size c v)
            (λ v. Unit {0})
            (context_create_blob h d id blob_id mem flags size c)
    unfolding context_create_blob resource_create_blob
    context_create_blob-Accepted d id mem flags blob_id size =
        Leaves-bind (λ x t. SameControl t) (λ u v. Accepted id mem flags blob_id size c v)
          (λ v. Unit {0}) (context_of h d false c) _
          (some_or-keeps SameControl (context_internal d false) reinitialization_needed c refl)
          λ x t p.
            let (header, f) =
              Headers.new_header ControlType.resource_create_blob true (some (x.0)) none
                t.gpu.fence in
            let t' : State h.env = record t { gpu = record (t.gpu) { fence = f } } in
            answered-Accepted id mem flags blob_id size header t'
              (request_blocking h Target.control size_ctrl_header
                (Message.cmd_resource_create_blob header id mem flags 0 blob_id size) t')
              p refl
