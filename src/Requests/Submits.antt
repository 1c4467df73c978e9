-- ===== src/Requests/Submits.antt =====
-- The submission of commands to the engines of `GpuChannel`.
use virtio_drivers_windows.Base.{
  ℕ, suc, ◌+◌, ◌%◌, Bool, true, false, not, Option, none, some, List, [], ◌∷◌, unsuccessful, length,
  ltb, if◌then◌else◌, u32_size, unwrap, assert,
}
use virtio_drivers_windows.Buffers.{MaybeInlineBuffer, boxed, dma, try_from_hdr_with_body}
use virtio_drivers_windows.Handler.{update}
use virtio_drivers_windows.Handler.Data.{into_inner, notify_dma_completed, submit_engine}
use virtio_drivers_windows.Handler.Interface.{AllocationsBatch, Callback}
use virtio_drivers_windows.Nodes.{Engine}
use virtio_drivers_windows.Wire.{Message, ControlType, CtrlHeader, size_ctrl_header}
use virtio_drivers_windows.Requests.{State, Host}
use virtio_drivers_windows.Requests.Monad.{Action, pure, ◌>>=◌, ◌>>◌, lift, some_or, gets, modify}
use virtio_drivers_windows.Requests.Queues.{
  Target, new_header, zeroed_buffer, ask, request_async_buf, request_blocking_buf,
  request_async_dma, request_async_dma_batched, default_blocking_timeout,
}
use virtio_drivers_windows.Commands.{Command, CommandId, command_dma}
use virtio_drivers_windows.Requests.Monad.{or_drop}
use virtio_drivers_windows.Requests.Queues.{max_in, on_gpu, drop_allocations}

abbrev pub is_nop : CommandId → Bool
is_nop CommandId.nop = true
is_nop _ = false

module _ (h : Host) where
  abbrev pub notify : Engine → ℕ → Action (State h.env) (Unit {0})
  notify engine fence = on_gpu h (notify_dma_completed h.env.platform.counter engine fence)

  abbrev pub start : Engine → ℕ → Action (State h.env) (Unit {0})
  start engine fence = on_gpu h (submit_engine h.env.platform.counter engine fence)

  unfoldable pub submit_async : List ℕ → Action (State h.env) (Unit {0})
  unfolding request_async_buf
  submit_async bytes = do
    output ← zeroed_buffer h Target.control size_ctrl_header
    request_async_buf h Target.control (boxed bytes) output Callback.nothing

  unfoldable pub submit_command_sync : Command → Action (State h.env) (Unit {0})
  unfolding request_blocking_buf
  submit_command_sync cmd = do
    lift (assert (not (is_nop cmd.id)))
    bytes ← some_or (command_dma cmd) unsuccessful
    output ← zeroed_buffer h Target.control size_ctrl_header
    response ← request_blocking_buf h Target.control (dma bytes) output default_blocking_timeout
    pure tt

  -- Where the function returns early, the allocations are dropped.
  unfoldable pub submit_command :
      Engine → ℕ → Command → Option AllocationsBatch → Action (State h.env) (Unit {0})
  unfolding request_async_dma
  submit_command engine fence cmd allocations = do
    start engine fence
    if is_nop cmd.id
        then (notify engine fence >> drop_allocations h allocations)
        else (or_drop (some_or (command_dma cmd) unsuccessful) (drop_allocations h allocations)
            >>= λ bytes.
                request_async_dma h Target.control size_ctrl_header bytes engine fence allocations)

  -- `Arc::new`: the number of the batch.
  abbrev pub share : AllocationsBatch → Action (State h.env) ℕ
  share allocations = gets (λ s. (
    s.shared,
    record s {
      gpu = record (s.gpu) {
        batches = update s.gpu.batches s.shared (record { strong_count = 1; batch = allocations });
      };
      shared = suc s.shared;
    },
  ))

  abbrev pub clone_batch : ℕ → Action (State h.env) (Unit {0})
  clone_batch k = modify (λ s. record s {
    gpu = record (s.gpu) {
      batches =
          update s.gpu.batches k
            (record (s.gpu.batches k) { strong_count = (s.gpu.batches k).strong_count + 1 });
    };
  })

  abbrev pub take_batch : ℕ → Action (State h.env) (Option AllocationsBatch)
  take_batch k = gets (λ s. let (b, d) = into_inner k s.gpu in (b, record s { gpu = d }))

  -- The end of the scope of a reference to a batch.
  abbrev pub release_batch : ℕ → Action (State h.env) (Unit {0})
  release_batch k = take_batch k >>= drop_allocations h

  -- The loop; after a failure the clone and the batch go out of scope.
  unfoldable pub send_all : Engine → ℕ → ℕ → List Command → Action (State h.env) (Unit {0})
  unfolding request_async_dma_batched
  send_all engine fence k [] = pure tt
  send_all engine fence k (cmd ∷ cmds) = do
    lift (assert (not (is_nop cmd.id)))
    bytes ← lift (unwrap (command_dma cmd))
    clone_batch k
    or_drop (request_async_dma_batched h Target.control size_ctrl_header bytes engine fence k)
        (release_batch k >> release_batch k)
    send_all engine fence k cmds

  abbrev pub set_event : Action (State h.env) (Unit {0})
  set_event = modify (λ s. record s { control = record (s.control) { event = true } })

  abbrev pub last_dropped : Engine → ℕ → Option AllocationsBatch → Action (State h.env) (Unit {0})
  last_dropped engine fence none = pure tt
  last_dropped engine fence (some allocations) =
      drop_allocations h (some allocations) >> notify engine fence

  unfoldable pub submit_command_batch :
      Engine → ℕ → List Command → AllocationsBatch → Action (State h.env) (Unit {0})
  unfolding send_all
  submit_command_batch engine fence cmds allocations = do
    lift (assert (ltb 1 (length cmds)))
    start engine fence
    k ← share allocations
    send_all engine fence k cmds
    set_event
    last ← take_batch k
    last_dropped engine fence last

  -- A header in front of the data, as one buffer.
  abbrev pub submit_buffer :
      ℕ
      → Option ℕ
      → List ℕ
      → Action (State h.env) (CtrlHeader × MaybeInlineBuffer × MaybeInlineBuffer)
  submit_buffer ctx_id ring bytes = do
    header ← new_header h ControlType.submit_3d true (some ctx_id) ring
    memory ← ask h
    input ← lift (
        try_from_hdr_with_body h.env.platform.page_size (max_in h Target.control) memory
          (h.env.wire.bytes (Message.cmd_submit_3d header (length bytes % u32_size))) bytes)
    output ← zeroed_buffer h Target.control size_ctrl_header
    pure (header, input, output)

  unfoldable pub submit_command_buffer :
      Engine → ℕ → ℕ → Option ℕ → List ℕ → Action (State h.env) (Unit {0})
  unfolding request_async_buf
  submit_command_buffer engine fence ctx_id ring bytes = do
    start engine fence
    (header, input, output) ← submit_buffer ctx_id ring bytes
    request_async_buf h Target.control input output (Callback.dma_completed engine fence)

  unfoldable pub submit_command_buffer_with_fence :
      Engine → ℕ → Option ℕ → List ℕ → Action (State h.env) ℕ
  unfolding request_async_buf
  submit_command_buffer_with_fence engine ctx_id ring bytes = do
    (header, input, output) ← submit_buffer ctx_id ring bytes
    request_async_buf h Target.control input output Callback.nothing
    pure header.fence_id
