-- ===== src/Requests/Queues.antt =====
-- `QueueChannel`: a request goes into the queue of the handler, with a callback that the handler runs;
-- a blocking request waits for its callback.
use virtio_drivers_windows.Base.{
  Outcome, ℕ, suc, Bool, true, false, Option, none, some, List, Status, io_device_error, no_memory,
  ◌⊎◌, inl, inr, length, take, leb, if◌then◌else◌,
}
use virtio_drivers_windows.Buffers.{
  MaybeInlineBuffer, dma, try_new_zeroed_size, try_from_value, as_ref,
}
use virtio_drivers_windows.Channel.{push_async}
use virtio_drivers_windows.Handler.{update}
use virtio_drivers_windows.Handler.Data.{drop_batch, GpuData, BlockingBuffer}
use virtio_drivers_windows.Handler.Errors.{VirtioError, from_virtio_error}
use virtio_drivers_windows.Handler.Interface.{AllocationsBatch, Buffer, Callback}
use virtio_drivers_windows.Nodes.{Engine}
use virtio_drivers_windows.Wire.{Message, ControlType, CtrlHeader}
use virtio_drivers_windows.Wire.Headers
use virtio_drivers_windows.Requests.{State, Host}
use virtio_drivers_windows.Requests.Monad.{
  or_drop, continue_with, Run, returned, failed, panicked, Action, pure, fail, ◌>>=◌, ◌>>◌, lift,
  some_or, inspect_err, gets, modify,
}

-- The two channels, `ControlChannel` and `CursorChannel`.
pub data Target : Type 0 where
  control cursor : Target

-- `DEFAULT_BLOCKING_TIMEOUT`, in milliseconds.
abbrev pub default_blocking_timeout : ℕ
default_blocking_timeout = 5000

abbrev pub new_block : BlockingBuffer
new_block = record { event = false; cancel = false; response = none }

module _ (h : Host) where
  abbrev pub max_in : Target → ℕ
  max_in Target.control = h.env.control_in
  max_in Target.cursor = h.env.cursor_in

  abbrev pub max_out : Target → ℕ
  max_out Target.control = h.env.control_out
  max_out Target.cursor = h.env.cursor_out

  -- Whether there is memory this time.
  abbrev pub ask : Action (State h.env) Bool
  ask s = returned (h.env.memory s.asked) (record s { asked = suc s.asked })

  unfoldable pub push_buffer : Target → Buffer → State h.env → State h.env
  push_buffer Target.control b s = record s {
    control = push_async h.env.platform.fast_queue h.env.platform.slow_queue s.control b;
  }
  push_buffer Target.cursor b s = record s {
    cursor = push_async h.env.platform.fast_queue h.env.platform.slow_queue s.cursor b;
  }

  abbrev pub value_buffer : Target → Message → Action (State h.env) MaybeInlineBuffer
  value_buffer t req = ask >>= λ memory.
      lift (try_from_value h.env.platform.page_size (max_in t) memory (h.env.wire.bytes req))

  -- `MaybeInlineBuffer::try_new_zeroed`, for a response of a size.
  abbrev pub zeroed_buffer : Target → ℕ → Action (State h.env) MaybeInlineBuffer
  zeroed_buffer t size =
      ask >>= λ memory. lift (try_new_zeroed_size h.env.platform.page_size (max_out t) memory size)

  unfoldable pub request_async_buf :
      Target → MaybeInlineBuffer → MaybeInlineBuffer → Callback → Action (State h.env) (Unit {0})
  request_async_buf t input output callback =
      modify (push_buffer t (record { input = input; output = output; callback = callback }))

  unfoldable pub request_async_into_buf :
      Target → Message → MaybeInlineBuffer → Callback → Action (State h.env) (Unit {0})
  unfolding request_async_buf
  request_async_into_buf t req output callback = do
    input ← value_buffer t req
    request_async_buf t input output callback

  -- For a response of a size.
  unfoldable pub request_async : Target → ℕ → Message → Callback → Action (State h.env) (Unit {0})
  unfolding request_async_into_buf
  request_async t size req callback = do
    output ← zeroed_buffer t size
    request_async_into_buf t req output callback

  -- `BlockingBuffer::new`: its number.
  abbrev pub make_block : Action (State h.env) ℕ
  make_block = ask >>= λ memory.
      if memory
      then gets (λ s. (
        s.made,
        record s {
          gpu = record (s.gpu) { blocks = update s.gpu.blocks s.made new_block };
          made = suc s.made;
        },
      ))
      else fail no_memory

  abbrev pub cancel_block : ℕ → State h.env → State h.env
  cancel_block b s = record s {
    gpu = record (s.gpu) {
      blocks = update s.gpu.blocks b (record (s.gpu.blocks b) { cancel = true });
    };
  }

  -- `BlockingBuffer::read`, which takes the response.
  abbrev pub read_block : ℕ → Action (State h.env) (Option MaybeInlineBuffer)
  read_block b = gets (λ s. (
    (s.gpu.blocks b).response,
    record s {
      gpu = record (s.gpu) {
        blocks = update s.gpu.blocks b (record (s.gpu.blocks b) { response = none });
      };
    },
  ))

  abbrev pub ended : (Status ⊎ Unit {0}) × State h.env → Run (State h.env) (Unit {0})
  ended (inl e, s) = failed e s
  ended (inr u, s) = returned u s

  abbrev pub wait_block : ℕ → ℕ → Action (State h.env) (Unit {0})
  wait_block b timeout s = ended (h.wait b timeout s)

  unfoldable pub request_blocking_buf :
      Target → MaybeInlineBuffer → MaybeInlineBuffer → ℕ → Action (State h.env) MaybeInlineBuffer
  unfolding request_async_buf
  request_blocking_buf t input output timeout = do
    block ← make_block
    request_async_buf t input output (Callback.set_event block)
    inspect_err (wait_block block timeout) (cancel_block block)
    response ← read_block block
    some_or response io_device_error

  unfoldable pub request_blocking_into_buf :
      Target → Message → MaybeInlineBuffer → Action (State h.env) MaybeInlineBuffer
  unfolding request_blocking_buf
  request_blocking_into_buf t req output = do
    input ← value_buffer t req
    request_blocking_buf t input output default_blocking_timeout

  -- `read_from_prefix` with its `unwrap`: as many bytes as the response has.
  abbrev pub read_from_prefix : ℕ → List ℕ → Action (State h.env) (List ℕ)
  read_from_prefix size bytes s =
      if leb size (length bytes) then returned (take size bytes) s else panicked

  unfoldable pub request_blocking : Target → ℕ → Message → Action (State h.env) (List ℕ)
  unfolding request_blocking_into_buf as_ref
  request_blocking t size req = do
    output ← zeroed_buffer t size
    response ← request_blocking_into_buf t req output
    bytes ← lift (as_ref response)
    read_from_prefix size bytes

  unfoldable pub request_blocking_with_timeout :
      Target → ℕ → Message → ℕ → Action (State h.env) (List ℕ)
  unfolding request_blocking_buf as_ref
  request_blocking_with_timeout t size req timeout = do
    input ← value_buffer t req
    output ← zeroed_buffer t size
    response ← request_blocking_buf t input output timeout
    bytes ← lift (as_ref response)
    read_from_prefix size bytes

  abbrev pub dma_callback : Engine → ℕ → Option AllocationsBatch → Callback
  dma_callback engine fence (some allocations) =
      Callback.dma_completed_with_allocations engine fence allocations
  dma_callback engine fence none = Callback.dma_completed engine fence

  abbrev pub changed : Outcome GpuData → Action (State h.env) (Unit {0})
  changed o s = continue_with (lift o s) (λ d s'. returned tt (record s' { gpu = d }))

  -- A call on what the channel shares with the handler.
  abbrev pub on_gpu : (GpuData → Outcome GpuData) → Action (State h.env) (Unit {0})
  on_gpu f s = changed (f s.gpu) s

  -- The end of the scope of a batch that was passed by value.
  abbrev pub drop_allocations : Option AllocationsBatch → Action (State h.env) (Unit {0})
  drop_allocations none = pure tt
  drop_allocations (some allocations) = on_gpu (drop_batch allocations)

  -- On the bytes that the pointer leads to.
  unfoldable pub request_async_dma :
      Target → ℕ → List ℕ → Engine → ℕ → Option AllocationsBatch → Action (State h.env) (Unit {0})
  unfolding request_async_buf
  request_async_dma t size bytes engine fence allocations = do
    output ← or_drop (zeroed_buffer t size) (drop_allocations allocations)
    request_async_buf t (dma bytes) output (dma_callback engine fence allocations)

  -- The batch is named by its number.
  unfoldable pub request_async_dma_batched :
      Target → ℕ → List ℕ → Engine → ℕ → ℕ → Action (State h.env) (Unit {0})
  request_async_dma_batched t size bytes engine fence batch = do
    output ← zeroed_buffer t size
    modify (
        push_buffer t (record {
          input = dma bytes;
          output = output;
          callback = Callback.dma_completed_batched engine fence batch;
        }))

  -- `GpuChannel::new_header` on the tracker of the channel.
  abbrev pub new_header : ControlType → Bool → Option ℕ → Option ℕ → Action (State h.env) CtrlHeader
  new_header hdr_type fence context ring = gets (λ s.
      let (header, t) = Headers.new_header hdr_type fence context ring s.gpu.fence in
      (header, record s { gpu = record (s.gpu) { fence = t } }))

  -- `map_virtio_error!(response.check_type(expected))`.
  abbrev pub checked : VirtioError ⊎ Unit {0} → Action (State h.env) (Unit {0})
  checked (inl e) = fail (from_virtio_error e)
  checked (inr u) = pure u

  abbrev pub check : List ℕ → ControlType → Action (State h.env) (Unit {0})
  check response expected = checked (h.env.wire.check_type response expected)
