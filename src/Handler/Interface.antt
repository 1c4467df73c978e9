-- ===== src/Handler/Interface.antt =====
-- What the queue handler relies on: the virtqueue of virtio-drivers, its request and response
-- headers, the queues of crossbeam, the addresses of buffers and the performance counter.
use virtio_drivers_windows.Base.{ℕ, ◌<◌, ◌≡◌, ◌⊎◌, inr, Bool, Option, none, some, List, [], ◌∷◌}
use virtio_drivers_windows.Nodes.{Engine}
use virtio_drivers_windows.Buffers.{MaybeInlineBuffer}
use virtio_drivers_windows.Channel.Crossbeam.{ArrayQueue, SegQueue}
use virtio_drivers_windows.Handler.Errors.{VirtioError}

-- `Arc<DeviceSpecificAllocation>`s: whether the device of each still exists, and which allocation it is.
abbrev pub AllocationsBatch : Type 0
AllocationsBatch = List (Bool × ℕ)

-- What to do when a request has completed. A blocking buffer and a shared batch are named by number.
pub data Callback : Type 0 where
  nothing : Callback
  set_event : ℕ → Callback
  free_context_id : ℕ → Callback
  free_resource_id : ℕ → Callback
  dma_completed : Engine → ℕ → Callback
  dma_completed_with_allocations : Engine → ℕ → AllocationsBatch → Callback
  dma_completed_batched : Engine → ℕ → ℕ → Callback

pub record Buffer : Type 0 where
  pub input : MaybeInlineBuffer
  pub output : MaybeInlineBuffer
  pub callback : Callback

pub record Platform : Type 1 where
  -- `SIZE`, `PAGE_SIZE`.
  pub size : ℕ
  pub page_size : ℕ
  -- `VirtQueue`. A buffer is added under a token below the size of the queue. `pop_used` returns how
  -- many bytes the device wrote, and what they leave in the output.
  pub VirtQueue : Type 0
  pub add : VirtQueue → List ℕ → List ℕ → (VirtioError ⊎ ℕ) × VirtQueue
  pub peek_used : VirtQueue → Option ℕ
  pub pop_used : VirtQueue → ℕ → List ℕ → List ℕ → (VirtioError ⊎ (ℕ × List ℕ)) × VirtQueue
  pub should_notify : VirtQueue → Bool
  pub add_token : (q : VirtQueue) (i o : List ℕ) (t : ℕ) → (add q i o).0 ≡ inr t → t < size
  pub peek_token : (q : VirtQueue) (t : ℕ) → peek_used q ≡ some t → t < size
  -- `CtrlHeader`, with the tests of its fields that the handler makes, and `ResourceUnref`.
  pub CtrlHeader : Type 0
  pub read_from_prefix : List ℕ → Option CtrlHeader
  pub is_error : CtrlHeader → Bool
  pub is_response : CtrlHeader → Bool
  pub is_cursor : CtrlHeader → Bool
  pub is_resource_unref : CtrlHeader → Bool
  pub has_fence : CtrlHeader → Bool
  pub fence_id : CtrlHeader → ℕ
  pub ResourceUnref : Type 0
  pub read_resource_unref : List ℕ → Option ResourceUnref
  -- The queues of the free slots and of the waiting requests.
  pub free_queue : ArrayQueue ℕ
  pub fast_queue : ArrayQueue Buffer
  pub slow_queue : SegQueue Buffer
  -- Where the bytes of the input and of the output in a slot are.
  pub input_addr : ℕ → MaybeInlineBuffer → ℕ
  pub output_addr : ℕ → MaybeInlineBuffer → ℕ
  -- `ke_query_performance_counter`.
  pub counter : ℕ → ℕ

-- What the device has used, in the order in which `pop_used` gives it up. The buffers are those that
-- the token was added with.
pub record UsedRing (p : Platform) : Type 0 where
  pub tokens : p.VirtQueue → List ℕ
  pub peek_none : (q : p.VirtQueue) → tokens q ≡ [] → p.peek_used q ≡ none
  pub peek_first :
      (q : p.VirtQueue) (t : ℕ) (ts : List ℕ) → tokens q ≡ t ∷ ts → p.peek_used q ≡ some t
  pub pop_first :
      (q : p.VirtQueue) (t : ℕ) (ts sent received : List ℕ)
      → tokens q ≡ t ∷ ts
      → (written : ℕ × List ℕ) × (rest : p.VirtQueue) × (p.pop_used q t sent received
          ≡ (inr written, rest))
        × (tokens rest ≡ ts)
