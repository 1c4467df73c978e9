-- ===== src/Handler/Data.antt =====
-- What finishing a request changes outside of the queue: the parts of `GpuData` that the handler
-- uses, blocking buffers, batches of allocations and the allocations, of gpu-wddm/src/queue.rs. What
-- the source shares by `Arc` stands in a map of its own, under the number that names it.
use virtio_drivers_windows.Base.{
  ℕ, ◌-◌, Bool, Option, none, some, List, [], ◌∷◌, Outcome, ok, ◌>>=◌, ◌>>◌, assert, unwrap,
  get_elem?, set, ◌==◌, if◌then◌else◌,
}
use virtio_drivers_windows.Buffers.{MaybeInlineBuffer}
use virtio_drivers_windows.Busy.{Allocation, mark_free}
use virtio_drivers_windows.Engines.{EngineState, World}
use virtio_drivers_windows.Engines
use virtio_drivers_windows.Ids.{SimpleIdAllocator}
use virtio_drivers_windows.Nodes.{Engine, node_ordinal}
use virtio_drivers_windows.Tracker.{FenceTracker, signal}
use virtio_drivers_windows.Handler.{update}
use virtio_drivers_windows.Handler.Interface.{AllocationsBatch}

-- `BlockingBuffer`. The sender waits for `event`.
pub record BlockingBuffer : Type 0 where
  pub event : Bool
  pub cancel : Bool
  -- The field `data` of the source.
  pub response : Option MaybeInlineBuffer

-- A batch in an `Arc`, with the strong count.
pub record SharedBatch : Type 0 where
  pub strong_count : ℕ
  pub batch : AllocationsBatch

-- `allocations` has `none` for an allocation that no longer exists.
pub record GpuData : Type 0 where
  pub resource_id : SimpleIdAllocator
  pub context_id : SimpleIdAllocator
  pub fence : FenceTracker
  pub engines : List EngineState
  pub world : World
  pub blocks : ℕ → BlockingBuffer
  pub batches : ℕ → SharedBatch
  pub allocations : ℕ → Option Allocation

abbrev pub write : BlockingBuffer → MaybeInlineBuffer → BlockingBuffer
write b response = record b { response = some response }

-- `AllocationsBatch::drop`; the flag is whether the device of the allocation still exists.
unfoldable pub drop_batch : AllocationsBatch → GpuData → Outcome GpuData
drop_batch [] d = ok d
drop_batch ((device, a) ∷ rest) d =
    assert device
    >> drop_batch rest (elim (d.allocations a) [
      | some alloc ↦ record d { allocations = update d.allocations a (some (mark_free alloc)) }
      | none ↦ d
    ])

-- `Arc::into_inner`: the batch, if this was the last reference to it.
unfoldable pub into_inner : ℕ → GpuData → Option AllocationsBatch × GpuData
into_inner k d =
    let shared = d.batches k in
    let d' = record d {
      batches = update d.batches k (record shared { strong_count = shared.strong_count - 1 });
    } in
    if shared.strong_count == 1 then (some shared.batch, d') else (none, d')

unfoldable pub notify_dma_completed : (ℕ → ℕ) → Engine → ℕ → GpuData → Outcome GpuData
notify_dma_completed counter engine fence d = do
  n ← node_ordinal engine
  state ← unwrap (get_elem? d.engines n)
  (state', world) ← Engines.notify_dma_completed counter engine fence state d.world
  ok (record d { engines = set d.engines n state'; world = world })

-- `data.fence.signal` of the fence of the response, if it has one.
unfoldable pub signal_fence : Option ℕ → GpuData → Outcome GpuData
signal_fence none d = ok d
signal_fence (some fence) d = do tracker ← signal d.fence fence; ok (record d { fence = tracker })

-- `self.data.engines[engine.node_ordinal()].submit(fence)`, with which a submission starts.
unfoldable pub submit_engine : (ℕ → ℕ) → Engine → ℕ → GpuData → Outcome GpuData
submit_engine counter engine fence d = do
  n ← node_ordinal engine
  state ← unwrap (get_elem? d.engines n)
  let (state', world) = Engines.submit counter state d.world fence
  ok (record d { engines = set d.engines n state'; world = world })
