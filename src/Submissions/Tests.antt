-- ===== src/Submissions/Tests.antt =====
-- The fence submissions at concrete inputs.
use virtio_drivers_windows.Base.{ℕ, ◌+◌, ◌≡◌, refl, Bool, true, false, [], ◌∷◌, ok, none}
use virtio_drivers_windows.Nodes.{graphics, copy, node_ordinal}
use virtio_drivers_windows.Engines.{
  World, fresh, dma_completed, notify_fence, notify_queued_fences, drain, insert, report_preemption,
}
use virtio_drivers_windows.Engines
use virtio_drivers_windows.Ids as Ids
use virtio_drivers_windows.Tracker.{query}
use virtio_drivers_windows.Handler.Data.{GpuData, notify_dma_completed}
use virtio_drivers_windows.Submissions.{State, is_timeout, sweep, handle_fence_submissions}
use virtio_drivers_windows.Submissions.Sweep.{
  Fences, count, NoneReady, unready, handle_fence_submissions-count,
  handle_fence_submissions-NoneReady,
}

abbrev ticks : ℕ → ℕ
ticks n = 1000 + n

-- Virtio fences 0 to 2 are issued, and 1 was signaled.
abbrev gpu : GpuData
gpu = record {
  resource_id = Ids.new 1;
  context_id = Ids.new 1;
  fence = record { next_fence = 3; unsignaled = 0 ∷ 2 ∷ [] };
  engines = fresh ∷ fresh ∷ fresh ∷ [];
  world = record { sent = []; reads = 0 };
  blocks = λ b. record { event = false; cancel = false; response = none };
  batches = λ k. record { strong_count = 0; batch = [] };
  allocations = λ a. none;
}

-- The first has been waiting for too long, the third has not.
abbrev waits : State
waits = record {
  gpu = gpu;
  fence_submissions =
      record { engine = graphics; dxgk_fence = 7; virtio_fence = 0; timestamp = 0 }
      ∷ record { engine = copy; dxgk_fence = 1; virtio_fence = 1; timestamp = 990 }
      ∷ record { engine = graphics; dxgk_fence = 8; virtio_fence = 2; timestamp = 990 }
      ∷ [];
}

abbrev all_fences : Fences → Bool
all_fences f = true

abbrev swept : State
swept = record {
  gpu = record gpu {
    engines =
        fresh
        ∷ fresh
        ∷ record fresh { last_completed_fence = 1; last_completed_timestamp = 1002 }
        ∷ [];
    world = record { sent = dma_completed copy 1 ∷ []; reads = 4 };
  };
  fence_submissions =
      record { engine = graphics; dxgk_fence = 8; virtio_fence = 2; timestamp = 990 }
      ∷ record { engine = graphics; dxgk_fence = 7; virtio_fence = 0; timestamp = 1001 }
      ∷ [];
}

waits-swept : handle_fence_submissions ticks 10 waits ≡ ok swept
unfolding handle_fence_submissions sweep is_timeout query notify_dma_completed
    Engines.notify_dma_completed notify_fence notify_queued_fences drain insert report_preemption
    node_ordinal
waits-swept = refl

handle_fence_submissions-count_example :
    count all_fences swept.fence_submissions
    ≡ count all_fences (unready gpu.fence waits.fence_submissions)
handle_fence_submissions-count_example =
    handle_fence_submissions-count ticks 10 waits swept all_fences waits-swept

abbrev two_wait : State
two_wait = record swept { gpu = gpu }

none_ready : NoneReady gpu.fence two_wait.fence_submissions
unfolding query
none_ready = (refl, (refl, tt))

handle_fence_submissions-NoneReady_example :
    (s' : State) × (handle_fence_submissions ticks 10 two_wait ≡ ok s')
    × (s'.gpu.world.sent ≡ [])
    × ((pick : Fences → Bool)
        → count pick s'.fence_submissions ≡ count pick two_wait.fence_submissions)
handle_fence_submissions-NoneReady_example =
    handle_fence_submissions-NoneReady ticks 10 two_wait none_ready
