-- ===== src/Engines/Tests.antt =====
-- The fence notifications at concrete inputs.
use virtio_drivers_windows.Base.{
  ℕ, ◌+◌, ◌≡◌, refl, [], ◌∷◌, arith, ok, panic, contains, ◌&&◌, leb, ltb,
}
use virtio_drivers_windows.Nodes.{graphics, copy}
use virtio_drivers_windows.Engines.{
  EngineState, World, fresh, dma_completed, dma_preempted, notify_dma_completed, notify_fence,
  notify_queued_fences, drain, insert, report_preemption,
}
use virtio_drivers_windows.Engines.Notify.{
  IsValid, Notified, notify_dma_completed-Notified, notify_dma_completed_missed,
}
use virtio_drivers_windows.Engines.Drain.{completions}
use virtio_drivers_windows.Engines.Order.{notify_each, notify_each_in_order}

abbrev ticks : ℕ → ℕ
ticks n = 100 + n

abbrev quiet : World
quiet = record { sent = []; reads = 0 }

-- Fences 1 to 3 submitted, the second completed, and a preemption requested.
abbrev busy : EngineState
busy = record fresh { last_submitted_fence = 2; last_preemption_fence = 9; pending_fences = 2 ∷ [] }

abbrev reported : World
reported = record {
  sent = dma_completed copy 1 ∷ dma_completed copy 2 ∷ dma_preempted copy 9 2 ∷ [];
  reads = 2;
}

busy-IsValid : IsValid busy
busy-IsValid = omega arith

notify_busy :
    notify_dma_completed ticks copy 1 busy quiet
    ≡ ok (
      record busy {
        last_completed_fence = 2;
        last_preemption_fence = 0;
        pending_fences = [];
        last_completed_timestamp = 101;
      },
      reported,
    )
unfolding notify_dma_completed notify_fence notify_queued_fences drain insert report_preemption
notify_busy = refl

notify_dma_completed-Notified_example :
    (s' : EngineState) × (w' : World) × (notify_dma_completed ticks copy 1 busy quiet ≡ ok (s', w'))
    × Notified copy 1 busy quiet s' w'
notify_dma_completed-Notified_example =
    notify_dma_completed-Notified ticks copy 1 busy quiet busy-IsValid (omega arith) (omega arith)

-- The counter of fences has wrapped: the fence 0 completes before the fence 2 ^ 32 - 1.
abbrev wrapping : EngineState
wrapping = record fresh { last_completed_fence = 0xffff_fffe }

notify_dma_completed_missed_example : notify_dma_completed ticks copy 0 wrapping quiet ≡ panic
notify_dma_completed_missed_example =
    notify_dma_completed_missed ticks copy 0 wrapping quiet (omega arith) (omega arith)
      (omega arith)

covers :
    (a : ℕ)
    → contains (3 ∷ 1 ∷ 2 ∷ []) a
      ≡ (ltb fresh.last_completed_fence a && leb a (fresh.last_completed_fence + 3))
covers a = ground arith

notify_each_in_order_example :
    (s' : EngineState) × (w' : World) × (notify_each ticks graphics (3 ∷ 1 ∷ 2 ∷ []) fresh quiet
      ≡ ok (s', w'))
    × (s'.last_completed_fence ≡ 3)
    × (s'.pending_fences ≡ [])
    × (w'.sent ≡ completions graphics 0 3)
notify_each_in_order_example =
    notify_each_in_order ticks graphics 3 (3 ∷ 1 ∷ 2 ∷ []) fresh quiet (omega arith) refl refl
      (omega arith) (ground arith) covers
