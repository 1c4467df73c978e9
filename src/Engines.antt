-- ===== src/Engines.antt =====
-- `EngineState` and the fence notifications of `GpuData`, of gpu-wddm/src/queue.rs.
-- The counter of `ke_query_performance_counter` is a parameter: its reading depends on how often it
-- was read before. Locks and atomics are taken one operation at a time.
pub mod Drain
pub mod Notify
pub mod Order
mod Tests
use virtio_drivers_windows.Base.{
  ℕ, suc, ◌+◌, ◌-◌, ◌*◌, ◌%◌, Bool, true, false, ◌||◌, List, [], ◌∷◌, ◌++◌, Outcome, ok, panic,
  ◌>>=◌, ltb, leb, ◌==◌, if◌then◌else◌, u32_size, u64_size,
}
use virtio_drivers_windows.Nodes.{Engine}

-- The interrupts that the driver reports for fences.
pub data Interrupt : Type 0 where
  dma_completed : Engine → ℕ → Interrupt
  dma_preempted : Engine → ℕ → ℕ → Interrupt
  dma_faulted : Engine → ℕ → Interrupt

pub record EngineState : Type 0 where
  pub last_submitted_fence : ℕ
  pub last_completed_fence : ℕ
  pub last_preemption_fence : ℕ
  pub pending_fences : List ℕ
  pub last_submitted_timestamp : ℕ
  pub last_completed_timestamp : ℕ

-- What `GpuData::new` starts every engine with.
abbrev pub fresh : EngineState
fresh = record {
  last_submitted_fence = 0;
  last_completed_fence = 0;
  last_preemption_fence = 0;
  pending_fences = [];
  last_submitted_timestamp = 0;
  last_completed_timestamp = 0;
}

-- What the driver has done to its surroundings: the interrupts notified, in order, and how often it
-- read the performance counter.
pub record World : Type 0 where
  pub sent : List Interrupt
  pub reads : ℕ

abbrev pub notify_interrupt : Interrupt → World → World
notify_interrupt i w = record w { sent = w.sent ++ (i ∷ []) }

-- `BTreeSet::insert` on the ascending list of the set's elements.
unfoldable pub insert : ℕ → List ℕ → List ℕ
insert f [] = f ∷ []
insert f (x ∷ xs) =
    let rest = x ∷ insert f xs in if ltb f x then f ∷ x ∷ xs else if f == x then x ∷ xs else rest

abbrev pub responsive_timeout_sec : ℕ
responsive_timeout_sec = 30

module _ (counter : ℕ → ℕ) where
  abbrev pub submit : EngineState → World → ℕ → EngineState × World
  submit s w fence = (
    record s { last_submitted_fence = fence; last_submitted_timestamp = counter w.reads },
    record w { reads = suc w.reads },
  )

  abbrev pub complete : EngineState → World → ℕ → EngineState × World
  complete s w fence = (
    record s { last_completed_fence = fence; last_completed_timestamp = counter w.reads },
    record w { reads = suc w.reads },
  )

  -- `now - t` wraps.
  unfoldable pub is_responsive : ℕ → EngineState → World → Bool × World
  is_responsive freq s w =
      if s.last_completed_fence == s.last_submitted_fence
      then (true, w)
      else if s.last_submitted_timestamp == 0 || s.last_completed_timestamp == 0
      then (true, w)
      else (
        leb ((counter w.reads + u64_size - s.last_submitted_timestamp) % u64_size)
            (responsive_timeout_sec * freq % u64_size),
        record w { reads = suc w.reads },
      )

  module _ (engine : Engine) where
    -- The loop of `notify_queued_fences`: `last` is its `last_completed`, the list the locked set.
    unfoldable pub drain : ℕ → List ℕ → EngineState → World → Outcome (ℕ × EngineState × World)
    drain last [] s w = ok (last, record s { pending_fences = [] }, w)
    drain last (f ∷ fs) s w =
        let (s', w') = complete s (notify_interrupt (dma_completed engine f) w) f in
        let rest = drain f fs s' w' in
        if (last + 1) % u32_size == f
        then rest
        else if ltb f ((last + 1) % u32_size)
        then panic
        else ok (last, record s { pending_fences = f ∷ fs }, w)

    -- `last_preemption_fence.swap(0)`, and the interrupt if it was set.
    unfoldable pub report_preemption : ℕ → EngineState → World → EngineState × World
    report_preemption last s w =
        let s' = record s { last_preemption_fence = 0 } in
        if s.last_preemption_fence == 0
        then (s', w)
        else (s', notify_interrupt (dma_preempted engine s.last_preemption_fence last) w)

    unfoldable pub notify_queued_fences : EngineState → World → Outcome (EngineState × World)
    notify_queued_fences s w =
        drain s.last_completed_fence s.pending_fences s w >>= λ (last, s', w').
        ok (if last == s'.last_submitted_fence then report_preemption last s' w' else (s', w'))

    -- `notify_cb` notifies the interrupt that it builds of the engine and the fence.
    unfoldable pub notify_fence :
        (Engine → ℕ → Interrupt) → ℕ → EngineState → World → Outcome (EngineState × World)
    notify_fence notify_cb fence s w =
        let (s', w') =
          if (s.last_completed_fence + 1) % u32_size == fence
          then complete s (notify_interrupt (notify_cb engine fence) w) fence
          else (record s { pending_fences = insert fence s.pending_fences }, w) in
        notify_queued_fences s' w'

    unfoldable pub notify_dma_completed : ℕ → EngineState → World → Outcome (EngineState × World)
    notify_dma_completed = notify_fence dma_completed

    unfoldable pub notify_dma_faulted : ℕ → EngineState → World → Outcome (EngineState × World)
    notify_dma_faulted = notify_fence dma_faulted
