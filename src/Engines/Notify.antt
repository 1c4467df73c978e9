-- ===== src/Engines/Notify.antt =====
-- `notify_dma_completed`: what one notification reports, and what it leaves pending.
use virtio_drivers_windows.Base.{
  lt→ltb, inr, inl, ◌%◌, panic, Bool-cases, ok, not, ℕ, ◌+◌, ◌-◌, ◌≤◌, ◌<◌, ◌≡◌, refl, ◌&&◌, ◌||◌,
  List, [], ◌∷◌, ◌++◌, append-nil, append_assoc, arith, ltb, leb, ◌==◌, if◌then◌else◌, contains,
  u32_size,
}
use virtio_drivers_windows.Nodes.{Engine}
use virtio_drivers_windows.Engines.{
  dma_completed, notify_interrupt, complete, drain, notify_fence, notify_dma_completed,
  notify_queued_fences, EngineState, World, Interrupt, dma_preempted, insert, report_preemption,
}
use virtio_drivers_windows.Engines.Drain.{
  insert-Above, steps, drain-Drained, Above, completions, contains-insert, Drained,
}

-- The pending fences are ascending, and the fence after the last completed one is not among them.
pub record IsValid (s : EngineState) : Type 0 where
  pub fits : s.last_completed_fence < u32_size
  pub waiting : Above (s.last_completed_fence + 1) s.pending_fences

-- The interrupt for a preemption request that has been waiting for the engine to be idle.
abbrev pub preemptions : Engine → EngineState → ℕ → List Interrupt
preemptions e s last =
    if (last == s.last_submitted_fence) && not (s.last_preemption_fence == 0)
    then dma_preempted e s.last_preemption_fence last ∷ []
    else []

-- What the notification of the fence `f` has done.
pub record Notified (e : Engine) (f : ℕ) (s : EngineState) (w : World) (s' : EngineState)
    (w' : World) : Type 0 where
  pub valid : IsValid s'
  pub grows : s.last_completed_fence ≤ s'.last_completed_fence
  pub submitted : s'.last_submitted_fence ≡ s.last_submitted_fence
  pub preemption :
      s'.last_preemption_fence
      ≡ (if s'.last_completed_fence == s.last_submitted_fence then 0 else s.last_preemption_fence)
  pub reported :
      w'.sent
      ≡ w.sent
        ++ (completions e s.last_completed_fence (s'.last_completed_fence - s.last_completed_fence)
            ++ preemptions e s s'.last_completed_fence)
  pub members :
      (a : ℕ)
      → ((f == a) || contains s.pending_fences a) ≡ (
          (ltb s.last_completed_fence a && leb a s'.last_completed_fence)
          || contains s'.pending_fences a)

Above-mono : {m n : ℕ} (fs : List ℕ) → m ≤ n → Above n fs → Above m fs
Above-mono [] h a = tt
Above-mono (f ∷ fs) h a = (omega arith, a.1, a.2)

insert-first : (f : ℕ) (fs : List ℕ) → Above f fs → insert f fs ≡ f ∷ fs
unfolding insert
insert-first f [] a = refl
insert-first f (x ∷ xs) a = ground arith

module _ (counter : ℕ → ℕ) (e : Engine) where
  -- The tail of `notify_queued_fences`, after the loop.
  finishes :
      (f last' : ℕ) (s s' : EngineState) (w w' : World)
      → Drained e s.last_completed_fence (insert f s.pending_fences) s w last' s' w'
      → let (s₂, w₂) =
          if last' == s'.last_submitted_fence
          then report_preemption counter e last' s' w'
          else (s', w') in
        Notified e f s w s₂ w₂
  unfolding report_preemption
  finishes f last' s s' w w' d = record {
    valid = ground (arith, d);
    grows = ground (arith, d);
    submitted = ground (arith, d);
    preemption = ground (arith, d);
    reported = ground (
      arith,
      d,
      append-nil (completions e s.last_completed_fence (last' - s.last_completed_fence)),
      append_assoc w.sent (completions e s.last_completed_fence (last' - s.last_completed_fence))
          (dma_preempted e s.last_preemption_fence last' ∷ []),
    );
    members = λ a. ground (arith, d.members a, contains-insert f s.pending_fences a);
  }

  -- `notify_queued_fences` after the fence `f` joined the pending ones, or was reported at once.
  queued-Notified :
      (f : ℕ) (s s₁ : EngineState) (w w₁ : World)
      → Above s₁.last_completed_fence s₁.pending_fences
      → s₁.last_completed_fence < u32_size
      → ((last' : ℕ) (s' : EngineState) (w' : World)
          → Drained e s₁.last_completed_fence s₁.pending_fences s₁ w₁ last' s' w'
          → Drained e s.last_completed_fence (insert f s.pending_fences) s w last' s' w')
      → (s' : EngineState) × (w' : World) × (notify_queued_fences counter e s₁ w₁ ≡ ok (s', w'))
        × Notified e f s w s' w'
  unfolding notify_queued_fences
  queued-Notified f s s₁ w w₁ a h k =
      let (last', s', w', run, d) =
        drain-Drained counter e s₁.last_completed_fence s₁.pending_fences s₁ w₁ a h refl in
      let (s₂, w₂) =
        if last' == s'.last_submitted_fence
        then report_preemption counter e last' s' w'
        else (s', w') in
      (s₂, w₂, rw run, finishes f last' s s' w w' (k last' s' w' d))

  -- In a valid state the notification of a fence above the last completed one does not panic. It
  -- reports, in order and without a gap, the fences from the last completed one up to the first
  -- that has not been notified, reports a waiting preemption request if the engine is then idle,
  -- and keeps the rest pending: the fences reported and pending after it are those pending before
  -- it and the new one.
  pub notify_dma_completed-Notified :
      (f : ℕ) (s : EngineState) (w : World)
      → IsValid s
      → s.last_completed_fence < f
      → f < u32_size
      → (s' : EngineState) × (w' : World) × (notify_dma_completed counter e f s w ≡ ok (s', w'))
        × Notified e f s w s' w'
  unfolding notify_dma_completed notify_fence
  notify_dma_completed-Notified f s w v h k =
      elim (Bool-cases ((s.last_completed_fence + 1) % u32_size == f)) [
        | inl hit ↦ rw hit (
            let (s₁, w₁) = complete counter s (notify_interrupt (dma_completed e f) w) f in
            queued-Notified f s s₁ w w₁ (Above-mono s.pending_fences (ground arith) v.waiting) k
              λ last' s' w' d.
                rw
                  (insert-first f s.pending_fences
                    (Above-mono s.pending_fences (ground arith) v.waiting))
                  (steps counter e s.last_completed_fence f s.pending_fences s s₁ s' w w₁ w'
                    (
                      ground arith,
                      ground arith,
                      Above-mono s.pending_fences (ground arith) v.waiting,
                    )
                    hit refl refl refl d))
        | inr miss ↦ rw miss (
            queued-Notified f s (record s { pending_fences = insert f s.pending_fences }) w w
              (insert-Above s.last_completed_fence f s.pending_fences
                (Above-mono s.pending_fences (omega arith) v.waiting) h k)
              v.fits
              λ last' s' w' d. record {
                grows = d.grows;
                fits = d.fits;
                completed = d.completed;
                submitted = d.submitted;
                preemption = d.preemption;
                waiting = d.waiting;
                reported = d.reported;
                members = d.members;
              })
      ]

  -- A fence at or below the last completed one makes the notification panic.
  pub notify_dma_completed_missed :
      (f : ℕ) (s : EngineState) (w : World)
      → IsValid s
      → f ≤ s.last_completed_fence
      → s.last_completed_fence + 1 < u32_size
      → notify_dma_completed counter e f s w ≡ panic
  unfolding notify_dma_completed notify_fence notify_queued_fences drain
  notify_dma_completed_missed f s w v h k =
      let first =
        insert-first f s.pending_fences (Above-mono s.pending_fences (omega arith) v.waiting) in
      elim (Bool-cases ((s.last_completed_fence + 1) % u32_size == f)) [
        | inl hit ↦ absurd (ground arith)
        | inr miss ↦
            rw (miss, first)
              (rw (miss, lt→ltb f ((s.last_completed_fence + 1) % u32_size) (omega arith)))
      ]
