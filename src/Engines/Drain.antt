-- ===== src/Engines/Drain.antt =====
-- The loop over the pending fences: which it reports, and where it stops.
use virtio_drivers_windows.Base.{
  ℕ, zero, suc, ◌+◌, ◌-◌, ◌≤◌, ◌<◌, ◌%◌, ◌≡◌, refl, inl, inr, true, false, ◌&&◌, ◌||◌, List, ◌∙◌,
  [], ◌∷◌, ◌++◌, append-nil, append_assoc, arith, ok, ltb, leb, ◌==◌, contains, Bool-cases,
  u32_size,
}
use virtio_drivers_windows.Nodes.{Engine}
use virtio_drivers_windows.Engines.{
  notify_interrupt, complete, EngineState, World, Interrupt, dma_completed, insert, drain,
}

-- Ascending, above `n`, and of 32 bits.
abbrev pub Above : ℕ → List ℕ → Type 0
Above n [] = Unit {0}
Above n (f ∷ fs) = (n < f) × (f < u32_size) × Above f fs

-- The interrupts for the `k` fences after `n`, in order.
abbrev pub completions : Engine → ℕ → ℕ → List Interrupt
completions e n zero = []
completions e n (suc k) = dma_completed e (n + 1) ∷ completions e (n + 1) k

pub insert-Above :
    (n f : ℕ) (fs : List ℕ) → Above n fs → n < f → f < u32_size → Above n (insert f fs)
unfolding insert
insert-Above n f [] a h k = (h, k, tt)
insert-Above n f (x ∷ xs) a h k = ground (arith, insert-Above x f xs)

pub contains-insert :
    (f : ℕ) (fs : List ℕ) (a : ℕ) → contains (insert f fs) a ≡ ((f == a) || contains fs a)
unfolding insert
contains-insert f [] a = refl
contains-insert f (x ∷ xs) a = ground (arith, contains-insert f xs a)

pub contains-below : (n : ℕ) (fs : List ℕ) (a : ℕ) → Above n fs → a ≤ n → contains fs a ≡ false
contains-below n [] a h k = refl
contains-below n (x ∷ xs) a h k = ground (arith, contains-below x xs a)

-- What the loop has done, started with `last` at the pending fences `fs` in state `s`.
pub record Drained (e : Engine) (last : ℕ) (fs : List ℕ) (s : EngineState) (w : World) (last' : ℕ)
    (s' : EngineState) (w' : World) : Type 0 where
  pub grows : last ≤ last'
  pub fits : last' < u32_size
  pub completed : s'.last_completed_fence ≡ last'
  pub submitted : s'.last_submitted_fence ≡ s.last_submitted_fence
  pub preemption : s'.last_preemption_fence ≡ s.last_preemption_fence
  pub waiting : Above (last' + 1) s'.pending_fences
  pub reported : w'.sent ≡ w.sent ++ completions e last (last' - last)
  pub members :
      (a : ℕ) → contains fs a ≡ ((ltb last a && leb a last') || contains s'.pending_fences a)

completions-none : (e : Engine) (n : ℕ) → completions e n (n - n) ≡ []
completions-none e n = let z : n - n ≡ 0 = omega arith in rw z

completions-step :
    (e : Engine) (n m : ℕ)
    → n < m
    → completions e n (m - n) ≡ dma_completed e (n + 1) ∷ completions e (n + 1) (m - (n + 1))
completions-step e n m h = let z : m - n ≡ suc (m - (n + 1)) = omega arith in rw z

module _ (counter : ℕ → ℕ) (e : Engine) where
  stops_empty :
      (last : ℕ) (s : EngineState) (w : World)
      → last < u32_size
      → s.last_completed_fence ≡ last
      → Drained e last [] s w last (record s { pending_fences = [] }) w
  stops_empty last s w h c = record {
    grows = omega arith;
    fits = h;
    completed = c;
    submitted = refl;
    preemption = refl;
    waiting = tt;
    reported = rw (completions-none, append-nil);
    members = λ a. ground arith;
  }

  stops_at_gap :
      (last f : ℕ) (fs : List ℕ) (s : EngineState) (w : World)
      → Above last (f ∷ fs)
      → ((last + 1) % u32_size == f) ≡ false
      → s.last_completed_fence ≡ last
      → Drained e last (f ∷ fs) s w last (record s { pending_fences = f ∷ fs }) w
  stops_at_gap last f fs s w a miss c = record {
    grows = omega arith;
    fits = omega arith;
    completed = c;
    submitted = refl;
    preemption = refl;
    waiting = ground arith;
    reported = rw (completions-none, append-nil);
    members = λ b. ground arith;
  }

  pub steps :
      (last f : ℕ) (fs : List ℕ) (s s₁ s' : EngineState) (w w₁ w' : World) {last' : ℕ}
      → Above last (f ∷ fs)
      → ((last + 1) % u32_size == f) ≡ true
      → s₁.last_submitted_fence ≡ s.last_submitted_fence
      → s₁.last_preemption_fence ≡ s.last_preemption_fence
      → w₁.sent ≡ w.sent ++ (dma_completed e f ∷ [])
      → Drained e f fs s₁ w₁ last' s' w'
      → Drained e last (f ∷ fs) s w last' s' w'
  steps last f fs s s₁ s' w w₁ w' {last'} a hit p q r d = record {
    grows = ground arith;
    fits = d.fits;
    completed = d.completed;
    submitted = d.submitted ∙ p;
    preemption = d.preemption ∙ q;
    waiting = d.waiting;
    reported = ground (
      arith,
      d.reported,
      completions-step e last last',
      append_assoc w.sent (dma_completed e f ∷ []) (completions e f (last' - f)),
    );
    members = λ b. ground (arith, d.members b, contains-below f fs b);
  }

  -- The loop neither panics nor skips a fence: it reports those that follow `last` without a gap.
  pub drain-Drained :
      (last : ℕ) (fs : List ℕ) (s : EngineState) (w : World)
      → Above last fs
      → last < u32_size
      → s.last_completed_fence ≡ last
      → (last' : ℕ) × (s' : EngineState) × (w' : World) × (drain counter e last fs s w
          ≡ ok (last', s', w'))
        × Drained e last fs s w last' s' w'
  unfolding drain
  drain-Drained last [] s w a h c =
      (last, record s { pending_fences = [] }, w, refl, stops_empty last s w h c)
  drain-Drained last (f ∷ fs) s w a h c = elim (Bool-cases ((last + 1) % u32_size == f)) [
    | inl hit ↦
        let (s₁, w₁) = complete counter s (notify_interrupt (dma_completed e f) w) f in
        let (last', s', w', run, d) = drain-Drained f fs s₁ w₁ a.2 a.1 refl in
        (last', s', w', rw hit run, steps last f fs s s₁ s' w w₁ w' a hit refl refl refl d)
    | inr miss ↦ (
      last,
      record s { pending_fences = f ∷ fs },
      w,
      ground arith,
      stops_at_gap last f fs s w a miss c,
    )
  ]
