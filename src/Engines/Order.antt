-- ===== src/Engines/Order.antt =====
-- Fences that complete in any order are reported in ascending order.
use virtio_drivers_windows.Base.{
  ℕ, ◌+◌, ◌-◌, ◌≤◌, ◌<◌, ◌≡◌, refl, true, false, ◌&&◌, ◌||◌, List, [], ◌∷◌, ◌++◌, append-nil,
  append_assoc, arith, Outcome, ok, ◌>>=◌, ltb, leb, contains, IsNodup, u32_size, zero, suc, ◌∙◌,
  ap,
}
use virtio_drivers_windows.Nodes.{Engine}
use virtio_drivers_windows.Engines.{Interrupt, EngineState, World, notify_dma_completed}
use virtio_drivers_windows.Engines.Drain.{completions, contains-below}
use virtio_drivers_windows.Engines.Notify.{IsValid, Notified, notify_dma_completed-Notified}

-- The notifications for the fences `fs` as their commands complete.
unfoldable pub notify_each :
    (ℕ → ℕ) → Engine → List ℕ → EngineState → World → Outcome (EngineState × World)
notify_each counter e [] s w = ok (s, w)
notify_each counter e (f ∷ fs) s w =
    notify_dma_completed counter e f s w >>= λ (s', w'). notify_each counter e fs s' w'

completions-append :
    (e : Engine) (n j k : ℕ)
    → completions e n (j + k) ≡ completions e n j ++ completions e (n + j) k
completions-append e n zero k =
    let p : zero + k ≡ k = omega arith in let q : n + zero ≡ n = omega arith in rw (p, q)
completions-append e n (suc j) k =
    let p : suc j + k ≡ suc (j + k) = omega arith in
    let q : n + suc j ≡ n + 1 + j = omega arith in rw (p, q, completions-append e (n + 1) j k)

nil_of_contains : (xs : List ℕ) → ((a : ℕ) → contains xs a ≡ false) → xs ≡ []
nil_of_contains [] h = refl
nil_of_contains (x ∷ xs) h = absurd (ground (arith, h x))

-- The fences `fs` are still to come, and with the pending ones they are those up to `m`.
record Remaining (m : ℕ) (fs : List ℕ) (s : EngineState) : Type 0 where
  distinct : IsNodup fs
  apart : (a : ℕ) → contains fs a ≡ true → contains s.pending_fences a ≡ false
  below : s.last_completed_fence ≤ m
  covered :
      (a : ℕ)
      → (contains fs a || contains s.pending_fences a) ≡ (ltb s.last_completed_fence a && leb a m)
  quiet : s.last_preemption_fence ≡ 0

module _ (counter : ℕ → ℕ) (e : Engine) (m : ℕ) where
  Remaining-step :
      (f : ℕ) (fs : List ℕ) (s s' : EngineState) (w w' : World)
      → IsValid s
      → Remaining m (f ∷ fs) s
      → Notified e f s w s' w'
      → Remaining m fs s'
  Remaining-step f fs s s' w w' v r n = record {
    distinct = r.distinct.1;
    apart = λ a h. ground (arith, n.members a, r.apart a, r.distinct.0);
    below = ground (
      arith,
      n.members s'.last_completed_fence,
      r.covered s'.last_completed_fence,
      n.grows,
      r.below,
    );
    covered = λ a. ground (
      arith,
      n.members a,
      r.covered a,
      r.apart a,
      r.distinct.0,
      n.grows,
      contains-below (s'.last_completed_fence + 1) s'.pending_fences a n.valid.waiting,
    );
    quiet = ground (arith, n.preemption, r.quiet);
  }

  Remaining-nil :
      (s : EngineState)
      → IsValid s
      → Remaining m [] s
      → (s.last_completed_fence ≡ m) × (s.pending_fences ≡ [])
  Remaining-nil s v r =
      (reached, nil_of_contains s.pending_fences λ a. ground (arith, r.covered a, reached))
    where
      reached : s.last_completed_fence ≡ m
      reached = ground (
        arith,
        r.below,
        r.covered (s.last_completed_fence + 1),
        contains-below (s.last_completed_fence + 1) s.pending_fences (s.last_completed_fence + 1)
            v.waiting,
      )

  quiet_reported :
      (f : ℕ) (s s' : EngineState) (w w' : World)
      → s.last_preemption_fence ≡ 0
      → Notified e f s w s' w'
      → w'.sent
        ≡ w.sent
          ++ completions e s.last_completed_fence (s'.last_completed_fence - s.last_completed_fence)
  quiet_reported f s s' w w' q n = ground (
    arith,
    n.reported,
    append-nil
        (completions e s.last_completed_fence (s'.last_completed_fence - s.last_completed_fence)),
  )

  completions-split :
      (a b : ℕ)
      → a ≤ b
      → b ≤ m
      → completions e a (m - a) ≡ completions e a (b - a) ++ completions e b (m - b)
  completions-split a b h k =
      let p : m - a ≡ (b - a) + (m - b) = omega arith in
      let q : a + (b - a) ≡ b = omega arith in
      ap (completions e a) p
      ∙ completions-append e a (b - a) (m - b)
      ∙ ap (λ x. completions e a (b - a) ++ completions e x (m - b)) q

  sent_join :
      (a b : ℕ) (i j k : List Interrupt)
      → a ≤ b
      → b ≤ m
      → j ≡ i ++ completions e a (b - a)
      → k ≡ j ++ completions e b (m - b)
      → k ≡ i ++ completions e a (m - a)
  sent_join a b i j k h h' p q =
      rw (q, p, completions-split a b h h')
        (append_assoc i (completions e a (b - a)) (completions e b (m - b)))

  Remaining-run :
      (fs : List ℕ) (s : EngineState) (w : World)
      → m < u32_size
      → IsValid s
      → Remaining m fs s
      → (s' : EngineState) × (w' : World) × (notify_each counter e fs s w ≡ ok (s', w'))
        × (s'.last_completed_fence ≡ m)
        × (s'.pending_fences ≡ [])
        × (w'.sent ≡ w.sent ++ completions e s.last_completed_fence (m - s.last_completed_fence))
  unfolding notify_each
  Remaining-run [] s w h v r =
      let (done, none_left) = Remaining-nil s v r in
      (
        s,
        w,
        refl,
        done,
        none_left,
        let z : m - s.last_completed_fence ≡ 0 = omega arith in rw (z, append-nil),
      )
  Remaining-run (f ∷ fs) s w h v r =
      let (s₁, w₁, run, n) =
        notify_dma_completed-Notified counter e f s w v (ground (arith, r.covered f))
          (ground (arith, r.covered f)) in
      let r₁ = Remaining-step f fs s s₁ w w₁ v r n in
      let (s', w', rest, done, none_left, sent) = Remaining-run fs s₁ w₁ h n.valid r₁ in
      (
        s',
        w',
        rw run rest,
        done,
        none_left,
        sent_join s.last_completed_fence s₁.last_completed_fence w.sent w₁.sent w'.sent n.grows
            r₁.below (quiet_reported f s s₁ w w₁ r.quiet n) sent,
      )

-- On a valid engine with nothing pending and no preemption request, let the fences of the `k`
-- submissions after the last completed one be notified once each, in any order. Then no
-- notification panics, the interrupts for them are sent exactly once each in ascending order, and
-- all are completed with none pending.
pub notify_each_in_order :
    (counter : ℕ → ℕ) (e : Engine) (k : ℕ) (fs : List ℕ) (s : EngineState) (w : World)
    → IsValid s
    → s.pending_fences ≡ []
    → s.last_preemption_fence ≡ 0
    → s.last_completed_fence + k < u32_size
    → IsNodup fs
    → ((a : ℕ)
        → contains fs a ≡ (ltb s.last_completed_fence a && leb a (s.last_completed_fence + k)))
    → (s' : EngineState) × (w' : World) × (notify_each counter e fs s w ≡ ok (s', w'))
      × (s'.last_completed_fence ≡ s.last_completed_fence + k)
      × (s'.pending_fences ≡ [])
      × (w'.sent ≡ w.sent ++ completions e s.last_completed_fence k)
notify_each_in_order counter e k fs s w v none_pending quiet fits distinct covers =
    let (s', w', run, done, none_left, sent) =
      Remaining-run counter e (s.last_completed_fence + k) fs s w fits v (record {
        distinct = distinct;
        apart = λ a h. rw none_pending;
        below = omega arith;
        covered = λ a. ground (arith, covers a, none_pending);
        quiet = quiet;
      }) in
    let p : s.last_completed_fence + k - s.last_completed_fence ≡ k = omega arith in
    (s', w', run, done, none_left, rw p at sent)
