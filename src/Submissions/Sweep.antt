-- ===== src/Submissions/Sweep.antt =====
-- What a sweep of the fence submissions keeps.
use virtio_drivers_windows.Base.{
  subst, ℕ, suc, ◌+◌, ◌≡◌, refl, sym, ap, ◌∙◌, inl, inr, Bool, true, false, List, [], ◌∷◌, ◌++◌,
  Outcome, ok, err, panic, ◌>>=◌, arith, if◌then◌else◌, Bool-cases, unwrap, get_elem?,
}
use virtio_drivers_windows.Nodes.{Engine, node_ordinal}
use virtio_drivers_windows.Tracker.{FenceTracker}
use virtio_drivers_windows.Engines as Engines
use virtio_drivers_windows.Handler.Data.{GpuData, notify_dma_completed}
use virtio_drivers_windows.Submissions.{
  FenceSubmission, State, is_ready, read_counter, is_timeout, new, Swept, keeps, resubmits, sweep,
  handle_fence_submissions,
}

-- What a submission stands for: its time is left out.
abbrev pub Fences : Type 0
Fences = Engine × ℕ × ℕ

abbrev pub fences : FenceSubmission → Fences
fences f = (f.engine, f.dxgk_fence, f.virtio_fence)

-- How many of the submissions a test picks.
abbrev pub count : (Fences → Bool) → List FenceSubmission → ℕ
count pick [] = 0
count pick (f ∷ fs) = if pick (fences f) then suc (count pick fs) else count pick fs

count-append :
    (pick : Fences → Bool) (fs gs : List FenceSubmission)
    → count pick (fs ++ gs) ≡ count pick fs + count pick gs
count-append pick [] gs = omega arith
count-append pick (f ∷ fs) gs = ground (arith, count-append pick fs gs)

abbrev pub unready : FenceTracker → List FenceSubmission → List FenceSubmission
unready t [] = []
unready t (f ∷ fs) = if is_ready f t then unready t fs else f ∷ unready t fs

abbrev pub NoneReady : FenceTracker → List FenceSubmission → Type 0
NoneReady t [] = Unit {0}
NoneReady t (f ∷ fs) = (is_ready f t ≡ false) × NoneReady t fs

unready-NoneReady :
    (t : FenceTracker) (fs : List FenceSubmission) → NoneReady t fs → unready t fs ≡ fs
unready-NoneReady t [] h = refl
unready-NoneReady t (f ∷ fs) h = rw h.0 (ap (λ l. f ∷ l) (unready-NoneReady t fs h.1))

bind_ok :
    {A B : Type 0} (m : Outcome A) (f : A → Outcome B) (b : B)
    → (m >>= f) ≡ ok b
    → (a : A) × (m ≡ ok a) × (f a ≡ ok b)
bind_ok (ok a) f b e = (a, refl, e)
bind_ok (err s) f b e = cc
bind_ok panic f b e = cc

ok_inj : {A : Type 0} {a b : A} → ok a ≡ ok b → a ≡ b
ok_inj e = cc

module _ (counter : ℕ → ℕ) (freq : ℕ) where
  notify-fence :
      (e : Engine) (fence : ℕ) (d d' : GpuData)
      → notify_dma_completed counter e fence d ≡ ok d'
      → d'.fence ≡ d.fence
  unfolding notify_dma_completed
  notify-fence e fence d d' h =
      let (n, _, h1) = bind_ok (node_ordinal e) _ d' h in
      let (s, _, h2) = bind_ok (unwrap (get_elem? d.engines n)) _ d' h1 in
      let (r, _, h3) = bind_ok (Engines.notify_dma_completed counter e fence s d.world) _ d' h2 in
      cc

  -- The branches of the closure.
  sweep-ready :
      (f : FenceSubmission) (fs : List FenceSubmission) (d : GpuData)
      → is_ready f d.fence ≡ true
      → sweep counter freq (f ∷ fs) d
        ≡ (notify_dma_completed counter f.engine f.dxgk_fence d >>= sweep counter freq fs)
  unfolding sweep
  sweep-ready f fs d h = rw (h, sweep) refl

  sweep-late :
      (f : FenceSubmission) (fs : List FenceSubmission) (d : GpuData)
      → is_ready f d.fence ≡ false
      → (is_timeout counter freq f d).0 ≡ true
      → (f' : FenceSubmission) × (fences f' ≡ fences f)
        × (sweep counter freq (f ∷ fs) d
            ≡ (sweep counter freq fs (read_counter (read_counter d)) >>= resubmits counter freq f'))
  unfolding sweep is_timeout
  sweep-late f fs d h l = (
    (new counter freq f.engine f.dxgk_fence f.virtio_fence (read_counter d)).0,
    refl,
    rw (h, sweep) (rw (l, sweep) refl),
  )

  sweep-early :
      (f : FenceSubmission) (fs : List FenceSubmission) (d : GpuData)
      → is_ready f d.fence ≡ false
      → (is_timeout counter freq f d).0 ≡ false
      → sweep counter freq (f ∷ fs) d
        ≡ (sweep counter freq fs (read_counter d) >>= keeps counter freq f)
  unfolding sweep is_timeout
  sweep-early f fs d h l = rw (h, sweep) (rw (l, sweep) refl)

  abbrev Counted : (Fences → Bool) → List FenceSubmission → GpuData → Swept counter freq → Type 0
  Counted pick fs d r =
      (r.2.fence ≡ d.fence) × (count pick r.0 + count pick r.1 ≡ count pick (unready d.fence fs))

  sweep-count :
      (pick : Fences → Bool) (fs : List FenceSubmission) (d : GpuData) (r : Swept counter freq)
      → sweep counter freq fs d ≡ ok r
      → Counted pick fs d r
  unfolding sweep
  sweep-count pick [] d r e = subst (Counted pick [] d) (ok_inj e) (refl, omega arith)
  sweep-count pick (f ∷ fs) d r e = elim (Bool-cases (is_ready f d.fence)) [
    | inl h ↦
        let (d1, n, e1) =
          bind_ok (notify_dma_completed counter f.engine f.dxgk_fence d) _ r
            (sym (sweep-ready f fs d h) ∙ e) in
        let same = notify-fence f.engine f.dxgk_fence d d1 n in
        let (t, c) = sweep-count pick fs d1 r e1 in
        (t ∙ same, rw h (c ∙ ap (λ t. count pick (unready t fs)) same))
    | inr h ↦ elim (Bool-cases (is_timeout counter freq f d).0) [
      | inl l ↦
          let (f', k, eq) = sweep-late f fs d h l in
          let (r1, s1, e1) =
            bind_ok (sweep counter freq fs (read_counter (read_counter d))) _ r (sym eq ∙ e) in
          let (t, c) = sweep-count pick fs (read_counter (read_counter d)) r1 s1 in
          subst (Counted pick (f ∷ fs) d) (ok_inj e1) (t, rw h (ground (arith, ap pick k, c)))
      | inr l ↦
          let (r1, s1, e1) =
            bind_ok (sweep counter freq fs (read_counter d)) _ r
              (sym (sweep-early f fs d h l) ∙ e) in
          let (t, c) = sweep-count pick fs (read_counter d) r1 s1 in
          subst (Counted pick (f ∷ fs) d) (ok_inj e1) (t, rw h (ground (arith, c)))
    ]
  ]

  sweep-NoneReady :
      (fs : List FenceSubmission) (d : GpuData)
      → NoneReady d.fence fs
      → (r : Swept counter freq) × (sweep counter freq fs d ≡ ok r)
        × (r.2.world.sent ≡ d.world.sent)
  unfolding sweep
  sweep-NoneReady [] d h = (_, refl, refl)
  sweep-NoneReady (f ∷ fs) d h = elim (Bool-cases (is_timeout counter freq f d).0) [
    | inl l ↦
        let (f', k, eq) = sweep-late f fs d h.0 l in
        let (r, s, w) = sweep-NoneReady fs (read_counter (read_counter d)) h.1 in
        ((r.0, f' ∷ r.1, r.2), eq ∙ ap (λ m. m >>= resubmits counter freq f') s, w)
    | inr l ↦
        let (r, s, w) = sweep-NoneReady fs (read_counter d) h.1 in
        ((f ∷ r.0, r.1, r.2), sweep-early f fs d h.0 l ∙ ap (λ m. m >>= keeps counter freq f) s, w)
  ]

  -- After a sweep that returns, the submissions that wait are those whose virtio fence was not
  -- signaled, each as often as before, whether its time was up or not.
  pub handle_fence_submissions-count :
      (s s' : State) (pick : Fences → Bool)
      → handle_fence_submissions counter freq s ≡ ok s'
      → count pick s'.fence_submissions ≡ count pick (unready s.gpu.fence s.fence_submissions)
  unfolding handle_fence_submissions
  handle_fence_submissions-count s s' pick e =
      let (r, swept, e') = bind_ok (sweep counter freq s.fence_submissions s.gpu) _ s' e in
      let (t, c) = sweep-count pick s.fence_submissions s.gpu r swept in
      subst
        (λ z. count pick z.fence_submissions ≡ count pick (unready s.gpu.fence s.fence_submissions))
        (ok_inj e') (count-append pick r.0 r.1 ∙ c)

  -- If no virtio fence was signaled, the sweep returns, reports nothing, and every submission waits as
  -- often as before.
  pub handle_fence_submissions-NoneReady :
      (s : State)
      → NoneReady s.gpu.fence s.fence_submissions
      → (s' : State) × (handle_fence_submissions counter freq s ≡ ok s')
        × (s'.gpu.world.sent ≡ s.gpu.world.sent)
        × ((pick : Fences → Bool)
            → count pick s'.fence_submissions ≡ count pick s.fence_submissions)
  unfolding handle_fence_submissions
  handle_fence_submissions-NoneReady s h =
      let (r, e, w) = sweep-NoneReady s.fence_submissions s.gpu h in
      (
        record { gpu = r.2; fence_submissions = r.0 ++ r.1 },
        rw e refl,
        w,
        λ pick.
            let (t, c) = sweep-count pick s.fence_submissions s.gpu r e in
            count-append pick r.0 r.1
            ∙ (c ∙ ap (count pick) (unready-NoneReady s.gpu.fence s.fence_submissions h)),
      )
