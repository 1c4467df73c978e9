-- ===== src/Handler/Drained.antt =====
-- When the response loop ends, and what it has finished then.
use virtio_drivers_windows.Base.{
  true, Status, ◌⊎◌, ℕ, zero, suc, ◌<◌, ◌≡◌, refl, sym, ◌∙◌, ap, subst, false, inl, inr, Option,
  none, some, List, [], ◌∷◌, ◌++◌, Outcome, ok, err, panic, arith, length, contains, Allows,
  Allows-map, Option-cases, IsNodup, append_assoc, append-nil, if◌then◌else◌,
}
use virtio_drivers_windows.Buffers.{as_mut}
use virtio_drivers_windows.Channel.Fifo as Fifo
use virtio_drivers_windows.Handler.{Queue, again}
use virtio_drivers_windows.Handler.Data.{GpuData, signal_fence}
use virtio_drivers_windows.Handler.Effects.{effect}
use virtio_drivers_windows.Handler.Interface.{Platform, UsedRing}
use virtio_drivers_windows.Handler.Kept.{Ends}
use virtio_drivers_windows.Handler.Respond.{completed_fence}
use virtio_drivers_windows.Handler.Responses.{response, handle_responses}
use virtio_drivers_windows.Handler.Slots.{IsValid, free_slots, waiting}
use virtio_drivers_windows.Handler.Tokens.{
  AllStand, slots_of, AllStand-or, AllStand-update, slots_of-update,
}
use virtio_drivers_windows.Handler.Turns.{
  handle_responses-stuck, response-Answered, answered-Allows, Answered, Step,
}

module _ (p : Platform) (r : UsedRing p) where
  -- The tokens `ts` stand for no slot any more, their slots are free, in their order behind those
  -- that were, and nothing is left that the device has used.
  pub record Drained (q : Queue p) (ts : List ℕ) (q' : Queue p) : Type 0 where
    pub valid : IsValid p q'
    pub none_used : r.tokens q'.queue ≡ []
    pub slots_free : free_slots p q' ≡ free_slots p q ++ slots_of q.indices ts
    pub indices : (t : ℕ) → q'.indices t ≡ (if contains ts t then none else q.indices t)
    pub same_waiting : waiting p q' ≡ waiting p q

  abbrev pub Drains : Queue p → List ℕ → Option (Outcome (Queue p × GpuData)) → Type 0
  Drains q ts m =
      (o : Outcome (Queue p × GpuData)) × (m ≡ some o) × Allows (λ s. Drained q ts (s.0)) o

  -- After a turn that has finished something.
  again-finished :
      (R : Option (Outcome (Queue p × GpuData)) → Type 0)
      (loop : Queue p × GpuData → Option (Outcome (Queue p × GpuData))) (o : Outcome (Step p))
      → ((e : Status) → R (some (err e)))
      → R (some panic)
      → Allows (λ s. (s.0 ≡ inr (some tt)) × R (loop (s.1))) o
      → R (again p loop o)
  unfolding again
  again-finished R loop (ok (inr none, s)) failed panicked h = absurd (ground (arith, h.0))
  again-finished R loop (ok (inr (some u), s)) failed panicked h = h.1
  again-finished R loop (ok (inl e, s)) failed panicked h = absurd (ground (arith, h.0))
  again-finished R loop (err e) failed panicked h = failed e
  again-finished R loop panic failed panicked h = panicked

  after_first :
      (R : Option (Outcome (Queue p × GpuData)) → Type 0) (n : ℕ) (q q1 : Queue p) (d : GpuData)
      → ((e : Status) → R (some (err e)))
      → R (some panic)
      → Allows (λ s. (s.0 ≡ inr (some tt)) × (s.1.0 ≡ q1)) (response p q d)
      → ((d' : GpuData) → R (handle_responses p n (q1, d')))
      → R (handle_responses p (suc n) (q, d))
  unfolding handle_responses
  after_first R n q q1 d failed panicked allows rest =
      again-finished R (handle_responses p n) (response p q d) failed panicked (
        Allows-map (λ s. (s.0 ≡ inr (some tt)) × (s.1.0 ≡ q1)) _ (response p q d) allows
          λ s (done, same).
            (done, subst (λ k. R (handle_responses p n (k, s.1.1))) (sym same) (rest (s.1.1))))

  Drained-Answered :
      (q q1 q' : Queue p) (t i : ℕ) (ts : List ℕ) (x : p.VirtQueue)
      → q.indices t ≡ some i
      → contains ts t ≡ false
      → Answered p q t i x q1
      → Drained q1 ts q'
      → Drained q (t ∷ ts) q'
  Drained-Answered q q1 q' t i ts x e c a d =
      let known : slots_of q1.indices ts ≡ slots_of q.indices ts =
        ap (λ f. slots_of f ts) a.indices ∙ slots_of-update q.indices t ts c in
      record {
        valid = d.valid;
        none_used = d.none_used;
        slots_free =
            d.slots_free
            ∙ rw (a.slot_free, known, e)
                (append_assoc (free_slots p q) (i ∷ []) (slots_of q.indices ts));
        indices = λ u. d.indices u ∙ rw (ap (λ f. f u) a.indices) (ground (arith, c));
        same_waiting = d.same_waiting ∙ ap (Fifo.contents p.fast_queue p.slow_queue) a.same_chan;
      }

  -- The first token is finished with its slot, unless the turn ends with a panic or an error.
  first-Answered :
      (q : Queue p) (d : GpuData) (t i : ℕ) (ts : List ℕ)
      → IsValid p q
      → r.tokens q.queue ≡ t ∷ ts
      → q.indices t ≡ some i
      → (x : p.VirtQueue) × (q1 : Queue p) × (r.tokens x ≡ ts)
        × Answered p q t i x q1
        × Allows (λ s. (s.0 ≡ inr (some tt)) × (s.1.0 ≡ q1)) (response p q d)
  first-Answered q d t i ts v u e =
      let peek = r.peek_first q.queue t ts u in
      elim (response-Answered p q d v) [
        | inl (none_used, same) ↦ absurd (ground arith)
        | inr (w, seen, inl (unknown, same)) ↦ absurd (ground arith)
        | inr (w, seen, inr (j, e', f, inl (x, state, refused, same))) ↦
            let (written, rest, pop, left) = r.pop_first q.queue t ts f.sent f.received u in
            absurd (ground arith)
        | inr (w, seen, inr (j, e', f, inr (len, new, received, x, q1, popped, bytes, b, same))) ↦
            let (written, rest, pop, left) = r.pop_first q.queue t ts f.sent f.received u in
            let tw : w ≡ t = ground arith in
            let ij : j ≡ i = ground arith in
            let gone : rest ≡ x = ground arith in
            (
              x,
              q1,
              subst (λ y. r.tokens y ≡ ts) gone left,
              subst (λ k. Answered p q t k x q1) ij (subst (λ k. Answered p q k j x q1) tw b),
              rw same (
                  answered-Allows p (λ s. (s.0 ≡ inr (some tt)) × (s.1.0 ≡ q1))
                    (completed_fence p f.sent received) (λ fence. signal_fence fence d)
                    (effect p.counter (q.callbacks j) (as_mut f.output new)) q1 λ d'. (refl, refl)),
            )
      ]

  drain :
      (n : ℕ) (ts : List ℕ) (q : Queue p) (d : GpuData)
      → IsValid p q
      → r.tokens q.queue ≡ ts
      → AllStand q.indices ts
      → length ts < n
      → Drains q ts (handle_responses p n (q, d))
  unfolding handle_responses again
  drain zero ts q d v u a h = absurd (ground arith)
  drain (suc n) [] q d v u a h = elim (response-Answered p q d v) [
    | inl (peek, e) ↦ rw e (
      _,
      refl,
      record {
        valid = v;
        none_used = u;
        slots_free = sym (append-nil (free_slots p q));
        indices = λ t. refl;
        same_waiting = refl;
      },
    )
    | inr (t, peek, x) ↦ absurd (ground (arith, r.peek_none q.queue u))
  ]
  drain (suc n) (t ∷ ts) q d v u ((i, e), c, a) h =
      let (x, q1, left, b, allows) = first-Answered q d t i ts v u e in
      let stand = subst (λ f. AllStand f ts) (sym b.indices) (AllStand-update q.indices t ts c a) in
      after_first (Drains q (t ∷ ts)) n q q1 d (λ x. (err x, refl, tt)) (panic, refl, tt) allows
        λ d'.
          let (o, ends, drained) =
            drain n ts q1 d' b.valid (ap r.tokens b.queue ∙ left) stand (ground arith) in
          (
            o,
            ends,
            Allows-map (λ z. Drained q1 ts (z.0)) _ o drained
                λ z. Drained-Answered q q1 (z.0) t i ts x e c b,
          )

  -- A token that stands for no slot is never passed.
  blocked :
      (n : ℕ) (ts : List ℕ) (t : ℕ) (q : Queue p) (d : GpuData)
      → IsValid p q
      → r.tokens q.queue ≡ ts
      → contains ts t ≡ true
      → q.indices t ≡ none
      → Ends (λ s. ⊥) (handle_responses p n (q, d))
  unfolding handle_responses
  blocked zero ts t q d v u c e = tt
  blocked (suc n) [] t q d v u c e = absurd (ground arith)
  blocked (suc n) (w ∷ ts) t q d v u c e = elim (Option-cases (q.indices w)) [
    | inl z ↦ rw (handle_responses-stuck p (suc n) q d w (r.peek_first q.queue w ts u) z) tt
    | inr (i, z) ↦
        let (x, q1, left, b, allows) = first-Answered q d w i ts v u z in
        let still : q1.indices t ≡ none = ground (arith, ap (λ f. f t) b.indices) in
        let later : contains ts t ≡ true = ground arith in
        after_first (Ends (λ s. ⊥)) n q q1 d (λ x. tt) tt allows
          λ d'. blocked n ts t q1 d' b.valid (ap r.tokens b.queue ∙ left) later still
  ]

  -- With more fuel than there are tokens that the device has used, each once, in a valid state: if
  -- each stands for a slot, the response loop ends, and unless with a panic or an error, in a valid
  -- state with the same requests waiting and nothing left that the device has used, where the tokens
  -- stand for no slot any more, all others stand for what they did, and the slots of the tokens are
  -- free, in their order, behind those that were. Otherwise one stands for no slot, and the loop ends
  -- with a panic or an error or not at all.
  pub handle_responses_lem :
      (n : ℕ) (q : Queue p) (d : GpuData)
      → IsValid p q
      → IsNodup (r.tokens q.queue)
      → length (r.tokens q.queue) < n
      → (AllStand q.indices (r.tokens q.queue)
          × Drains q (r.tokens q.queue) (handle_responses p n (q, d)))
        ⊎ ((t : ℕ) × (contains (r.tokens q.queue) t ≡ true)
            × (q.indices t ≡ none)
            × Ends (λ s. ⊥) (handle_responses p n (q, d)))
  handle_responses_lem n q d v once h = elim (AllStand-or q.indices (r.tokens q.queue) once) [
    | inl a ↦ inl (a, drain n (r.tokens q.queue) q d v refl a h)
    | inr (t, c, e) ↦ inr (t, c, e, blocked n (r.tokens q.queue) t q d v refl c e)
  ]
