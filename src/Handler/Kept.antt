-- ===== src/Handler/Kept.antt =====
-- What the loops of the queue handler leave behind when they end, whatever their fuel.
use virtio_drivers_windows.Base.{
  ℕ, zero, suc, ◌≡◌, refl, ◌∙◌, ap, inl, inr, Option, none, some, Outcome, ok, err, panic, Allows,
}
use virtio_drivers_windows.Buffers.{as_mut}
use virtio_drivers_windows.Channel.Fifo as Fifo
use virtio_drivers_windows.Handler.{Queue, again, handle_requests}
use virtio_drivers_windows.Handler.Data.{GpuData, signal_fence}
use virtio_drivers_windows.Handler.Effects.{effect}
use virtio_drivers_windows.Handler.Interface.{Platform}
use virtio_drivers_windows.Handler.Loop.{IsIdle, request-Requested}
use virtio_drivers_windows.Handler.Respond.{completed_fence}
use virtio_drivers_windows.Handler.Responses.{response, handle_responses}
use virtio_drivers_windows.Handler.Slots.{IsValid, InFlight-moved, AllSendable, waiting}
use virtio_drivers_windows.Handler.Turns.{response-Answered, answered-Allows, Step}

-- What a loop leaves if it ends without a failure.
abbrev pub Ends : {A : Type 0} → (A → Type 0) → Option (Outcome A) → Type 0
Ends P none = Unit {0}
Ends P (some o) = Allows P o

module _ (p : Platform) where
  -- The queue is valid, and the same requests wait.
  abbrev pub Kept : Queue p → Queue p × GpuData → Type 0
  Kept q s = IsValid p (s.0) × (waiting p (s.0) ≡ waiting p q)

  again-Ends :
      (P Q : Queue p × GpuData → Type 0)
      (loop : Queue p × GpuData → Option (Outcome (Queue p × GpuData))) (o : Outcome (Step p))
      → Allows (λ r. P (r.1)) o
      → ((s : Queue p × GpuData) → P s → Q s)
      → ((s : Queue p × GpuData) → P s → Ends Q (loop s))
      → Ends Q (again p loop o)
  unfolding again
  again-Ends P Q loop (ok (inr none, s)) h f g = f s h
  again-Ends P Q loop (ok (inr (some u), s)) h f g = g s h
  again-Ends P Q loop (ok (inl e, s)) h f g = g s h
  again-Ends P Q loop (err e) h f g = tt
  again-Ends P Q loop panic h f g = tt

  -- The slots do not depend on what the device does.
  pub moved-IsValid :
      (q : Queue p) (v : p.VirtQueue) → IsValid p q → IsValid p (record q { queue = v })
  moved-IsValid q v valid = record {
    channel = valid.channel;
    room = valid.room;
    distinct = valid.distinct;
    small = valid.small;
    in_flight = λ t i e. let f = valid.in_flight t i e in InFlight-moved p f f.taken refl refl;
    apart = valid.apart;
  }

  response-Kept :
      (q : Queue p) (d : GpuData) → IsValid p q → Allows (λ r. Kept q (r.1)) (response p q d)
  response-Kept q d v = elim (response-Answered p q d v) [
    | inl (peek, e) ↦ rw e (v, refl)
    | inr (t, peek, inl (e, same)) ↦ rw same (v, refl)
    | inr (t, peek, inr (i, e, f, inl (x, state, popped, same))) ↦
        rw same (moved-IsValid q state v, refl)
    | inr (t, peek, inr (i, e, f, inr (len, new, received, x, q', popped, bytes, a, same))) ↦
        rw same (
          answered-Allows p (λ s. Kept q (s.1)) (completed_fence p f.sent received)
            (λ fence. signal_fence fence d) (effect p.counter (q.callbacks i) (as_mut f.output new))
            q' λ d'. (a.valid, ap (Fifo.contents p.fast_queue p.slow_queue) a.same_chan))
  ]

  responses-Kept :
      (n : ℕ) (q : Queue p) (s : Queue p × GpuData)
      → Kept q s
      → Ends (Kept q) (handle_responses p n s)
  unfolding handle_responses
  responses-Kept zero q s k = tt
  responses-Kept (suc n) q (q', d) k =
      again-Ends (Kept q') (Kept q) (handle_responses p n) (response p q' d)
        (response-Kept q' d k.0) (λ s l. (l.0, l.1 ∙ k.1))
        (λ s l. responses-Kept n q s (l.0, l.1 ∙ k.1))

  -- The loop over the responses, if it ends without a failure, leaves a valid queue with the same
  -- requests waiting.
  pub handle_responses-Kept :
      (n : ℕ) (q : Queue p) (d : GpuData)
      → IsValid p q
      → Ends (Kept q) (handle_responses p n (q, d))
  handle_responses-Kept n q d v = responses-Kept n q (q, d) (v, refl)

  abbrev pub Served : Queue p → Type 0
  Served q = IsValid p q × AllSendable p (waiting p q) × IsIdle p q

  -- The loop over the requests, likewise, leaves nothing to do.
  pub handle_requests-Served :
      (n : ℕ) (q : Queue p)
      → IsValid p q
      → AllSendable p (waiting p q)
      → Ends Served (handle_requests p n q)
  unfolding handle_requests again
  handle_requests-Served zero q v s = tt
  handle_requests-Served (suc n) q v s =
      let (r, q', e, v', s', d) = request-Requested p q v s in
      elim d [
        | inl (er, idle, _, _) ↦ rw (e, er) (v', s', idle)
        | inr turn ↦ elim turn.noted [
          | inl (t, er, _, _) ↦ rw (e, er) (handle_requests-Served n q' v' s')
          | inr (x, er, _) ↦ rw (e, er) (handle_requests-Served n q' v' s')
        ]
      ]
