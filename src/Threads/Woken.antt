-- ===== src/Threads/Woken.antt =====
-- No request in the control channel is forgotten.
use virtio_drivers_windows.Base.{
  ℕ, suc, ◌<◌, ◌≡◌, refl, inl, inr, Option, some, [], Outcome, ok, length, arith, subst, sym,
  Yields, Yields-bind,
}
use virtio_drivers_windows.Handler.{Queue}
use virtio_drivers_windows.Handler.Interface.{Platform}
use virtio_drivers_windows.Handler.Slots.{IsValid, AllSendable, waiting}
use virtio_drivers_windows.Handler.Loop.{IsIdle, handle_requests-IsIdle}
use virtio_drivers_windows.Handler.Started
use virtio_drivers_windows.Handler.Kept.{Ends, moved-IsValid}
use virtio_drivers_windows.Submissions.{State}
use virtio_drivers_windows.Threads.{
  Wake, QueueHandler, new, serve, turn, swept, put_control, push_control, push_cursor,
  ack_interrupt, handle_dpc, kick,
}
use virtio_drivers_windows.Threads.Steps.{
  Step, Reach, turns, pushes_control, signals_control, pushes_cursor, signals_cursor, interrupts,
  calls, kicks, stops, uses, changes, here, next,
}
use virtio_drivers_windows.Threads.Sound.{Handler, IsReady, IsSound, push-IsReady, turn-IsSound}

module _ (pc pu : Platform) (freq : ℕ) where
  turned :
      (P : Handler pc pu freq → Type 0) (u : Handler pc pu freq)
      (o : Option (Outcome (Handler pc pu freq)))
      → o ≡ some (ok u)
      → Ends P o
      → P u
  turned P u o e h = subst (Ends P) e h

  moved-IsReady :
      (p : Platform) (q : Queue p) (v : p.VirtQueue)
      → IsReady p q
      → IsReady p (record q { queue = v })
  moved-IsReady p q v r = record { valid = moved-IsValid p q v r.valid; sendable = r.sendable }

  step-IsSound :
      {t u : Handler pc pu freq} → Step pc pu freq t u → IsSound pc pu freq t → IsSound pc pu freq u
  unfolding push_control push_cursor ack_interrupt handle_dpc kick
  step-IsSound (turns n w t u r a e) s =
      turned (IsSound pc pu freq) u (turn pc pu freq n w t) e (turn-IsSound pc pu freq n w t s)
  step-IsSound (pushes_control b t h) ((c, u), w) =
      ((push-IsReady pc t.control.queue b c h, u), inr (inr (inl (t.control.sending, refl))))
  step-IsSound (signals_control k t e) (r, w) = (r, inr (inl refl))
  step-IsSound (pushes_cursor b t h) ((c, u), w) = ((c, push-IsReady pu t.cursor.queue b u h), w)
  step-IsSound (signals_cursor k t e) s = s
  step-IsSound (interrupts bits t) s = s
  step-IsSound (calls t) s = s
  step-IsSound (kicks t) (r, w) = (r, inr (inl refl))
  step-IsSound (stops t) s = s
  step-IsSound (uses v v' t) ((c, u), w) =
      ((moved-IsReady pc t.control.queue v c, moved-IsReady pu t.cursor.queue v' u), w)
  step-IsSound (changes x t) s = s

  steps-IsSound :
      {s t : Handler pc pu freq}
      → IsSound pc pu freq s
      → Reach pc pu freq s t
      → IsSound pc pu freq t
  steps-IsSound h here = h
  steps-IsSound h (next r st) = step-IsSound st (steps-IsSound h r)

  new_lem :
      (v : pc.VirtQueue) (v' : pu.VirtQueue) (fast fast' : ℕ) (shared : State)
      → 0 < fast
      → 0 < fast'
      → Yields (IsSound pc pu freq) (new pc pu freq v v' fast fast' shared)
  unfolding new
  new_lem v v' fast fast' shared l l' =
      Yields-bind (λ q. IsValid pc q × (waiting pc q ≡ [])) (IsSound pc pu freq)
        (Started.new pc v fast) _ (Started.new-IsValid pc v fast l)
        (λ q (a, e).
          Yields-bind (λ q'. IsValid pu q' × (waiting pu q' ≡ [])) (IsSound pc pu freq)
            (Started.new pu v' fast') _ (Started.new-IsValid pu v' fast' l')
            (λ q' (a', e'). (
              (
                record { valid = a; sendable = subst (AllSendable pc) (sym e) tt },
                record { valid = a'; sendable = subst (AllSendable pu) (sym e') tt },
              ),
              inl e,
            )))

  -- A turn for a request has enough fuel with one more than the requests that wait.
  served :
      (t : Handler pc pu freq)
      → IsReady pc t.control.queue
      → (q : Queue pc) × (serve pc pu freq
            (suc (length (waiting pc t.control.queue)))
            Wake.control_msg
            t
          ≡ swept pc pu freq (put_control pc pu freq q t))
        × IsIdle pc q
  unfolding serve
  served t r =
      let (q, e, v, idle) =
        handle_requests-IsIdle pc (suc (length (waiting pc t.control.queue))) t.control.queue
          r.valid r.sendable (omega arith) in
      (q, rw e refl, idle)

-- From a new handler, whatever the thread, the senders, the device and the rest of the driver do, in
-- any order, both queues are valid and what waits in them can be sent, and no request in the control
-- channel is forgotten: if one waits, the event of the channel is set, or a sender is about to set it,
-- or no slot is free. A turn for the event, with fuel for one more than the requests that wait, ends
-- as the sweep of the fence submissions does, and leaves no request waiting or no slot free.
pub reach-IsSound :
    (pc pu : Platform) (freq : ℕ) (v : pc.VirtQueue) (v' : pu.VirtQueue) (fast fast' : ℕ)
    (shared : State) (s t : QueueHandler pc pu freq)
    → 0 < fast
    → 0 < fast'
    → new pc pu freq v v' fast fast' shared ≡ ok s
    → Reach pc pu freq s t
    → IsSound pc pu freq t
      × ((q : Queue pc) × (serve pc pu freq
              (suc (length (waiting pc t.control.queue)))
              Wake.control_msg
              t
            ≡ swept pc pu freq (put_control pc pu freq q t))
          × IsIdle pc q)
reach-IsSound pc pu freq v v' fast fast' shared s t l l' e r =
    let sound =
      steps-IsSound pc pu freq
        (subst (Yields (IsSound pc pu freq)) e (new_lem pc pu freq v v' fast fast' shared l l'))
        r in
    (sound, served pc pu freq t sound.0.0)
