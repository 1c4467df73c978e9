-- ===== src/Threads/Sound.antt =====
-- What a turn of the thread leaves behind.
use virtio_drivers_windows.Base.{
  ℕ, suc, ◌≡◌, refl, ◌⊎◌, inl, inr, true, Option, none, some, List, [], ◌∷◌, ◌++◌, Outcome, ok, err,
  panic, subst, sym, Allows-then,
}
use virtio_drivers_windows.Channel
use virtio_drivers_windows.Channel.{ArraySegQueue}
use virtio_drivers_windows.Channel.Fifo as Fifo
use virtio_drivers_windows.Handler.{Queue, handle_requests}
use virtio_drivers_windows.Handler.Interface.{Platform, Buffer}
use virtio_drivers_windows.Handler.Slots.{
  IsValid, InFlight-moved, IsSendable, AllSendable, free_slots, waiting,
}
use virtio_drivers_windows.Handler.Loop.{IsIdle}
use virtio_drivers_windows.Handler.Responses.{handle_responses}
use virtio_drivers_windows.Handler.Kept.{
  Ends, Kept, Served, handle_responses-Kept, handle_requests-Served,
}
use virtio_drivers_windows.Submissions.{handle_fence_submissions}
use virtio_drivers_windows.Threads.{
  Wake, Side, QueueHandler, ◌>>>◌, reset, serve, turn, swept, control_responses, control_requests,
  cursor_responses, cursor_requests,
}

Ends-then :
    {A B : Type 0} (P : A → Type 0) (Q : B → Type 0) (m : Option (Outcome A))
    (f : A → Option (Outcome B))
    → Ends P m
    → ((a : A) → P a → Ends Q (f a))
    → Ends Q (m >>> f)
Ends-then P Q none f p k = tt
Ends-then P Q (some (ok a)) f p k = k a p
Ends-then P Q (some (err e)) f p k = tt
Ends-then P Q (some panic) f p k = tt

AllSendable-snoc :
    (p : Platform) (bs : List Buffer) (b : Buffer)
    → AllSendable p bs
    → IsSendable p b
    → AllSendable p (bs ++ (b ∷ []))
AllSendable-snoc p [] b s h = (h, tt)
AllSendable-snoc p (c ∷ bs) b s h = (s.0, AllSendable-snoc p bs b s.1 h)

-- A queue that the thread can serve.
pub record IsReady (p : Platform) (q : Queue p) : Type 0 where
  pub valid : IsValid p q
  pub sendable : AllSendable p (waiting p q)

pub push-IsReady :
    (p : Platform) (q : Queue p) (b : Buffer)
    → IsReady p q
    → IsSendable p b
    → IsReady p (record q { chan = Channel.push p.fast_queue p.slow_queue q.chan b })
push-IsReady p q b r h =
    let (v, e) = Fifo.push-contents p.fast_queue p.slow_queue q.chan b r.valid.channel in
    record {
      valid = record {
        channel = v;
        room = r.valid.room;
        distinct = r.valid.distinct;
        small = r.valid.small;
        in_flight =
            λ t i d. let f = r.valid.in_flight t i d in InFlight-moved p f f.taken refl refl;
        apart = r.valid.apart;
      };
      sendable = subst (AllSendable p) (sym e) (AllSendable-snoc p (waiting p q) b r.sendable h);
    }

-- If a request waits, the event is set, or a sender is about to set it, or no slot is free.
abbrev pub IsWoken : (p : Platform) → Side p → Type 0
IsWoken p s =
    (waiting p s.queue ≡ [])
    ⊎ ((s.event ≡ true) ⊎ (((k : ℕ) × (s.sending ≡ suc k)) ⊎ (free_slots p s.queue ≡ [])))

idle-IsWoken : (p : Platform) (s : Side p) → IsIdle p s.queue → IsWoken p s
idle-IsWoken p s (inl z) = inr (inr (inr z))
idle-IsWoken p s (inr z) = inl z

module _ (pc pu : Platform) (freq : ℕ) where
  abbrev pub Handler : Type 0
  Handler = QueueHandler pc pu freq

  abbrev pub BothReady : Handler → Type 0
  BothReady t = IsReady pc t.control.queue × IsReady pu t.cursor.queue

  abbrev pub IsSound : Handler → Type 0
  IsSound t = BothReady t × IsWoken pc t.control

  control_responses-BothReady :
      (n : ℕ) (t : Handler) → BothReady t → Ends BothReady (control_responses pc pu freq n t)
  control_responses-BothReady n t (c, u) =
      Ends-then (Kept pc t.control.queue) BothReady
        (handle_responses pc n (t.control.queue, t.shared.gpu)) _
        (handle_responses-Kept pc n t.control.queue t.shared.gpu c.valid)
        (λ s k. (record { valid = k.0; sendable = subst (AllSendable pc) (sym k.1) c.sendable }, u))

  control_requests-IsSound :
      (n : ℕ) (t : Handler) → BothReady t → Ends IsSound (control_requests pc pu freq n t)
  control_requests-IsSound n t (c, u) =
      Ends-then (Served pc) IsSound (handle_requests pc n t.control.queue) _
        (handle_requests-Served pc n t.control.queue c.valid c.sendable)
        (λ q k. (
          (record { valid = k.0; sendable = k.1 }, u),
          idle-IsWoken pc (record (t.control) { queue = q }) k.2,
        ))

  cursor_responses-IsSound :
      (n : ℕ) (t : Handler) → IsSound t → Ends IsSound (cursor_responses pc pu freq n t)
  cursor_responses-IsSound n t ((c, u), w) =
      Ends-then (Kept pu t.cursor.queue) IsSound
        (handle_responses pu n (t.cursor.queue, t.shared.gpu)) _
        (handle_responses-Kept pu n t.cursor.queue t.shared.gpu u.valid)
        (λ s k.
          ((c, record { valid = k.0; sendable = subst (AllSendable pu) (sym k.1) u.sendable }), w))

  cursor_requests-IsSound :
      (n : ℕ) (t : Handler) → IsSound t → Ends IsSound (cursor_requests pc pu freq n t)
  cursor_requests-IsSound n t ((c, u), w) =
      Ends-then (Served pu) IsSound (handle_requests pu n t.cursor.queue) _
        (handle_requests-Served pu n t.cursor.queue u.valid u.sendable)
        (λ q k. ((c, record { valid = k.0; sendable = k.1 }), w))

  swept-IsSound : (t : Handler) → IsSound t → Ends IsSound (swept pc pu freq t)
  swept-IsSound t s =
      Allows-then IsSound (handle_fence_submissions pc.counter freq t.shared) _ (λ x. s)

  -- A turn, after the event that ended the wait was reset.
  pub turn-IsSound :
      (n : ℕ) (w : Wake) (t : Handler) → IsSound t → Ends IsSound (turn pc pu freq n w t)
  unfolding turn serve
  turn-IsSound n Wake.control_irq t s =
      Ends-then IsSound IsSound _ _
        (Ends-then BothReady IsSound _ _
          (control_responses-BothReady n (reset pc pu freq Wake.control_irq t) s.0)
          (control_requests-IsSound n))
        swept-IsSound
  turn-IsSound n Wake.control_msg t s =
      Ends-then IsSound IsSound _ _
        (control_requests-IsSound n (reset pc pu freq Wake.control_msg t) s.0) swept-IsSound
  turn-IsSound n Wake.cursor_irq t s =
      Ends-then IsSound IsSound _ _
        (Ends-then IsSound IsSound _ _
          (cursor_responses-IsSound n (reset pc pu freq Wake.cursor_irq t) s)
          (cursor_requests-IsSound n))
        swept-IsSound
  turn-IsSound n Wake.cursor_msg t s =
      Ends-then IsSound IsSound _ _
        (cursor_responses-IsSound n (reset pc pu freq Wake.cursor_msg t) s) swept-IsSound
  turn-IsSound n Wake.config_irq t s = swept-IsSound (reset pc pu freq Wake.config_irq t) s
  turn-IsSound n Wake.stop t s = s
  turn-IsSound n Wake.wait_failed t s = swept-IsSound t s
