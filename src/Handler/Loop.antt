-- ===== src/Handler/Loop.antt =====
-- One turn of the request loop, and the loop.
use virtio_drivers_windows.Base.{
  subst, ℕ, zero, suc, ◌<◌, ◌≡◌, ◌≢◌, refl, sym, ◌∙◌, ap, false, ◌⊎◌, inl, inr, Option, none, some,
  List, [], ◌∷◌, ok, arith, length, contains, contains-append, Status, List-cases,
}
use virtio_drivers_windows.Channel.Fifo as Fifo
use virtio_drivers_windows.Channel
use virtio_drivers_windows.Channel.{ArraySegQueue}
use virtio_drivers_windows.Handler.{Queue, request, request_in, again, handle_requests}
use virtio_drivers_windows.Handler.Interface.{Platform, Buffer}
use virtio_drivers_windows.Handler.Slots.{
  push_free-IsValid, IsValid, InFlight-moved, AllSendable, free_slots, waiting,
}
use virtio_drivers_windows.Handler.Requests.{Pushed, push_to_device-Pushed}

module _ (p : Platform) where
  -- Nothing is left to do: no slot is free, or no request waits.
  abbrev pub IsIdle : Queue p → Type 0
  IsIdle q = (free_slots p q ≡ []) ⊎ (waiting p q ≡ [])

  -- The first free slot and the first request are gone. Either a token is noted for the slot, with
  -- the request's callback, or the device's queue has refused the request, and no token is.
  pub record Turn (q : Queue p) (r : Status ⊎ Option (Unit {0})) (q' : Queue p) : Type 0 where
    pub slot : ℕ
    pub buffer : Buffer
    pub slot_taken : free_slots p q ≡ slot ∷ free_slots p q'
    pub request_taken : waiting p q ≡ buffer ∷ waiting p q'
    pub noted :
        ((t : ℕ) × (r ≡ inr (some tt))
          × (q'.indices t ≡ some slot)
          × (q'.callbacks slot ≡ buffer.callback))
        ⊎ ((e : Status) × (r ≡ inl e) × ((t : ℕ) → q'.indices t ≢ some slot))

  abbrev pub Requested : Queue p → (Status ⊎ Option (Unit {0})) → Queue p → Type 0
  Requested q r q' =
      ((r ≡ inr none)
        × IsIdle q'
        × (waiting p q' ≡ waiting p q)
        × ((i : ℕ) → contains (free_slots p q') i ≡ contains (free_slots p q) i))
      ⊎ Turn q r q'

  -- Taking the first free slot and popping the channel.
  taken-IsValid :
      (q : Queue p) (i : ℕ) (is : List ℕ) (free : p.free_queue.Fast)
      (chan : ArraySegQueue p.fast_queue p.slow_queue)
      → IsValid p q
      → free_slots p q ≡ i ∷ is
      → p.free_queue.contents free ≡ is
      → p.free_queue.capacity free ≡ p.free_queue.capacity q.free
      → Fifo.IsValid p.fast_queue p.slow_queue chan
      → IsValid p (record q { free = free; chan = chan })
        × (i < p.size)
        × (contains (p.free_queue.contents free) i ≡ false)
        × ((t : ℕ) → q.indices t ≢ some i)
  taken-IsValid q i is free chan v z c k cv = (
    record {
      channel = cv;
      room = k ∙ v.room;
      distinct = ground (arith, v.distinct);
      small = λ j m. ground (arith, v.small j);
      in_flight = λ t j d.
          let f = v.in_flight t j d in InFlight-moved p f (ground (arith, f.taken)) refl refl;
      apart = v.apart;
    },
    ground (arith, v.small i),
    ground (arith, v.distinct),
    λ t d. let f = v.in_flight t i d in ground (arith, f.taken),
  )

  chan_left :
      {q q' : Queue p} {i : ℕ} {b : Buffer} {r : Status ⊎ Unit {0}}
      → Pushed p q i b r q'
      → waiting p q' ≡ waiting p q
  chan_left d = ap (Fifo.contents p.fast_queue p.slow_queue) d.same_chan

  noted_lem :
      {q q' : Queue p} {i : ℕ} {b : Buffer} {r : Status ⊎ Unit {0}}
      → Pushed p q i b r q'
      → ((t : ℕ) → q.indices t ≢ some i)
      → let r' : Status ⊎ Option (Unit {0}) = elim r [ inl e ↦ inl e | inr u ↦ inr (some u) ] in
        ((t : ℕ) × (r' ≡ inr (some tt)) × (q'.indices t ≡ some i) × (q'.callbacks i ≡ b.callback))
        ⊎ ((e : Status) × (r' ≡ inl e) × ((t : ℕ) → q'.indices t ≢ some i))
  noted_lem {q} {q'} {i} {b} {r} d apart = elim d.noted [
    | inl (t, er, en) ↦ inl (t, rw er refl, rw en (ground arith), d.callback)
    | inr (e, er, en) ↦ inr (e, rw er refl, λ t m. ground (arith, apart t))
  ]

  -- In a valid state whose waiting requests can be sent, a turn of the request loop does not panic,
  -- and leaves such a state. It finds no free slot or no request, and then changes neither, or it
  -- takes the first of each: then a token stands for the slot with the request's callback, or the
  -- device's queue refuses the request and no token stands for the slot.
  pub request-Requested :
      (q : Queue p)
      → IsValid p q
      → AllSendable p (waiting p q)
      → (r : Status ⊎ Option (Unit {0})) × (q' : Queue p) × (request p q ≡ ok (r, q'))
        × IsValid p q'
        × AllSendable p (waiting p q')
        × Requested q r q'
  unfolding request
  request-Requested q v s = elim (List-cases (free_slots p q)) [
    | inl z ↦
        rw (p.free_queue.pop_empty q.free z, request)
          (_, _, refl, v, s, inl (refl, inl z, refl, λ i. refl))
    | inr (i, is, z) ↦
        let (free, e, c, k) = p.free_queue.pop_cons q.free i is z in
        let (cv, ce) = Fifo.pop-contents p.fast_queue p.slow_queue q.chan v.channel in
        let (tv, h, absent, apart) =
          taken-IsValid q i is free (Channel.pop p.fast_queue p.slow_queue q.chan).1 v z c k cv in
        rw (e, request)
          (elim (List-cases (waiting p q)) [
            | inl w ↦
                let none_left = ce ∙ ap Fifo.dequeue w in
                let (f, ef, fv, fc) = push_free-IsValid p _ i tv h absent apart in
                rw (ap (λ r. r.0) none_left, request_in)
                  (rw (ef, request_in)
                    (
                      _,
                      _,
                      refl,
                      fv,
                      rw (ap (λ r. r.1) none_left) tt,
                      inl (
                        refl,
                        inr (ap (λ r. r.1) none_left),
                        ap (λ r. r.1) none_left ∙ sym w,
                        λ j. ground (arith, fc, c, z, contains-append is (i ∷ []) j),
                      ),
                    ))
            | inr (b, bs, w) ↦
                let left = ce ∙ ap Fifo.dequeue w in
                let sendable = subst (AllSendable p) w s in
                let (r, q', e', d) = push_to_device-Pushed p _ i b tv h absent apart sendable.0 in
                rw (ap (λ r. r.0) left, request_in)
                  (rw (e', request_in)
                    (
                      _,
                      q',
                      refl,
                      d.valid,
                      subst (AllSendable p) (sym (chan_left d ∙ ap (λ r. r.1) left)) sendable.1,
                      inr (record {
                        slot = i;
                        buffer = b;
                        slot_taken =
                            z ∙ ap (λ l. i ∷ l) (sym (ap p.free_queue.contents d.same_free ∙ c));
                        request_taken =
                            w ∙ ap (λ l. b ∷ l) (sym (chan_left d ∙ ap (λ r. r.1) left));
                        noted = noted_lem d apart;
                      }),
                    ))
          ])
  ]

  -- With more fuel than there are waiting requests, the request loop ends without a panic in a valid
  -- state in which no slot is free or no request waits, if the waiting requests can be sent.
  pub handle_requests-IsIdle :
      (n : ℕ) (q : Queue p)
      → IsValid p q
      → AllSendable p (waiting p q)
      → length (waiting p q) < n
      → (q' : Queue p) × (handle_requests p n q ≡ some (ok q')) × IsValid p q' × IsIdle q'
  unfolding handle_requests again
  handle_requests-IsIdle zero q v s h = absurd (ground arith)
  handle_requests-IsIdle (suc n) q v s h =
      let (r, q', e, v', s', d) = request-Requested q v s in
      elim d [
        | inl (er, idle, _, _) ↦ rw (e, er) (q', refl, v', idle)
        | inr turn ↦
            let less : length (waiting p q') < n = ground (arith, turn.request_taken) in
            let (q2, e2, v2, idle) = handle_requests-IsIdle n q' v' s' less in
            elim turn.noted [
              | inl (t, er, _, _) ↦ rw (e, er) (q2, e2, v2, idle)
              | inr (x, er, _) ↦ rw (e, er) (q2, e2, v2, idle)
            ]
      ]
