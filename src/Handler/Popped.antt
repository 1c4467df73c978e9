-- ===== src/Handler/Popped.antt =====
-- Popping a used token from the device.
use virtio_drivers_windows.Base.{
  invalid_device_state, ℕ, ◌≡◌, refl, ◌⊎◌, inl, inr, none, some, List, ok, arith, lt→ltb,
}
use virtio_drivers_windows.Buffers.{MaybeInlineBuffer, as_mut}
use virtio_drivers_windows.Handler.{Queue, update, pop_from_device, pop_slot, used}
use virtio_drivers_windows.Handler.Errors.{VirtioError, from_virtio_error}
use virtio_drivers_windows.Handler.Interface.{Platform}
use virtio_drivers_windows.Handler.Slots.{IsValid, InFlight, InFlight-moved, free_slots}

module _ (p : Platform) where
  -- The token `t` of the slot `i` was the next thing that the device had used, which leaves `x`.
  pub record Popped (q : Queue p) (t i : ℕ) (output : MaybeInlineBuffer) (x : p.VirtQueue)
      (q' : Queue p) : Type 0 where
    pub valid : IsValid p q'
    pub same_free : free_slots p q' ≡ free_slots p q
    pub queue : q'.queue ≡ x
    pub same_chan : q'.chan ≡ q.chan
    pub same_inputs : q'.inputs ≡ q.inputs
    pub same_callbacks : q'.callbacks ≡ q.callbacks
    pub outputs : q'.outputs i ≡ some output
    pub indices : q'.indices ≡ update q.indices t none

  popped_lem :
      (q : Queue p) (t i : ℕ) (x : p.VirtQueue) (new : List ℕ)
      → IsValid p q
      → (f : InFlight p q i) → q.indices t ≡ some i
      → Popped q t i (as_mut f.output new) x (record q {
        queue = x;
        outputs = update q.outputs i (some (as_mut f.output new));
        indices = update q.indices t none;
      })
  popped_lem q t i x new v f e = record {
    valid = record {
      channel = v.channel;
      room = v.room;
      distinct = v.distinct;
      small = v.small;
      in_flight = λ u j d.
          let g = v.in_flight u j (ground arith) in
          InFlight-moved p g g.taken refl (ground (arith, v.apart t u i));
      apart = λ u w j d k. ground (arith, v.apart u w j);
    };
    same_free = refl;
    queue = refl;
    same_chan = refl;
    same_inputs = refl;
    same_callbacks = refl;
    outputs = ground arith;
    indices = refl;
  }

  -- The device's queue refuses to give up the token, or gives it up with the bytes of the response.
  abbrev pub PopResult : (q : Queue p) (t i : ℕ) → InFlight p q i → Type 0
  PopResult q t i f =
      ((e : VirtioError) × (x : p.VirtQueue) × (p.pop_used q.queue t f.sent f.received ≡ (inl e, x))
        × (pop_from_device p q ≡ ok (inl (from_virtio_error e), record q { queue = x })))
      ⊎ ((len : ℕ) × (new : List ℕ) × (x : p.VirtQueue) × (q' : Queue p) × (p.pop_used q.queue t
              f.sent f.received
            ≡ (inr (len, new), x))
          × (pop_from_device p q ≡ ok (inr (some (i, len)), q'))
          × Popped q t i (as_mut f.output new) x q')

  used-Popped :
      (q : Queue p) (t i : ℕ) (r : (VirtioError ⊎ (ℕ × List ℕ)) × p.VirtQueue)
      → IsValid p q
      → (f : InFlight p q i) → q.indices t ≡ some i
      → p.pop_used q.queue t f.sent f.received ≡ r
      → pop_from_device p q ≡ used p t i f.output q r
      → PopResult q t i f
  unfolding used
  used-Popped q t i (inl x, state) v f e r same = inl (x, state, r, same)
  used-Popped q t i (inr (len, new), state) v f e r same =
      inr (len, new, state, _, r, same, popped_lem q t i state new v f e)

  pub pop_from_device-Popped :
      (q : Queue p) (t i : ℕ)
      → IsValid p q
      → p.peek_used q.queue ≡ some t
      → q.indices t ≡ some i
      → (f : InFlight p q i) × PopResult q t i f
  unfolding pop_from_device pop_slot
  pop_from_device-Popped q t i v peek e =
      let f = v.in_flight t i e in
      (
        f,
        used-Popped q t i _ v f e refl (
            rw
              (
                peek,
                pop_from_device,
                lt→ltb t p.size (p.peek_token q.queue t peek),
                e,
                lt→ltb i p.size f.small,
                f.has_input,
                f.has_output,
                f.input_bytes,
                f.output_bytes,
              )
              refl),
      )

  pub pop_from_device-unknown :
      (q : Queue p) (t : ℕ)
      → p.peek_used q.queue ≡ some t
      → q.indices t ≡ none
      → pop_from_device p q ≡ ok (inl invalid_device_state, q)
  unfolding pop_from_device
  pop_from_device-unknown q t peek e =
      rw (peek, pop_from_device, lt→ltb t p.size (p.peek_token q.queue t peek), e) refl

  pub pop_from_device-idle :
      (q : Queue p) → p.peek_used q.queue ≡ none → pop_from_device p q ≡ ok (inr none, q)
  unfolding pop_from_device
  pop_from_device-idle q peek = rw (peek, pop_from_device) refl
