-- ===== src/Handler/Turns.antt =====
-- One turn of the response loop, on every branch, and a loop that cannot end.
use virtio_drivers_windows.Base.{
  ℕ, zero, suc, ◌≡◌, refl, ◌∙◌, ap, ◌⊎◌, inl, inr, Option, Option-cases, none, some, List, ◌++◌, [],
  ◌∷◌, Outcome, ok, contains, bind_assoc, bind_cong, ◌>>=◌, Allows, Allows-then, arith, Status,
  invalid_device_state,
}
use virtio_drivers_windows.Buffers.{as_ref, as_mut}
use virtio_drivers_windows.Handler.{pop_from_device, Queue, update, again}
use virtio_drivers_windows.Handler.Errors.{VirtioError, from_virtio_error}
use virtio_drivers_windows.Handler.Interface.{Platform, nothing}
use virtio_drivers_windows.Handler.Data.{GpuData, signal_fence}
use virtio_drivers_windows.Handler.Slots.{IsValid, InFlight, free_slots}
use virtio_drivers_windows.Handler.Responses.{response, handle_responses}
use virtio_drivers_windows.Handler.Effects.{effect}
use virtio_drivers_windows.Handler.Respond.{completed_fence, completed-effect, as_ref-as_mut}
use virtio_drivers_windows.Handler.Popped.{
  Popped, pop_from_device-Popped, pop_from_device-unknown, pop_from_device-idle,
}

module _ (p : Platform) where
  -- The request in the slot `i` has been answered: its token stands for no slot any more, and the slot
  -- is free and holds no callback. The device's queue is left as `x`.
  pub record Answered (q : Queue p) (t i : ℕ) (x : p.VirtQueue) (q' : Queue p) : Type 0 where
    pub valid : IsValid p q'
    pub slot_free : free_slots p q' ≡ free_slots p q ++ (i ∷ [])
    pub no_callback : q'.callbacks i ≡ nothing
    pub indices : q'.indices ≡ update q.indices t none
    pub queue : q'.queue ≡ x
    pub same_chan : q'.chan ≡ q.chan

  abbrev pub Step : Type 0
  Step = (Status ⊎ Option (Unit {0})) × (Queue p × GpuData)

  -- The result of an answered request, as the loop takes it.
  answered_lem :
      (m : Outcome (Option ℕ)) (f : Option ℕ → Outcome GpuData) (g : GpuData → Outcome GpuData)
      (q' : Queue p)
      → ◌>>=◌ {B = Step}
          (◌>>=◌ {B = Queue p × GpuData} m (λ a. f a >>= λ b. g b >>= λ d. ok (q', d)))
          (λ s. ok (inr (some tt), s))
        ≡ ◌>>=◌ {B = Step} m (λ a. f a >>= λ b. g b >>= λ d. ok (inr (some tt), (q', d)))
  answered_lem m f g q' =
      let wrap : Queue p × GpuData → Outcome Step = λ s. ok (inr (some tt), s) in
      let ends : GpuData → Outcome (Queue p × GpuData) = λ d. ok (q', d) in
      bind_assoc m (λ a. f a >>= λ b. g b >>= ends) wrap
      ∙ bind_cong m (λ a.
        bind_assoc (f a) (λ b. g b >>= ends) wrap
        ∙ bind_cong (f a) (λ b. bind_assoc (g b) ends wrap))

  pub answered-Allows :
      (P : Step → Type 0) (m : Outcome (Option ℕ)) (f : Option ℕ → Outcome GpuData)
      (g : GpuData → Outcome GpuData) (q' : Queue p)
      → ((d : GpuData) → P (inr (some tt), (q', d)))
      → Allows P (◌>>=◌ {B = Step} m (λ a. f a >>= λ b. g b >>= λ d. ok (inr (some tt), (q', d))))
  answered-Allows P m f g q' k =
      Allows-then P m _
        λ a. Allows-then P (f a) _ λ b. Allows-then P (g b) (λ d. ok (inr (some tt), (q', d))) k

  after_pop :
      {q1 : Queue p} {state : p.VirtQueue} (q : Queue p) (d : GpuData) (t i len : ℕ) (new : List ℕ)
      → IsValid p q
      → (f : InFlight p q i) → q.indices t ≡ some i
      → pop_from_device p q ≡ ok (inr (some (i, len)), q1)
      → Popped p q t i (as_mut f.output new) state q1
      → (received : List ℕ) × (q' : Queue p) × (as_ref (as_mut f.output new) ≡ ok received)
        × Answered q t i state q'
        × (response p q d
            ≡ ◌>>=◌ {B = Step} (completed_fence p f.sent received) (λ fence.
              signal_fence fence d >>= λ d'.
              effect p.counter (q.callbacks i) (as_mut f.output new) d' >>= λ d''.
              ok (inr (some tt), (q', d''))))
  unfolding response
  after_pop {q1} q d t i len new v f e same w =
      let (received, bytes) = as_ref-as_mut f.output f.received new f.output_bytes in
      let (q', x, same') =
        completed-effect p q1 i d f.input (as_mut f.output new) f.sent received w.valid f.small
          (ap (λ l. contains l i) w.same_free ∙ f.taken)
          (λ u k. ground (arith, ap (λ g. g u) w.indices, v.apart t u i))
          (ap (λ g. g i) w.same_inputs ∙ f.has_input) w.outputs f.input_bytes bytes in
      (
        received,
        q',
        bytes,
        record {
          valid = x.valid;
          slot_free = x.slot_free ∙ ap (λ l. l ++ (i ∷ [])) w.same_free;
          no_callback = x.no_callback;
          indices = x.same_indices ∙ w.indices;
          queue = x.same_queue ∙ w.queue;
          same_chan = x.same_chan ∙ w.same_chan;
        },
        rw (same, response)
            (ap (λ m. m >>= λ s. ok (inr (some tt), s)) same'
              ∙ (answered_lem (completed_fence p f.sent received) (λ fence. signal_fence fence d)
                    (effect p.counter (q1.callbacks i) (as_mut f.output new)) q'
                  ∙ ap
                      (λ c. ◌>>=◌ {B = Step} (completed_fence p f.sent received) (λ fence.
                        signal_fence fence d >>= λ d'.
                        effect p.counter (c i) (as_mut f.output new) d' >>= λ d''.
                        ok (inr (some tt), (q', d''))))
                      w.same_callbacks)),
      )

  -- What a turn of the response loop does, by what the device's queue shows.
  abbrev pub Responded : Queue p → GpuData → Type 0
  Responded q d =
      ((p.peek_used q.queue ≡ none) × (response p q d ≡ ok (inr none, (q, d))))
      ⊎ ((t : ℕ) × (p.peek_used q.queue ≡ some t)
          × (((q.indices t ≡ none) × (response p q d ≡ ok (inl invalid_device_state, (q, d))))
              ⊎ ((i : ℕ) × (q.indices t ≡ some i)
                  × (f : InFlight p q i) × (((e : VirtioError) × (x : p.VirtQueue) × (p.pop_used
                            q.queue t f.sent f.received
                          ≡ (inl e, x))
                        × (response p q d
                            ≡ ok (inl (from_virtio_error e), (record q { queue = x }, d))))
                      ⊎ ((len : ℕ) × (new received : List ℕ) × (x : p.VirtQueue) × (q' : Queue p)
                          × (p.pop_used q.queue t f.sent f.received ≡ (inr (len, new), x))
                          × (as_ref (as_mut f.output new) ≡ ok received)
                          × Answered q t i x q'
                          × (response p q d
                              ≡ ◌>>=◌ {B = Step} (completed_fence p f.sent received) (λ fence.
                                signal_fence fence d >>= λ d'.
                                effect p.counter (q.callbacks i) (as_mut f.output new) d' >>= λ d''.
                                ok (inr (some tt), (q', d'')))))))))

  -- In a valid state a turn of the response loop does nothing if the device has used no token, and
  -- fails without a change for a token that stands for no slot, or with the error of the device's
  -- queue. Otherwise it signals the fence that the headers report, has the effect of the request's
  -- callback, and ends in a valid state in which the slot is free, without a callback or a token. It
  -- panics only as reading the headers, signaling the fence or the effect of the callback does.
  pub response-Answered : (q : Queue p) (d : GpuData) → IsValid p q → Responded q d
  unfolding response
  response-Answered q d v = elim (Option-cases (p.peek_used q.queue)) [
    | inl peek ↦ inl (peek, rw (pop_from_device-idle p q peek, response) refl)
    | inr (t, peek) ↦ inr (
      t,
      peek,
      elim (Option-cases (q.indices t)) [
        | inl e ↦ inl (e, rw (pop_from_device-unknown p q t peek e, response) refl)
        | inr (i, e) ↦
            let (f, r) = pop_from_device-Popped p q t i v peek e in
            inr (
              i,
              e,
              f,
              elim r [
                | inl (x, state, r, same) ↦ inl (x, state, r, rw (same, response) refl)
                | inr (len, new, state, q1, r, same, w) ↦
                    let (received, q', bytes, a, same') = after_pop q d t i len new v f e same w in
                    inr (len, new, received, state, q', r, bytes, a, same')
              ],
            )
      ],
    )
  ]

  -- Where the device has used a token that stands for no slot, the response loop does not end: every
  -- turn fails with the same state.
  pub handle_responses-stuck :
      (n : ℕ) (q : Queue p) (d : GpuData) (t : ℕ)
      → p.peek_used q.queue ≡ some t
      → q.indices t ≡ none
      → handle_responses p n (q, d) ≡ none
  unfolding handle_responses response again
  handle_responses-stuck zero q d t peek e = refl
  handle_responses-stuck (suc n) q d t peek e =
      rw (pop_from_device-unknown p q t peek e, response) (handle_responses-stuck n q d t peek e)
