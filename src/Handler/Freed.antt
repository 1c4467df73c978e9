-- ===== src/Handler/Freed.antt =====
-- What a response does: the slot of the request is freed, whatever its callback.
use virtio_drivers_windows.Base.{
  ℕ, ◌<◌, ◌≡◌, ◌≢◌, refl, sym, ◌∙◌, ap, false, Option, none, some, [], ◌∷◌, ◌++◌, ok, arith,
  contains, lt→ltb,
}
use virtio_drivers_windows.Buffers.{MaybeInlineBuffer}
use virtio_drivers_windows.Handler.{Queue, update, mark_free}
use virtio_drivers_windows.Handler.Interface.{Platform, Callback, nothing}
use virtio_drivers_windows.Handler.Slots.{IsValid, InFlight-moved, free_slots, push_free-IsValid}

module _ (p : Platform) where
  -- Writes to a slot that stands for no token.
  pub written-IsValid :
      (q : Queue p) (i : ℕ) (inputs outputs : ℕ → Option MaybeInlineBuffer)
      (callbacks : ℕ → Callback)
      → IsValid p q
      → ((t : ℕ) → q.indices t ≢ some i)
      → ((j : ℕ) → i ≢ j → inputs j ≡ q.inputs j)
      → ((j : ℕ) → i ≢ j → outputs j ≡ q.outputs j)
      → IsValid p (record q { inputs = inputs; outputs = outputs; callbacks = callbacks })
  written-IsValid q i inputs outputs callbacks v apart same_in same_out = record {
    channel = v.channel;
    room = v.room;
    distinct = v.distinct;
    small = v.small;
    in_flight = λ t j e.
        let f = v.in_flight t j e in
        let ne : i ≢ j = λ k. apart t (e ∙ ap some (sym k)) in
        InFlight-moved p f f.taken (same_in j ne) (same_out j ne);
    apart = v.apart;
  }

  -- The slot `i` is the last of the free ones, and holds no callback.
  pub record Freed (q : Queue p) (i : ℕ) (q' : Queue p) : Type 0 where
    pub valid : IsValid p q'
    pub slot_free : free_slots p q' ≡ free_slots p q ++ (i ∷ [])
    pub no_callback : q'.callbacks i ≡ nothing
    pub same_indices : q'.indices ≡ q.indices
    pub same_chan : q'.chan ≡ q.chan
    pub same_queue : q'.queue ≡ q.queue

  pub mark_free-Freed :
      (q : Queue p) (i : ℕ) (outputs : ℕ → Option MaybeInlineBuffer)
      → IsValid p q
      → i < p.size
      → contains (free_slots p q) i ≡ false
      → ((t : ℕ) → q.indices t ≢ some i)
      → ((j : ℕ) → i ≢ j → outputs j ≡ q.outputs j)
      → (q' : Queue p) × (mark_free p (record q { outputs = outputs }) i ≡ ok q') × Freed q i q'
  unfolding mark_free
  mark_free-Freed q i outputs v h absent apart same =
      let w =
        written-IsValid q i (update q.inputs i none) (update outputs i none)
          (update q.callbacks i nothing) v apart (λ j ne. ground arith)
          (λ j ne. ground (arith, same j)) in
      let (f, e, fv, c) = push_free-IsValid p _ i w h absent apart in
      rw (lt→ltb i p.size h) (
        _,
        e,
        record {
          valid = fv;
          slot_free = c;
          no_callback = ground arith;
          same_indices = refl;
          same_chan = refl;
          same_queue = refl;
        },
      )
