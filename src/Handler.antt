-- ===== src/Handler.antt =====
-- `Queue` of gpu-wddm/src/queue.rs: it hands waiting requests to the device's virtqueue, each in a
-- slot of its own, and finishes those that the device has used. An array of the source is a function
-- of the index, which panics from the size on; a failure leaves the state that it was reached in, so
-- it is a value beside the state, `inl` for `Err`.
pub mod Errors
pub mod Slots
pub mod Requests
pub mod Loop
pub mod Started
pub mod Data
pub mod Responses
pub mod Freed
pub mod Effects
pub mod Respond
pub mod Popped
pub mod Turns
pub mod Kept
pub mod Tokens
pub mod Drained
pub mod Model
pub mod Tests
pub mod Interface
use virtio_drivers_windows.Base.{
  ℕ, zero, suc, ◌+◌, ◌≡◌, ◌⊎◌, inl, inr, Bool, true, false, not, ◌&&◌, ◌||◌, Option, none, some,
  List, [], ◌∷◌, Outcome, ok, err, panic, ◌>>=◌, ◌>>◌, Status, invalid_device_state, assert, unwrap,
  ltb, ◌==◌, if◌then◌else◌, length,
}
use virtio_drivers_windows.Buffers.{
  MaybeInlineBuffer, inline, boxed, dma, as_ref, as_mut, slice_in_one_page,
}
use virtio_drivers_windows.Channel.{ArraySegQueue}
use virtio_drivers_windows.Channel
use Errors.{VirtioError, from_virtio_error}
use Interface.{Callback, nothing, Buffer, Platform}

abbrev pub update {ℓ} : {A : Type ℓ} → (ℕ → A) → ℕ → A → ℕ → A
update f i v j = if i == j then v else f j

abbrev pub is_dma : MaybeInlineBuffer → Bool
is_dma (dma bytes) = true
is_dma (inline len bytes) = false
is_dma (boxed bytes) = false

module _ (p : Platform) where
  open p use {VirtQueue, CtrlHeader, size, page_size}

  -- `notified` counts the notifications of the device.
  pub record Queue : Type 0 where
    pub queue : VirtQueue
    pub inputs : ℕ → Option MaybeInlineBuffer
    pub outputs : ℕ → Option MaybeInlineBuffer
    pub callbacks : ℕ → Callback
    pub indices : ℕ → Option ℕ
    pub free : p.free_queue.Fast
    pub chan : ArraySegQueue p.fast_queue p.slow_queue
    pub notified : ℕ

  -- After `add`: the token's slot is noted, and the device notified if it asks for it.
  unfoldable pub added :
      ℕ → Queue → (VirtioError ⊎ ℕ) × VirtQueue → Outcome ((Status ⊎ Unit {0}) × Queue)
  added i q (inl e, v) = ok (inl (from_virtio_error e), record q { queue = v })
  added i q (inr token, v) = do
    assert (ltb token size)
    ok (
      inr tt,
      record q {
        queue = v;
        indices = update q.indices token (some i);
        notified = if p.should_notify v then suc q.notified else q.notified;
      },
    )

  unfoldable pub push_to_device : Queue → ℕ → Buffer → Outcome ((Status ⊎ Unit {0}) × Queue)
  unfolding added
  push_to_device q i buffer = do
    assert (ltb i size)
    let q' = record q {
      inputs = update q.inputs i (some buffer.input);
      outputs = update q.outputs i (some buffer.output);
      callbacks = update q.callbacks i buffer.callback;
    }
    input ← as_ref buffer.input
    output ← as_ref buffer.output
    assert (
        is_dma buffer.input
        || slice_in_one_page page_size (p.input_addr i buffer.input) (length input))
    assert (
        is_dma buffer.output
        || slice_in_one_page page_size (p.output_addr i buffer.output) (length output))
    added i q' (p.add q.queue input output)

  unfoldable pub used :
      ℕ
      → ℕ
      → MaybeInlineBuffer
      → Queue
      → (VirtioError ⊎ (ℕ × List ℕ)) × VirtQueue
      → Outcome ((Status ⊎ Option (ℕ × ℕ)) × Queue)
  used token i output q (inl e, v) = ok (inl (from_virtio_error e), record q { queue = v })
  used token i output q (inr (len, bytes), v) = ok (
    inr (some (i, len)),
    record q {
      queue = v;
      outputs = update q.outputs i (some (as_mut output bytes));
      indices = update q.indices token none;
    },
  )

  -- The buffers of the slot that a token stands for.
  unfoldable pub pop_slot :
      ℕ
      → ℕ
      → Queue
      → Option MaybeInlineBuffer
      → Option MaybeInlineBuffer
      → Outcome ((Status ⊎ Option (ℕ × ℕ)) × Queue)
  unfolding used
  pop_slot token i q none output = ok (inl invalid_device_state, q)
  pop_slot token i q (some input) none = do _ ← as_ref input; ok (inl invalid_device_state, q)
  pop_slot token i q (some input) (some output) = do
    sent ← as_ref input
    received ← as_ref output
    used token i output q (p.pop_used q.queue token sent received)

  unfoldable pub pop_from_device : Queue → Outcome ((Status ⊎ Option (ℕ × ℕ)) × Queue)
  unfolding pop_slot
  pop_from_device q = elim (p.peek_used q.queue) [
    | none ↦ ok (inr none, q)
    | some token ↦ assert (ltb token size) >> elim (q.indices token) [
      | none ↦ ok (inl invalid_device_state, q)
      | some i ↦ assert (ltb i size) >> pop_slot token i q (q.inputs i) (q.outputs i)
    ]
  ]

  -- `free.push(i).unwrap()`.
  unfoldable pub push_free : Queue → ℕ → Outcome Queue
  push_free q i = do free ← unwrap (p.free_queue.push q.free i); ok (record q { free = free })

  unfoldable pub mark_free : Queue → ℕ → Outcome Queue
  unfolding push_free
  mark_free q i = do
    assert (ltb i size)
    push_free
        (record q {
          inputs = update q.inputs i none;
          outputs = update q.outputs i none;
          callbacks = update q.callbacks i nothing;
        })
        i

  -- With a slot and the request for it, if one waited.
  unfoldable pub request_in :
      ℕ → Queue → Option Buffer → Outcome ((Status ⊎ Option (Unit {0})) × Queue)
  unfolding push_free push_to_device
  request_in i q none = do q' ← push_free q i; ok (inr none, q')
  request_in i q (some buffer) = do
    (r, q') ← push_to_device q i buffer
    ok (elim r [ inl e ↦ inl e | inr u ↦ inr (some u) ], q')

  unfoldable pub request : Queue → Outcome ((Status ⊎ Option (Unit {0})) × Queue)
  unfolding request_in
  request q = elim (p.free_queue.pop q.free) [
    | none ↦ ok (inr none, q)
    | some (i, free) ↦
        let (buffer, chan) = Channel.pop p.fast_queue p.slow_queue q.chan in
        request_in i (record q { free = free; chan = chan }) buffer
  ]

  -- What a loop does after a step: it ends where nothing was left to do or the step panicked, and
  -- goes on after a failure.
  unfoldable pub again :
      {S : Type 0}
      → (S → Option (Outcome S))
      → Outcome ((Status ⊎ Option (Unit {0})) × S)
      → Option (Outcome S)
  again loop (ok (inr none, s)) = some (ok s)
  again loop (ok (inr (some u), s)) = loop s
  again loop (ok (inl e, s)) = loop s
  again loop (err e) = some (err e)
  again loop panic = some panic

  -- The loop on fuel, `none` where it runs out.
  unfoldable pub handle_requests : ℕ → Queue → Option (Outcome Queue)
  unfolding again
  handle_requests zero q = none
  handle_requests (suc n) q = again (handle_requests n) (request q)
