-- ===== src/Handler/Requests.antt =====
-- Handing requests to the device.
use virtio_drivers_windows.Base.{
  ℕ_discrete, ◌≢◌, ℕ, ◌<◌, ◌≡◌, refl, false, ◌⊎◌, inl, inr, some, ok, arith, lt→ltb, contains,
  Status,
}
use virtio_drivers_windows.Handler.{Queue, push_to_device, added, update}
use virtio_drivers_windows.Handler.Errors.{VirtioError, from_virtio_error}
use virtio_drivers_windows.Handler.Interface.{Platform, Buffer}
use virtio_drivers_windows.Handler.Slots.{InFlight-moved, IsValid, InFlight, IsSendable, free_slots}

module _ (p : Platform) where
  -- The queue once the slot `i` was taken for the buffer `b`.
  abbrev loaded : Queue p → ℕ → Buffer → Queue p
  loaded q i b = record q {
    inputs = update q.inputs i (some b.input);
    outputs = update q.outputs i (some b.output);
    callbacks = update q.callbacks i b.callback;
  }

  loaded-IsValid :
      (q : Queue p) (i : ℕ) (b : Buffer)
      → IsValid p q
      → ((t : ℕ) → q.indices t ≢ some i)
      → IsValid p (loaded q i b)
  loaded-IsValid q i b v apart = record {
    channel = v.channel;
    room = v.room;
    distinct = v.distinct;
    small = v.small;
    in_flight = λ t j e.
        let f = v.in_flight t j e in
        InFlight-moved p f f.taken (ground (arith, apart t)) (ground (arith, apart t));
    apart = v.apart;
  }

  noted-IsValid :
      (q : Queue p) (i t n : ℕ) (x : p.VirtQueue)
      → IsValid p q
      → InFlight p q i
      → ((t : ℕ) → q.indices t ≢ some i)
      → IsValid p (record q { queue = x; indices = update q.indices t (some i); notified = n })
  noted-IsValid q i t n x v f apart = record {
    channel = v.channel;
    room = v.room;
    distinct = v.distinct;
    small = v.small;
    in_flight = λ u j e. elim (ℕ_discrete t u) [
      | yes h ↦ let k : j ≡ i = ground arith in rw k (InFlight-moved p f f.taken refl refl)
      | no h ↦ let g = v.in_flight u j (ground arith) in InFlight-moved p g g.taken refl refl
    ];
    apart = λ u w j d e. ground (arith, v.apart u w j, apart u, apart w);
  }

  -- What handing over the buffer `b` in the slot `i` has done.
  pub record Pushed (q : Queue p) (i : ℕ) (b : Buffer) (r : Status ⊎ Unit {0}) (q' : Queue p)
      : Type 0 where
    pub valid : IsValid p q'
    pub same_free : q'.free ≡ q.free
    pub same_chan : q'.chan ≡ q.chan
    pub callback : q'.callbacks i ≡ b.callback
    pub noted :
        ((t : ℕ) × (r ≡ inr tt) × (q'.indices ≡ update q.indices t (some i)))
        ⊎ ((e : Status) × (r ≡ inl e) × (q'.indices ≡ q.indices))

  added-Pushed :
      (q : Queue p) (i : ℕ) (b : Buffer) (a : (VirtioError ⊎ ℕ) × p.VirtQueue)
      → ((t : ℕ) → a.0 ≡ inr t → t < p.size)
      → IsValid p (loaded q i b)
      → InFlight p (loaded q i b) i
      → ((t : ℕ) → q.indices t ≢ some i)
      → (r : Status ⊎ Unit {0}) × (q' : Queue p) × (added p i (loaded q i b) a ≡ ok (r, q'))
        × Pushed q i b r q'
  unfolding added
  added-Pushed q i b (inl e, x) token v f apart = (
    _,
    _,
    refl,
    record {
      valid = record {
        channel = v.channel;
        room = v.room;
        distinct = v.distinct;
        small = v.small;
        in_flight = λ t j d. let g = v.in_flight t j d in InFlight-moved p g g.taken refl refl;
        apart = v.apart;
      };
      same_free = refl;
      same_chan = refl;
      callback = ground arith;
      noted = inr (from_virtio_error e, refl, refl);
    },
  )
  added-Pushed q i b (inr t, x) token v f apart = rw (lt→ltb t p.size (token t refl)) (
    _,
    _,
    refl,
    record {
      valid = noted-IsValid (loaded q i b) i t _ x v f apart;
      same_free = refl;
      same_chan = refl;
      callback = ground arith;
      noted = inl (t, refl, refl);
    },
  )

  -- A buffer that can be sent is handed over in a free slot without a panic: either its token is
  -- noted for the slot, or the device's queue refuses it and the error is returned.
  pub push_to_device-Pushed :
      (q : Queue p) (i : ℕ) (b : Buffer)
      → IsValid p q
      → i < p.size
      → contains (free_slots p q) i ≡ false
      → ((t : ℕ) → q.indices t ≢ some i)
      → IsSendable p b
      → (r : Status ⊎ Unit {0}) × (q' : Queue p) × (push_to_device p q i b ≡ ok (r, q'))
        × Pushed q i b r q'
  unfolding push_to_device
  push_to_device-Pushed q i b v h taken apart s =
      rw (lt→ltb i p.size h, s.input_bytes, s.output_bytes, s.input_page i, s.output_page i)
        (added-Pushed q i b (p.add q.queue s.sent s.received)
          (p.add_token q.queue s.sent s.received) (loaded-IsValid q i b v apart)
          (record {
            input = b.input;
            output = b.output;
            sent = s.sent;
            received = s.received;
            small = h;
            taken = taken;
            has_input = ground arith;
            has_output = ground arith;
            input_bytes = s.input_bytes;
            output_bytes = s.output_bytes;
          })
          apart)
