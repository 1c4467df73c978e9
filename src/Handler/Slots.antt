-- ===== src/Handler/Slots.antt =====
-- The slots of the queue handler: each is free, or in flight under one token at most.
use virtio_drivers_windows.Base.{
  arith, refl, ◌++◌, ◌∙◌, ℕ, ◌<◌, ◌≡◌, true, false, ◌||◌, some, List, [], ◌∷◌, ok, length, contains,
  IsNodup, IsNodup-snoc, length-IsNodup, contains-append, ◌≢◌,
}
use virtio_drivers_windows.Buffers.{MaybeInlineBuffer, as_ref, slice_in_one_page}
use virtio_drivers_windows.Channel.Fifo as Fifo
use virtio_drivers_windows.Handler.{Queue, is_dma, push_free}
use virtio_drivers_windows.Handler.Interface.{Platform, Buffer}

module _ (p : Platform) where
  abbrev pub free_slots : Queue p → List ℕ
  free_slots q = p.free_queue.contents q.free

  abbrev pub waiting : Queue p → List Buffer
  waiting q = Fifo.contents p.fast_queue p.slow_queue q.chan

  -- A slot in flight holds an input and an output whose bytes can be read.
  pub record InFlight (q : Queue p) (i : ℕ) : Type 0 where
    pub input : MaybeInlineBuffer
    pub output : MaybeInlineBuffer
    pub sent : List ℕ
    pub received : List ℕ
    pub small : i < p.size
    pub taken : contains (free_slots q) i ≡ false
    pub has_input : q.inputs i ≡ some input
    pub has_output : q.outputs i ≡ some output
    pub input_bytes : as_ref input ≡ ok sent
    pub output_bytes : as_ref output ≡ ok received

  pub InFlight-moved :
      {q q' : Queue p} {i : ℕ}
      → InFlight q i
      → contains (free_slots q') i ≡ false
      → q'.inputs i ≡ q.inputs i
      → q'.outputs i ≡ q.outputs i
      → InFlight q' i
  InFlight-moved f taken input output = record {
    input = f.input;
    output = f.output;
    sent = f.sent;
    received = f.received;
    small = f.small;
    taken = taken;
    has_input = input ∙ f.has_input;
    has_output = output ∙ f.has_output;
    input_bytes = f.input_bytes;
    output_bytes = f.output_bytes;
  }

  pub record IsValid (q : Queue p) : Type 0 where
    pub channel : Fifo.IsValid p.fast_queue p.slow_queue q.chan
    pub room : p.free_queue.capacity q.free ≡ p.size
    pub distinct : IsNodup (free_slots q)
    pub small : (i : ℕ) → contains (free_slots q) i ≡ true → i < p.size
    pub in_flight : (t i : ℕ) → q.indices t ≡ some i → InFlight q i
    pub apart : (t u i : ℕ) → q.indices t ≡ some i → q.indices u ≡ some i → t ≡ u

  -- A buffer that can be sent from every slot: its bytes can be read, and lie in one page where they
  -- are not DMA memory.
  pub record IsSendable (b : Buffer) : Type 0 where
    pub sent : List ℕ
    pub received : List ℕ
    pub input_bytes : as_ref b.input ≡ ok sent
    pub output_bytes : as_ref b.output ≡ ok received
    pub input_page :
        (i : ℕ)
        → (is_dma b.input || slice_in_one_page p.page_size (p.input_addr i b.input) (length sent))
          ≡ true
    pub output_page :
        (i : ℕ)
        → (is_dma b.output
            || slice_in_one_page p.page_size (p.output_addr i b.output) (length received))
          ≡ true

  abbrev pub AllSendable : List Buffer → Type 0
  AllSendable [] = Unit {0}
  AllSendable (b ∷ bs) = IsSendable b × AllSendable bs

  -- A slot that neither is free nor stands for a token can be freed.
  pub push_free-IsValid :
      (q : Queue p) (i : ℕ)
      → IsValid q
      → i < p.size
      → contains (free_slots q) i ≡ false
      → ((t : ℕ) → q.indices t ≢ some i)
      → (free : p.free_queue.Fast) × (push_free p q i ≡ ok (record q { free = free }))
        × IsValid (record q { free = free })
        × (p.free_queue.contents free ≡ free_slots q ++ (i ∷ []))
  unfolding push_free
  push_free-IsValid q i v h absent apart =
      let full =
        length-IsNodup p.size (i ∷ free_slots q) (absent, v.distinct)
          (λ j m. ground (arith, v.small j)) in
      let (free, e, c, k) = p.free_queue.push_room q.free i (ground (arith, v.room)) in
      (
        free,
        rw e refl,
        record {
          channel = v.channel;
          room = k ∙ v.room;
          distinct = rw c (IsNodup-snoc (free_slots q) i v.distinct absent);
          small = λ j m. ground (arith, c, contains-append (free_slots q) (i ∷ []) j, v.small j);
          in_flight = λ t j d.
              let f = v.in_flight t j d in
              InFlight-moved f
                (ground (arith, c, contains-append (free_slots q) (i ∷ []) j, f.taken, apart t))
                refl refl;
          apart = v.apart;
        },
        c,
      )
