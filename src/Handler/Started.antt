-- ===== src/Handler/Started.antt =====
-- `Queue::new` of gpu-wddm/src/queue.rs: every slot is free. The virtqueue is the one that
-- virtio-drivers made, which `set_dev_notify` has been called on.
use virtio_drivers_windows.Base.{
  ℕ, suc, ◌<◌, ◌≡◌, refl, ◌∙◌, true, none, [], ◌∷◌, Outcome, ok, ◌>>=◌, unwrap, arith, length,
  contains, contains-append, IsNodup, IsNodup-snoc, length-append, for_range, Yields, Yields-bind,
  for_range-Yields,
}
use virtio_drivers_windows.Channel
use virtio_drivers_windows.Channel.Fifo
use virtio_drivers_windows.Handler.{Queue}
use virtio_drivers_windows.Handler.Interface.{Platform, nothing}
use virtio_drivers_windows.Handler.Slots.{IsValid, waiting}

module _ (p : Platform) where
  -- The turns of the loop that fills the free slots.
  abbrev pub push_slot : ℕ → p.free_queue.Fast → Outcome p.free_queue.Fast
  push_slot i free = unwrap (p.free_queue.push free i)

  abbrev pub with_free : p.VirtQueue → ℕ → p.free_queue.Fast → Queue p
  with_free queue fast free = record {
    queue = queue;
    inputs = λ i. none;
    outputs = λ i. none;
    callbacks = λ i. nothing;
    indices = λ t. none;
    free = free;
    chan = Channel.new p.fast_queue p.slow_queue fast;
    notified = 0;
  }

  unfoldable pub new : p.VirtQueue → ℕ → Outcome (Queue p)
  unfolding for_range
  new queue fast = do
    free ← for_range p.size 0 push_slot (p.free_queue.new p.size)
    ok (with_free queue fast free)

  -- The slots below a number are free.
  record Filled (n : ℕ) (free : p.free_queue.Fast) : Type 0 where
    count : length (p.free_queue.contents free) ≡ n
    room : p.free_queue.capacity free ≡ p.size
    distinct : IsNodup (p.free_queue.contents free)
    small : (i : ℕ) → contains (p.free_queue.contents free) i ≡ true → i < n

  push_slot-Filled :
      (n : ℕ) (free : p.free_queue.Fast)
      → n < p.size
      → Filled n free
      → Yields (Filled (suc n)) (push_slot n free)
  push_slot-Filled n free l f =
      let (free', e, c, k) = p.free_queue.push_room free n (ground (arith, f.count, f.room)) in
      rw e (record {
        count = ground (arith, c, length-append (p.free_queue.contents free) (n ∷ []), f.count);
        room = k ∙ f.room;
        distinct =
            rw c
              (IsNodup-snoc (p.free_queue.contents free) n f.distinct (ground (arith, f.small n)));
        small = λ i m.
            ground (arith, c, contains-append (p.free_queue.contents free) (n ∷ []) i, f.small i);
      })

  Filled-IsValid :
      (queue : p.VirtQueue) (fast : ℕ) (free : p.free_queue.Fast)
      → 0 < fast
      → Filled p.size free
      → IsValid p (with_free queue fast free)
  Filled-IsValid queue fast free l f = record {
    channel = Fifo.new-IsValid p.fast_queue p.slow_queue fast l;
    room = f.room;
    distinct = f.distinct;
    small = f.small;
    in_flight = λ t i e. cc;
    apart = λ t u i e. cc;
  }

  -- A new queue is valid, and nothing waits in it.
  pub new-IsValid :
      (queue : p.VirtQueue) (fast : ℕ)
      → 0 < fast
      → Yields (λ q. IsValid p q × (waiting p q ≡ [])) (new queue fast)
  unfolding new
  new-IsValid queue fast l =
      Yields-bind (Filled p.size) (λ q. IsValid p q × (waiting p q ≡ []))
        (for_range p.size 0 push_slot (p.free_queue.new p.size)) _
        (for_range-Yields Filled push_slot p.size 0 p.size (p.free_queue.new p.size) (omega arith)
          (λ i free a b. push_slot-Filled i free b)
          (record {
            count = ground (arith, p.free_queue.new_empty p.size);
            room = (p.free_queue.new_empty p.size).1;
            distinct = rw ((p.free_queue.new_empty p.size).0) tt;
            small = λ i m. ground (arith, p.free_queue.new_empty p.size);
          }))
        (λ free f. (
          Filled-IsValid queue fast free l f,
          rw ((p.fast_queue.new_empty fast).0, p.slow_queue.new_empty) refl,
        ))
