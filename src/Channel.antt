-- ===== src/Channel.antt =====
-- `ArraySegQueue` and `AsyncQueue` of gpu-wddm/src/queue.rs: the requests that wait for the queue
-- handler, in a bounded queue that overflows into an unbounded one. The two queues are those of the
-- crossbeam crate, so they are parameters with the documented behaviour of its types.
pub mod Crossbeam
pub mod Fifo
pub mod Model
mod Tests
use virtio_drivers_windows.Base.{ℕ, Bool, true, false, Option, none, some, List, [], ◌∷◌}
use Crossbeam.{ArrayQueue, SegQueue}

module _ {A : Type 0} (array_queue : ArrayQueue A) (seg_queue : SegQueue A) where
  open array_queue use {Fast}
  open seg_queue use {Slow}

  pub record ArraySegQueue : Type 0 where
    pub fast : Fast
    pub slow : Slow

  abbrev pub new : ℕ → ArraySegQueue
  new cap = record { fast = array_queue.new cap; slow = seg_queue.new }

  unfoldable pub push : ArraySegQueue → A → ArraySegQueue
  push q value = elim (array_queue.push q.fast value) [
    | some fast ↦ record q { fast = fast }
    | none ↦ record q { slow = seg_queue.push q.slow value }
  ]

  unfoldable pub pop_fast : ArraySegQueue → Option A × ArraySegQueue
  pop_fast q = elim (array_queue.pop q.fast) [
    | none ↦ (none, q)
    | some (v, fast) ↦ (some v, record q { fast = fast })
  ]

  -- After `force_push` of the value that the slow queue gave up.
  unfoldable pub forced : Slow → Option A × Fast → Option A × ArraySegQueue
  unfolding pop_fast
  forced slow (some w, fast) = (some w, record { fast = fast; slow = slow })
  forced slow (none, fast) = pop_fast (record { fast = fast; slow = slow })

  unfoldable pub pop : ArraySegQueue → Option A × ArraySegQueue
  unfolding pop_fast forced
  pop q = elim (seg_queue.pop q.slow) [
    | none ↦ pop_fast q
    | some (v, slow) ↦ forced slow (array_queue.force_push q.fast v)
  ]

  -- The queue with its synchronization event.
  pub record AsyncQueue : Type 0 where
    pub q : ArraySegQueue
    pub event : Bool

  unfoldable pub push_async : AsyncQueue → A → AsyncQueue
  push_async c value = record { q = push c.q value; event = true }

  unfoldable pub pop_async : AsyncQueue → Option A × AsyncQueue
  pop_async c = let (v, q) = pop c.q in (v, record c { q = q })
