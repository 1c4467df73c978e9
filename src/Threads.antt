-- ===== src/Threads.antt =====
-- The thread of `QueueHandler` of gpu-wddm/src/queue.rs, with what the interrupt of the device and
-- the senders signal to it. A turn of its loop is one step; that a sender puts a request into a
-- channel and that it sets the event of the channel are two.
pub mod Steps
pub mod Sound
pub mod Woken
pub mod Forgotten
mod Tests
use virtio_drivers_windows.Base.{
  ℕ, suc, ◌/◌, ◌%◌, Bool, true, false, Option, none, some, Outcome, ok, err, panic, ◌>>=◌, ◌==◌,
  ◌||◌,
}
use Prim.Native.Nat.{bit_or}
use virtio_drivers_windows.Channel
use virtio_drivers_windows.Handler.{Queue, handle_requests}
use virtio_drivers_windows.Handler.Interface.{Platform, Buffer}
use virtio_drivers_windows.Handler.Responses.{handle_responses}
use virtio_drivers_windows.Handler.Started
use virtio_drivers_windows.Submissions.{State, handle_fence_submissions}

-- What ends a wait of the thread: one of the events, or a failure of the wait.
pub data Wake : Type 0 where
  control_irq control_msg cursor_irq cursor_msg config_irq stop wait_failed : Wake

-- The events of `Thread`.
pub record Events : Type 0 where
  pub control_irq : Bool
  pub cursor_irq : Bool
  pub config_irq : Bool
  pub stop : Bool

-- A queue, whether the event of its channel is set, and how many senders have put a request into the
-- channel and have yet to set the event.
pub record Side (p : Platform) : Type 0 where
  pub queue : Queue p
  pub event : Bool
  pub sending : ℕ

-- One step after the other, where each may run out of fuel, fail or panic.
infixl 5 ◌>>>◌
abbrev pub ◌>>>◌ :
    {A B : Type 0} → Option (Outcome A) → (A → Option (Outcome B)) → Option (Outcome B)
none >>> f = none
some (ok a) >>> f = f a
some (err e) >>> f = some (err e)
some panic >>> f = some panic

module _ (control_platform cursor_platform : Platform) (freq : ℕ) where
  pub record QueueHandler : Type 0 where
    pub control : Side control_platform
    pub cursor : Side cursor_platform
    -- The field `data` of the source.
    pub shared : State
    pub events : Events
    -- The field `irq` of `GpuData`.
    pub irq : ℕ
    pub running : Bool

  abbrev pub idle_events : Events
  idle_events = record { control_irq = false; cursor_irq = false; config_irq = false; stop = false }

  -- `QueueHandler::new`, from the virtqueues, the capacities of the channels and the shared data.
  unfoldable pub new :
      control_platform.VirtQueue → cursor_platform.VirtQueue → ℕ → ℕ → State → Outcome QueueHandler
  unfolding Started.new
  new control_queue cursor_queue control_fast cursor_fast shared = do
    control ← Started.new control_platform control_queue control_fast
    cursor ← Started.new cursor_platform cursor_queue cursor_fast
    ok (record {
      control = record { queue = control; event = false; sending = 0 };
      cursor = record { queue = cursor; event = false; sending = 0 };
      shared = shared;
      events = idle_events;
      irq = 0;
      running = true;
    })

  abbrev pub is_set : Wake → QueueHandler → Bool
  is_set Wake.control_irq t = t.events.control_irq
  is_set Wake.control_msg t = t.control.event
  is_set Wake.cursor_irq t = t.events.cursor_irq
  is_set Wake.cursor_msg t = t.cursor.event
  is_set Wake.config_irq t = t.events.config_irq
  is_set Wake.stop t = t.events.stop
  is_set Wake.wait_failed t = true

  -- The events are synchronization events, which the end of a wait resets.
  abbrev pub reset : Wake → QueueHandler → QueueHandler
  reset Wake.control_irq t = record t { events = record (t.events) { control_irq = false } }
  reset Wake.control_msg t = record t { control = record (t.control) { event = false } }
  reset Wake.cursor_irq t = record t { events = record (t.events) { cursor_irq = false } }
  reset Wake.cursor_msg t = record t { cursor = record (t.cursor) { event = false } }
  reset Wake.config_irq t = record t { events = record (t.events) { config_irq = false } }
  reset Wake.stop t = record t { events = record (t.events) { stop = false } }
  reset Wake.wait_failed t = t

  abbrev pub put_control : Queue control_platform → QueueHandler → QueueHandler
  put_control q t = record t { control = record (t.control) { queue = q } }

  abbrev pub put_cursor : Queue cursor_platform → QueueHandler → QueueHandler
  put_cursor q t = record t { cursor = record (t.cursor) { queue = q } }

  -- `self.control.handle_responses(&chan.data)` and its kin.
  abbrev pub control_responses : ℕ → QueueHandler → Option (Outcome QueueHandler)
  control_responses n t =
      handle_responses control_platform n (t.control.queue, t.shared.gpu) >>> λ s.
      some (ok (record (put_control (s.0) t) { shared = record (t.shared) { gpu = s.1 } }))

  abbrev pub control_requests : ℕ → QueueHandler → Option (Outcome QueueHandler)
  control_requests n t =
      handle_requests control_platform n t.control.queue >>> λ q. some (ok (put_control q t))

  abbrev pub cursor_responses : ℕ → QueueHandler → Option (Outcome QueueHandler)
  cursor_responses n t = handle_responses cursor_platform n (t.cursor.queue, t.shared.gpu) >>> λ s.
      some (ok (record (put_cursor (s.0) t) { shared = record (t.shared) { gpu = s.1 } }))

  abbrev pub cursor_requests : ℕ → QueueHandler → Option (Outcome QueueHandler)
  cursor_requests n t =
      handle_requests cursor_platform n t.cursor.queue >>> λ q. some (ok (put_cursor q t))

  -- What every turn ends with.
  abbrev pub swept : QueueHandler → Option (Outcome QueueHandler)
  swept t = some (
      handle_fence_submissions control_platform.counter freq t.shared >>= λ s.
      ok (record t { shared = s }))

  -- The turn after a wait, with fuel for the loops of the queues.
  unfoldable pub serve : ℕ → Wake → QueueHandler → Option (Outcome QueueHandler)
  unfolding handle_responses handle_requests handle_fence_submissions
  serve n Wake.control_irq t = control_responses n t >>> control_requests n >>> swept
  serve n Wake.control_msg t = control_requests n t >>> swept
  serve n Wake.cursor_irq t = cursor_responses n t >>> cursor_requests n >>> swept
  serve n Wake.cursor_msg t = cursor_responses n t >>> swept
  serve n Wake.config_irq t = swept t
  serve n Wake.stop t = some (ok (record t { running = false }))
  serve n Wake.wait_failed t = swept t

  unfoldable pub turn : ℕ → Wake → QueueHandler → Option (Outcome QueueHandler)
  unfolding serve
  turn n wake t = serve n wake (reset wake t)

  -- A sender: `AsyncQueue::push` puts the request into the queue, and then sets the event.
  unfoldable pub push_control : Buffer → QueueHandler → QueueHandler
  push_control b t = record t {
    control = record (t.control) {
      queue = record (t.control.queue) {
        chan =
            Channel.push control_platform.fast_queue control_platform.slow_queue
              t.control.queue.chan b;
      };
      sending = suc t.control.sending;
    };
  }

  unfoldable pub push_cursor : Buffer → QueueHandler → QueueHandler
  push_cursor b t = record t {
    cursor = record (t.cursor) {
      queue = record (t.cursor.queue) {
        chan =
            Channel.push cursor_platform.fast_queue cursor_platform.slow_queue t.cursor.queue.chan
              b;
      };
      sending = suc t.cursor.sending;
    };
  }

  -- `k` senders have yet to set the event after this one.
  abbrev pub signal_control : ℕ → QueueHandler → QueueHandler
  signal_control k t = record t { control = record (t.control) { event = true; sending = k } }

  abbrev pub signal_cursor : ℕ → QueueHandler → QueueHandler
  signal_cursor k t = record t { cursor = record (t.cursor) { event = true; sending = k } }

  -- With the bits that the device reports, of `InterruptStatus`.
  unfoldable pub ack_interrupt : ℕ → QueueHandler → QueueHandler
  ack_interrupt bits t = record t { irq = bit_or t.irq bits }

  -- `QUEUE_INTERRUPT` is the lowest bit and `DEVICE_CONFIGURATION_INTERRUPT` the next.
  unfoldable pub handle_dpc : QueueHandler → QueueHandler
  handle_dpc t = record t {
    events = record (t.events) {
      control_irq = t.irq % 2 == 1 || t.events.control_irq;
      cursor_irq = t.irq % 2 == 1 || t.events.cursor_irq;
      config_irq = t.irq / 2 % 2 == 1 || t.events.config_irq;
    };
  }

  unfoldable pub kick : QueueHandler → QueueHandler
  kick t = record t {
    control = record (t.control) { event = true };
    cursor = record (t.cursor) { event = true };
    events = record (t.events) { control_irq = true; cursor_irq = true; config_irq = true };
  }

  -- `Thread::stop`, which the end of the handler calls.
  abbrev pub request_stop : QueueHandler → QueueHandler
  request_stop t = record t { events = record (t.events) { stop = true } }
