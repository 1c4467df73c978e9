-- ===== src/Threads/Tests.antt =====
-- The handler thread at concrete inputs: a request for each of two queues with two slots.
use virtio_drivers_windows.Base.{
  inl, suc, ◌≡◌, refl, true, false, none, some, [], ◌∷◌, ◌++◌, ok, arith, for_range, length,
}
use virtio_drivers_windows.Buffers.{as_ref}
use virtio_drivers_windows.Channel
use virtio_drivers_windows.Handler.{
  Queue, update, handle_requests, request, request_in, push_to_device, push_free, again, added,
}
use virtio_drivers_windows.Handler.Interface.{nothing}
use virtio_drivers_windows.Handler.Loop.{IsIdle}
use virtio_drivers_windows.Handler.Slots.{free_slots, waiting}
use virtio_drivers_windows.Handler.Started
use virtio_drivers_windows.Handler.Model.{platform}
use virtio_drivers_windows.Handler.Tests.{gpu_data, unref, unref-IsSendable}
use virtio_drivers_windows.Submissions.{State, handle_fence_submissions, sweep}
use virtio_drivers_windows.Threads.{
  Wake, QueueHandler, idle_events, new, serve, turn, swept, put_control, push_control, push_cursor,
  signal_control, signal_cursor,
}
use virtio_drivers_windows.Threads.Steps.{Reach, turns, pushes_control, signals_control, here, next}
use virtio_drivers_windows.Threads.Sound.{IsSound, IsReady}
use virtio_drivers_windows.Threads.Woken.{reach-IsSound}
use virtio_drivers_windows.Threads.Forgotten.{cursor_msg-Reach}

abbrev shared : State
shared = record { gpu = gpu_data; fence_submissions = [] }

abbrev empty_queue : Queue platform
empty_queue = record {
  queue = (0, 0);
  inputs = λ i. none;
  outputs = λ i. none;
  callbacks = λ i. nothing;
  indices = λ t. none;
  free = (0 ∷ 1 ∷ [], 2);
  chan = record { fast = ([], 4); slow = [] };
  notified = 0;
}

abbrev started : QueueHandler platform platform 10
started = record {
  control = record { queue = empty_queue; event = false; sending = 0 };
  cursor = record { queue = empty_queue; event = false; sending = 0 };
  shared = shared;
  events = idle_events platform platform 10;
  irq = 0;
  running = true;
}

started_lem : new platform platform 10 (0, 0) (0, 0) 4 4 shared ≡ ok started
unfolding new Started.new for_range
started_lem = refl

-- A request was put into the control channel and its event set.
abbrev signalled : QueueHandler platform platform 10
signalled = signal_control platform platform 10 0 (push_control platform platform 10 unref started)

-- After the turn for it, the request is in the first slot, under the token 0.
abbrev sent_queue : Queue platform
sent_queue = record empty_queue {
  queue = (1, 0);
  inputs = update (λ i. none) 0 (some unref.input);
  outputs = update (λ i. none) 0 (some unref.output);
  callbacks = update (λ i. nothing) 0 unref.callback;
  indices = update (λ t. none) 0 (some 0);
  free = (1 ∷ [], 2);
  notified = 1;
}

abbrev sent : QueueHandler platform platform 10
sent = record started { control = record { queue = sent_queue; event = false; sending = 0 } }

sent_lem : turn platform platform 10 2 Wake.control_msg signalled ≡ some (ok sent)
unfolding turn serve handle_requests request request_in push_to_device push_free again added as_ref
    handle_fence_submissions sweep push_control Channel.push Channel.pop Channel.pop_fast
sent_lem = refl

sent-Reach : Reach platform platform 10 started sent
unfolding push_control
sent-Reach =
    next
      (next (next here (pushes_control unref started unref-IsSendable))
        (signals_control 0 (push_control platform platform 10 unref started) refl))
      (turns 2 Wake.control_msg signalled sent refl refl sent_lem)

reach-IsSound_example :
    IsSound platform platform 10 sent
    × ((q : Queue platform) × (serve platform platform 10
            (suc (length (waiting platform sent.control.queue)))
            Wake.control_msg
            sent
          ≡ swept platform platform 10 (put_control platform platform 10 q sent))
        × IsIdle platform q)
reach-IsSound_example =
    reach-IsSound platform platform 10 (0, 0) (0, 0) 4 4 shared started sent (omega arith)
      (omega arith) started_lem sent-Reach

empty-IsReady : IsReady platform empty_queue
empty-IsReady = record {
  valid = record {
    channel = record { roomy = omega arith; bounded = omega arith; overflow = inl refl };
    room = refl;
    distinct = (refl, (refl, tt));
    small = λ i m. ground arith;
    in_flight = λ t i e. cc;
    apart = λ t u i e. cc;
  };
  sendable = tt;
}

cursor_msg-Reach_example :
    (u : QueueHandler platform platform 10) × Reach platform platform 10 started u
    × (turn platform platform 10 3 Wake.cursor_msg
          (signal_cursor platform platform 10 0 (push_cursor platform platform 10 unref started))
        ≡ some (ok u))
    × (waiting platform u.cursor.queue ≡ [] ++ (unref ∷ []))
    × (free_slots platform u.cursor.queue ≡ 0 ∷ 1 ∷ [])
    × (u.cursor.event ≡ false)
    × (u.cursor.sending ≡ 0)
    × (u.events ≡ started.events)
    × (u.control ≡ started.control)
cursor_msg-Reach_example =
    cursor_msg-Reach platform platform 10 unref started 2 refl empty-IsReady unref-IsSendable refl
      refl
