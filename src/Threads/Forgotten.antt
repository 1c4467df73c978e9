-- ===== src/Threads/Forgotten.antt =====
-- A request in the cursor channel can be forgotten.
use virtio_drivers_windows.Base.{ℕ, suc, ◌≡◌, refl, true, false, none, some, [], ◌∷◌, ◌++◌, ok}
use virtio_drivers_windows.Channel
use virtio_drivers_windows.Channel.{ArraySegQueue}
use virtio_drivers_windows.Channel.Fifo as Fifo
use virtio_drivers_windows.Handler.Interface.{Platform, Buffer}
use virtio_drivers_windows.Handler.Slots.{IsSendable, free_slots, waiting}
use virtio_drivers_windows.Handler.Responses.{handle_responses}
use virtio_drivers_windows.Submissions.{handle_fence_submissions}
use virtio_drivers_windows.Threads.{Wake, QueueHandler, serve, turn, push_cursor, signal_cursor}
use virtio_drivers_windows.Threads.Steps.{Reach, turns, pushes_cursor, signals_cursor, here, next}
use virtio_drivers_windows.Threads.Sound.{IsReady}
use virtio_drivers_windows.Handler.Popped.{pop_from_device-idle}
use virtio_drivers_windows.Handler.Responses.{response}
use virtio_drivers_windows.Handler.{again}
use virtio_drivers_windows.Submissions.{sweep}

module _ (pc pu : Platform) (freq : ℕ) where
  -- The state after the request was put into the channel, the event set, and a turn taken.
  abbrev left : Buffer → QueueHandler pc pu freq → QueueHandler pc pu freq
  left b t = record t {
    cursor = record {
      queue = record (t.cursor.queue) {
        chan = Channel.push pu.fast_queue pu.slow_queue t.cursor.queue.chan b;
      };
      event = false;
      sending = t.cursor.sending;
    };
    shared = record { gpu = t.shared.gpu; fence_submissions = [] };
  }

  turn-left :
      (b : Buffer) (t : QueueHandler pc pu freq) (n : ℕ)
      → pu.peek_used t.cursor.queue.queue ≡ none
      → t.shared.fence_submissions ≡ []
      → turn pc pu freq
          (suc n)
          Wake.cursor_msg
          (signal_cursor pc pu freq t.cursor.sending (push_cursor pc pu freq b t))
        ≡ some (ok (left b t))
  unfolding turn serve push_cursor handle_responses response again handle_fence_submissions sweep
  turn-left b t n peek e =
      let q = record (t.cursor.queue) {
        chan = Channel.push pu.fast_queue pu.slow_queue t.cursor.queue.chan b;
      } in
      rw (pop_from_device-idle pu q peek, e) refl

-- While the thread runs, the device has used nothing of the cursor queue and no fence submission
-- waits, a request that a sender puts into the cursor channel can be forgotten: the sender sets the
-- event, the thread takes the turn for it, and then the request still waits, behind those that waited
-- before, as many slots are free as before, and neither the event of the channel nor any other is set
-- that was not, so that nothing is left to make the thread look at the request.
pub cursor_msg-Reach :
    (pc pu : Platform) (freq : ℕ) (b : Buffer) (t : QueueHandler pc pu freq) (n : ℕ)
    → t.running ≡ true
    → IsReady pu t.cursor.queue
    → IsSendable pu b
    → pu.peek_used t.cursor.queue.queue ≡ none
    → t.shared.fence_submissions ≡ []
    → (u : QueueHandler pc pu freq) × Reach pc pu freq t u
      × (turn pc pu freq
            (suc n)
            Wake.cursor_msg
            (signal_cursor pc pu freq t.cursor.sending (push_cursor pc pu freq b t))
          ≡ some (ok u))
      × (waiting pu u.cursor.queue ≡ waiting pu t.cursor.queue ++ (b ∷ []))
      × (free_slots pu u.cursor.queue ≡ free_slots pu t.cursor.queue)
      × (u.cursor.event ≡ false)
      × (u.cursor.sending ≡ t.cursor.sending)
      × (u.events ≡ t.events)
      × (u.control ≡ t.control)
unfolding push_cursor
cursor_msg-Reach pc pu freq b t n running r h peek e =
    let pushed = push_cursor pc pu freq b t in
    let signalled = signal_cursor pc pu freq t.cursor.sending pushed in
    let turned = turn-left pc pu freq b t n peek e in
    (
      left pc pu freq b t,
      next (next (next here (pushes_cursor b t h)) (signals_cursor t.cursor.sending pushed refl))
          (turns (suc n) Wake.cursor_msg signalled (left pc pu freq b t) running refl turned),
      turned,
      (Fifo.push-contents pu.fast_queue pu.slow_queue t.cursor.queue.chan b r.valid.channel).1,
      refl,
      refl,
      refl,
      refl,
      refl,
    )
