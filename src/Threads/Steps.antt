-- ===== src/Threads/Steps.antt =====
-- The steps of the handler thread, of the senders and of the device, in any order.
use virtio_drivers_windows.Base.{ℕ, suc, ◌≡◌, true, some, ok}
use virtio_drivers_windows.Handler.Interface.{Platform, Buffer}
use virtio_drivers_windows.Handler.Slots.{IsSendable}
use virtio_drivers_windows.Submissions.{State}
use virtio_drivers_windows.Threads.{
  Wake, QueueHandler, is_set, turn, put_control, put_cursor, push_control, push_cursor,
  signal_control, signal_cursor, ack_interrupt, handle_dpc, kick, request_stop,
}

module _ (pc pu : Platform) (freq : ℕ) where
  -- A wait ends with an event that is set, or fails. The device changes its virtqueues, and the rest
  -- of the driver what it shares with the thread, as they like.
  pub data Step : QueueHandler pc pu freq → QueueHandler pc pu freq → Type 0 where
    turns :
        (n : ℕ) (w : Wake) (t u : QueueHandler pc pu freq)
        → t.running ≡ true
        → is_set pc pu freq w t ≡ true
        → turn pc pu freq n w t ≡ some (ok u)
        → Step t u
    pushes_control :
        (b : Buffer) (t : QueueHandler pc pu freq)
        → IsSendable pc b
        → Step t (push_control pc pu freq b t)
    signals_control :
        (k : ℕ) (t : QueueHandler pc pu freq)
        → t.control.sending ≡ suc k
        → Step t (signal_control pc pu freq k t)
    pushes_cursor :
        (b : Buffer) (t : QueueHandler pc pu freq)
        → IsSendable pu b
        → Step t (push_cursor pc pu freq b t)
    signals_cursor :
        (k : ℕ) (t : QueueHandler pc pu freq)
        → t.cursor.sending ≡ suc k
        → Step t (signal_cursor pc pu freq k t)
    interrupts : (bits : ℕ) (t : QueueHandler pc pu freq) → Step t (ack_interrupt pc pu freq bits t)
    calls : (t : QueueHandler pc pu freq) → Step t (handle_dpc pc pu freq t)
    kicks : (t : QueueHandler pc pu freq) → Step t (kick pc pu freq t)
    stops : (t : QueueHandler pc pu freq) → Step t (request_stop pc pu freq t)
    uses :
        (v : pc.VirtQueue) (v' : pu.VirtQueue) (t : QueueHandler pc pu freq)
        → Step t (
            put_cursor pc pu freq
              (record (t.cursor.queue) { queue = v' })
              (put_control pc pu freq (record (t.control.queue) { queue = v }) t))
    changes : (s : State) (t : QueueHandler pc pu freq) → Step t (record t { shared = s })

  pub data Reach (s : QueueHandler pc pu freq) : QueueHandler pc pu freq → Type 0 where
    here : Reach s s
    next : {t u : QueueHandler pc pu freq} → Reach s t → Step t u → Reach s u
