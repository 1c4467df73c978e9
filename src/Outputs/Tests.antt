-- ===== src/Outputs/Tests.antt =====
-- An output at concrete inputs.
use virtio_drivers_windows.Base.{none, ℕ, List, [], ◌∷◌, some, ◌≡◌, refl, pos, negsuc}
use mathlib.Core.Option
use virtio_drivers_windows.Ids.{next_nonzero, next}
use virtio_drivers_windows.Cursors.Mono.{write_mono}
use virtio_drivers_windows.Requests.Queues.{push_buffer}
use virtio_drivers_windows.Buffers.{try_new_zeroed_size, try_from_value}
use virtio_drivers_windows.Requests.Tests.{host, start_state}
use virtio_drivers_windows.Outputs.Pointers.{Cursor, mono}
use virtio_drivers_windows.Outputs.Displays.{Session, move_cursor, update_cursor_shape, Output, new}
use virtio_drivers_windows.Outputs.Calls.{Call, move_call, shape_call, run_call, run_calls}
use virtio_drivers_windows.Requests.Leaving.{after}

-- The addresses of pixels, by the request for memory.
abbrev physical : ℕ → ℕ → ℕ
physical asked offset = offset

abbrev output : Output
output = record {
  current_mode = some 0;
  modes = record { width = 1024; height = 768 } ∷ record { width = 640; height = 480 } ∷ [];
  cursor = none;
}

abbrev calls : List Call
calls = move_call 0 (pos 2000) (negsuc 3) ∷ shape_call 0 1 1 (mono (0 ∷ 0 ∷ 255 ∷ 15 ∷ []) 1) ∷ []

-- The cursor is at the edge of the screen after the calls.
position_after :
    Option.map
      (λ (t : Session host). Option.map (λ (c : Cursor). c.position) t.output.cursor)
      (run_calls host physical calls (record { chan = start_state; output = output }))
    ≡ some (some (1024, 0))
unfolding after run_call move_cursor update_cursor_shape new try_new_zeroed_size try_from_value
    push_buffer next_nonzero next write_mono
position_after = refl
