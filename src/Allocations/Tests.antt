-- ===== src/Allocations/Tests.antt =====
-- Allocations at concrete inputs.
use virtio_drivers_windows.Base.{
  inr, replicate, false, ℕ, true, none, some, List, [], ◌∷◌, ◌≡◌, refl,
}
use mathlib.Core.Option
use virtio_drivers_windows.Requests.Contexts.{venus, virgl2}
use virtio_drivers_windows.Requests.Leaving.{after}
use virtio_drivers_windows.Requests.Tests.{env, start_state}
use virtio_drivers_windows.Requests.{Host}
use virtio_drivers_windows.Buffers.{inline, try_new_zeroed_size, try_from_value}
use virtio_drivers_windows.Requests.Queues.{push_buffer}
use virtio_drivers_windows.Handler.{update}
use virtio_drivers_windows.Devices.{Device}
use virtio_drivers_windows.Allocations.{
  Resource, Session, blob, new, map_blob, unmap_blob, open_on, mapped_range,
}
use virtio_drivers_windows.Allocations.Calls.{Call, open_call, map_call, unmap_call, run_call}

-- While a sender waits, a response arrives that is long enough for every request.
abbrev host : Host
host = record {
  env = env;
  wait = λ b timeout s. (
    inr tt,
    record s {
      gpu = record (s.gpu) {
        blocks =
            update s.gpu.blocks b (record {
              event = true;
              cancel = false;
              response = some (inline 40 (replicate 40 0));
            });
      };
    },
  );
}

abbrev device : Device
device = record {
  main_context = some (record { id = 1; capset = venus });
  virgl_blit_context = some (record { id = 2; capset = virgl2 });
  query_buffer = none;
}

-- A mappable blob in the memory of the host.
abbrev resource : Resource ℕ
resource = blob (record { id = 7; mem = 2; flags = 1; info = none; map = none; size = 8192 })

abbrev calls : List Call
calls =
    open_call device true
    ∷ map_call device
    ∷ map_call device
    ∷ unmap_call device
    ∷ map_call device
    ∷ []

-- The blob is at its second place, that of the last call.
mapped_again :
    Option.map
      (λ (t : Session host). mapped_range host t.alloc)
      (after (run_call host) calls (record { chan = start_state; alloc = new 3 none resource }))
    ≡ some (some (8192, 8192))
unfolding after run_call new map_blob unmap_blob open_on mapped_range try_new_zeroed_size
    try_from_value push_buffer
mapped_again = refl
