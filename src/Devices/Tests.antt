-- ===== src/Devices/Tests.antt =====
-- The contexts of a device at concrete inputs.
use virtio_drivers_windows.Base.{ℕ, some, List, [], ◌∷◌, ◌≡◌, refl}
use mathlib.Core.Option
use virtio_drivers_windows.Buffers.{try_new_zeroed_size, try_from_value}
use virtio_drivers_windows.Ids.{next_nonzero, next}
use virtio_drivers_windows.Requests.Contexts.{virgl, virgl2, venus}
use virtio_drivers_windows.Requests.Leaving.{Each, after}
use virtio_drivers_windows.Requests.Queues.{push_buffer}
use virtio_drivers_windows.Requests.Tests.{host, start_state}
use virtio_drivers_windows.Devices.{Opened, context_virgl, init_context}
use virtio_drivers_windows.Devices.Blits.{
  Init, IsValid, Inited, Virgl, new_device, run_init, run_init-Virgl,
}

-- The capsets virgl2 and venus.
abbrev supported : ℕ
supported = 20

-- The second capset is not supported.
abbrev inits : List Init
inits = (virgl2, 65 ∷ [], 66 ∷ []) ∷ (virgl, 65 ∷ [], 66 ∷ []) ∷ (venus, 65 ∷ [], 66 ∷ []) ∷ []

run_init-Virgl_example :
    Each
      (λ (t : Opened host).
        IsValid supported t.device
        × Virgl (context_virgl t.device)
        × Inited host supported venus (run_init host supported (venus, 65 ∷ [], 66 ∷ []) t))
      (after (run_init host supported) inits (record { chan = start_state; device = new_device }))
run_init-Virgl_example = run_init-Virgl host supported start_state inits (venus, 65 ∷ [], 66 ∷ [])

-- Blits go to the third context, beside that of the last call.
blits_after :
    Option.map
      (λ (t : Opened host). context_virgl t.device)
      (after (run_init host supported) inits (record { chan = start_state; device = new_device }))
    ≡ some (some (3, virgl2))
unfolding after run_init init_context context_virgl try_new_zeroed_size try_from_value push_buffer
    next_nonzero next
blits_after = refl
