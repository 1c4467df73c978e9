-- ===== src/Channel/Tests.antt =====
-- The request queue at concrete inputs.
use virtio_drivers_windows.Base.{ℕ, ◌≡◌, refl, none, some, List, [], ◌∷◌, arith}
use virtio_drivers_windows.Channel.{new, push, pop, pop_fast, forced}
use virtio_drivers_windows.Channel.Fifo.{Call, pushes, pops, run, run_refines}
use virtio_drivers_windows.Channel.Model.{list_array_queue, list_seg_queue}

abbrev script : List (Call ℕ)
script = pushes 1 ∷ pushes 2 ∷ pushes 3 ∷ pops ∷ pushes 4 ∷ pops ∷ pops ∷ pops ∷ pops ∷ []

run_refines_example :
    run list_array_queue list_seg_queue (new list_array_queue list_seg_queue 2) script
    ≡ some 1 ∷ some 2 ∷ some 3 ∷ some 4 ∷ none ∷ []
run_refines_example = run_refines list_array_queue list_seg_queue 2 script (omega arith)

run_overflowing :
    run list_array_queue list_seg_queue (new list_array_queue list_seg_queue 2) script
    ≡ some 1 ∷ some 2 ∷ some 3 ∷ some 4 ∷ none ∷ []
unfolding run push pop pop_fast forced
run_overflowing = refl
