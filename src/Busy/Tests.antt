-- ===== src/Busy/Tests.antt =====
-- The use counts at concrete inputs.
use virtio_drivers_windows.Base.{◌≡◌, refl, true, false, List, [], ◌∷◌, ◌++◌, arith, some}
use virtio_drivers_windows.Busy.{Allocation, is_busy, mark_busy, mark_free, attach_sync_file}
use virtio_drivers_windows.Busy.Idle.{
  Event, begins, ends, attaches, run, attached, Counts, left, run_lem,
}

abbrev idle : Allocation
idle = record { event = false; busy = 0; sync = []; synced = [] }

abbrev events : List Event
events = begins ∷ attaches 5 ∷ begins ∷ ends ∷ attaches 6 ∷ ends ∷ attaches 7 ∷ begins ∷ []

idle-Counts : Counts idle 0
idle-Counts = record { small = omega arith; counted = refl; blocked = λ k. refl }

left_one : left 0 events ≡ some 1
unfolding left
left_one = refl

run_lem_example :
    Counts (run idle events) 1
    × (is_busy (run idle events) ≡ true)
    × ((run idle events).synced ++ (run idle events).sync ≡ [] ++ attached events)
run_lem_example = run_lem idle 0 1 events idle-Counts left_one

run_all_events :
    run idle events ≡ record { event = false; busy = 1; sync = 7 ∷ []; synced = 5 ∷ 6 ∷ [] }
unfolding run mark_busy mark_free attach_sync_file
run_all_events = refl
