-- ===== src/Tracker/Tests.antt =====
-- The fence tracker at concrete inputs.
use virtio_drivers_windows.Base.{ℕ, ◌≡◌, ◌≢◌, refl, true, false, [], ◌∷◌, arith, ok, swap_remove}
use virtio_drivers_windows.Tracker.{FenceTracker, next_fence, signal, query}
use virtio_drivers_windows.Tracker.Laws.{IsValid, query-next_fence, query-signal}

-- Three fences issued, the first signaled.
abbrev two_waiting : FenceTracker
two_waiting = record { next_fence = 3; unsignaled = 2 ∷ 1 ∷ [] }

signal_twice : signal two_waiting 2 ≡ ok (record two_waiting { unsignaled = 1 ∷ [] })
unfolding signal swap_remove
signal_twice = refl

two_waiting-IsValid : IsValid two_waiting
two_waiting-IsValid = record {
  distinct = ground arith;
  issued = λ f h. ground arith;
  fits = omega arith;
}

query-next_fence_example :
    (query (next_fence two_waiting).1 (next_fence two_waiting).0 ≡ false)
    × ((f : ℕ)
        → f ≢ (next_fence two_waiting).0
        → query (next_fence two_waiting).1 f ≡ query two_waiting f)
query-next_fence_example = query-next_fence two_waiting-IsValid (omega arith)

query-signal_example :
    (t' : FenceTracker) × (signal two_waiting 1 ≡ ok t')
    × IsValid t'
    × (query t' 1 ≡ true)
    × ((g : ℕ) → g ≢ 1 → query t' g ≡ query two_waiting g)
query-signal_example = query-signal 1 two_waiting-IsValid (omega arith)
