-- ===== src/Tracker.antt =====
-- `FenceTracker` of gpu-wddm/src/queue.rs: the virtio fences that the host has yet to signal.
-- The lock and the counter are taken one operation at a time.
pub mod Laws
mod Tests
use virtio_drivers_windows.Base.{
  ℕ, ◌+◌, ◌%◌, Bool, not, ◌&&◌, none, some, List, [], ◌∷◌, ◌++◌, Outcome, ok, ◌>>◌, assert, ltb,
  contains, position, swap_remove, u64_size,
}

pub record FenceTracker : Type 0 where
  pub next_fence : ℕ
  pub unsignaled : List ℕ

abbrev pub new : FenceTracker
new = record { next_fence = 0; unsignaled = [] }

-- The fence, and the tracker that waits for it; `fetch_add` wraps.
unfoldable pub next_fence : FenceTracker → ℕ × FenceTracker
next_fence t = (
  t.next_fence,
  record t {
    next_fence = (t.next_fence + 1) % u64_size;
    unsignaled = t.unsignaled ++ (t.next_fence ∷ []);
  },
)

-- A fence that is not waited for is only reported in the log.
unfoldable pub signal : FenceTracker → ℕ → Outcome FenceTracker
signal t fence = do
  assert (ltb fence t.next_fence)
  ok (elim (position fence t.unsignaled) [
    | some i ↦ record t { unsignaled = swap_remove t.unsignaled i }
    | none ↦ t
  ])

unfoldable pub query : FenceTracker → ℕ → Bool
query t fence = ltb fence t.next_fence && not (contains t.unsignaled fence)
