-- ===== src/Busy.antt =====
-- The use counts of `Allocation`, of gpu-wddm/src/allocation.rs: how many commands in flight use an
-- allocation, and the events that are set when none is left.
pub mod Idle
mod Tests
use virtio_drivers_windows.Base.{
  ℕ, ◌+◌, ◌-◌, ◌%◌, Bool, true, false, List, [], ◌∷◌, ◌++◌, ltb, ◌==◌, if◌then◌else◌, u64_size,
}

-- `event` is the event of the field `busy`, and `busy` its counter. The events of `sync` that have
-- been set since they were attached stand in `synced`.
pub record Allocation : Type 0 where
  pub event : Bool
  pub busy : ℕ
  pub sync : List ℕ
  pub synced : List ℕ

unfoldable pub attach_sync_file : Allocation → ℕ → Allocation
attach_sync_file a event = record a { sync = a.sync ++ (event ∷ []) }

unfoldable pub is_busy : Allocation → Bool
is_busy a = ltb 0 a.busy

-- `fetch_add` wraps. The events in `sync` have not been set, and clearing them changes nothing.
unfoldable pub mark_busy : Allocation → Allocation
mark_busy a = record a { event = false; busy = (a.busy + 1) % u64_size }

-- `fetch_sub` wraps. The events are destroyed once they are set.
unfoldable pub mark_free : Allocation → Allocation
mark_free a =
    let a' = record a { busy = (a.busy + u64_size - 1) % u64_size } in
    if a.busy == 1 then record a' { event = true; sync = []; synced = a.synced ++ a.sync } else a'
