-- ===== src/Ids.antt =====
-- `SimpleIdAllocator` of gpu-wddm/src/queue.rs: the identifiers of host resources and contexts.
-- The counter and the locked list are taken one operation at a time.
pub mod Owned
mod Tests
use virtio_drivers_windows.Base.{
  ℕ, ◌+◌, ◌-◌, ◌%◌, Option, none, some, List, [], ◌∷◌, ◌++◌, ◌==◌, if◌then◌else◌, u32_size,
}

-- `next` and `free` of the source are fields and methods; the fields are `next_id` and `free_ids`.
pub record SimpleIdAllocator : Type 0 where
  pub next_id : ℕ
  pub free_ids : List ℕ

abbrev pub u32_max : ℕ
u32_max = u32_size - 1

abbrev pub new : ℕ → SimpleIdAllocator
new initial = record { next_id = initial; free_ids = [] }

-- `fetch_add` wraps; at `u32::MAX` the counter is put back.
unfoldable pub fetch_id : SimpleIdAllocator → Option ℕ × SimpleIdAllocator
fetch_id a =
    if a.next_id == u32_max
    then (none, record a { next_id = u32_max })
    else (some a.next_id, record a { next_id = (a.next_id + 1) % u32_size })

next_from : List ℕ → SimpleIdAllocator → Option ℕ × SimpleIdAllocator
unfolding fetch_id
next_from [] a = fetch_id a
next_from (id ∷ ids) a = (some id, record a { free_ids = ids })

unfoldable pub next : SimpleIdAllocator → Option ℕ × SimpleIdAllocator
unfolding next_from
next a = next_from a.free_ids a

unfoldable pub free : SimpleIdAllocator → ℕ → SimpleIdAllocator
free a id = record a { free_ids = a.free_ids ++ (id ∷ []) }

-- `NonZero::new`, as in `GpuChannel::next_resource_id` and `next_context_id`.
unfoldable pub next_nonzero : SimpleIdAllocator → Option ℕ × SimpleIdAllocator
next_nonzero a =
    let (id, a') = next a in
    (elim id [ none ↦ none | some n ↦ if n == 0 then none else some n ], a')
