-- ===== src/Ids/Tests.antt =====
-- The identifier allocator at concrete inputs.
use virtio_drivers_windows.Base.{
  ℕ, ◌≡◌, ◌≤◌, ◌<◌, ◌⊎◌, refl, false, not, ◌&&◌, none, some, [], ◌∷◌, arith, contains, ◌==◌, leb,
  ltb,
}
use virtio_drivers_windows.Ids.{u32_max, next}
use virtio_drivers_windows.Ids.Owned.{
  Pool, IsValid, take_id, give_back, take_id-fresh, give_back-IsValid,
}

-- 1 and 3 in use, 2 given back.
abbrev two_held : Pool
two_held = record { ids = record { next_id = 4; free_ids = 2 ∷ [] }; held = 3 ∷ 1 ∷ [] }

two_held-IsValid : IsValid 1 two_held
two_held-IsValid = record {
  held_distinct = ground arith;
  free_distinct = ground arith;
  apart = λ a h. ground arith;
  range = λ a. ground arith;
  counter = omega arith;
}

exhausted :
    next (record { next_id = u32_max; free_ids = [] })
    ≡ (none, record { next_id = u32_max; free_ids = [] })
unfolding next
exhausted = refl

take_id-fresh_example :
    let (id, p') = take_id two_held in
    IsValid 1 p'
    × (((n : ℕ) × (id ≡ some n)
          × (contains (3 ∷ 1 ∷ []) n ≡ false)
          × (1 ≤ n)
          × (n < u32_max)
          × (p'.held ≡ n ∷ 3 ∷ 1 ∷ []))
        ⊎ ((id ≡ none)
            × (p'.held ≡ 3 ∷ 1 ∷ [])
            × ((a : ℕ) → contains (3 ∷ 1 ∷ []) a ≡ (leb 1 a && ltb a u32_max))))
take_id-fresh_example = take_id-fresh 1 two_held two_held-IsValid

give_back-IsValid_example :
    IsValid 1 (give_back 1 1 two_held)
    × ((a : ℕ)
        → contains (give_back 1 1 two_held).held a ≡ (contains (3 ∷ 1 ∷ []) a && not (1 == a)))
give_back-IsValid_example = give_back-IsValid 1 two_held 1 1 two_held-IsValid refl
