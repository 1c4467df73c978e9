-- ===== src/Ids/Owned.antt =====
-- Which identifiers are in use: a user takes one, and gives back only one that it holds.
use virtio_drivers_windows.Base.{
  ltb, leb, ℕ, ◌+◌, ◌≤◌, ◌<◌, ◌≡◌, refl, ◌⊎◌, inl, inr, true, false, not, ◌&&◌, ◌||◌, Option, none,
  some, List, [], ◌∷◌, arith, ◌==◌, contains, contains-append, IsNodup, swap_remove, position,
  contains-swap_remove, swap_remove-IsNodup, List-cases, leb, ltb, IsNodup-snoc, position-contains,
  ℕ_discrete,
}
use virtio_drivers_windows.Ids.{SimpleIdAllocator, u32_max, next, free}

-- The allocator beside the identifiers that are in use.
pub record Pool : Type 0 where
  pub ids : SimpleIdAllocator
  pub held : List ℕ

-- Each identifier from `initial` up to the counter is either in use or free, once and not both.
pub record IsValid (initial : ℕ) (p : Pool) : Type 0 where
  pub held_distinct : IsNodup p.held
  pub free_distinct : IsNodup p.ids.free_ids
  pub apart : (a : ℕ) → contains p.held a ≡ true → contains p.ids.free_ids a ≡ false
  pub range :
      (a : ℕ)
      → (contains p.held a || contains p.ids.free_ids a) ≡ (leb initial a && ltb a p.ids.next_id)
  pub counter : (initial ≤ p.ids.next_id) × (p.ids.next_id ≤ u32_max)

-- `next` for a user that keeps the identifier.
unfoldable pub take_id : Pool → Option ℕ × Pool
take_id p =
    let (id, ids) = next p.ids in
    (
      id,
      elim id [ none ↦ record p { ids = ids } | some n ↦ record { ids = ids; held = n ∷ p.held } ],
    )

-- `free` of an identifier in use.
unfoldable pub give_back : ℕ → ℕ → Pool → Pool
give_back id i p = record { ids = free p.ids id; held = swap_remove p.held i }

take_id_freed :
    (p : Pool) (x : ℕ) (xs : List ℕ)
    → p.ids.free_ids ≡ x ∷ xs
    → take_id p ≡ (
      some x,
      record { ids = record { next_id = p.ids.next_id; free_ids = xs }; held = x ∷ p.held },
    )
unfolding take_id next
take_id_freed p x xs e = ground arith

take_id-none : (p : Pool) → p.ids.free_ids ≡ [] → p.ids.next_id ≡ u32_max → take_id p ≡ (none, p)
unfolding take_id next
take_id-none p e h = ground arith

take_id_new :
    (p : Pool)
    → p.ids.free_ids ≡ []
    → p.ids.next_id < u32_max
    → take_id p ≡ (
      some p.ids.next_id,
      record {
        ids = record { next_id = p.ids.next_id + 1; free_ids = [] };
        held = p.ids.next_id ∷ p.held;
      },
    )
unfolding take_id next
take_id_new p e h = ground arith

freed-IsValid :
    (initial : ℕ) (p : Pool) (x : ℕ) (xs : List ℕ)
    → IsValid initial p
    → p.ids.free_ids ≡ x ∷ xs
    → IsValid initial
        (record { ids = record { next_id = p.ids.next_id; free_ids = xs }; held = x ∷ p.held })
freed-IsValid initial p x xs v e = record {
  held_distinct = ground (arith, v.apart x, v.held_distinct);
  free_distinct = ground (arith, v.free_distinct);
  apart = λ a h. ground (arith, v.apart a, v.free_distinct);
  range = λ a. ground (arith, v.range a);
  counter = v.counter;
}

new-IsValid :
    (initial : ℕ) (p : Pool)
    → IsValid initial p
    → p.ids.free_ids ≡ []
    → p.ids.next_id < u32_max
    → IsValid initial (record {
      ids = record { next_id = p.ids.next_id + 1; free_ids = [] };
      held = p.ids.next_id ∷ p.held;
    })
new-IsValid initial p v e h = record {
  held_distinct = ground (arith, v.range p.ids.next_id, v.held_distinct);
  free_distinct = tt;
  apart = λ a h. refl;
  range = λ a. ground (arith, v.range a, v.counter);
  counter = ground (arith, v.counter);
}

-- An identifier that is handed out was not in use, lies from `initial` to below `u32::MAX`, and
-- from then on is in use; none is handed out only when all of these are in use.
pub take_id-fresh :
    (initial : ℕ) (p : Pool)
    → IsValid initial p
    → let (id, p') = take_id p in
      IsValid initial p'
      × (((n : ℕ) × (id ≡ some n)
            × (contains p.held n ≡ false)
            × (initial ≤ n)
            × (n < u32_max)
            × (p'.held ≡ n ∷ p.held))
          ⊎ ((id ≡ none)
              × (p'.held ≡ p.held)
              × ((a : ℕ) → contains p.held a ≡ (leb initial a && ltb a u32_max))))
take_id-fresh initial p v = elim (List-cases p.ids.free_ids) [
  | inr (x, xs, e) ↦ rw (take_id_freed p x xs e) (
    freed-IsValid initial p x xs v e,
    inl (
      x,
      refl,
      ground (arith, v.apart x),
      ground (arith, v.range x),
      ground (arith, v.range x, v.counter),
      refl,
    ),
  )
  | inl e ↦ elim (ℕ_discrete p.ids.next_id u32_max) [
    | yes last ↦ rw (take_id-none p e last) (v, inr (refl, refl, λ a. ground (arith, v.range a)))
    | no more ↦
        let h : p.ids.next_id < u32_max = omega (arith, v.counter) in
        rw (take_id_new p e h) (
          new-IsValid initial p v e h,
          inl (p.ids.next_id, refl, ground (arith, v.range p.ids.next_id), v.counter.0, h, refl),
        )
  ]
]

-- Giving back an identifier in use takes it out of use, and no other, and keeps the pool valid.
pub give_back-IsValid :
    (initial : ℕ) (p : Pool) (id i : ℕ)
    → IsValid initial p
    → position id p.held ≡ some i
    → IsValid initial (give_back id i p)
      × ((a : ℕ) → contains (give_back id i p).held a ≡ (contains p.held a && not (id == a)))
unfolding give_back free
give_back-IsValid initial p id i v e = (
  record {
    held_distinct = swap_remove-IsNodup p.held id i v.held_distinct e;
    free_distinct =
        IsNodup-snoc p.ids.free_ids id v.free_distinct
          (v.apart id (position-contains id p.held i e));
    apart = λ a h. ground (
      arith,
      contains-swap_remove p.held id i a v.held_distinct e,
      contains-append p.ids.free_ids (id ∷ []) a,
      v.apart a,
    );
    range = λ a. ground (
      arith,
      contains-swap_remove p.held id i a v.held_distinct e,
      contains-append p.ids.free_ids (id ∷ []) a,
      v.range a,
      position-contains id p.held i e,
    );
    counter = v.counter;
  },
  λ a. contains-swap_remove p.held id i a v.held_distinct e,
)

-- An identifier given back twice is handed out to two users: of the next identifiers that are
-- taken, the one after those that were free already and the one after it are the same.
pub free_twice :
    (a : SimpleIdAllocator) (id : ℕ)
    → a.free_ids ≡ []
    → let a₁ = free (free a id) id in
      let (x, a₂) = next a₁ in let (y, a₃) = next a₂ in (x ≡ some id) × (y ≡ some id)
unfolding free next
free_twice a id e = ground arith
