-- ===== src/Nodes/Ordinals.antt =====
-- Engines and node ordinals determine each other.
use virtio_drivers_windows.Base.{
  ℕ, ◌≤◌, ◌<◌, ◌≡◌, refl, ◌⊎◌, inl, inr, none, some, ok, panic, arith, dec_lt, ℕ_discrete, ◌-◌, ◌+◌,
}
use virtio_drivers_windows.Nodes.{
  Engine, graphics, physical_other, copy, other, total_count, other_engine_count,
  other_engine_start, try_from_node_ordinal, node_ordinal,
}

-- An ordinal below 64 names an engine whose ordinal it is; any other names none.
node_ordinal-try_from_node_ordinal :
    (n : ℕ)
    → ((n < total_count)
        × ((e : Engine) × (try_from_node_ordinal n ≡ some e) × (node_ordinal e ≡ ok n)))
      ⊎ ((total_count ≤ n) × (try_from_node_ordinal n ≡ none))
unfolding node_ordinal try_from_node_ordinal
node_ordinal-try_from_node_ordinal n = elim (dec_lt n total_count) [
  | no h ↦ inr (omega arith, ground arith)
  | yes h ↦ elim (ℕ_discrete n 0) [
    | yes e ↦ inl (h, (graphics, ground arith, ground arith))
    | no p ↦ elim (ℕ_discrete n 1) [
      | yes e ↦ inl (h, (physical_other, ground arith, ground arith))
      | no q ↦ elim (ℕ_discrete n 2) [
        | yes e ↦ inl (h, (copy, ground arith, ground arith))
        | no r ↦ inl (h, (other (n - other_engine_start), ground arith, ground arith))
      ]
    ]
  ]
]

-- An engine with an ordinal is the one that the ordinal names, and only an `other` engine numbered
-- 61 or more has none: asking for its ordinal panics.
try_from_node_ordinal-node_ordinal :
    (e : Engine)
    → ((n : ℕ) × (node_ordinal e ≡ ok n) × (try_from_node_ordinal n ≡ some e))
      ⊎ ((i : ℕ) × (e ≡ other i) × (other_engine_count ≤ i) × (node_ordinal e ≡ panic))
unfolding node_ordinal try_from_node_ordinal
try_from_node_ordinal-node_ordinal graphics = inl (0, refl, refl)
try_from_node_ordinal-node_ordinal copy = inl (2, refl, refl)
try_from_node_ordinal-node_ordinal physical_other = inl (1, refl, refl)
try_from_node_ordinal-node_ordinal (other i) = elim (dec_lt i other_engine_count) [
  | yes h ↦ inl (other_engine_start + i, ground arith, ground arith)
  | no h ↦ inr (i, refl, omega arith, ground arith)
]

-- Engines and node ordinals determine each other: an ordinal below 64 names an engine whose ordinal it
-- is, and any other names none; an engine with an ordinal is the one that the ordinal names, and only
-- an `other` engine numbered 61 or more has none, where asking for the ordinal panics.
pub node_ordinal_lem :
    (n : ℕ) (e : Engine)
    → (((n < total_count)
          × ((e' : Engine) × (try_from_node_ordinal n ≡ some e') × (node_ordinal e' ≡ ok n)))
        ⊎ ((total_count ≤ n) × (try_from_node_ordinal n ≡ none)))
      × (((m : ℕ) × (node_ordinal e ≡ ok m) × (try_from_node_ordinal m ≡ some e))
          ⊎ ((i : ℕ) × (e ≡ other i) × (other_engine_count ≤ i) × (node_ordinal e ≡ panic)))
node_ordinal_lem n e = (node_ordinal-try_from_node_ordinal n, try_from_node_ordinal-node_ordinal e)
