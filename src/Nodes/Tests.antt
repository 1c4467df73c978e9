-- ===== src/Nodes/Tests.antt =====
-- Engines at concrete inputs.
use virtio_drivers_windows.Base.{ℕ, ◌≡◌, ◌≤◌, ◌<◌, ◌⊎◌, none, some, ok, panic}
use virtio_drivers_windows.Nodes.{
  Engine, other, total_count, other_engine_count, try_from_node_ordinal, node_ordinal,
}
use virtio_drivers_windows.Nodes.Ordinals.{node_ordinal_lem}

node_ordinal_lem_example :
    (((63 < total_count)
        × ((e : Engine) × (try_from_node_ordinal 63 ≡ some e) × (node_ordinal e ≡ ok 63)))
      ⊎ ((total_count ≤ 63) × (try_from_node_ordinal 63 ≡ none)))
    × (((m : ℕ) × (node_ordinal (other 60) ≡ ok m) × (try_from_node_ordinal m ≡ some (other 60)))
        ⊎ ((i : ℕ) × (other 60 ≡ other i)
            × (other_engine_count ≤ i)
            × (node_ordinal (other 60) ≡ panic)))
node_ordinal_lem_example = node_ordinal_lem 63 (other 60)
