-- ===== src/Nodes.antt =====
-- `Engine` of gpu-wddm/src/adapter.rs: the engines of the adapter and their node ordinals.
pub mod Ordinals
mod Tests
use virtio_drivers_windows.Base.{
  ℕ, ◌+◌, ◌-◌, ◌%◌, ◌^◌, Option, none, some, Outcome, ok, ◌>>◌, assert, ltb, leb, ◌==◌, ◌&&◌,
  if◌then◌else◌,
}

-- `other` holds a `u8`.
pub data Engine : Type 0 where
  graphics physical_other copy : Engine
  other : ℕ → Engine

abbrev pub graphics_engine : ℕ
graphics_engine = 0

abbrev pub phys_other_engine : ℕ
phys_other_engine = 1

abbrev pub copy_engine : ℕ
copy_engine = 2

abbrev pub other_engine_start : ℕ
other_engine_start = 3

abbrev pub other_engine_count : ℕ
other_engine_count = 61

abbrev pub other_engine_end : ℕ
other_engine_end = other_engine_start + other_engine_count - 1

abbrev pub total_count : ℕ
total_count = other_engine_start + other_engine_count

unfoldable pub try_from_node_ordinal : ℕ → Option Engine
try_from_node_ordinal index =
    if index == graphics_engine
    then some graphics
    else if index == copy_engine
    then some copy
    else if index == phys_other_engine
    then some physical_other
    else if leb other_engine_start index && leb index other_engine_end
    then some (other ((index - other_engine_start) % 2 ^ 8))
    else none

unfoldable pub node_ordinal : Engine → Outcome ℕ
node_ordinal graphics = ok graphics_engine
node_ordinal copy = ok copy_engine
node_ordinal physical_other = ok phys_other_engine
node_ordinal (other i) = do assert (ltb i other_engine_count); ok (other_engine_start + i)
