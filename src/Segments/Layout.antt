-- ===== src/Segments/Layout.antt =====
-- Where the segments lie, and how they are told apart.
use virtio_drivers_windows.Base.{
  ℕ, ◌+◌, ◌^◌, ◌≤◌, ◌<◌, ◌≡◌, ◌≢◌, refl, ◌⊎◌, inl, inr, some, ok, panic, arith, get_elem?,
}
use virtio_drivers_windows.Segments.{
  MemorySegment, implicit_system_memory, aperture_3d, blob_mappable, blob_host_3d, segments, index,
  mask, phys, size, flags, Descriptor, fill_desc3,
}

-- The index of a segment is its place among the reported segments, and its mask has the bit of that
-- place; only system memory has neither.
pub index-segments :
    (s : MemorySegment)
    → ((s ≡ implicit_system_memory) × (index s ≡ panic) × (mask s ≡ panic))
      ⊎ ((i : ℕ) × (index s ≡ ok i) × (mask s ≡ ok (2 ^ i)) × (get_elem? segments i ≡ some s))
unfolding index mask
index-segments implicit_system_memory = inl (refl, refl, refl)
index-segments aperture_3d = inr (_, refl, refl, refl)
index-segments blob_mappable = inr (_, refl, refl, refl)
index-segments blob_host_3d = inr (_, refl, refl, refl)

-- The addresses of a segment that was described.
abbrev pub Covers : Descriptor → ℕ → Type 0
Covers d a = (d.base_address ≤ a) × (a < d.base_address + d.size)

abbrev Zone : MemorySegment → ℕ → Type 0
Zone implicit_system_memory a = a < 0
Zone aperture_3d a = (3221225472 ≤ a) × (a < 4294967296)
Zone blob_host_3d a = (30064771072 ≤ a) × (a < 47244640256)
Zone blob_mappable a = 137438953472 ≤ a

Covers-Zone :
    (s : MemorySegment) (start len a : ℕ) (d d' : Descriptor)
    → fill_desc3 s start len d ≡ ok d'
    → Covers d' a
    → Zone s a
unfolding fill_desc3 phys size flags
Covers-Zone implicit_system_memory start len a d d' p c = cc
Covers-Zone aperture_3d start len a d d' p c = ground arith
Covers-Zone blob_host_3d start len a d d' p c = ground arith
Covers-Zone blob_mappable start len a d d' p c = ground arith

zones_apart : (s t : MemorySegment) (a : ℕ) → s ≢ t → Zone s a → ¬ Zone t a
zones_apart implicit_system_memory t a ne c k = omega arith
zones_apart aperture_3d implicit_system_memory a ne c k = omega arith
zones_apart aperture_3d aperture_3d a ne c k = ne refl
zones_apart aperture_3d blob_host_3d a ne c k = omega arith
zones_apart aperture_3d blob_mappable a ne c k = omega arith
zones_apart blob_host_3d implicit_system_memory a ne c k = omega arith
zones_apart blob_host_3d aperture_3d a ne c k = omega arith
zones_apart blob_host_3d blob_host_3d a ne c k = ne refl
zones_apart blob_host_3d blob_mappable a ne c k = omega arith
zones_apart blob_mappable implicit_system_memory a ne c k = omega arith
zones_apart blob_mappable aperture_3d a ne c k = omega arith
zones_apart blob_mappable blob_host_3d a ne c k = omega arith
zones_apart blob_mappable blob_mappable a ne c k = ne refl

-- The descriptors of two different segments share no address, whatever the size of the shared memory.
pub fill_desc3_disjoint :
    (s t : MemorySegment) (start len a : ℕ) (d e d' e' : Descriptor)
    → s ≢ t
    → fill_desc3 s start len d ≡ ok d'
    → fill_desc3 t start len e ≡ ok e'
    → Covers d' a
    → ¬ Covers e' a
fill_desc3_disjoint s t start len a d e d' e' ne p q c k =
    zones_apart s t a ne (Covers-Zone s start len a d d' p c) (Covers-Zone t start len a e e' q k)
