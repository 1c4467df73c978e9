-- ===== src/Segments.antt =====
-- `MemorySegment` of gpu-wddm/src/process.rs: the memory segments that the driver reports. A segment
-- descriptor is a structure of the operating system, of which the fields that the driver sets are
-- modelled.
pub mod Layout
mod Tests
use virtio_drivers_windows.Base.{
  if◌then◌else◌, ℕ, ◌+◌, ◌-◌, ◌*◌, ◌^◌, Bool, true, false, Option, none, some, List, [], ◌∷◌,
  Outcome, ok, panic, ◌>>=◌,
}

pub data MemorySegment : Type 0 where
  implicit_system_memory aperture_3d blob_mappable blob_host_3d : MemorySegment

-- The cast to `u32`.
abbrev pub discriminant : MemorySegment → ℕ
discriminant implicit_system_memory = 0
discriminant aperture_3d = 1
discriminant blob_mappable = 2
discriminant blob_host_3d = 3

abbrev pub segments : List MemorySegment
segments = aperture_3d ∷ blob_mappable ∷ blob_host_3d ∷ []

unfoldable pub index : MemorySegment → Outcome ℕ
index implicit_system_memory = panic
index aperture_3d = ok (discriminant aperture_3d - 1)
index blob_mappable = ok (discriminant blob_mappable - 1)
index blob_host_3d = ok (discriminant blob_host_3d - 1)

unfoldable pub mask : MemorySegment → Outcome ℕ
mask s = do i ← index s; ok (2 ^ i)

unfoldable pub phys : MemorySegment → Outcome ℕ
phys implicit_system_memory = panic
phys aperture_3d = ok 3221225472
phys blob_host_3d = ok 30064771072
phys blob_mappable = ok 137438953472

unfoldable pub size : MemorySegment → ℕ → Outcome ℕ
size implicit_system_memory shmem_len = panic
size aperture_3d shmem_len = ok (1024 * 1024 * 1024)
size blob_host_3d shmem_len = ok (16 * 1024 * 1024 * 1024)
size blob_mappable shmem_len = ok shmem_len

-- `DXGK_SEGMENTFLAGS`.
pub record Flags : Type 0 where
  pub aperture : Bool
  pub cache_coherent : Bool
  pub cpu_visible : Bool
  pub direct_flip : Bool

unfoldable pub flags : MemorySegment → Outcome Flags
flags implicit_system_memory = panic
flags aperture_3d =
    ok (record { aperture = true; cache_coherent = true; cpu_visible = false; direct_flip = true })
flags blob_host_3d =
    ok (record { aperture = false; cache_coherent = true; cpu_visible = true; direct_flip = true })
flags blob_mappable =
    ok (record { aperture = false; cache_coherent = true; cpu_visible = true; direct_flip = true })

-- `DXGK_SEGMENTDESCRIPTOR3`.
pub record Descriptor : Type 0 where
  pub base_address : ℕ
  pub size : ℕ
  pub commit_limit : ℕ
  pub flags : Flags
  pub cpu_translated_address : ℕ

-- `matches!(self, MemorySegment::BlobMappable)`.
abbrev is_blob_mappable : MemorySegment → Bool
is_blob_mappable implicit_system_memory = false
is_blob_mappable aperture_3d = false
is_blob_mappable blob_mappable = true
is_blob_mappable blob_host_3d = false

unfoldable pub fill_desc3 : MemorySegment → ℕ → ℕ → Descriptor → Outcome Descriptor
unfolding phys size flags
fill_desc3 s shmem_start shmem_len desc = do
  base ← phys s
  length ← size s shmem_len
  f ← flags s
  let desc' = record desc { base_address = base; size = length; commit_limit = length; flags = f }
  ok (if is_blob_mappable s then record desc' { cpu_translated_address = shmem_start } else desc')
