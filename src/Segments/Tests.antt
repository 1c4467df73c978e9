-- ===== src/Segments/Tests.antt =====
-- The segments at concrete inputs.
use virtio_drivers_windows.Base.{
  ℕ, ◌^◌, ◌≡◌, ◌≢◌, refl, ◌⊎◌, true, false, ok, panic, some, arith, get_elem?,
}
use virtio_drivers_windows.Segments.{
  implicit_system_memory, blob_mappable, blob_host_3d, segments, index, mask, phys, size, flags,
  Descriptor, fill_desc3,
}
use virtio_drivers_windows.Segments.Layout.{index-segments, fill_desc3_disjoint, Covers}

index-segments_example :
    ((blob_mappable ≡ implicit_system_memory)
      × (index blob_mappable ≡ panic)
      × (mask blob_mappable ≡ panic))
    ⊎ ((i : ℕ) × (index blob_mappable ≡ ok i)
        × (mask blob_mappable ≡ ok (2 ^ i))
        × (get_elem? segments i ≡ some blob_mappable))
index-segments_example = index-segments blob_mappable

abbrev zeroed : Descriptor
zeroed = record {
  base_address = 0;
  size = 0;
  commit_limit = 0;
  flags = record {
    aperture = false;
    cache_coherent = false;
    cpu_visible = false;
    direct_flip = false;
  };
  cpu_translated_address = 0;
}

abbrev mappable : Descriptor
mappable = record {
  base_address = 137438953472;
  size = 4096;
  commit_limit = 4096;
  flags = record {
    aperture = false;
    cache_coherent = true;
    cpu_visible = true;
    direct_flip = true;
  };
  cpu_translated_address = 65536;
}

abbrev host : Descriptor
host = record {
  base_address = 30064771072;
  size = 17179869184;
  commit_limit = 17179869184;
  flags = record {
    aperture = false;
    cache_coherent = true;
    cpu_visible = true;
    direct_flip = true;
  };
  cpu_translated_address = 0;
}

mappable_filled : fill_desc3 blob_mappable 65536 4096 zeroed ≡ ok mappable
unfolding fill_desc3 phys size flags
mappable_filled = refl

host_filled : fill_desc3 blob_host_3d 65536 4096 zeroed ≡ ok host
unfolding fill_desc3 phys size flags
host_filled = refl

host_differs : blob_mappable ≢ blob_host_3d
host_differs = cc

fill_desc3_disjoint_example : ¬ Covers host 137438953480
fill_desc3_disjoint_example =
    fill_desc3_disjoint blob_mappable blob_host_3d 65536 4096 137438953480 zeroed zeroed mappable
      host host_differs mappable_filled host_filled (omega arith, omega arith)
