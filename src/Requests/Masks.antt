-- ===== src/Requests/Masks.antt =====
-- The bits of a mask of capsets.
use virtio_drivers_windows.Base.{ℕ, ◌/◌, ◌%◌, ◌<◌, ◌≡◌, ◌≢◌, refl, arith}
use virtio_drivers_windows.Requests.Capsets.{capset_mask, union}
use virtio_drivers_windows.Requests.Contexts.{
  CapsetId, virgl, virgl2, gfxstream, venus, cross_domain, drm,
}

-- Whether the bit of a capset is in a mask.
abbrev pub bit : ℕ → CapsetId → ℕ
bit mask c = mask / capset_mask c % 2

pub union_lt : (m : ℕ) (c : CapsetId) → m < 128 → union m (capset_mask c) < 128
union_lt m virgl l = ground arith
union_lt m virgl2 l = ground arith
union_lt m gfxstream l = ground arith
union_lt m venus l = ground arith
union_lt m cross_domain l = ground arith
union_lt m drm l = ground arith

pub union_even : (m : ℕ) (c : CapsetId) → m % 2 ≡ 0 → union m (capset_mask c) % 2 ≡ 0
union_even m virgl z = ground arith
union_even m virgl2 z = ground arith
union_even m gfxstream z = ground arith
union_even m venus z = ground arith
union_even m cross_domain z = ground arith
union_even m drm z = ground arith

pub bit-union_self : (m : ℕ) (c : CapsetId) → bit (union m (capset_mask c)) c ≡ 1
bit-union_self m virgl = ground arith
bit-union_self m virgl2 = ground arith
bit-union_self m gfxstream = ground arith
bit-union_self m venus = ground arith
bit-union_self m cross_domain = ground arith
bit-union_self m drm = ground arith

pub bit-union_ne : (m : ℕ) (c d : CapsetId) → c ≢ d → bit (union m (capset_mask c)) d ≡ bit m d
bit-union_ne m virgl virgl n = absurd (n refl)
bit-union_ne m virgl virgl2 n = ground arith
bit-union_ne m virgl gfxstream n = ground arith
bit-union_ne m virgl venus n = ground arith
bit-union_ne m virgl cross_domain n = ground arith
bit-union_ne m virgl drm n = ground arith
bit-union_ne m virgl2 virgl n = ground arith
bit-union_ne m virgl2 virgl2 n = absurd (n refl)
bit-union_ne m virgl2 gfxstream n = ground arith
bit-union_ne m virgl2 venus n = ground arith
bit-union_ne m virgl2 cross_domain n = ground arith
bit-union_ne m virgl2 drm n = ground arith
bit-union_ne m gfxstream virgl n = ground arith
bit-union_ne m gfxstream virgl2 n = ground arith
bit-union_ne m gfxstream gfxstream n = absurd (n refl)
bit-union_ne m gfxstream venus n = ground arith
bit-union_ne m gfxstream cross_domain n = ground arith
bit-union_ne m gfxstream drm n = ground arith
bit-union_ne m venus virgl n = ground arith
bit-union_ne m venus virgl2 n = ground arith
bit-union_ne m venus gfxstream n = ground arith
bit-union_ne m venus venus n = absurd (n refl)
bit-union_ne m venus cross_domain n = ground arith
bit-union_ne m venus drm n = ground arith
bit-union_ne m cross_domain virgl n = ground arith
bit-union_ne m cross_domain virgl2 n = ground arith
bit-union_ne m cross_domain gfxstream n = ground arith
bit-union_ne m cross_domain venus n = ground arith
bit-union_ne m cross_domain cross_domain n = absurd (n refl)
bit-union_ne m cross_domain drm n = ground arith
bit-union_ne m drm virgl n = ground arith
bit-union_ne m drm virgl2 n = ground arith
bit-union_ne m drm gfxstream n = ground arith
bit-union_ne m drm venus n = ground arith
bit-union_ne m drm cross_domain n = ground arith
bit-union_ne m drm drm n = absurd (n refl)
