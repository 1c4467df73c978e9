-- ===== src/Buffers/Pages.antt =====
-- When a slice lies in one page.
use native.Mathlib.Nat.{div-mul-le_self, le-div_iff_mul-le}
use virtio_drivers_windows.Base.{ℕ, ◌+◌, ◌-◌, ◌/◌, ◌≤◌, ◌<◌, ◌≡◌, ◌↔◌, true, arith, ℕ_discrete}
use virtio_drivers_windows.Buffers.{slice_in_one_page}

div_mono : (d m n : ℕ) → 0 < d → m ≤ n → m / d ≤ n / d
div_mono d m n p h = let e = div-mul-le_self m d in (le-div_iff_mul-le p).1 (omega arith)

-- The test holds exactly when every byte of the slice lies in the page of its first byte.
pub slice_in_one_page_iff :
    (page_size start len : ℕ)
    → 0 < page_size
    → (slice_in_one_page page_size start len ≡ true)
      ↔ ((i : ℕ) → i < len → (start + i) / page_size ≡ start / page_size)
unfolding slice_in_one_page
slice_in_one_page_iff page_size start len h = elim (ℕ_discrete len 0) [
  | yes z ↦ (λ e i k. omega arith, λ all. ground arith)
  | no z ↦ (
    λ e i k.
        let p = div_mono page_size start (start + i) h (omega arith) in
        let q = div_mono page_size (start + i) (start + len - 1) h (omega arith) in ground arith,
    λ all.
        let p = all (len - 1) (omega arith) in
        let r : start + (len - 1) ≡ start + len - 1 = omega arith in ground arith,
  )
]
