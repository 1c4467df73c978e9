-- ===== src/Base/Pigeonhole.antt =====
-- How many different small numbers there are.
use Prim.Native.Nat.{ℕ, zero, suc, ◌+◌, ◌≤◌, ◌<◌}
use mathlib.Core.Path.{◌≡◌, refl}
use mathlib.Core.Logic.{inl, inr}
use mathlib.Core.Bool.{true}
use mathlib.Core.Option.{some}
use mathlib.Core.List.{List, [], ◌∷◌}
use native.Mathlib.Omega.{arith}
use virtio_drivers_windows.Base.Tests.{Option-cases}
use virtio_drivers_windows.Base.Lists.{
  length, contains, position, IsNodup, swap_remove, contains-swap_remove, swap_remove-IsNodup,
  position-is_none, init,
}

length-init : (x : ℕ) (xs : List ℕ) → length (init x xs) ≡ length xs
length-init x [] = refl
length-init x (y ∷ ys) = ground (arith, length-init y ys)

length-swap_remove :
    (a i : ℕ) (xs : List ℕ) → position a xs ≡ some i → length (swap_remove xs i) + 1 ≡ length xs
unfolding swap_remove
length-swap_remove a i [] e = cc
length-swap_remove a zero (x ∷ []) e = refl
length-swap_remove a (suc i) (x ∷ []) e = ground arith
length-swap_remove a zero (x ∷ y ∷ ys) e = ground (arith, length-init y ys)
length-swap_remove a (suc i) (x ∷ y ∷ ys) e = ground (arith, length-swap_remove a i (y ∷ ys))

-- At most `n` different numbers are below `n`.
pub length-IsNodup :
    (n : ℕ) (xs : List ℕ) → IsNodup xs → ((i : ℕ) → contains xs i ≡ true → i < n) → length xs ≤ n
length-IsNodup zero [] d small = omega arith
length-IsNodup zero (x ∷ xs) d small = absurd (ground (arith, small x))
length-IsNodup (suc n) xs d small = elim (Option-cases (position n xs)) [
  | inl e ↦
      let absent = position-is_none n xs e in
      let h = length-IsNodup n xs d (λ i m. ground (arith, small i m)) in omega arith
  | inr (k, e) ↦
      let h =
        length-IsNodup n (swap_remove xs k) (swap_remove-IsNodup xs n k d e)
          (λ i m. ground (arith, small i, contains-swap_remove xs n k i d e)) in
      let l = length-swap_remove n k xs e in omega arith
]
