-- ===== src/Base/Lists.antt =====
-- Lists measured and indexed by native numbers, and Boolean membership.
use Prim.Native.Nat.{ℕ, zero, suc, ◌+◌, ◌-◌, ◌<◌, min}
use mathlib.Core.Path.{◌≡◌, refl, ap}
use mathlib.Core.Logic.{◌≢◌, ◌⊎◌, inl, inr}
use mathlib.Core.Bool.{Bool, true, false, not, ◌&&◌, ◌||◌}
use mathlib.Core.List.{List, [], ◌∷◌, ◌++◌}
use mathlib.Core.Option.{Option, none, some}
use native.Mathlib.Omega.{arith}
use mathlib.Core.Option
use virtio_drivers_windows.Base.Tests.{◌==◌, if◌then◌else◌}

module _ {ℓ} {A : Type ℓ} where
  abbrev pub length : List A → ℕ
  length [] = 0
  length (x ∷ xs) = suc (length xs)

  abbrev pub get_elem? : List A → ℕ → Option A
  get_elem? [] i = none
  get_elem? (x ∷ xs) zero = some x
  get_elem? (x ∷ xs) (suc i) = get_elem? xs i

  -- A write out of bounds changes nothing.
  abbrev pub set : List A → ℕ → A → List A
  set [] i v = []
  set (x ∷ xs) zero v = v ∷ xs
  set (x ∷ xs) (suc i) v = x ∷ set xs i v

  abbrev pub replicate : ℕ → A → List A
  replicate zero a = []
  replicate (suc n) a = a ∷ replicate n a

  abbrev pub take : ℕ → List A → List A
  take zero xs = []
  take (suc n) [] = []
  take (suc n) (x ∷ xs) = x ∷ take n xs

  abbrev pub drop : ℕ → List A → List A
  drop zero xs = xs
  drop (suc n) [] = []
  drop (suc n) (x ∷ xs) = drop n xs

  abbrev pub is_empty : List A → Bool
  is_empty [] = true
  is_empty (x ∷ xs) = false

  pub length-append : (xs ys : List A) → length (xs ++ ys) ≡ length xs + length ys
  length-append [] ys = omega arith
  length-append (x ∷ xs) ys = omega (arith, length-append xs ys)

  pub take-append : (xs ys : List A) → take (length xs) (xs ++ ys) ≡ xs
  take-append [] ys = refl
  take-append (x ∷ xs) ys = ap (λ l. x ∷ l) (take-append xs ys)

  pub drop-append : (xs ys : List A) → drop (length xs) (xs ++ ys) ≡ ys
  drop-append [] ys = refl
  drop-append (x ∷ xs) ys = drop-append xs ys

  pub length-drop : (n : ℕ) (xs : List A) → length (drop n xs) ≡ length xs - n
  length-drop zero xs = omega arith
  length-drop (suc n) [] = omega arith
  length-drop (suc n) (x ∷ xs) = omega (arith, length-drop n xs)

  pub length-take : (n : ℕ) (xs : List A) → length (take n xs) ≡ min n (length xs)
  length-take zero xs = omega arith
  length-take (suc n) [] = omega arith
  length-take (suc n) (x ∷ xs) = omega (arith, length-take n xs)

  pub drop-drop : (m n : ℕ) (xs : List A) → drop m (drop n xs) ≡ drop (n + m) xs
  drop-drop m zero xs = let e : 0 + m ≡ m = omega arith in rw e refl
  drop-drop zero (suc n) [] = let e : suc n + 0 ≡ suc n = omega arith in rw e refl
  drop-drop (suc m) (suc n) [] = let e : suc n + suc m ≡ suc (n + suc m) = omega arith in rw e refl
  drop-drop m (suc n) (x ∷ xs) =
      let e : suc n + m ≡ suc (n + m) = omega arith in rw e (drop-drop m n xs)

  pub length-replicate : (n : ℕ) (a : A) → length (replicate n a) ≡ n
  length-replicate zero a = refl
  length-replicate (suc n) a = ap suc (length-replicate n a)

  pub length-set : (xs : List A) (i : ℕ) (v : A) → length (set xs i v) ≡ length xs
  length-set [] i v = refl
  length-set (x ∷ xs) zero v = refl
  length-set (x ∷ xs) (suc i) v = ap suc (length-set xs i v)

  pub get_elem?-set_self :
      (xs : List A) (i : ℕ) (v : A) → i < length xs → get_elem? (set xs i v) i ≡ some v
  get_elem?-set_self [] i v h = elim h [ ]
  get_elem?-set_self (x ∷ xs) zero v h = refl
  get_elem?-set_self (x ∷ xs) (suc i) v h = get_elem?-set_self xs i v (omega arith)

  pub get_elem?-set_ne :
      (xs : List A) (i j : ℕ) (v : A) → i ≢ j → get_elem? (set xs i v) j ≡ get_elem? xs j
  get_elem?-set_ne [] i j v h = refl
  get_elem?-set_ne (x ∷ xs) zero zero v h = absurd (h refl)
  get_elem?-set_ne (x ∷ xs) zero (suc j) v h = refl
  get_elem?-set_ne (x ∷ xs) (suc i) zero v h = refl
  get_elem?-set_ne (x ∷ xs) (suc i) (suc j) v h = get_elem?-set_ne xs i j v (λ e. h (ap suc e))

  pub get_elem?-is_some :
      (xs : List A) (i : ℕ) → i < length xs → (a : A) × (get_elem? xs i ≡ some a)
  get_elem?-is_some [] i h = elim h [ ]
  get_elem?-is_some (x ∷ xs) zero h = (x, refl)
  get_elem?-is_some (x ∷ xs) (suc i) h = get_elem?-is_some xs i (omega arith)

  pub List-cases : (xs : List A) → (xs ≡ []) ⊎ ((y : A) × (ys : List A) × (xs ≡ y ∷ ys))
  List-cases [] = inl refl
  List-cases (y ∷ ys) = inr (y, ys, refl)

  -- `Vec::swap_remove`: the last element takes the place of the one at `i`.
  abbrev pub last_or : A → List A → A
  last_or x [] = x
  last_or x (y ∷ ys) = last_or y ys

  abbrev pub init : A → List A → List A
  init x [] = []
  init x (y ∷ ys) = x ∷ init y ys

  unfoldable pub swap_remove : List A → ℕ → List A
  swap_remove [] i = []
  swap_remove (x ∷ []) zero = []
  swap_remove (x ∷ y ∷ ys) zero = last_or y ys ∷ init y ys
  swap_remove (x ∷ xs) (suc i) = x ∷ swap_remove xs i

-- Whether a list of numbers holds one, and the place of its first occurrence.
abbrev pub contains : List ℕ → ℕ → Bool
contains [] a = false
contains (x ∷ xs) a = (x == a) || contains xs a

abbrev pub position : ℕ → List ℕ → Option ℕ
position a [] = none
position a (x ∷ xs) = if x == a then some 0 else Option.map suc (position a xs)

-- No number twice.
abbrev pub IsNodup : List ℕ → Type 0
IsNodup [] = Unit {0}
IsNodup (x ∷ xs) = (contains xs x ≡ false) × IsNodup xs

pub contains-append :
    (xs ys : List ℕ) (a : ℕ) → contains (xs ++ ys) a ≡ (contains xs a || contains ys a)
contains-append [] ys a = refl
contains-append (x ∷ xs) ys a = ground (arith, contains-append xs ys a)

contains-snoc_init :
    (x : ℕ) (xs : List ℕ) (a : ℕ)
    → contains (x ∷ xs) a ≡ ((last_or x xs == a) || contains (init x xs) a)
contains-snoc_init x [] a = refl
contains-snoc_init x (y ∷ ys) a = ground (arith, contains-snoc_init y ys a)

IsNodup-snoc_init : (x : ℕ) (xs : List ℕ) → IsNodup (x ∷ xs) → IsNodup (last_or x xs ∷ init x xs)
IsNodup-snoc_init x [] h = h
IsNodup-snoc_init x (y ∷ ys) h =
    ground (arith, contains-snoc_init y ys x, IsNodup-snoc_init y ys h.1)

-- Removing the first occurrence from a list without repetitions removes that number and no other.
pub contains-swap_remove :
    (xs : List ℕ) (a i b : ℕ)
    → IsNodup xs
    → position a xs ≡ some i
    → contains (swap_remove xs i) b ≡ (contains xs b && not (a == b))
unfolding swap_remove
contains-swap_remove [] a i b h e = cc
contains-swap_remove (x ∷ []) a zero b h e = ground arith
contains-swap_remove (x ∷ []) a (suc i) b h e = ground arith
contains-swap_remove (x ∷ y ∷ ys) a zero b h e = ground (arith, contains-snoc_init y ys b)
contains-swap_remove (x ∷ y ∷ ys) a (suc i) b h e =
    ground (arith, contains-swap_remove (y ∷ ys) a i b h.1)

pub swap_remove-IsNodup :
    (xs : List ℕ) (a i : ℕ) → IsNodup xs → position a xs ≡ some i → IsNodup (swap_remove xs i)
unfolding swap_remove
swap_remove-IsNodup [] a i h e = cc
swap_remove-IsNodup (x ∷ []) a zero h e = tt
swap_remove-IsNodup (x ∷ []) a (suc i) h e = ground arith
swap_remove-IsNodup (x ∷ y ∷ ys) a zero h e = IsNodup-snoc_init y ys h.1
swap_remove-IsNodup (x ∷ y ∷ ys) a (suc i) h e =
    ground (arith, swap_remove-IsNodup (y ∷ ys) a i h.1, contains-swap_remove (y ∷ ys) a i x h.1)

pub position-is_none : (a : ℕ) (xs : List ℕ) → position a xs ≡ none → contains xs a ≡ false
position-is_none a [] e = refl
position-is_none a (x ∷ xs) e = ground (arith, position-is_none a xs)

pub IsNodup-snoc :
    (xs : List ℕ) (a : ℕ) → IsNodup xs → contains xs a ≡ false → IsNodup (xs ++ (a ∷ []))
IsNodup-snoc [] a h e = (refl, tt)
IsNodup-snoc (x ∷ xs) a h e = ground (arith, contains-append xs (a ∷ []) x, IsNodup-snoc xs a h.1)

pub position-contains :
    (a : ℕ) (xs : List ℕ) (i : ℕ) → position a xs ≡ some i → contains xs a ≡ true
position-contains a [] i e = cc
position-contains a (x ∷ xs) zero e = ground arith
position-contains a (x ∷ xs) (suc i) e = ground (arith, position-contains a xs i)
