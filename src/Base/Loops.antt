-- ===== src/Base/Loops.antt =====
-- Loops over a range that may fail, and the rule for their invariants.
use Prim.Native.Nat.{ℕ, zero, suc, ◌+◌, ◌≤◌, ◌<◌}
use mathlib.Core.Path.{◌≡◌, subst}
use native.Mathlib.Omega.{arith}
use mathlib.Core.Bool.{Bool, true, false}
use virtio_drivers_windows.Base.Tests.{if◌then◌else◌}
use virtio_drivers_windows.Base.Outcomes.{Outcome, ok, err, panic, ◌>>=◌}

-- `for i in i..i + n`.
unfoldable pub for_range : {S : Type 0} → ℕ → ℕ → (ℕ → S → Outcome S) → S → Outcome S
for_range zero i body s = ok s
for_range (suc n) i body s = body i s >>= for_range n (suc i) body

-- The call succeeds, with such a value.
abbrev pub Yields : {A : Type 0} → (A → Type 0) → Outcome A → Type 0
Yields P (ok a) = P a
Yields P (err e) = ⊥
Yields P panic = ⊥

pub Yields-bind :
    {A B : Type 0} (P : A → Type 0) (Q : B → Type 0) (o : Outcome A) (f : A → Outcome B)
    → Yields P o
    → ((a : A) → P a → Yields Q (f a))
    → Yields Q (o >>= f)
Yields-bind P Q (ok a) f p k = k a p
Yields-bind P Q (err e) f p k = absurd p
Yields-bind P Q panic f p k = absurd p

pub for_range-Yields :
    {S : Type 0} (P : ℕ → S → Type 0) (body : ℕ → S → Outcome S) (n i end : ℕ) (s : S)
    → i + n ≡ end
    → ((j : ℕ) (t : S) → i ≤ j → j < end → P j t → Yields (P (suc j)) (body j t))
    → P i s
    → Yields (P end) (for_range n i body s)
unfolding for_range
for_range-Yields P body zero i end s e keep p = subst (λ j. P j s) (omega arith) p
for_range-Yields P body (suc n) i end s e keep p =
    Yields-bind (P (suc i)) (P end) (body i s) (for_range n (suc i) body)
      (keep i s (omega arith) (omega arith) p)
      (λ t. for_range-Yields P body n (suc i) end t (omega arith) (λ j u l. keep j u (omega arith)))

pub Yields-map :
    {A : Type 0} (P Q : A → Type 0) (o : Outcome A)
    → Yields P o
    → ((a : A) → P a → Q a)
    → Yields Q o
Yields-map P Q (ok a) p k = k a p
Yields-map P Q (err e) p k = absurd p
Yields-map P Q panic p k = absurd p

-- If the call succeeds, then with such a value.
abbrev pub Allows : {A : Type 0} → (A → Type 0) → Outcome A → Type 0
Allows P (ok a) = P a
Allows P (err e) = Unit {0}
Allows P panic = Unit {0}

pub Allows-bind :
    {A B : Type 0} (P : A → Type 0) (Q : B → Type 0) (o : Outcome A) (f : A → Outcome B)
    → Allows P o
    → ((a : A) → P a → Allows Q (f a))
    → Allows Q (o >>= f)
Allows-bind P Q (ok a) f p k = k a p
Allows-bind P Q (err e) f p k = tt
Allows-bind P Q panic f p k = tt

pub Allows-map :
    {A : Type 0} (P Q : A → Type 0) (o : Outcome A)
    → Allows P o
    → ((a : A) → P a → Q a)
    → Allows Q o
Allows-map P Q (ok a) p k = k a p
Allows-map P Q (err e) p k = tt
Allows-map P Q panic p k = tt

-- Where nothing is asked of the first value.
pub Allows-then :
    {A B : Type 0} (Q : B → Type 0) (o : Outcome A) (f : A → Outcome B)
    → ((a : A) → Allows Q (f a))
    → Allows Q (o >>= f)
Allows-then Q (ok a) f k = k a
Allows-then Q (err e) f k = tt
Allows-then Q panic f k = tt

pub for_range-Allows :
    {S : Type 0} (P : S → Type 0) (body : ℕ → S → Outcome S) (n i : ℕ) (s : S)
    → ((j : ℕ) (t : S) → P t → Allows P (body j t))
    → P s
    → Allows P (for_range n i body s)
unfolding for_range
for_range-Allows P body zero i s keep p = p
for_range-Allows P body (suc n) i s keep p =
    Allows-bind P P (body i s) (for_range n (suc i) body) (keep i s p)
      (λ t. for_range-Allows P body n (suc i) t keep)

pub Allows-if :
    {A : Type 0} (P : A → Type 0) (b : Bool) (o o' : Outcome A)
    → Allows P o
    → Allows P o'
    → Allows P (if b then o else o')
Allows-if P true o o' p q = p
Allows-if P false o o' p q = q
