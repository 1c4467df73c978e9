-- ===== src/Requests/Leaving.antt =====
-- What is left when actions end.
use virtio_drivers_windows.Base.{
  Status, Outcome, ok, err, panic, ◌≡◌, refl, Option, none, some, List, [], ◌∷◌,
}
use virtio_drivers_windows.Requests.Monad.{
  some_or, lift, Run, returned, failed, panicked, Action, continue_with,
}

-- What an action leaves behind, if it returns and if it fails.
abbrev pub Leaves : {S A : Type 0} → (A → S → Type 0) → (S → Type 0) → Run S A → Type 0
Leaves P Q (returned a s) = P a s
Leaves P Q (failed e s) = Q s
Leaves P Q panicked = Unit {0}

pub Leaves-bind :
    {S A B : Type 0} (P : A → S → Type 0) (P' : B → S → Type 0) (Q : S → Type 0) (r : Run S A)
    (f : A → Action S B)
    → Leaves P Q r
    → ((a : A) (s : S) → P a s → Leaves P' Q (f a s))
    → Leaves P' Q (continue_with r f)
Leaves-bind P P' Q (returned a s) f p k = k a s p
Leaves-bind P P' Q (failed e s) f p k = p
Leaves-bind P P' Q panicked f p k = tt

pub Leaves-map :
    {S A : Type 0} (P P' : A → S → Type 0) (Q Q' : S → Type 0) (r : Run S A)
    → Leaves P Q r
    → ((a : A) (s : S) → P a s → P' a s)
    → ((s : S) → Q s → Q' s)
    → Leaves P' Q' r
Leaves-map P P' Q Q' (returned a s) p f g = f a s p
Leaves-map P P' Q Q' (failed e s) p f g = g s p
Leaves-map P P' Q Q' panicked p f g = tt

-- Calls that leave the state alone.
pub some_or-keeps :
    {S A : Type 0} (P : S → Type 0) (o : Option A) (e : Status) (s : S)
    → P s
    → Leaves (λ a t. P t) (λ t. Unit {0}) (some_or o e s)
some_or-keeps P none e s p = tt
some_or-keeps P (some a) e s p = p

pub lift-keeps :
    {S A : Type 0} (P : S → Type 0) (o : Outcome A) (s : S)
    → P s
    → Leaves (λ a t. P t × (o ≡ ok a)) (λ t. Unit {0}) (lift o s)
lift-keeps P (ok a) s p = (p, refl)
lift-keeps P (err e) s p = tt
lift-keeps P panic s p = tt

-- Only the value that is returned matters.
abbrev pub Returns : {S A : Type 0} → (A → Type 0) → Run S A → Type 0
Returns P r = Leaves (λ a s. P a) (λ s. Unit {0}) r

pub Returns-then :
    {S A B : Type 0} (P : B → Type 0) (r : Run S A) (f : A → Action S B)
    → ((a : A) (s : S) → Returns P (f a s))
    → Returns P (continue_with r f)
Returns-then P (returned a s) f k = k a s
Returns-then P (failed e s) f k = tt
Returns-then P panicked f k = tt

-- What holds of what is left.
abbrev pub Each : {S : Type 0} → (S → Type 0) → Option S → Type 0
Each P none = Unit {0}
Each P (some t) = P t

-- What is left after one call after the other, whether they return or fail; nothing is left of a
-- panic.
abbrev pub go_on : {S A : Type 0} → Run S A → (S → Option S) → Option S
go_on (returned a t) k = k t
go_on (failed e t) k = k t
go_on panicked k = none

unfoldable pub after : {S A C : Type 0} → (C → Action S A) → List C → S → Option S
after f [] s = some s
after f (c ∷ cs) s = go_on (f c s) (after f cs)

go_on-Each :
    {S A : Type 0} (P Q : S → Type 0) (r : Run S A) (k : S → Option S)
    → Leaves (λ a t. P t) P r
    → ((t : S) → P t → Each Q (k t))
    → Each Q (go_on r k)
go_on-Each P Q (returned a t) k p f = f t p
go_on-Each P Q (failed e t) k p f = f t p
go_on-Each P Q panicked k p f = tt

pub after-Each :
    {S A C : Type 0} (P Q : S → Type 0) (f : C → Action S A)
    → ((c : C) (s : S) → P s → Leaves (λ a t. P t) P (f c s))
    → ((s : S) → P s → Q s)
    → (cs : List C) (s : S) → P s
    → Each Q (after f cs s)
unfolding after
after-Each P Q f keep g [] s p = g s p
after-Each P Q f keep g (c ∷ cs) s p =
    go_on-Each P Q (f c s) (after f cs) (keep c s p) (after-Each P Q f keep g cs)
