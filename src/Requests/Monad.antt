-- ===== src/Requests/Monad.antt =====
-- A method of the channel: it returns or fails in the state that it leaves behind, or panics.
use virtio_drivers_windows.Base.{◌⊎◌, inl, inr, Outcome, ok, err, panic, Status, Option, none, some}

pub data Run (S A : Type 0) : Type 0 where
  returned : A → S → Run S A
  failed : Status → S → Run S A
  panicked : Run S A

abbrev pub Action : Type 0 → Type 0 → Type 0
Action S A = S → Run S A

module _ {S : Type 0} where
  abbrev pub pure : {A : Type 0} → A → Action S A
  pure a s = returned a s

  abbrev pub fail : {A : Type 0} → Status → Action S A
  fail e s = failed e s

  abbrev pub continue_with : {A B : Type 0} → Run S A → (A → Action S B) → Run S B
  continue_with (returned a s) f = f a s
  continue_with (failed e s) f = failed e s
  continue_with panicked f = panicked

  infixl 5 ◌>>=◌ ◌>>◌
  abbrev pub ◌>>=◌ : {A B : Type 0} → Action S A → (A → Action S B) → Action S B
  (m >>= f) s = continue_with (m s) f

  abbrev pub ◌>>◌ : {B : Type 0} → Action S (Unit {0}) → Action S B → Action S B
  (m >> k) = m >>= λ _. k

  -- What a call on a value, without the state, comes to.
  abbrev pub lift : {A : Type 0} → Outcome A → Action S A
  lift (ok a) s = returned a s
  lift (err e) s = failed e s
  lift panic s = panicked

  -- `ok_or` with the `?` behind it.
  abbrev pub some_or : {A : Type 0} → Option A → Status → Action S A
  some_or none e = fail e
  some_or (some a) e = pure a

  -- `inspect_err`, for a closure that changes the state.
  abbrev pub on_err : {A : Type 0} → Run S A → (S → S) → Run S A
  on_err (returned a s) f = returned a s
  on_err (failed e s) f = failed e (f s)
  on_err panicked f = panicked

  abbrev pub inspect_err : {A : Type 0} → Action S A → (S → S) → Action S A
  inspect_err m f s = on_err (m s) f

  -- Reading and changing the state.
  abbrev pub gets : {A : Type 0} → (S → A × S) → Action S A
  gets f s = let (a, s') = f s in returned a s'

  abbrev pub modify : (S → S) → Action S (Unit {0})
  modify f s = returned tt (f s)

  -- A failure as a value, and what runs when values go out of scope after a failure.
  abbrev pub caught : {A : Type 0} → Run S A → Run S (Status ⊎ A)
  caught (returned a s) = returned (inr a) s
  caught (failed e s) = returned (inl e) s
  caught panicked = panicked

  abbrev pub attempt : {A : Type 0} → Action S A → Action S (Status ⊎ A)
  attempt m s = caught (m s)

  abbrev pub dropping : {A : Type 0} → Run S A → Action S (Unit {0}) → Run S A
  dropping (returned a s) f = returned a s
  dropping (failed e s) f = continue_with (f s) (λ _. fail e)
  dropping panicked f = panicked

  abbrev pub or_drop : {A : Type 0} → Action S A → Action S (Unit {0}) → Action S A
  or_drop m f s = dropping (m s) f
