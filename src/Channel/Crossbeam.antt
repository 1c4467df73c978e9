-- ===== src/Channel/Crossbeam.antt =====
-- What the driver relies on of crossbeam's queues: `ArrayQueue`, a queue of a fixed capacity, and
-- `SegQueue`, one without a bound.
use virtio_drivers_windows.Base.{ℕ, ◌<◌, ◌≡◌, Option, none, some, List, [], ◌∷◌, ◌++◌, length}

pub record ArrayQueue (A : Type 0) : Type 1 where
  pub Fast : Type 0
  pub new : ℕ → Fast
  -- `none` hands the value back, since the queue is full.
  pub push : Fast → A → Option Fast
  -- Where the queue is full the oldest value gives way, and is returned.
  pub force_push : Fast → A → Option A × Fast
  pub pop : Fast → Option (A × Fast)
  -- The values from the oldest on, and how many there can be.
  pub contents : Fast → List A
  pub capacity : Fast → ℕ
  pub new_empty : (n : ℕ) → (contents (new n) ≡ []) × (capacity (new n) ≡ n)
  pub push_room :
      (q : Fast) (a : A)
      → length (contents q) < capacity q
      → (q' : Fast) × (push q a ≡ some q')
        × (contents q' ≡ contents q ++ (a ∷ []))
        × (capacity q' ≡ capacity q)
  pub push_full : (q : Fast) (a : A) → length (contents q) ≡ capacity q → push q a ≡ none
  pub force_push_room :
      (q : Fast) (a : A)
      → length (contents q) < capacity q
      → (q' : Fast) × (force_push q a ≡ (none, q'))
        × (contents q' ≡ contents q ++ (a ∷ []))
        × (capacity q' ≡ capacity q)
  pub force_push_full :
      (q : Fast) (a x : A) (xs : List A)
      → contents q ≡ x ∷ xs
      → length (contents q) ≡ capacity q
      → (q' : Fast) × (force_push q a ≡ (some x, q'))
        × (contents q' ≡ xs ++ (a ∷ []))
        × (capacity q' ≡ capacity q)
  pub pop_empty : (q : Fast) → contents q ≡ [] → pop q ≡ none
  pub pop_cons :
      (q : Fast) (x : A) (xs : List A)
      → contents q ≡ x ∷ xs
      → (q' : Fast) × (pop q ≡ some (x, q')) × (contents q' ≡ xs) × (capacity q' ≡ capacity q)

pub record SegQueue (A : Type 0) : Type 1 where
  pub Slow : Type 0
  pub new : Slow
  pub push : Slow → A → Slow
  pub pop : Slow → Option (A × Slow)
  pub contents : Slow → List A
  pub new_empty : contents new ≡ []
  pub push_back : (q : Slow) (a : A) → contents (push q a) ≡ contents q ++ (a ∷ [])
  pub pop_empty : (q : Slow) → contents q ≡ [] → pop q ≡ none
  pub pop_cons :
      (q : Slow) (x : A) (xs : List A)
      → contents q ≡ x ∷ xs
      → (q' : Slow) × (pop q ≡ some (x, q')) × (contents q' ≡ xs)
