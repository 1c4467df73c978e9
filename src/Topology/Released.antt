-- ===== src/Topology/Released.antt =====
-- Every path that is acquired is released.
use virtio_drivers_windows.Base.{
  ℕ, zero, suc, ◌+◌, ◌≡◌, refl, Bool, true, false, Option, none, some, List, [], ◌∷◌, ◌⊎◌, inl, inr,
  Status, arith, ◌==◌, graphics_no_more_elements_in_dataset,
}
use virtio_drivers_windows.Requests.Monad.{
  Run, returned, failed, panicked, Action, pure, fail, ◌>>=◌, ◌>>◌, continue_with, dropping, caught,
  or_drop,
}
use virtio_drivers_windows.Topology.{
  Interface, Event, acquired, released, Session, note_acquired, unwrapped, acquire_first_path_info,
  unless_no_more, acquire_next_path_info, release_path_info, set_current, iter_new, next_found,
  next_after, try_next, release_taken, drop_iter, drop_guard, body_done, turn, turn_with, walk,
  each_path,
}

abbrev pub one_if : Bool → ℕ
one_if true = 1
one_if false = 0

-- How often a path was acquired, and released.
abbrev pub acquired_count : List Event → ℕ → ℕ
acquired_count [] p = 0
acquired_count (acquired q ∷ l) p = one_if (q == p) + acquired_count l p
acquired_count (released q ∷ l) p = acquired_count l p

abbrev pub released_count : List Event → ℕ → ℕ
released_count [] p = 0
released_count (acquired q ∷ l) p = released_count l p
released_count (released q ∷ l) p = one_if (q == p) + released_count l p

abbrev pub owned : Option ℕ → ℕ → ℕ
owned none p = 0
owned (some q) p = one_if (q == p)

module _ {S : Type 0} where
  -- What holds where an action returns, and where it fails.
  abbrev pub Ends : {A : Type 0} → (A → S → Type 0) → (S → Type 0) → Run S A → Type 0
  Ends Q E (returned a s) = Q a s
  Ends Q E (failed e s) = E s
  Ends Q E panicked = Unit {0}

  pub continue_with-Ends :
      {A B : Type 0} (Q : A → S → Type 0) (R : B → S → Type 0) (E : S → Type 0) (r : Run S A)
      (f : A → Action S B)
      → Ends Q E r
      → ((a : A) (s : S) → Q a s → Ends R E (f a s))
      → Ends R E (continue_with r f)
  continue_with-Ends Q R E (returned a s) f q g = g a s q
  continue_with-Ends Q R E (failed e s) f q g = q
  continue_with-Ends Q R E panicked f q g = tt

  pub dropping-Ends :
      {A : Type 0} (Q : A → S → Type 0) (E F : S → Type 0) (r : Run S A) (f : Action S (Unit {0}))
      → Ends Q E r
      → ((s : S) → E s → Ends (λ u t. F t) F (f s))
      → Ends Q F (dropping r f)
  dropping-Ends Q E F (returned a s) f q g = q
  dropping-Ends Q E F (failed e s) f q g =
      continue_with-Ends (λ u t. F t) Q F (f s) (λ u. fail e) (g s q) (λ u t h. h)
  dropping-Ends Q E F panicked f q g = tt

module _ (o : Interface) where
  -- Each path was acquired as often as it was released, and once more if the iterator has it, and
  -- once more if the guard has it.
  abbrev pub Owes : Option ℕ → Session o → Type 0
  Owes guard s =
      (p : ℕ)
      → acquired_count s.events p ≡ released_count s.events p + (owned s.current p + owned guard p)

  -- The same without a guard, where the iterator has nothing.
  abbrev pub Settled : Session o → Type 0
  Settled s = (p : ℕ) → acquired_count s.events p ≡ released_count s.events p

  release_path_info-Owes :
      (path : ℕ) (s : Session o)
      → Owes (some path) s
      → Ends (λ u t. Owes none t) (λ t. Owes none t) (release_path_info o path s)
  unfolding release_path_info
  release_path_info-Owes path s h p = ground (arith, h p)

  drop_guard-Owes :
      (g : Option ℕ) (s : Session o)
      → Owes g s
      → Ends (λ u t. Owes none t) (λ t. Owes none t) (drop_guard o g s)
  unfolding drop_guard
  drop_guard-Owes none s h = h
  drop_guard-Owes (some path) s h = release_path_info-Owes path s h

  unless_no_more-cases :
      (e : Status) (s : Session o)
      → (unless_no_more o (failed e s) ≡ returned none s)
        ⊎ (unless_no_more o (failed e s) ≡ failed e s)
  unless_no_more-cases e s =
      elim e
        as (λ k.
          (unless_no_more o (failed k s) ≡ returned none s)
          ⊎ (unless_no_more o (failed k s) ≡ failed k s)) [
            | graphics_no_more_elements_in_dataset ↦ inl refl
            | _ ↦ inr refl
          ]

  next_found-Owes :
      (current : ℕ) (r : (Status ⊎ Option ℕ) × o.World) (s : Session o)
      → s.current ≡ none
      → Owes (some current) s
      → Ends
          (λ g t. Owes g t)
          (λ t. Owes none t)
          (continue_with (caught (unless_no_more o (note_acquired o r s))) (next_found o current))
  next_found-Owes current (inr (some next), w) s n h = λ p. ground (arith, h p)
  next_found-Owes current (inr none, w) s n h = h
  next_found-Owes current (inl e, w) s n h =
      elim (unless_no_more-cases e (record s { world = w })) [
        | inl q ↦ rw q h
        | inr q ↦ rw q (
            continue_with-Ends (λ u t. Owes none t) (λ g t. Owes g t) (λ t. Owes none t)
              (release_path_info o current (record s { world = w })) (λ u. fail e)
              (release_path_info-Owes current (record s { world = w }) h) (λ u t k. k))
      ]

  next_after-Owes :
      (c : Option ℕ) (s : Session o)
      → s.current ≡ c
      → Owes none s
      → Ends (λ g t. Owes g t) (λ t. Owes none t) (next_after o c s)
  unfolding acquire_next_path_info
  next_after-Owes none s e h = h
  next_after-Owes (some current) s e h =
      next_found-Owes current (o.acquire_next s.world current) (record s { current = none }) refl
        (λ p. ground (arith, h p))

  try_next-Owes :
      (s : Session o) → Owes none s → Ends (λ g t. Owes g t) (λ t. Owes none t) (try_next o s)
  unfolding try_next
  try_next-Owes s h = next_after-Owes s.current s refl h

  turn-Owes :
      (body : o.World → ℕ → (Status ⊎ Unit {0}) × o.World) (path : ℕ) (s : Session o)
      → Owes (some path) s
      → Ends (λ u t. Owes (some path) t) (λ t. Owes (some path) t) (turn o body path s)
  turn-Owes body path s h = by_result (body s.world path)
    where
      by_result :
          (r : (Status ⊎ Unit {0}) × o.World)
          → Ends (λ u t. Owes (some path) t) (λ t. Owes (some path) t) (body_done o body r s)
      by_result (inl e, w) = h
      by_result (inr u, w) = h

  turn_with-Owes :
      (body : o.World → ℕ → (Status ⊎ Unit {0}) × o.World) (rest : Action (Session o) Bool)
      (g : Option ℕ) (t : Session o)
      → ((s : Session o) → Owes none s → Ends (λ b t. Owes none t) (λ t. Owes none t) (rest s))
      → Owes g t
      → Ends (λ b t. Owes none t) (λ t. Owes none t) (turn_with o body rest g t)
  turn_with-Owes body rest none t r k = k
  turn_with-Owes body rest (some path) t r k =
      continue_with-Ends (λ u t. Owes (some path) t) (λ b t. Owes none t) (λ t. Owes none t)
        (or_drop (turn o body path) (drop_guard o (some path)) t)
        (λ u. drop_guard o (some path) >> rest)
        (dropping-Ends (λ u t. Owes (some path) t) (λ t. Owes (some path) t) (λ t. Owes none t)
          (turn o body path t) (drop_guard o (some path)) (turn-Owes body path t k)
          (drop_guard-Owes (some path)))
        (λ u t k.
          continue_with-Ends (λ u t. Owes none t) (λ b t. Owes none t) (λ t. Owes none t)
            (drop_guard o (some path) t) (λ u. rest) (drop_guard-Owes (some path) t k)
            (λ u t k. r t k))

  -- After any number of turns only the iterator has a path, whether the loop ends, goes on or fails.
  walk-Owes :
      (body : o.World → ℕ → (Status ⊎ Unit {0}) × o.World) (n : ℕ) (s : Session o)
      → Owes none s
      → Ends (λ b t. Owes none t) (λ t. Owes none t) (walk o body n s)
  unfolding walk
  walk-Owes body zero s h = h
  walk-Owes body (suc n) s h =
      continue_with-Ends (λ g t. Owes g t) (λ b t. Owes none t) (λ t. Owes none t) (try_next o s)
        (turn_with o body (walk o body n)) (try_next-Owes s h)
        (λ g t k. turn_with-Owes body (walk o body n) g t (walk-Owes body n) k)

  drop_from-Settled :
      (c : Option ℕ) (s : Session o)
      → s.current ≡ c
      → Owes none s
      → Ends (λ u t. Settled t) (λ t. Settled t) (release_taken o c (record s { current = none }))
  unfolding release_path_info
  drop_from-Settled none s e h = λ p. ground (arith, h p)
  drop_from-Settled (some path) s e h = λ p. ground (arith, h p)

  drop_iter-Settled :
      (s : Session o) → Owes none s → Ends (λ u t. Settled t) (λ t. Settled t) (drop_iter o s)
  unfolding drop_iter
  drop_iter-Settled s h = drop_from-Settled s.current s refl h

  first-Owes :
      (r : (Status ⊎ Option ℕ) × o.World) (s : Session o)
      → s.current ≡ none
      → Settled s
      → Ends
          (λ p t. Owes (some p) t × (t.current ≡ none))
          (λ t. Settled t)
          (continue_with (note_acquired o r s) (unwrapped o))
  first-Owes (inl e, w) s n h = h
  first-Owes (inr none, w) s n h = tt
  first-Owes (inr (some path), w) s n h = (λ p. ground (arith, h p), n)

  iter_new-Owes :
      (s : Session o)
      → s.current ≡ none
      → Settled s
      → Ends (λ u t. Owes none t) (λ t. Settled t) (iter_new o s)
  unfolding iter_new acquire_first_path_info
  iter_new-Owes s n h =
      continue_with-Ends (λ p t. Owes (some p) t × (t.current ≡ none)) (λ u t. Owes none t)
        (λ t. Settled t) (acquire_first_path_info o s) (λ first. set_current o (some first))
        (first-Owes (o.acquire_first s.world) s n h) (λ first t k p. ground (arith, k.0 p, k.1))

  -- From a state in which every path was released as often as it was acquired, and the iterator has
  -- none, this is so again after a loop over the paths, however many turns it takes, wherever the
  -- operating system or the body fails, and whether or not the paths came to an end.
  pub each_path-Settled :
      (body : o.World → ℕ → (Status ⊎ Unit {0}) × o.World) (n : ℕ) (s : Session o)
      → s.current ≡ none
      → Settled s
      → Ends (λ ended t. Settled t) (λ t. Settled t) (each_path o body n s)
  unfolding each_path
  each_path-Settled body n s c h =
      continue_with-Ends (λ u t. Owes none t) (λ b t. Settled t) (λ t. Settled t) (iter_new o s)
        (λ u. or_drop (walk o body n) (drop_iter o) >>= λ ended. drop_iter o >> pure ended)
        (iter_new-Owes s c h)
        (λ u t k.
          continue_with-Ends (λ b t. Owes none t) (λ b t. Settled t) (λ t. Settled t)
            (or_drop (walk o body n) (drop_iter o) t) (λ ended. drop_iter o >> pure ended)
            (dropping-Ends (λ b t. Owes none t) (λ t. Owes none t) (λ t. Settled t)
              (walk o body n t) (drop_iter o) (walk-Owes body n t k) drop_iter-Settled)
            (λ ended t k.
              continue_with-Ends (λ u t. Settled t) (λ b t. Settled t) (λ t. Settled t)
                (drop_iter o t) (λ u. pure ended) (drop_iter-Settled t k) (λ u t k. k)))
