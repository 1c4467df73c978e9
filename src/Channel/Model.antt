-- ===== src/Channel/Model.antt =====
-- Lists meet what the driver relies on of crossbeam's queues.
use virtio_drivers_windows.Base.{
  ℕ, ◌<◌, ◌≡◌, refl, Option, none, some, List, [], ◌∷◌, ◌++◌, length, ltb, if◌then◌else◌, arith,
}
use virtio_drivers_windows.Channel.Crossbeam.{ArrayQueue, SegQueue}

abbrev pub Bounded : Type 0 → Type 0
Bounded A = List A × ℕ

module _ {A : Type 0} where
  abbrev pub force : Bounded A → A → Option A × Bounded A
  force ([], n) a = (none, (a ∷ [], n))
  force (x ∷ xs, n) a =
      if ltb (length (x ∷ xs)) n
      then (none, (x ∷ xs ++ (a ∷ []), n))
      else (some x, (xs ++ (a ∷ []), n))

  abbrev pub take_first : Bounded A → Option (A × Bounded A)
  take_first ([], n) = none
  take_first (x ∷ xs, n) = some (x, (xs, n))

  pub force_room :
      (q : Bounded A) (a : A) → length q.0 < q.1 → force q a ≡ (none, (q.0 ++ (a ∷ []), q.1))
  force_room ([], n) a h = refl
  force_room (x ∷ xs, n) a h = ground arith

  pub force_full :
      (q : Bounded A) (a x : A) (xs : List A)
      → q.0 ≡ x ∷ xs
      → length q.0 ≡ q.1
      → force q a ≡ (some x, (xs ++ (a ∷ []), q.1))
  force_full ([], n) a x xs e h = cc
  force_full (y ∷ ys, n) a x xs e h = ground arith

  pub take_first-cons :
      (q : Bounded A) (x : A) (xs : List A) → q.0 ≡ x ∷ xs → take_first q ≡ some (x, (xs, q.1))
  take_first-cons ([], n) x xs e = cc
  take_first-cons (y ∷ ys, n) x xs e = cc

  pub take_first-empty : (q : Bounded A) → q.0 ≡ [] → take_first q ≡ none
  take_first-empty ([], n) e = refl
  take_first-empty (y ∷ ys, n) e = cc

  abbrev pub add : Bounded A → A → Option (Bounded A)
  add (xs, n) a = if ltb (length xs) n then some (xs ++ (a ∷ []), n) else none

  pub add_room : (q : Bounded A) (a : A) → length q.0 < q.1 → add q a ≡ some (q.0 ++ (a ∷ []), q.1)
  add_room (xs, n) a h = ground arith

  pub add_full : (q : Bounded A) (a : A) → length q.0 ≡ q.1 → add q a ≡ none
  add_full (xs, n) a h = ground arith

  abbrev pub list_array_queue : ArrayQueue A
  list_array_queue = record {
    Fast = Bounded A;
    new = λ n. ([], n);
    push = add;
    force_push = force;
    pop = take_first;
    contents = λ q. q.0;
    capacity = λ q. q.1;
    new_empty = λ n. (refl, refl);
    push_room = λ q a h. ((q.0 ++ (a ∷ []), q.1), add_room q a h, refl, refl);
    push_full = add_full;
    force_push_room = λ q a h. ((q.0 ++ (a ∷ []), q.1), force_room q a h, refl, refl);
    force_push_full = λ q a x xs e h. ((xs ++ (a ∷ []), q.1), force_full q a x xs e h, refl, refl);
    pop_empty = take_first-empty;
    pop_cons = λ q x xs e. ((xs, q.1), take_first-cons q x xs e, refl, refl);
  }

  abbrev pub first : List A → Option (A × List A)
  first [] = none
  first (x ∷ xs) = some (x, xs)

  pub first-empty : (q : List A) → q ≡ [] → first q ≡ none
  first-empty [] e = refl
  first-empty (x ∷ xs) e = cc

  pub first-cons : (q : List A) (x : A) (xs : List A) → q ≡ x ∷ xs → first q ≡ some (x, xs)
  first-cons [] x xs e = cc
  first-cons (y ∷ ys) x xs e = cc

  abbrev pub list_seg_queue : SegQueue A
  list_seg_queue = record {
    Slow = List A;
    new = [];
    push = λ q a. q ++ (a ∷ []);
    pop = first;
    contents = λ q. q;
    new_empty = refl;
    push_back = λ q a. refl;
    pop_empty = first-empty;
    pop_cons = λ q x xs e. (xs, first-cons q x xs e, refl);
  }
