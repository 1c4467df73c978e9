-- ===== src/Channel/Fifo.antt =====
-- One caller at a time, the two queues behave as one queue without a bound.
use virtio_drivers_windows.Base.{
  ◌≤◌, ℕ, ◌<◌, ◌≡◌, refl, sym, ◌∙◌, ap, ◌⊎◌, inl, inr, Option, none, some, List, [], ◌∷◌, ◌++◌,
  append-nil, append_assoc, length, List-cases, length-append, arith, dec_lt,
}
use virtio_drivers_windows.Channel.Crossbeam.{ArrayQueue, SegQueue}
use virtio_drivers_windows.Channel.{ArraySegQueue, new, push, pop_fast, forced, pop}

-- A queue of values, oldest first.
abbrev pub dequeue {ℓ} : {A : Type ℓ} → List A → Option A × List A
dequeue [] = (none, [])
dequeue (x ∷ xs) = (some x, xs)

module _ {A : Type 0} (array_queue : ArrayQueue A) (seg_queue : SegQueue A) where
  abbrev pub contents : ArraySegQueue array_queue seg_queue → List A
  contents q = array_queue.contents q.fast ++ seg_queue.contents q.slow

  -- Values wait in the unbounded queue only while the bounded one is full.
  pub record IsValid (q : ArraySegQueue array_queue seg_queue) : Type 0 where
    pub roomy : 0 < array_queue.capacity q.fast
    pub bounded : length (array_queue.contents q.fast) ≤ array_queue.capacity q.fast
    pub overflow :
        (seg_queue.contents q.slow ≡ [])
        ⊎ (length (array_queue.contents q.fast) ≡ array_queue.capacity q.fast)

  pub new-IsValid : (cap : ℕ) → 0 < cap → IsValid (new array_queue seg_queue cap)
  new-IsValid cap h = record {
    roomy = ground (arith, array_queue.new_empty cap);
    bounded = ground (arith, array_queue.new_empty cap);
    overflow = inl seg_queue.new_empty;
  }

  -- A pushed value goes behind all that wait, and the queue stays valid.
  pub push-contents :
      (q : ArraySegQueue array_queue seg_queue) (a : A)
      → IsValid q
      → IsValid (push array_queue seg_queue q a)
        × (contents (push array_queue seg_queue q a) ≡ contents q ++ (a ∷ []))
  unfolding push
  push-contents q a v =
      elim (dec_lt (length (array_queue.contents q.fast)) (array_queue.capacity q.fast)) [
        | yes h ↦
            let (fast, e, c, k) = array_queue.push_room q.fast a h in
            let z : seg_queue.contents q.slow ≡ [] = ground arith in
            rw (e, push)
              (
                record {
                  roomy = ground arith;
                  bounded = ground (arith, length-append (array_queue.contents q.fast) (a ∷ []));
                  overflow = inl z;
                },
                rw (c, z)
                    (append-nil (array_queue.contents q.fast ++ (a ∷ []))
                      ∙ ap (λ l. l ++ (a ∷ [])) (sym (append-nil (array_queue.contents q.fast)))),
              )
        | no h ↦
            let full : length (array_queue.contents q.fast) ≡ array_queue.capacity q.fast =
              omega (arith, v.bounded) in
            rw (array_queue.push_full q.fast a full, push)
              (
                record { roomy = v.roomy; bounded = v.bounded; overflow = inr full },
                rw (seg_queue.push_back q.slow a) (
                    sym (
                      append_assoc (array_queue.contents q.fast) (seg_queue.contents q.slow)
                        (a ∷ []))),
              )
      ]

  pop_fast-contents :
      (q : ArraySegQueue array_queue seg_queue)
      → IsValid q
      → seg_queue.contents q.slow ≡ []
      → let (value, q') = pop_fast array_queue seg_queue q in
        IsValid q' × ((value, contents q') ≡ dequeue (contents q))
  unfolding pop_fast
  pop_fast-contents q v z = elim (List-cases (array_queue.contents q.fast)) [
    | inl e ↦ rw (array_queue.pop_empty q.fast e, pop_fast) (v, rw (e, z))
    | inr (x, xs, e) ↦
        let (fast, p, c, k) = array_queue.pop_cons q.fast x xs e in
        rw (p, pop_fast)
          (record { roomy = ground arith; bounded = ground arith; overflow = inl z }, rw (e, c))
  ]

  -- A pop takes the oldest value, or none if none waits, and the queue stays valid.
  pub pop-contents :
      (q : ArraySegQueue array_queue seg_queue)
      → IsValid q
      → let (value, q') = pop array_queue seg_queue q in
        IsValid q' × ((value, contents q') ≡ dequeue (contents q))
  unfolding pop
  pop-contents q v = elim (List-cases (seg_queue.contents q.slow)) [
    | inl z ↦ rw (seg_queue.pop_empty q.slow z, pop) (pop_fast-contents q v z)
    | inr (y, ys, z) ↦ elim (List-cases (array_queue.contents q.fast)) [
      | inl e ↦ absurd (ground arith)
      | inr (x, xs, e) ↦
          let full : length (array_queue.contents q.fast) ≡ array_queue.capacity q.fast =
            ground arith in
          let (slow, p, c) = seg_queue.pop_cons q.slow y ys z in
          let (fast, f, d, k) = array_queue.force_push_full q.fast y x xs e full in
          rw (p, pop)
            (rw (f, forced)
              (
                record {
                  roomy = ground arith;
                  bounded = ground (arith, length-append xs (y ∷ []));
                  overflow = inr (ground (arith, length-append xs (y ∷ [])));
                },
                rw (e, z, c, d) (ap (λ l. (some x, l)) (append_assoc xs (y ∷ []) ys)),
              ))
    ]
  ]

-- The calls of senders and of the handler, in the order in which they take effect.
pub data Call (A : Type 0) : Type 0 where
  pushes : A → Call A
  pops : Call A

-- What the pops return, of an unbounded queue and of the driver's.
abbrev pub run_fifo : {A : Type 0} → List A → List (Call A) → List (Option A)
run_fifo xs [] = []
run_fifo xs (pushes a ∷ cs) = run_fifo (xs ++ (a ∷ [])) cs
run_fifo xs (pops ∷ cs) = let (value, ys) = dequeue xs in value ∷ run_fifo ys cs

module _ {A : Type 0} (array_queue : ArrayQueue A) (seg_queue : SegQueue A) where
  unfoldable pub run : ArraySegQueue array_queue seg_queue → List (Call A) → List (Option A)
  run q [] = []
  run q (pushes a ∷ cs) = run (push array_queue seg_queue q a) cs
  run q (pops ∷ cs) = let (value, q') = pop array_queue seg_queue q in value ∷ run q' cs

  run-contents :
      (q : ArraySegQueue array_queue seg_queue) (cs : List (Call A))
      → IsValid array_queue seg_queue q
      → run q cs ≡ run_fifo (contents array_queue seg_queue q) cs
  unfolding run
  run-contents q [] v = refl
  run-contents q (pushes a ∷ cs) v =
      let (v', e) = push-contents array_queue seg_queue q a v in
      run-contents (push array_queue seg_queue q a) cs v' ∙ ap (λ l. run_fifo l cs) e
  run-contents q (pops ∷ cs) v =
      let (v', e) = pop-contents array_queue seg_queue q v in
      ap (λ l. (pop array_queue seg_queue q).0 ∷ l)
        (run-contents (pop array_queue seg_queue q).1 cs v')
      ∙ ap (λ r. let (value, ys) = r in value ∷ run_fifo ys cs) e

  -- With the queues of crossbeam behaving as documented, no sequence of pushes and pops on a new
  -- queue with room for a value tells it from one first-in first-out queue: what overflows the
  -- bounded queue is not lost, repeated or overtaken.
  pub run_refines :
      (cap : ℕ) (cs : List (Call A))
      → 0 < cap
      → run (new array_queue seg_queue cap) cs ≡ run_fifo [] cs
  run_refines cap cs h =
      run-contents (new array_queue seg_queue cap) cs (new-IsValid array_queue seg_queue cap h)
      ∙ ap (λ l. run_fifo l cs) (rw ((array_queue.new_empty cap).0, seg_queue.new_empty))
