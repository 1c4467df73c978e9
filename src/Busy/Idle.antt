-- ===== src/Busy/Idle.antt =====
-- An allocation is idle exactly when every use that began has ended.
use virtio_drivers_windows.Base.{
  ℕ, zero, suc, ◌+◌, ◌-◌, ◌<◌, ◌≡◌, refl, sym, ap, subst, ◌∙◌, Bool-cases, inl, inr, false, not,
  List, [], ◌∷◌, ◌++◌, arith, ltb, ◌==◌, if◌then◌else◌, u64_size, append-nil, append_assoc, Option,
  none, some,
}
use virtio_drivers_windows.Busy.{Allocation, attach_sync_file, is_busy, mark_busy, mark_free}

-- What happens to an allocation, in order.
pub data Event : Type 0 where
  begins : Event
  ends : Event
  attaches : ℕ → Event

abbrev pub step : Allocation → Event → Allocation
step a begins = mark_busy a
step a ends = mark_free a
step a (attaches e) = attach_sync_file a e

unfoldable pub run : Allocation → List Event → Allocation
run a [] = a
run a (e ∷ es) = run (step a e) es

-- How many uses are left of `n` at the end, `none` if one ends that has not begun, or if more are in
-- progress at once than can be counted.
unfoldable pub left : ℕ → List Event → Option ℕ
left n [] = some n
left n (begins ∷ es) = let rest = left (n + 1) es in if ltb (n + 1) u64_size then rest else none
left n (ends ∷ es) = let rest = left (n - 1) es in if n == 0 then none else rest
left n (attaches e ∷ es) = left n es

-- The events that are attached, in order.
unfoldable pub attached : List Event → List ℕ
attached [] = []
attached (begins ∷ es) = attached es
attached (ends ∷ es) = attached es
attached (attaches e ∷ es) = e ∷ attached es

-- What is known of an allocation that has `n` uses.
pub record Counts (a : Allocation) (n : ℕ) : Type 0 where
  pub small : n < u64_size
  pub counted : a.busy ≡ n
  pub blocked : 0 < n → a.event ≡ false

step-Counts_begins :
    (a : Allocation) (n : ℕ) → Counts a n → n + 1 < u64_size → Counts (mark_busy a) (n + 1)
unfolding mark_busy
step-Counts_begins a n c h = record {
  small = h;
  counted = ground (arith, c.counted);
  blocked = λ k. refl;
}

step-Counts_ends : (a : Allocation) (n : ℕ) → Counts a (suc n) → Counts (mark_free a) n
unfolding mark_free
step-Counts_ends a n c = record {
  small = omega (arith, c.small);
  counted = ground (arith, c.counted, c.small);
  blocked = λ k. ground (arith, c.counted, c.blocked);
}

step-Counts_attaches : (a : Allocation) (x n : ℕ) → Counts a n → Counts (attach_sync_file a x) n
unfolding attach_sync_file
step-Counts_attaches a x n c = record { small = c.small; counted = c.counted; blocked = c.blocked }

step-kept : (a : Allocation) → (mark_free a).synced ++ (mark_free a).sync ≡ a.synced ++ a.sync
unfolding mark_free
step-kept a = elim (Bool-cases (a.busy == 1)) [
  | inl e ↦ rw e (append-nil (a.synced ++ a.sync))
  | inr e ↦ rw e refl
]

run-attached :
    (a : Allocation) (es : List Event)
    → (run a es).synced ++ (run a es).sync ≡ (a.synced ++ a.sync) ++ attached es
unfolding run attached mark_busy attach_sync_file
run-attached a [] = sym (append-nil (a.synced ++ a.sync))
run-attached a (begins ∷ es) = run-attached (mark_busy a) es
run-attached a (ends ∷ es) =
    run-attached (mark_free a) es ∙ ap (λ l. l ++ attached es) (step-kept a)
run-attached a (attaches x ∷ es) =
    run-attached (attach_sync_file a x) es
    ∙ rw (sym (append_assoc a.synced a.sync (x ∷ [])))
        (append_assoc (a.synced ++ a.sync) (x ∷ []) (attached es))

run-Counts :
    (a : Allocation) (n m : ℕ) (es : List Event)
    → Counts a n
    → left n es ≡ some m
    → Counts (run a es) m × (is_busy (run a es) ≡ not (m == 0))
unfolding run left is_busy
run-Counts a n m [] c e =
    let z : n ≡ m = ground arith in (subst (Counts a) z c, ground (arith, c.counted))
run-Counts a n m (begins ∷ es) c e =
    let h : n + 1 < u64_size = ground arith in
    run-Counts (mark_busy a) (n + 1) m es (step-Counts_begins a n c h) (ground arith)
run-Counts a zero m (ends ∷ es) c e = absurd (ground arith)
run-Counts a (suc n) m (ends ∷ es) c e =
    run-Counts (mark_free a) n m es (step-Counts_ends a n c) (ground arith)
run-Counts a n m (attaches x ∷ es) c e =
    run-Counts (attach_sync_file a x) n m es (step-Counts_attaches a x n c) e

-- From an allocation with `n` uses, whatever begins, ends and is attached, the counter is what is left
-- of the uses; the allocation is busy exactly if one is left, and then its event is not set. An event
-- that is attached is never lost or set twice: those that have been set, followed by those that still
-- wait, are those at the start followed by all that were attached, in order.
pub run_lem :
    (a : Allocation) (n m : ℕ) (es : List Event)
    → Counts a n
    → left n es ≡ some m
    → Counts (run a es) m
      × (is_busy (run a es) ≡ not (m == 0))
      × ((run a es).synced ++ (run a es).sync ≡ (a.synced ++ a.sync) ++ attached es)
run_lem a n m es c e =
    let (counts, busy) = run-Counts a n m es c e in (counts, busy, run-attached a es)
