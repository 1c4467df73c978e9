-- ===== src/Tracker/Laws.antt =====
-- What the fence tracker promises its users: a fence is pending from its issue until its signal.
use virtio_drivers_windows.Base.{
  IsNodup-snoc, ℕ, ◌+◌, ◌≤◌, ◌<◌, ◌≡◌, refl, inl, inr, ◌≢◌, true, false, List, [], ◌∷◌, arith, ok,
  panic, contains, contains-append, contains-swap_remove, swap_remove, swap_remove-IsNodup, lt→ltb,
  position, position-is_none, IsNodup, Option-cases, u64_size,
}
use virtio_drivers_windows.Tracker.{FenceTracker, new, next_fence, signal, query}

abbrev pub Below : ℕ → List ℕ → Type 0
Below n [] = Unit {0}
Below n (x ∷ xs) = (x < n) × Below n xs

-- The fences waited for are different ones, all issued already, and the counter has not wrapped.
pub record IsValid (t : FenceTracker) : Type 0 where
  pub distinct : IsNodup t.unsignaled
  pub issued : (f : ℕ) → contains t.unsignaled f ≡ true → f < t.next_fence
  pub fits : t.next_fence < u64_size

pub new-IsValid : IsValid new
new-IsValid = record { distinct = tt; issued = λ f h. cc; fits = omega arith }

not_issued : {t : FenceTracker} → IsValid t → contains t.unsignaled t.next_fence ≡ false
not_issued {t} v = ground (arith, v.issued t.next_fence)

-- Taking a fence keeps the tracker valid while the 64-bit counter does not wrap.
pub next_fence-IsValid :
    {t : FenceTracker} → IsValid t → t.next_fence + 1 < u64_size → IsValid (next_fence t).1
unfolding next_fence
next_fence-IsValid {t} v h = record {
  distinct = IsNodup-snoc t.unsignaled t.next_fence v.distinct (not_issued v);
  issued = λ f m. ground (arith, contains-append t.unsignaled (t.next_fence ∷ []) f, v.issued f);
  fits = omega arith;
}

-- A valid tracker hands out a fence that no query reports as signaled, and changes the answer for
-- no other fence.
pub query-next_fence :
    {t : FenceTracker}
    → IsValid t
    → t.next_fence + 1 < u64_size
    → (query (next_fence t).1 (next_fence t).0 ≡ false)
      × ((f : ℕ) → f ≢ (next_fence t).0 → query (next_fence t).1 f ≡ query t f)
unfolding next_fence query
query-next_fence {t} v h = (
  ground (arith, contains-append t.unsignaled (t.next_fence ∷ []) t.next_fence),
  λ f ne. ground (arith, contains-append t.unsignaled (t.next_fence ∷ []) f),
)

-- Signaling an issued fence returns a valid tracker, in which a query reports that fence, and
-- answers for every other fence as before, also if the fence had been signaled already.
pub query-signal :
    {t : FenceTracker} (f : ℕ)
    → IsValid t
    → f < t.next_fence
    → (t' : FenceTracker) × (signal t f ≡ ok t')
      × IsValid t'
      × (query t' f ≡ true)
      × ((g : ℕ) → g ≢ f → query t' g ≡ query t g)
unfolding signal query
query-signal {t} f v h = elim (Option-cases (position f t.unsignaled)) [
  | inl e ↦ (
    t,
    rw (lt→ltb f _ h, e, signal),
    v,
    ground (arith, position-is_none f t.unsignaled),
    λ g ne. refl,
  )
  | inr (i, e) ↦ (
    record t { unsignaled = swap_remove t.unsignaled i },
    rw (lt→ltb f _ h, e, signal),
    record {
      distinct = swap_remove-IsNodup t.unsignaled f i v.distinct e;
      issued =
          λ g m. ground (arith, contains-swap_remove t.unsignaled f i g v.distinct e, v.issued g);
      fits = v.fits;
    },
    ground (arith, contains-swap_remove t.unsignaled f i f v.distinct e),
    λ g ne. ground (arith, contains-swap_remove t.unsignaled f i g v.distinct e),
  )
]

-- Signaling a fence that was never issued panics.
pub signal_unissued : (t : FenceTracker) (f : ℕ) → t.next_fence ≤ f → signal t f ≡ panic
unfolding signal
signal_unissued t f h = ground arith
