-- ===== src/Handler/Tokens.antt =====
-- Which slots the tokens stand for, of `indices` of `Queue` in gpu-wddm/src/queue.rs.
use virtio_drivers_windows.Base.{
  true, ◌⊎◌, ℕ, ◌≡◌, refl, false, inl, inr, Option, none, some, List, [], ◌∷◌, arith, contains,
  Option-cases, IsNodup,
}
use virtio_drivers_windows.Handler.{update}

-- Each of the tokens stands for a slot, and is there once.
abbrev pub AllStand : (ℕ → Option ℕ) → List ℕ → Type 0
AllStand indices [] = Unit {0}
AllStand indices (t ∷ ts) =
    ((i : ℕ) × (indices t ≡ some i)) × (contains ts t ≡ false) × AllStand indices ts

abbrev pub with_slot : Option ℕ → List ℕ → List ℕ
with_slot none is = is
with_slot (some i) is = i ∷ is

abbrev pub slots_of : (ℕ → Option ℕ) → List ℕ → List ℕ
slots_of indices [] = []
slots_of indices (t ∷ ts) = with_slot (indices t) (slots_of indices ts)

pub AllStand-or :
    (f : ℕ → Option ℕ) (ts : List ℕ)
    → IsNodup ts
    → AllStand f ts ⊎ ((t : ℕ) × (contains ts t ≡ true) × (f t ≡ none))
AllStand-or f [] once = inl tt
AllStand-or f (t ∷ ts) (absent, once) = elim (Option-cases (f t)) [
  | inl e ↦ inr (t, ground arith, e)
  | inr known ↦ elim (AllStand-or f ts once) [
    | inl a ↦ inl (known, absent, a)
    | inr (u, c, e) ↦ inr (u, ground arith, e)
  ]
]

pub AllStand-update :
    (f : ℕ → Option ℕ) (t : ℕ) (ts : List ℕ)
    → contains ts t ≡ false
    → AllStand f ts
    → AllStand (update f t none) ts
AllStand-update f t [] c a = tt
AllStand-update f t (u ∷ us) c ((i, e), b, a) =
    ((i, ground arith), b, AllStand-update f t us (ground arith) a)

pub slots_of-update :
    (f : ℕ → Option ℕ) (t : ℕ) (ts : List ℕ)
    → contains ts t ≡ false
    → slots_of (update f t none) ts ≡ slots_of f ts
slots_of-update f t [] c = refl
slots_of-update f t (u ∷ us) c =
    let same : update f t none u ≡ f u = ground arith in
    rw (same, slots_of-update f t us (ground arith)) refl
