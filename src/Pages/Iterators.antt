-- ===== src/Pages/Iterators.antt =====
-- What the driver relies on of `coalesce`: the closure sees two neighbours, and gives what they merge
-- to, which then meets the next element, or gives two elements, of which the first is passed on.
use virtio_drivers_windows.Base.{◌≡◌, ◌⊎◌, inl, inr, List, [], ◌∷◌}

pub record Coalesce (A : Type 0) : Type 0 where
  pub coalesce : (A → A → A ⊎ (A × A)) → List A → List A
  pub nothing : (f : A → A → A ⊎ (A × A)) → coalesce f [] ≡ []
  pub single : (f : A → A → A ⊎ (A × A)) (x : A) → coalesce f (x ∷ []) ≡ x ∷ []
  pub merges :
      (f : A → A → A ⊎ (A × A)) (x y z : A) (rest : List A)
      → f x y ≡ inl z
      → coalesce f (x ∷ y ∷ rest) ≡ coalesce f (z ∷ rest)
  pub passes :
      (f : A → A → A ⊎ (A × A)) (x y z w : A) (rest : List A)
      → f x y ≡ inr (z, w)
      → coalesce f (x ∷ y ∷ rest) ≡ z ∷ coalesce f (w ∷ rest)
