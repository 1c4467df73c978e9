-- ===== src/Pages/Tests.antt =====
-- Attached pages at concrete inputs, with a `coalesce` on lists.
use virtio_drivers_windows.Base.{◌≡◌, refl, ◌⊎◌, inl, inr, Bool, true, List, [], ◌∷◌, ok, arith}
use virtio_drivers_windows.Pages.{
  MemEntry, Pte, merge, merge_entries, push_entry, push_entries, to_entries, attach_pages,
}
use virtio_drivers_windows.Pages.Iterators.{Coalesce}
use virtio_drivers_windows.Pages.Addresses.{addresses}
use virtio_drivers_windows.Pages.Attach.{attach_pages-addresses}

unfoldable go : {A : Type 0} → (A → A → A ⊎ (A × A)) → A → List A → List A
go f x [] = x ∷ []
go f x (y ∷ rest) = elim (f x y) [ inl z ↦ go f z rest | inr (z, w) ↦ z ∷ go f w rest ]

unfoldable coalesce_list : {A : Type 0} → (A → A → A ⊎ (A × A)) → List A → List A
unfolding go
coalesce_list f [] = []
coalesce_list f (x ∷ rest) = go f x rest

abbrev list_coalesce : Coalesce MemEntry
unfolding coalesce_list go
list_coalesce = record {
  coalesce = coalesce_list;
  nothing = λ f. refl;
  single = λ f x. refl;
  merges = λ f x y z rest e. rw (e, go) refl;
  passes = λ f x y z w rest e. rw (e, go) refl;
}

-- Two contiguous pages of 2 bytes, and one elsewhere, after an entry that ends where they start.
abbrev three : List Pte
three =
    record { valid = true; segment = 0; len = 2; page_address = 5 }
    ∷ record { valid = true; segment = 0; len = 2; page_address = 6 }
    ∷ record { valid = true; segment = 0; len = 2; page_address = 20 }
    ∷ []

abbrev before : List MemEntry
before = record { addr = 8; length = 2 } ∷ []

attach_pages-addresses_example :
    (done : Bool) × (map' : List MemEntry) × (attach_pages 2 list_coalesce 8 4 three (0, before)
      ≡ ok (done, 4, map'))
    × (addresses map' ≡ 8 ∷ 9 ∷ 10 ∷ 11 ∷ 12 ∷ 13 ∷ 40 ∷ 41 ∷ [])
attach_pages-addresses_example =
    attach_pages-addresses 2 list_coalesce 8 4 0 before three (omega arith) (omega arith, tt)
      (
        (refl, refl, omega arith, omega arith, omega arith),
        (
          (refl, refl, omega arith, omega arith, omega arith),
          ((refl, refl, omega arith, omega arith, omega arith), tt),
        ),
      )

three_merged :
    attach_pages 2 list_coalesce 8 4 three (0, before)
    ≡ ok (true, 4, record { addr = 8; length = 6 } ∷ record { addr = 40; length = 2 } ∷ [])
unfolding attach_pages to_entries push_entries push_entry merge merge_entries coalesce_list go
    list_coalesce
three_merged = refl
