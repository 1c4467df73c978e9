-- ===== src/Pages/Addresses.antt =====
-- The addresses that the entries cover.
use virtio_drivers_windows.Base.{
  ℕ, zero, suc, ◌+◌, ◌<◌, ◌≡◌, refl, sym, ap, ◌∙◌, inl, inr, Option-cases, some, List, [], ◌∷◌,
  ◌++◌, append-nil, append_assoc, arith, u64_size,
}
use virtio_drivers_windows.Pages.{MemEntry, merge_entries, merge, push_entry, push_entries}
use virtio_drivers_windows.Pages.Iterators.{Coalesce}

abbrev pub span : ℕ → ℕ → List ℕ
span a zero = []
span a (suc n) = a ∷ span (a + 1) n

-- Every address that the entries cover, in order.
abbrev pub addresses : List MemEntry → List ℕ
addresses [] = []
addresses (e ∷ es) = span e.addr e.length ++ addresses es

-- No entry reaches the end of the addresses.
abbrev pub Fits : List MemEntry → Type 0
Fits [] = Unit {0}
Fits (e ∷ es) = (e.addr + e.length < u64_size) × Fits es

span-append : (a m n : ℕ) → span a (m + n) ≡ span a m ++ span (a + m) n
span-append a zero n =
    let z : a + 0 ≡ a = omega arith in let w : 0 + n ≡ n = omega arith in rw (z, w) refl
span-append a (suc m) n =
    let z : suc m + n ≡ suc (m + n) = omega arith in
    let w : a + suc m ≡ (a + 1) + m = omega arith in
    rw (z, w) (ap (λ l. a ∷ l) (span-append (a + 1) m n))

-- Merging two entries covers what the two do, in their order.
merge_entries-addresses :
    (a b : MemEntry) (n : ℕ)
    → a.addr + a.length < u64_size
    → merge_entries a b ≡ some n
    → (span a.addr n ≡ span a.addr a.length ++ span b.addr b.length)
      × (a.addr + n ≡ b.addr + b.length)
unfolding merge_entries
merge_entries-addresses a b n h e =
    let x : a.addr + a.length ≡ b.addr = ground arith in
    let y : n ≡ a.length + b.length = ground arith in
    (rw (y, sym x) (span-append a.addr a.length b.length), omega arith)

push_entry-addresses :
    (map : List MemEntry) (e : MemEntry)
    → Fits map
    → e.addr + e.length < u64_size
    → (addresses (push_entry map e) ≡ addresses map ++ span e.addr e.length)
      × Fits (push_entry map e)
unfolding push_entry
push_entry-addresses [] e f h = (append-nil (span e.addr e.length), (h, tt))
push_entry-addresses (x ∷ []) e f h = elim (Option-cases (merge_entries x e)) [
  | inl k ↦
      rw (k, push_entry)
        (
          rw (append-nil (span e.addr e.length), append-nil (span x.addr x.length)) refl,
          (f.0, (h, tt)),
        )
  | inr (n, k) ↦
      let (s, t) = merge_entries-addresses x e n f.0 k in
      rw (k, push_entry)
        (rw (append-nil (span x.addr n), append-nil (span x.addr x.length)) s, (ground arith, tt))
]
push_entry-addresses (x ∷ y ∷ rest) e f h =
    let (s, t) = push_entry-addresses (y ∷ rest) e f.1 h in
    (
      ap (λ l. span x.addr x.length ++ l) s
          ∙ sym (append_assoc (span x.addr x.length) (addresses (y ∷ rest)) (span e.addr e.length)),
      (f.0, t),
    )

pub push_entries-addresses :
    (map entries : List MemEntry)
    → Fits map
    → Fits entries
    → addresses (push_entries map entries) ≡ addresses map ++ addresses entries
unfolding push_entries
push_entries-addresses map [] f g = sym (append-nil (addresses map))
push_entries-addresses map (e ∷ es) f g =
    let (s, t) = push_entry-addresses map e f g.0 in
    push_entries-addresses (push_entry map e) es t g.1
    ∙ rw s (append_assoc (addresses map) (span e.addr e.length) (addresses es))

pub coalesce-addresses :
    (c : Coalesce MemEntry) (x : MemEntry) (entries : List MemEntry)
    → Fits (x ∷ entries)
    → (addresses (c.coalesce merge (x ∷ entries)) ≡ addresses (x ∷ entries))
      × Fits (c.coalesce merge (x ∷ entries))
unfolding merge
coalesce-addresses c x [] f = rw (c.single merge x) (refl, f)
coalesce-addresses c x (y ∷ rest) f = elim (Option-cases (merge_entries x y)) [
  | inl k ↦
      let p : merge x y ≡ inr (x, y) = rw (k, merge) refl in
      let (s, t) = coalesce-addresses c y rest f.1 in
      rw (c.passes merge x y x y rest p) (ap (λ l. span x.addr x.length ++ l) s, (f.0, t))
  | inr (n, k) ↦
      let z : MemEntry = record { addr = x.addr; length = n } in
      let p : merge x y ≡ inl z = rw (k, merge) refl in
      let (a, b) = merge_entries-addresses x y n f.0 k in
      let (s, t) = coalesce-addresses c z rest (ground arith, f.1.1) in
      rw (c.merges merge x y z rest p)
        (s ∙ rw a (append_assoc (span x.addr x.length) (span y.addr y.length) (addresses rest)), t)
]

pub addresses-append : (xs ys : List MemEntry) → addresses (xs ++ ys) ≡ addresses xs ++ addresses ys
addresses-append [] ys = refl
addresses-append (x ∷ xs) ys =
    ap (λ l. span x.addr x.length ++ l) (addresses-append xs ys)
    ∙ sym (append_assoc (span x.addr x.length) (addresses xs) (addresses ys))
