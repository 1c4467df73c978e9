-- ===== src/Pages.antt =====
-- The pages attached to a 3D resource, in gpu-wddm/src/allocation.rs: `merge_entries` and the branch
-- of `Allocation::attach_pages` for `VirtioResource::_3D`. `coalesce` is that of the itertools crate,
-- and `PAGE_SIZE` is generated, so both are parameters.
pub mod Iterators
pub mod Addresses
pub mod Attach
mod Tests
use virtio_drivers_windows.Base.{
  ℕ, ◌+◌, ◌*◌, ◌%◌, Bool, true, false, not, ◌&&◌, Option, none, some, List, [], ◌∷◌, ◌++◌, ◌⊎◌, inl,
  inr, Outcome, ok, panic, ◌>>=◌, ◌>>◌, assert, ltb, leb, ◌==◌, if◌then◌else◌, u32_size, u64_size,
}
use Iterators.{Coalesce}

-- `padding` is always zero.
pub record MemEntry : Type 0 where
  pub addr : ℕ
  pub length : ℕ

-- `DXGK_PTE`, with the parts of it that the driver reads.
pub record Pte : Type 0 where
  pub valid : Bool
  pub segment : ℕ
  pub len : ℕ
  pub page_address : ℕ

-- `checked_add` of the lengths; the sum of the address wraps.
unfoldable pub merge_entries : MemEntry → MemEntry → Option ℕ
merge_entries a b =
    if (a.addr + a.length) % u64_size == b.addr
    then (if ltb (a.length + b.length) u32_size then some (a.length + b.length) else none)
    else none

-- The closure of `coalesce`: the merged entry, or the two.
unfoldable pub merge : MemEntry → MemEntry → MemEntry ⊎ (MemEntry × MemEntry)
unfolding merge_entries
merge previous current = elim (merge_entries previous current) [
  | some new_length ↦ inl (record previous { length = new_length })
  | none ↦ inr (previous, current)
]

-- An entry after the last one, merged with it where they are contiguous.
unfoldable pub push_entry : List MemEntry → MemEntry → List MemEntry
unfolding merge_entries
push_entry [] entry = entry ∷ []
push_entry (previous ∷ []) entry = elim (merge_entries previous entry) [
  | some new_length ↦ record previous { length = new_length } ∷ []
  | none ↦ previous ∷ entry ∷ []
]
push_entry (x ∷ y ∷ rest) entry = x ∷ push_entry (y ∷ rest) entry

unfoldable pub push_entries : List MemEntry → List MemEntry → List MemEntry
unfolding push_entry
push_entries map [] = map
push_entries map (entry ∷ entries) = push_entries (push_entry map entry) entries

abbrev pub attached : List MemEntry → ℕ
attached [] = 0
attached (entry ∷ entries) = (entry.length + attached entries) % u64_size

abbrev pub all_valid : List Pte → Bool
all_valid [] = true
all_valid (page ∷ pages) = page.valid && all_valid pages

module _ (page_size : ℕ) where
  -- The closure of `map`.
  abbrev pub to_entry : Pte → Outcome MemEntry
  to_entry page =
      assert (ltb 0 (page.len % u32_size))
      >> (assert (page.segment == 0)
          >> ok (record {
            addr = page.page_address * page_size % u64_size;
            length = page.len % u32_size;
          }))

  unfoldable pub to_entries : List Pte → Outcome (List MemEntry)
  to_entries [] = ok []
  to_entries (page ∷ pages) =
      let rest = to_entries pages in
      to_entry page >>= λ entry. rest >>= λ entries. ok (entry ∷ entries)

  -- On the size of the resource and its locked map; returns whether all of it is attached.
  unfoldable pub attach_pages :
      Coalesce MemEntry → ℕ → ℕ → List Pte → ℕ × List MemEntry → Outcome (Bool × ℕ × List MemEntry)
  unfolding to_entries push_entries merge
  attach_pages c size offset pages (start, map) =
      if leb size (attached map)
      then ok (true, start, map)
      else if not (all_valid pages)
      then ok (false, start, map)
      else (to_entries pages >>= λ new. ok (
        leb size ((attached map + attached new) % u64_size),
        offset,
        if ltb offset start
            then c.coalesce merge new ++ map
            else push_entries map (c.coalesce merge new),
      ))
