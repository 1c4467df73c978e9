-- ===== src/Pages/Attach.antt =====
-- Attaching pages.
use virtio_drivers_windows.Base.{
  ℕ, ◌+◌, ◌*◌, ◌%◌, ◌<◌, ◌≡◌, refl, ap, ◌∙◌, Bool, true, false, Bool-cases, inl, inr, List, [], ◌∷◌,
  ◌++◌, ok, arith, ltb, leb, if◌then◌else◌, u32_size, u64_size,
}
use virtio_drivers_windows.Pages.{
  MemEntry, Pte, merge, attached, all_valid, to_entry, to_entries, attach_pages,
}
use virtio_drivers_windows.Pages.Iterators.{Coalesce}
use virtio_drivers_windows.Pages.Addresses.{
  span, addresses, Fits, push_entries-addresses, coalesce-addresses, addresses-append,
}

module _ (page_size : ℕ) (c : Coalesce MemEntry) where
  -- Valid pages of system memory, not empty, whose addresses and lengths fit their integers.
  abbrev pub AllBacked : List Pte → Type 0
  AllBacked [] = Unit {0}
  AllBacked (p ∷ ps) =
      ((p.valid ≡ true)
        × (p.segment ≡ 0)
        × (0 < p.len)
        × (p.len < u32_size)
        × (p.page_address * page_size + p.len < u64_size))
      × AllBacked ps

  -- The addresses of the pages, in order.
  abbrev pub page_addresses : List Pte → List ℕ
  page_addresses [] = []
  page_addresses (p ∷ ps) = span (p.page_address * page_size) p.len ++ page_addresses ps

  backed-all_valid : (pages : List Pte) → AllBacked pages → all_valid pages ≡ true
  backed-all_valid [] h = refl
  backed-all_valid (p ∷ ps) h = ground (arith, backed-all_valid ps h.1)

  to_entries-addresses :
      (pages : List Pte)
      → AllBacked pages
      → (es : List MemEntry) × (to_entries page_size pages ≡ ok es)
        × Fits es
        × (addresses es ≡ page_addresses pages)
  unfolding to_entries
  to_entries-addresses [] h = ([], refl, tt, refl)
  to_entries-addresses (p ∷ ps) h =
      let (es, e, f, a) = to_entries-addresses ps h.1 in
      let (valid, segment, pos, small, fits) = h.0 in
      let x : p.page_address * page_size % u64_size ≡ p.page_address * page_size = omega arith in
      let y : p.len % u32_size ≡ p.len = omega arith in
      let z : ltb 0 p.len ≡ true = ground arith in
      let entry : MemEntry = record { addr = p.page_address * page_size; length = p.len } in
      let q : to_entry page_size p ≡ ok entry = rw (x, y, z, segment) refl in
      (entry ∷ es, rw (q, e) refl, (fits, f), ap (λ l. span entry.addr entry.length ++ l) a)

  coalesced :
      (es : List MemEntry)
      → Fits es
      → (addresses (c.coalesce merge es) ≡ addresses es) × Fits (c.coalesce merge es)
  coalesced [] f = rw (c.nothing merge) (refl, tt)
  coalesced (e ∷ es) f = coalesce-addresses c e es f

  -- While the resource is not fully attached, attaching backed pages does not panic, and notes their
  -- offset. Afterwards the entries cover the addresses that they covered and those of the pages, in
  -- order, the pages' first if their offset lies below the one attached last.
  pub attach_pages-addresses :
      (size offset start : ℕ) (map : List MemEntry) (pages : List Pte)
      → attached map < size
      → Fits map
      → AllBacked pages
      → (done : Bool) × (map' : List MemEntry) × (attach_pages page_size c size offset pages
            (start, map)
          ≡ ok (done, offset, map'))
        × (addresses map' ≡ (
            if ltb offset start
            then page_addresses pages ++ addresses map
            else addresses map ++ page_addresses pages))
  unfolding attach_pages
  attach_pages-addresses size offset start map pages h f b =
      let (es, e, g, a) = to_entries-addresses pages b in
      let (s, t) = coalesced es g in
      let fresh : leb size (attached map) ≡ false = ground arith in
      rw (fresh, backed-all_valid pages b, e)
        (elim (Bool-cases (ltb offset start)) [
          | inl l ↦ rw l (
            _,
            _,
            refl,
            addresses-append (c.coalesce merge es) map ∙ ap (λ l. l ++ addresses map) (s ∙ a),
          )
          | inr l ↦ rw l (
            _,
            _,
            refl,
            push_entries-addresses map (c.coalesce merge es) f t
                ∙ ap (λ l. addresses map ++ l) (s ∙ a),
          )
        ])
