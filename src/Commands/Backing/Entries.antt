-- ===== src/Commands/Backing/Entries.antt =====
-- The entries that the commands of Commands/Backing.antt hold.
use virtio_drivers_windows.Base.{
  ◌==◌, ℕ, suc, ◌*◌, ◌%◌, ◌≤◌, ◌<◌, ◌≡◌, refl, sym, ap, ◌∙◌, ◌⊎◌, inl, inr, true, false, some, none,
  List, [], ◌∷◌, ◌++◌, length, take, drop, length-drop, ok, panic, u32_size, arith, dec_le,
}
use virtio_drivers_windows.Pages.{MemEntry}
use virtio_drivers_windows.Tracker.{FenceTracker}
use virtio_drivers_windows.Wire.{
  Wire, ControlType, Message, size_resource_attach_backing, size_mem_entry,
}
use virtio_drivers_windows.Wire.Headers.{new_header}
use virtio_drivers_windows.Commands.{CommandId, no_flags, new}
use virtio_drivers_windows.Commands.Dma.{copy_from_slice, flatten, attach_backing_dma_len}
use virtio_drivers_windows.Commands.Writes.{
  length-take_le, split_at-fits, split_at-short, write_to_prefix-exact, length-flatten, AllSized,
}
use virtio_drivers_windows.Commands.Backing.{
  resource_3d, num_attached_pages, fill_attached_pages, attach_backing_virtual, entries_bytes,
}

module _ (w : Wire) where
  entries_bytes-AllSized : (es : List MemEntry) → AllSized size_mem_entry (entries_bytes w es)
  entries_bytes-AllSized [] = tt
  entries_bytes-AllSized (e ∷ es) = (w.length-entry e, entries_bytes-AllSized es)

  length-entries_bytes : (es : List MemEntry) → length (entries_bytes w es) ≡ length es
  length-entries_bytes [] = refl
  length-entries_bytes (e ∷ es) = ap suc (length-entries_bytes es)

  fill_attached_pages-exact :
      (entries : List MemEntry) (body : List ℕ)
      → length body ≡ length entries * size_mem_entry
      → fill_attached_pages w (resource_3d entries) body
        ≡ ok (true, flatten (entries_bytes w entries))
  unfolding fill_attached_pages copy_from_slice
  fill_attached_pages-exact entries body e =
      let l : length (flatten (entries_bytes w entries)) ≡ length entries * size_mem_entry =
        length-flatten size_mem_entry (entries_bytes w entries) (entries_bytes-AllSized entries)
        ∙ ap (λ n. n * size_mem_entry) (length-entries_bytes entries) in
      let c : (length body == length (flatten (entries_bytes w entries))) ≡ true = ground arith in
      rw c refl

  -- Attaching what is attached to a 3D resource with at least one entry, in enough memory, gives a
  -- command whose bytes claim the number of the entries and hold exactly these, in their order; the
  -- rest of the memory is left as it was. Less memory is a panic.
  pub attach_backing_virtual-entries :
      (res_id : ℕ) (e : MemEntry) (es : List MemEntry) (dma : List ℕ) (t : FenceTracker)
      → let entries = e ∷ es in
        let n = attach_backing_dma_len (length entries) in
        let (header, t') = new_header ControlType.resource_attach_backing true none none t in
        let slice =
          w.bytes (Message.resource_attach_backing header res_id (length entries % u32_size))
          ++ flatten (entries_bytes w entries) in
        ((n ≤ length dma)
          × (attach_backing_virtual w (some res_id) (resource_3d entries) dma t
              ≡ ok (
                some (new CommandId.map_aperture none no_flags (some slice)),
                slice ++ drop n dma,
                t',
              )))
        ⊎ ((length dma < n)
            × (attach_backing_virtual w (some res_id) (resource_3d entries) dma t ≡ panic))
  unfolding attach_backing_virtual num_attached_pages
  attach_backing_virtual-entries res_id e es dma t =
      let entries = e ∷ es in
      let n = attach_backing_dma_len (length entries) in
      let (header, t') = new_header ControlType.resource_attach_backing true none none t in
      let hdr =
        w.bytes (Message.resource_attach_backing header res_id (length entries % u32_size)) in
      let slice = take n dma in
      let some_pages : (suc (length es) == 0) ≡ false = ground arith in
      elim (dec_le n (length dma)) [
        | yes fits ↦
            let l : length slice ≡ n = length-take_le n dma fits in
            let lh = length-take_le size_resource_attach_backing slice (omega arith) in
            inl (
              fits,
              rw
                  (
                    some_pages,
                    split_at-fits n dma fits,
                    split_at-fits size_resource_attach_backing slice (omega arith),
                    write_to_prefix-exact hdr (take size_resource_attach_backing slice)
                        (w.length-attach header res_id _ ∙ sym lh),
                    fill_attached_pages-exact entries (drop size_resource_attach_backing slice)
                        (omega (arith, length-drop size_resource_attach_backing slice)),
                  )
                  refl,
            )
        | no short ↦ inr (omega arith, rw (some_pages, split_at-short n dma (omega arith)) refl)
      ]
