-- ===== src/Commands/Backing.antt =====
-- The commands that attach memory to a resource and detach it, of gpu-wddm/src/command.rs. The page
-- numbers of a memory descriptor list and the physical addresses of a boxed slice are parameters.
pub mod Entries
use virtio_drivers_windows.Base.{
  ℕ, zero, suc, ◌+◌, ◌-◌, ◌*◌, ◌/◌, ◌%◌, Bool, true, false, Option, none, some, List, [], ◌∷◌, ◌++◌,
  length, take, drop, map, Outcome, ok, panic, ◌>>=◌, unwrap, ltb, leb, ◌==◌, if◌then◌else◌,
  u32_size, u64_size,
}
use virtio_drivers_windows.Pages.{MemEntry}
use virtio_drivers_windows.Tracker.{FenceTracker}
use virtio_drivers_windows.Wire.{
  Wire, ControlType, Message, size_resource_attach_backing, size_resource_detach_backing,
  size_mem_entry,
}
use virtio_drivers_windows.Wire.Headers.{new_header}
use virtio_drivers_windows.Commands.{Command, CommandId, no_flags, new}
use virtio_drivers_windows.Commands.Dma.{
  Built, with_header, whole_message, set_elements, split_at, write_to_prefix, flatten,
  copy_from_slice,
}

-- `VirtioResource`, with the part of it that attaching reads: the entries attached to a 3D resource.
pub data VirtioResource : Type 0 where
  resource_3d : List MemEntry → VirtioResource
  blob : VirtioResource

unfoldable pub num_attached_pages : VirtioResource → ℕ
num_attached_pages (resource_3d entries) = length entries
num_attached_pages blob = 0

-- `n.div_ceil(page_size)`.
abbrev pub div_ceil : ℕ → ℕ → ℕ
div_ceil n page_size = if n % page_size == 0 then n / page_size else n / page_size + 1

-- What is behind an offset into a slice.
unfoldable pub slice_from {ℓ} : {A : Type ℓ} → ℕ → List A → Outcome (List A)
slice_from offset l = if leb offset (length l) then ok (drop offset l) else panic

module _ (w : Wire) where
  abbrev pub entries_bytes : List MemEntry → List (List ℕ)
  entries_bytes [] = []
  entries_bytes (e ∷ es) = w.entry_bytes e ∷ entries_bytes es

  -- `fill_attached_pages` on the bytes of the entries: whether it filled them, and the bytes.
  unfoldable pub fill_attached_pages : VirtioResource → List ℕ → Outcome (Bool × List ℕ)
  unfolding copy_from_slice
  fill_attached_pages (resource_3d entries) body =
      copy_from_slice body (flatten (entries_bytes entries)) >>= λ body'. ok (true, body')
  fill_attached_pages blob body = ok (false, body)

  -- A `ResourceAttachBacking` in front of a number of entries, which `fill` writes.
  unfoldable pub attach :
      ℕ → ℕ → (List ℕ → Outcome (List ℕ)) → List ℕ → FenceTracker → Outcome Built
  unfolding with_header new_header new
  attach res_id n_pages fill dma t =
      let (header, t') = new_header ControlType.resource_attach_backing true none none t in
      with_header size_resource_attach_backing (n_pages * size_mem_entry)
        (w.bytes (Message.resource_attach_backing header res_id (n_pages % u32_size))) fill dma
      >>= λ (slice, dma'). ok (new CommandId.map_aperture none no_flags (some slice), dma', t')

  module _ (page_size : ℕ) where
    abbrev pub page_entry : ℕ → MemEntry
    page_entry phys_page = record { addr = phys_page * page_size % u64_size; length = page_size }

    abbrev pub page_entries : List ℕ → List MemEntry
    page_entries [] = []
    page_entries (p ∷ ps) = page_entry p ∷ page_entries ps

    -- On the page numbers of the whole list.
    unfoldable pub attach_backing : ℕ → List ℕ → ℕ → ℕ → List ℕ → FenceTracker → Outcome Built
    unfolding attach set_elements slice_from
    attach_backing res_id physical_pages offset n_pages = attach res_id n_pages (λ body.
        slice_from offset physical_pages >>= λ phys_pages.
        set_elements size_mem_entry n_pages 0 (entries_bytes (page_entries phys_pages)) body)

    -- The loop over `0..n_pages` from index `i` on, where `k` are left.
    unfoldable pub fill_pages : (ℕ → ℕ) → ℕ → ℕ → ℕ → ℕ → List ℕ → Outcome (List ℕ)
    unfolding set_elements
    fill_pages physical len n_pages zero i body = ok body
    fill_pages physical len n_pages (suc k) i body =
        if leb (i * page_size) len
        then (set_elements size_mem_entry n_pages i
              (w.entry_bytes (record { addr = physical (i * page_size); length = page_size }) ∷ [])
              body
            >>= λ body'. fill_pages physical len n_pages k (suc i) body')
        else panic

    -- `physical` is `mm_get_physical_address` of the byte at an offset into the data.
    unfoldable pub attach_backing_box : (ℕ → ℕ) → ℕ → ℕ → List ℕ → FenceTracker → Outcome Built
    unfolding attach fill_pages
    attach_backing_box physical res_id len =
        let n_pages = div_ceil len page_size in
        attach res_id n_pages (λ body.
          if leb (size_mem_entry * n_pages) (length body)
          then fill_pages physical len n_pages n_pages 0 body
          else panic)

  -- `id` is what `Allocation::id` returns. No command is built for a resource without entries.
  unfoldable pub attach_backing_virtual :
      Option ℕ
      → VirtioResource
      → List ℕ
      → FenceTracker
      → Outcome (Option Command × List ℕ × FenceTracker)
  unfolding num_attached_pages fill_attached_pages split_at write_to_prefix new_header new
  attach_backing_virtual id resource dma t =
      let n_pages = num_attached_pages resource in
      let (header, t') = new_header ControlType.resource_attach_backing true none none t in
      if n_pages == 0 then ok (none, dma, t) else (do
        res_id ← unwrap id
        (slice, rest) ← split_at (size_resource_attach_backing + n_pages * size_mem_entry) dma
        (hdr_dma, body_dma) ← split_at size_resource_attach_backing slice
        hdr_dma' ←
            write_to_prefix
              (w.bytes (Message.resource_attach_backing header res_id (n_pages % u32_size))) hdr_dma
        (filled, body_dma') ← fill_attached_pages resource body_dma
        ok (
          if filled
              then some (new CommandId.map_aperture none no_flags (some (hdr_dma' ++ body_dma')))
              else none,
          (hdr_dma' ++ body_dma') ++ rest,
          t',
        ))

  unfoldable pub detach_backing : ℕ → List ℕ → FenceTracker → Outcome Built
  unfolding whole_message new_header new
  detach_backing res_id dma t =
      let (header, t') = new_header ControlType.resource_detach_backing true none none t in
      whole_message w size_resource_detach_backing
        (w.bytes (Message.resource_detach_backing header res_id)) dma
      >>= λ (slice, dma'). ok (new CommandId.unmap_aperture none no_flags (some slice), dma', t')
