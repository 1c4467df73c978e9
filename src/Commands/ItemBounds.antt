-- ===== src/Commands/ItemBounds.antt =====
-- The memory that an item of a body needs, and what its command writes into it.
use virtio_drivers_windows.Base.{
  ℕ, ◌+◌, ◌%◌, ◌≤◌, ◌<◌, ◌≡◌, refl, sym, ◌∙◌, ◌⊎◌, inl, inr, true, false, Option, none, some, List,
  [], ◌++◌, length, take, drop, length-append, Outcome, ok, panic, ◌==◌, if◌then◌else◌, u32_size,
  arith, dec_le,
}
use virtio_drivers_windows.Tracker.{FenceTracker}
use virtio_drivers_windows.Wire.{
  Wire, ControlType, CtrlHeader, Message, size_cmd_submit_3d, size_cmd_transfer_host_3d,
}
use virtio_drivers_windows.Wire.Headers.{new_header}
use virtio_drivers_windows.Commands.{
  Command, CommandId, CommandBodyItem, CommandTransfer, no_flags, new, item_id, item_dma_len,
  command_len,
}
use virtio_drivers_windows.Commands.Dma.{
  Built, copy_from_slice, whole_message, transfer_3d, from_item, transfer_host,
}
use virtio_drivers_windows.Commands.Writes.{
  split_at-fits, split_at-short, write_to_prefix-exact, length-take_le,
}
use virtio_drivers_windows.Commands.Bounds.{submit_3d-fits, submit_3d-short}

module _ (w : Wire) where
  -- What the device gets of an item: the type of its header, and the bytes.
  abbrev pub item_type : CommandBodyItem → ControlType
  item_type (CommandBodyItem.transfer_to_host _) = ControlType.transfer_to_host_3d
  item_type (CommandBodyItem.transfer_from_host _) = ControlType.transfer_from_host_3d
  item_type _ = ControlType.submit_3d

  abbrev pub item_bytes : CtrlHeader → CommandBodyItem → List ℕ
  item_bytes h CommandBodyItem.nop = []
  item_bytes h (CommandBodyItem.submit bytes) =
      w.bytes (Message.cmd_submit_3d h (length bytes % u32_size)) ++ bytes
  item_bytes h (CommandBodyItem.fence _) = []
  item_bytes h (CommandBodyItem.transfer_to_host t) =
      w.bytes (Message.cmd_transfer_host_3d h (transfer_host w t))
  item_bytes h (CommandBodyItem.transfer_from_host t) =
      w.bytes (Message.cmd_transfer_host_3d h (transfer_host w t))

  abbrev pub item_dma : CtrlHeader → CommandBodyItem → Option (List ℕ)
  item_dma h CommandBodyItem.nop = none
  item_dma h item = some (item_bytes h item)

  -- Only an item with bytes has a header, and takes a fence for it.
  abbrev pub item_tracker : CommandBodyItem → FenceTracker → FenceTracker → FenceTracker
  item_tracker CommandBodyItem.nop t' t = t
  item_tracker _ t' t = t'

  abbrev pub Fills :
      CommandBodyItem → ℕ → CtrlHeader → Option ℕ → List ℕ → FenceTracker → Outcome Built → Type 0
  Fills item n header ring dma t' result =
      ((n ≤ length dma)
        × (c : Command) × (result ≡ ok (c, item_bytes header item ++ drop n dma, t'))
        × (length (item_bytes header item) ≡ n)
        × (c.id ≡ item_id item)
        × (c.dma ≡ item_dma header item)
        × (command_len c ≡ n)
        × (c.flags.needs_patch ≡ false)
        × (if c.flags.ring_idx then some c.ring else none) ≡ ring)
      ⊎ ((length dma < n) × (result ≡ panic))

  whole_message-fits :
      (size : ℕ) (bytes dma : List ℕ)
      → length bytes ≡ size
      → size ≤ length dma
      → whole_message w size bytes dma ≡ ok (bytes, bytes ++ drop size dma)
  unfolding whole_message
  whole_message-fits size bytes dma e fits =
      rw
        (
          split_at-fits size dma fits,
          write_to_prefix-exact bytes (take size dma) (e ∙ sym (length-take_le size dma fits)),
        )
        refl

  whole_message-short :
      (size : ℕ) (bytes dma : List ℕ) → length dma < size → whole_message w size bytes dma ≡ panic
  unfolding whole_message
  whole_message-short size bytes dma h = rw (split_at-short size dma h) refl

  new-ring :
      (id : CommandId) (ring : Option ℕ) (dma : Option (List ℕ))
      → let c = new id ring no_flags dma in
        (c.id ≡ id)
        × (c.dma ≡ dma)
        × (c.flags.needs_patch ≡ false)
        × ((if c.flags.ring_idx then some c.ring else none) ≡ ring)
  unfolding new
  new-ring id (some r) dma = (refl, refl, refl, refl)
  new-ring id none dma = (refl, refl, refl, refl)

  copy_from_slice-exact :
      (dst src : List ℕ) → length dst ≡ length src → copy_from_slice dst src ≡ ok src
  unfolding copy_from_slice
  copy_from_slice-exact dst src e =
      let h : (length dst == length src) ≡ true = ground arith in rw h refl

  transfer-Fills :
      (hdr_type : ControlType) (id : CommandId) (context ring : Option ℕ)
      (transfer : CommandTransfer) (dma : List ℕ) (t : FenceTracker)
      → let (header, t') = new_header hdr_type true context ring t in
        let bytes = w.bytes (Message.cmd_transfer_host_3d header (transfer_host w transfer)) in
        ((size_cmd_transfer_host_3d ≤ length dma)
          × (transfer_3d w hdr_type id context transfer ring dma t
              ≡ ok (
                new id ring no_flags (some bytes),
                bytes ++ drop size_cmd_transfer_host_3d dma,
                t',
              )))
        ⊎ ((length dma < size_cmd_transfer_host_3d)
            × (transfer_3d w hdr_type id context transfer ring dma t ≡ panic))
  unfolding transfer_3d
  transfer-Fills hdr_type id context ring transfer dma t =
      let (header, t') = new_header hdr_type true context ring t in
      let bytes = w.bytes (Message.cmd_transfer_host_3d header (transfer_host w transfer)) in
      elim (dec_le size_cmd_transfer_host_3d (length dma)) [
        | yes fits ↦ inl (
          fits,
          rw
              (whole_message-fits size_cmd_transfer_host_3d bytes dma (w.length-transfer header _)
                fits)
              refl,
        )
        | no short ↦ inr (
          omega arith,
          rw (whole_message-short size_cmd_transfer_host_3d bytes dma (omega arith)) refl,
        )
      ]

  filled :
      (item : CommandBodyItem) (n : ℕ) (header : CtrlHeader) (ring : Option ℕ) (dma : List ℕ)
      (id : CommandId) (t' : FenceTracker) (result : Outcome Built)
      → n ≤ length dma
      → length (item_bytes header item) ≡ n
      → id ≡ item_id item
      → item_dma header item ≡ some (item_bytes header item)
      → result
        ≡ ok (
          new id ring no_flags (some (item_bytes header item)),
          item_bytes header item ++ drop n dma,
          t',
        )
      → Fills item n header ring dma t' result
  filled item n header ring dma id t' result fits l i d e =
      let c = new id ring no_flags (some (item_bytes header item)) in
      let (a, b, p, r) = new-ring id ring (some (item_bytes header item)) in
      inl (fits, c, e, l, a ∙ i, b ∙ sym d, rw b l, p, r)

  submit-Fills :
      (context ring : Option ℕ) (bytes dma : List ℕ) (t : FenceTracker)
      → let (header, t') = new_header ControlType.submit_3d true context ring t in
        Fills
          (CommandBodyItem.submit bytes)
          (size_cmd_submit_3d + length bytes)
          header
          ring
          dma
          t'
          (from_item w context (CommandBodyItem.submit bytes) ring dma t)
  unfolding from_item
  submit-Fills context ring bytes dma t =
      let (header, t') = new_header ControlType.submit_3d true context ring t in
      elim (dec_le (size_cmd_submit_3d + length bytes) (length dma)) [
        | yes fits ↦
            filled (CommandBodyItem.submit bytes) _ header ring dma CommandId.submit t' _ fits
              (omega (
                arith,
                length-append (w.bytes (Message.cmd_submit_3d header (length bytes % u32_size)))
                    bytes,
                w.length-submit header (length bytes % u32_size),
              ))
              refl refl
              (submit_3d-fits w context ring (length bytes) bytes _ dma t fits
                (λ body b. copy_from_slice-exact body bytes b))
        | no short ↦
            inr (omega arith, submit_3d-short w context ring (length bytes) _ dma t (omega arith))
      ]

  to_host-Fills :
      (context ring : Option ℕ) (transfer : CommandTransfer) (dma : List ℕ) (t : FenceTracker)
      → let (header, t') = new_header ControlType.transfer_to_host_3d true context ring t in
        Fills
          (CommandBodyItem.transfer_to_host transfer)
          size_cmd_transfer_host_3d
          header
          ring
          dma
          t'
          (from_item w context (CommandBodyItem.transfer_to_host transfer) ring dma t)
  unfolding from_item
  to_host-Fills context ring transfer dma t =
      let (header, t') = new_header ControlType.transfer_to_host_3d true context ring t in
      elim (transfer-Fills ControlType.transfer_to_host_3d CommandId.transfer_to_host context ring
        transfer dma t) [
          | inl (fits, e) ↦
              filled (CommandBodyItem.transfer_to_host transfer) _ header ring dma
                CommandId.transfer_to_host t' _ fits (w.length-transfer header _) refl refl e
          | inr short ↦ inr short
        ]

  from_host-Fills :
      (context ring : Option ℕ) (transfer : CommandTransfer) (dma : List ℕ) (t : FenceTracker)
      → let (header, t') = new_header ControlType.transfer_from_host_3d true context ring t in
        Fills
          (CommandBodyItem.transfer_from_host transfer)
          size_cmd_transfer_host_3d
          header
          ring
          dma
          t'
          (from_item w context (CommandBodyItem.transfer_from_host transfer) ring dma t)
  unfolding from_item
  from_host-Fills context ring transfer dma t =
      let (header, t') = new_header ControlType.transfer_from_host_3d true context ring t in
      elim (transfer-Fills ControlType.transfer_from_host_3d CommandId.transfer_from_host context
        ring transfer dma t) [
          | inl (fits, e) ↦
              filled (CommandBodyItem.transfer_from_host transfer) _ header ring dma
                CommandId.transfer_from_host t' _ fits (w.length-transfer header _) refl refl e
          | inr short ↦ inr short
        ]

  nop-Fills :
      (context ring : Option ℕ) (header : CtrlHeader) (dma : List ℕ) (t : FenceTracker)
      → Fills CommandBodyItem.nop 0 header ring dma t
          (from_item w context CommandBodyItem.nop ring dma t)
  unfolding from_item
  nop-Fills context ring header dma t =
      let c = new CommandId.nop ring no_flags none in
      let (a, b, p, r) = new-ring CommandId.nop ring none in
      inl (omega arith, c, refl, refl, a, b, rw b refl, p, r)

  -- The command of an item that is not a fence needs as much memory as `item_dma_len` says. Given as
  -- much, it has the identifier of the item and the ring, needs no patch, and its memory starts with
  -- the bytes of the item for the device, as many as the length says; the rest of the memory is left
  -- as it was. Less memory is a panic.
  pub from_item-Fills :
      (context ring : Option ℕ) (item : CommandBodyItem) (n : ℕ) (dma : List ℕ) (t : FenceTracker)
      → item_dma_len item ≡ ok n
      → Fills item n
          (new_header (item_type item) true context ring t).0
          ring
          dma
          (item_tracker item (new_header (item_type item) true context ring t).1 t)
          (from_item w context item ring dma t)
  unfolding item_dma_len
  from_item-Fills context ring CommandBodyItem.nop n dma t e =
      let h : 0 ≡ n = cc in
      rw (sym h)
        (nop-Fills context ring (new_header ControlType.submit_3d true context ring t).0 dma t)
  from_item-Fills context ring (CommandBodyItem.fence f) n dma t e = cc
  from_item-Fills context ring (CommandBodyItem.submit bytes) n dma t e =
      let h : size_cmd_submit_3d + length bytes ≡ n = cc in
      rw (sym h) (submit-Fills context ring bytes dma t)
  from_item-Fills context ring (CommandBodyItem.transfer_to_host transfer) n dma t e =
      let h : size_cmd_transfer_host_3d ≡ n = cc in
      rw (sym h) (to_host-Fills context ring transfer dma t)
  from_item-Fills context ring (CommandBodyItem.transfer_from_host transfer) n dma t e =
      let h : size_cmd_transfer_host_3d ≡ n = cc in
      rw (sym h) (from_host-Fills context ring transfer dma t)
