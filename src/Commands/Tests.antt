-- ===== src/Commands/Tests.antt =====
-- The commands at concrete inputs.
use virtio_drivers_windows.Base.{
  ℕ, ◌%◌, ◌≤◌, ◌<◌, ◌≡◌, refl, ◌⊎◌, none, some, true, List, [], ◌∷◌, ◌++◌, replicate, drop, length,
  ok, panic, inr, arith, u32_size,
}
use virtio_drivers_windows.Pages.{MemEntry}
use virtio_drivers_windows.Tracker.{new}
use virtio_drivers_windows.Wire.{ControlType, Message}
use virtio_drivers_windows.Wire.Headers.{new_header}
use virtio_drivers_windows.Wire.Tests.{plain_wire}
use virtio_drivers_windows.Commands.{
  CommandId, CommandBody, CommandBodyItem, CommandTransfer, body_dma_len, item_dma_len, into_iter,
  no_flags,
}
use virtio_drivers_windows.Commands
use virtio_drivers_windows.Commands.Items.{Yields, body_dma_len-items}
use virtio_drivers_windows.Commands.Parser.{
  CommandHeader, command_slice, try_commands_from_body, chunks,
}
use virtio_drivers_windows.Commands.Slices.{Parsed, command_slice_lem}
use virtio_drivers_windows.Commands.Dma.{Rect, flatten, virgl_blit, virgl_blit_dma_len, from_item}
use virtio_drivers_windows.Commands.Bounds.{copies_bytes, virgl_blit-dma}
use virtio_drivers_windows.Commands.ItemBounds.{Fills, from_item-Fills}
use virtio_drivers_windows.Commands.Backing.{attach_backing_virtual, resource_3d, entries_bytes}
use virtio_drivers_windows.Commands.Backing.Entries.{attach_backing_virtual-entries}

abbrev a_transfer : CommandTransfer
a_transfer = record {
  res_id = 5;
  stride = 0;
  offset = 0;
  level = 0;
  layer_stride = 0;
  box = record { x = 0; y = 0; z = 0; w = 8; h = 8; d = 1 };
}

abbrev two_transfers : CommandBody
two_transfers = CommandBody.transfer_to_host (a_transfer ∷ a_transfer ∷ [])

body_dma_len-items_example :
    Yields two_transfers (into_iter two_transfers) 2 (body_dma_len two_transfers)
body_dma_len-items_example = body_dma_len-items two_transfers

abbrev read_transfer : List ℕ → CommandTransfer
read_transfer bytes = a_transfer

abbrev read_u64 : List ℕ → ℕ
read_u64 [] = 0
read_u64 (x ∷ xs) = x

abbrev three_bytes : CommandHeader
three_bytes = record {
  id = CommandId.submit;
  flags = record { ring_idx = true; shadow_virgl = true };
  ring = 1;
  size = 3;
  body_addr = 17;
  body = 4 ∷ 5 ∷ 6 ∷ 7 ∷ [];
}

command_slice_example :
    Parsed read_transfer read_u64 three_bytes (command_slice read_transfer read_u64 three_bytes)
command_slice_example = command_slice_lem read_transfer read_u64 three_bytes (omega arith)

three_bytes_sliced :
    command_slice read_transfer read_u64 three_bytes ≡ inr (CommandBody.submit (4 ∷ 5 ∷ 6 ∷ []))
unfolding command_slice try_commands_from_body chunks
three_bytes_sliced = refl

abbrev a_rect : Rect
a_rect = record { left = 1; top = 2; right = 4; bottom = 6 }

abbrev room : List ℕ
room = replicate 100 9

virgl_blit-dma_example :
    let n = virgl_blit_dma_len (a_rect ∷ []) in
    let (header, t') = new_header ControlType.submit_3d true (some 7) none new in
    let slice =
      plain_wire.bytes (Message.cmd_submit_3d header (56 % u32_size))
      ++ copies_bytes plain_wire 1 2 (3, 4) (a_rect ∷ []) in
    ((n ≤ length room)
      × (virgl_blit plain_wire (some 7) 1 2 (3, 4) (a_rect ∷ []) none room new
          ≡ ok (Commands.new CommandId.submit none no_flags (some slice), slice ++ drop n room, t'))
      × (length slice ≡ n))
    ⊎ ((length room < n)
        × (virgl_blit plain_wire (some 7) 1 2 (3, 4) (a_rect ∷ []) none room new ≡ panic))
virgl_blit-dma_example = virgl_blit-dma plain_wire (some 7) none 1 2 (3, 4) (a_rect ∷ []) room new

from_item-Fills_example :
    let item = CommandBodyItem.submit (1 ∷ 2 ∷ []) in
    let (header, t') = new_header ControlType.submit_3d true (some 7) (some 3) new in
    Fills plain_wire item 34 header
      (some 3)
      room
      t'
      (from_item plain_wire (some 7) item (some 3) room new)
unfolding item_dma_len
from_item-Fills_example =
    from_item-Fills plain_wire (some 7) (some 3) (CommandBodyItem.submit (1 ∷ 2 ∷ [])) 34 room new
      refl

attach_backing_virtual-entries_example :
    let entries : List MemEntry = record { addr = 8; length = 6 } ∷ [] in
    let (header, t') = new_header ControlType.resource_attach_backing true none none new in
    let slice =
      plain_wire.bytes (Message.resource_attach_backing header 5 1)
      ++ flatten (entries_bytes plain_wire entries) in
    ((48 ≤ length room)
      × (attach_backing_virtual plain_wire (some 5) (resource_3d entries) room new
          ≡ ok (
            some (Commands.new CommandId.map_aperture none no_flags (some slice)),
            slice ++ drop 48 room,
            t',
          )))
    ⊎ ((length room < 48)
        × (attach_backing_virtual plain_wire (some 5) (resource_3d entries) room new ≡ panic))
attach_backing_virtual-entries_example =
    attach_backing_virtual-entries plain_wire 5 (record { addr = 8; length = 6 }) [] room new
