-- ===== src/Commands.antt =====
-- The commands of user space and of the DMA buffers: their identifiers, flags and bodies of
-- gpu-wddm/src/uapi.rs, and `Command` of gpu-wddm/src/command.rs. A body that the source borrows is
-- the list of what it holds.
pub mod Items
pub mod Parser
pub mod Slices
pub mod Dma
pub mod Writes
pub mod Bounds
pub mod ItemBounds
pub mod Backing
mod Tests
use virtio_drivers_windows.Base.{
  ℕ, ◌+◌, ◌*◌, Bool, true, false, Option, none, some, List, [], ◌∷◌, length, Outcome, ok, panic,
  ◌>>=◌,
}
use virtio_drivers_windows.Wire.{GpuBox, size_cmd_submit_3d, size_cmd_transfer_host_3d}

pub data CommandId : Type 0 where
  nop submit transfer_to_host transfer_from_host fence map_aperture unmap_aperture : CommandId

-- `CommandTransfer`; its box is a `Box3D`.
pub record CommandTransfer : Type 0 where
  pub res_id : ℕ
  pub stride : ℕ
  pub offset : ℕ
  pub level : ℕ
  pub layer_stride : ℕ
  pub box : GpuBox

pub data CommandBody : Type 0 where
  nop : CommandBody
  submit : List ℕ → CommandBody
  fence : ℕ → CommandBody
  transfer_to_host : List CommandTransfer → CommandBody
  transfer_from_host : List CommandTransfer → CommandBody

pub data CommandBodyItem : Type 0 where
  nop : CommandBodyItem
  submit : List ℕ → CommandBodyItem
  fence : ℕ → CommandBodyItem
  transfer_to_host : CommandTransfer → CommandBodyItem
  transfer_from_host : CommandTransfer → CommandBodyItem

-- `CommandBody::len` and `id`.
abbrev pub body_len : CommandBody → ℕ
body_len CommandBody.nop = 0
body_len (CommandBody.submit _) = 1
body_len (CommandBody.fence _) = 1
body_len (CommandBody.transfer_to_host slice) = length slice
body_len (CommandBody.transfer_from_host slice) = length slice

abbrev pub body_id : CommandBody → CommandId
body_id CommandBody.nop = CommandId.nop
body_id (CommandBody.submit _) = CommandId.submit
body_id (CommandBody.fence _) = CommandId.fence
body_id (CommandBody.transfer_to_host _) = CommandId.transfer_to_host
body_id (CommandBody.transfer_from_host _) = CommandId.transfer_from_host

abbrev pub item_id : CommandBodyItem → CommandId
item_id CommandBodyItem.nop = CommandId.nop
item_id (CommandBodyItem.submit _) = CommandId.submit
item_id (CommandBodyItem.fence _) = CommandId.fence
item_id (CommandBodyItem.transfer_to_host _) = CommandId.transfer_to_host
item_id (CommandBodyItem.transfer_from_host _) = CommandId.transfer_from_host

-- `CommandBodyIterState`, with the rest of a slice for its iterator.
pub data CommandBodyIterState : Type 0 where
  nop : CommandBodyIterState
  submit : Option (List ℕ) → CommandBodyIterState
  fence : Option ℕ → CommandBodyIterState
  transfer_to_host : List CommandTransfer → CommandBodyIterState
  transfer_from_host : List CommandTransfer → CommandBodyIterState

-- `CommandBodyIterator::new`.
unfoldable pub into_iter : CommandBody → CommandBodyIterState
into_iter CommandBody.nop = CommandBodyIterState.nop
into_iter (CommandBody.submit bytes) = CommandBodyIterState.submit (some bytes)
into_iter (CommandBody.fence f) = CommandBodyIterState.fence (some f)
into_iter (CommandBody.transfer_to_host slice) = CommandBodyIterState.transfer_to_host slice
into_iter (CommandBody.transfer_from_host slice) = CommandBodyIterState.transfer_from_host slice

-- `CommandBodyIterator::next`.
unfoldable pub next_item : CommandBodyIterState → Option (CommandBodyItem × CommandBodyIterState)
next_item CommandBodyIterState.nop = none
next_item (CommandBodyIterState.submit none) = none
next_item (CommandBodyIterState.submit (some bytes)) =
    some (CommandBodyItem.submit bytes, CommandBodyIterState.submit none)
next_item (CommandBodyIterState.fence none) = none
next_item (CommandBodyIterState.fence (some f)) =
    some (CommandBodyItem.fence f, CommandBodyIterState.fence none)
next_item (CommandBodyIterState.transfer_to_host []) = none
next_item (CommandBodyIterState.transfer_to_host (t ∷ ts)) =
    some (CommandBodyItem.transfer_to_host t, CommandBodyIterState.transfer_to_host ts)
next_item (CommandBodyIterState.transfer_from_host []) = none
next_item (CommandBodyIterState.transfer_from_host (t ∷ ts)) =
    some (CommandBodyItem.transfer_from_host t, CommandBodyIterState.transfer_from_host ts)

-- `Flags` and `CommandFlag`: the bits by their names.
pub record Flags : Type 0 where
  pub ring_idx : Bool
  pub shadow_virgl : Bool
  pub needs_patch : Bool

abbrev pub no_flags : Flags
no_flags = record { ring_idx = false; shadow_virgl = false; needs_patch = false }

-- `dma` stands for the bytes that its pointer leads to.
pub record Command : Type 0 where
  pub id : CommandId
  pub flags : Flags
  pub ring : ℕ
  pub dma : Option (List ℕ)

-- `Command::new`.
unfoldable pub new : CommandId → Option ℕ → Flags → Option (List ℕ) → Command
new id (some r) flags dma = record {
  id = id;
  flags = record flags { ring_idx = true };
  ring = r;
  dma = dma;
}
new id none flags dma = record { id = id; flags = flags; ring = 0; dma = dma }

abbrev pub nop_command : Command
unfolding new
nop_command = new CommandId.nop none no_flags none

abbrev pub len_or : Option (List ℕ) → ℕ
len_or (some slice) = length slice
len_or none = 0

-- `Command::len` and `Command::dma`.
abbrev pub command_len : Command → ℕ
command_len c = len_or c.dma

abbrev pub unless_patch : Bool → Option (List ℕ) → Option (List ℕ)
unless_patch true dma = none
unless_patch false dma = dma

abbrev pub command_dma : Command → Option (List ℕ)
command_dma c = unless_patch c.flags.needs_patch c.dma

-- `Command::item_dma_len` and `Command::body_dma_len`: sums and products of lengths of slices in
-- memory, which do not reach the limit of a `usize`. A fence is `unreachable!`.
unfoldable pub item_dma_len : CommandBodyItem → Outcome ℕ
item_dma_len CommandBodyItem.nop = ok 0
item_dma_len (CommandBodyItem.fence _) = panic
item_dma_len (CommandBodyItem.submit bytes) = ok (size_cmd_submit_3d + length bytes)
item_dma_len (CommandBodyItem.transfer_to_host _) = ok size_cmd_transfer_host_3d
item_dma_len (CommandBodyItem.transfer_from_host _) = ok size_cmd_transfer_host_3d

-- The `item_size` of `body_dma_len`.
unfoldable pub item_size : CommandBody → Outcome ℕ
item_size CommandBody.nop = ok 0
item_size (CommandBody.fence _) = panic
item_size (CommandBody.submit bytes) = ok (size_cmd_submit_3d + length bytes)
item_size (CommandBody.transfer_to_host _) = ok size_cmd_transfer_host_3d
item_size (CommandBody.transfer_from_host _) = ok size_cmd_transfer_host_3d

unfoldable pub body_dma_len : CommandBody → Outcome ℕ
unfolding item_size
body_dma_len body = item_size body >>= λ size. ok (size * body_len body)
