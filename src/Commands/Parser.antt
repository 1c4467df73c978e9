-- ===== src/Commands/Parser.antt =====
-- `CommandHeaderRaw::try_as_hdr` and `CommandHeader::command_slice` of gpu-wddm/src/uapi.rs. How a
-- packed structure and a `u64` are read from their bytes are parameters.
use virtio_drivers_windows.Base.{
  ℕ, zero, suc, ◌/◌, ◌%◌, Bool, not, Option, none, some, List, [], ◌∷◌, ◌⊎◌, inl, inr, take, drop,
  map, ltb, ◌==◌, if◌then◌else◌,
}
use virtio_drivers_windows.Commands.{CommandId, CommandBody, CommandTransfer}

-- The messages that the source returns as errors.
pub data ParseError : Type 0 where
  invalid_id invalid_flags not_aligned not_multiple one_fence invalid_userspace_id : ParseError

-- `CommandFlag`.
pub record CommandFlag : Type 0 where
  pub ring_idx : Bool
  pub shadow_virgl : Bool

-- `CommandHeaderRaw`.
pub record CommandHeaderRaw : Type 0 where
  pub id : ℕ
  pub flags : ℕ
  pub ring : ℕ
  pub size : ℕ

-- `CommandHeader`, with the address of its body, and the memory from there on.
pub record CommandHeader : Type 0 where
  pub id : CommandId
  pub flags : CommandFlag
  pub ring : ℕ
  pub size : ℕ
  pub body_addr : ℕ
  pub body : List ℕ

-- `CommandId::try_from`.
abbrev pub try_from : ℕ → ParseError ⊎ CommandId
try_from v =
    if v == 0
    then inr CommandId.nop
    else if v == 1
    then inr CommandId.submit
    else if v == 2
    then inr CommandId.transfer_to_host
    else if v == 3
    then inr CommandId.transfer_from_host
    else if v == 4
    then inr CommandId.fence
    else inl invalid_id

-- `CommandFlag::from_bits`, which refuses a bit without a name.
abbrev pub from_bits : ℕ → Option CommandFlag
from_bits bits =
    if ltb bits 4
    then some (record { ring_idx = bits % 2 == 1; shadow_virgl = bits / 2 % 2 == 1 })
    else none

infixl 5 ◌>>=◌
abbrev pub ◌>>=◌ : {A B : Type 0} → ParseError ⊎ A → (A → ParseError ⊎ B) → ParseError ⊎ B
inl e >>= f = inl e
inr a >>= f = f a

abbrev pub flags_or : Option CommandFlag → ParseError ⊎ CommandFlag
flags_or (some flags) = inr flags
flags_or none = inl invalid_flags

-- On the raw header, and the address and the memory behind it.
unfoldable pub try_as_hdr : CommandHeaderRaw → ℕ → List ℕ → ParseError ⊎ CommandHeader
try_as_hdr raw addr memory = try_from raw.id >>= λ id. flags_or (from_bits raw.flags) >>= λ flags.
    inr (record {
      id = id;
      flags = flags;
      ring = raw.ring;
      size = raw.size;
      body_addr = addr;
      body = memory;
    })

-- `count` elements of `size` bytes each.
unfoldable pub chunks : ℕ → ℕ → List ℕ → List (List ℕ)
chunks size zero bytes = []
chunks size (suc count) bytes = take size bytes ∷ chunks size count (drop size bytes)

-- `try_commands_from_body`, for an element of a size, with an alignment, and how it is read.
unfoldable pub try_commands_from_body :
    {A : Type 0} → ℕ → ℕ → (List ℕ → A) → CommandHeader → ParseError ⊎ List A
unfolding chunks
try_commands_from_body align elem_size read h =
    if not (h.body_addr % align == 0)
    then inl not_aligned
    else if not (h.size % elem_size == 0)
    then inl not_multiple
    else inr (map read (chunks elem_size (h.size / elem_size) h.body))

-- `size_of::<CommandTransfer>()`.
abbrev pub size_command_transfer : ℕ
size_command_transfer = 48

abbrev pub first_byte : List ℕ → ℕ
first_byte [] = 0
first_byte (x ∷ xs) = x

abbrev pub one_element : List ℕ → ParseError ⊎ CommandBody
one_element (f ∷ []) = inr (CommandBody.fence f)
one_element _ = inl one_fence

module _ (read_transfer : List ℕ → CommandTransfer) (read_u64 : List ℕ → ℕ) where
  -- A byte has size and alignment 1, a packed structure alignment 1.
  unfoldable pub command_slice : CommandHeader → ParseError ⊎ CommandBody
  unfolding try_commands_from_body chunks
  command_slice h = elim h.id [
    | CommandId.nop ↦ inr CommandBody.nop
    | CommandId.submit ↦
        try_commands_from_body 1 1 first_byte h >>= λ slice. inr (CommandBody.submit slice)
    | CommandId.fence ↦ try_commands_from_body 8 8 read_u64 h >>= one_element
    | CommandId.transfer_to_host ↦
        try_commands_from_body 1 size_command_transfer read_transfer h >>= λ slice.
        inr (CommandBody.transfer_to_host slice)
    | CommandId.transfer_from_host ↦
        try_commands_from_body 1 size_command_transfer read_transfer h >>= λ slice.
        inr (CommandBody.transfer_from_host slice)
    | _ ↦ inl invalid_userspace_id
  ]

-- `CommandHeader::ring` and `CommandHeader::shadow_virgl`.
abbrev pub header_ring : CommandHeader → Option ℕ
header_ring h = if h.flags.ring_idx then some h.ring else none
