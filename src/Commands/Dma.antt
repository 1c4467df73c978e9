-- ===== src/Commands/Dma.antt =====
-- The commands that gpu-wddm/src/command.rs builds in DMA memory. A builder gets the memory and the
-- fence tracker for the header, and returns the command, the memory and the tracker; a slice or a
-- copy out of bounds panics. The words of a rectangle are the bits of its `i32`s, and their sums and
-- differences wrap.
use virtio_drivers_windows.Base.{
  ℕ, suc, ◌+◌, ◌-◌, ◌*◌, ◌/◌, ◌%◌, true, Option, none, some, List, [], ◌∷◌, ◌++◌, length, take,
  drop, Outcome, ok, panic, ◌>>=◌, ltb, leb, ◌==◌, if◌then◌else◌, u32_size,
}
use virtio_drivers_windows.Buffers.{write_at}
use virtio_drivers_windows.Tracker.{FenceTracker}
use virtio_drivers_windows.Wire.{
  Wire, ControlType, Message, TransferHost, BlobInfo, size_cmd_submit_3d, size_cmd_transfer_host_3d,
  size_resource_attach_backing, size_resource_detach_backing, size_mem_entry,
}
use virtio_drivers_windows.Wire.Headers.{new_header}
use virtio_drivers_windows.Commands.{
  Command, CommandId, CommandBodyItem, CommandTransfer, no_flags, new,
}

-- `RECT`.
pub record Rect : Type 0 where
  pub left : ℕ
  pub top : ℕ
  pub right : ℕ
  pub bottom : ℕ

abbrev pub top_left : Rect → ℕ × ℕ × ℕ
top_left r = (r.left, r.top, 0)

abbrev pub wrapping_sub : ℕ → ℕ → ℕ
wrapping_sub a b = (a + u32_size - b) % u32_size

abbrev pub dimensions : Rect → ℕ × ℕ × ℕ
dimensions r = (wrapping_sub r.right r.left, wrapping_sub r.bottom r.top, 1)

-- `Rect::add`.
abbrev pub shifted : Rect → ℕ × ℕ → Rect
shifted r (dx, dy) = record {
  left = (r.left + dx) % u32_size;
  top = (r.top + dy) % u32_size;
  right = (r.right + dx) % u32_size;
  bottom = (r.bottom + dy) % u32_size;
}

-- The first words are `17 | (0 << 8) | (13 << 16)`, `49 | (0 << 8) | (10 << 16)` and
-- `63 | (0 << 8) | (2 << 16)`: an operation in the low byte, and how many words follow.
abbrev pub virgl_header : ℕ → ℕ → ℕ
virgl_header operation words = operation + words * 65536

-- `VirglResourceCopyRegion::new`.
unfoldable pub copy_region : ℕ → ℕ → ℕ × ℕ × ℕ → ℕ → ℕ → ℕ × ℕ × ℕ → ℕ × ℕ × ℕ → List ℕ
copy_region dst_id dst_level (dx, dy, dz) src_id src_level (sx, sy, sz) (w, h, d) =
    virgl_header 17 13
    ∷ dst_id
    ∷ dst_level
    ∷ dx
    ∷ dy
    ∷ dz
    ∷ src_id
    ∷ src_level
    ∷ sx
    ∷ sy
    ∷ sz
    ∷ w
    ∷ h
    ∷ d
    ∷ []

-- `VirglResourceSetType::new`.
unfoldable pub set_type : ℕ → ℕ → ℕ → ℕ → ℕ → ℕ → ℕ → ℕ → ℕ → List ℕ
set_type id format bind width height usage modifier stride offset =
    virgl_header 49 10
    ∷ id
    ∷ format
    ∷ bind
    ∷ width
    ∷ height
    ∷ usage
    ∷ modifier % u32_size
    ∷ modifier / u32_size % u32_size
    ∷ stride
    ∷ offset
    ∷ []

abbrev pub first : List ℕ → ℕ
first [] = 0
first (x ∷ xs) = x

-- `VirglResourceSetType::from_blob_info`.
unfoldable pub from_blob_info : ℕ → BlobInfo → List ℕ
unfolding set_type
from_blob_info id info =
    set_type id info.format info.bind info.width info.height 0 info.modifier (first info.strides)
      (first info.offsets)

-- `VirglGetResourceLayout::new`.
unfoldable pub get_layout : ℕ → ℕ → List ℕ
get_layout out target = virgl_header 63 2 ∷ out ∷ target ∷ []

-- `size_of` of the three.
abbrev pub size_copy_region : ℕ
size_copy_region = 56

abbrev pub size_set_type : ℕ
size_set_type = 44

abbrev pub size_get_layout : ℕ
size_get_layout = 12

abbrev pub virgl_blit_dma_len : List Rect → ℕ
virgl_blit_dma_len rects = size_cmd_submit_3d + size_copy_region * length rects

abbrev pub virgl_set_type_dma_len : ℕ
virgl_set_type_dma_len = size_cmd_submit_3d + size_set_type

abbrev pub virgl_get_resource_layout_dma_len : ℕ
virgl_get_resource_layout_dma_len = size_cmd_submit_3d + size_get_layout

abbrev pub attach_backing_dma_len : ℕ → ℕ
attach_backing_dma_len n_pages = size_resource_attach_backing + n_pages * size_mem_entry

abbrev pub detach_backing_dma_len : ℕ
detach_backing_dma_len = size_resource_detach_backing

-- `&mut dma[..n]` and what lies behind it; also `split_at_mut`.
unfoldable pub split_at : ℕ → List ℕ → Outcome (List ℕ × List ℕ)
split_at n dma = if leb n (length dma) then ok (take n dma, drop n dma) else panic

-- `write_to_prefix` with its `unwrap`.
unfoldable pub write_to_prefix : List ℕ → List ℕ → Outcome (List ℕ)
write_to_prefix value dst =
    if leb (length value) (length dst) then ok (value ++ drop (length value) dst) else panic

unfoldable pub copy_from_slice : List ℕ → List ℕ → Outcome (List ℕ)
copy_from_slice dst src = if length dst == length src then ok src else panic

-- `cmd.write_to_prefix(&mut body_dma[i * SIZE..])` for the elements from index `i` on.
unfoldable pub write_elements : ℕ → ℕ → List (List ℕ) → List ℕ → Outcome (List ℕ)
unfolding split_at write_to_prefix
write_elements size i [] body = ok body
write_elements size i (value ∷ values) body = do
  (before, rest) ← split_at (i * size) body
  rest' ← write_to_prefix value rest
  write_elements size (suc i) values (before ++ rest')

-- `entries[i] = value` for the elements from index `i` on, in `n` elements.
unfoldable pub set_elements : ℕ → ℕ → ℕ → List (List ℕ) → List ℕ → Outcome (List ℕ)
set_elements size n i [] body = ok body
set_elements size n i (value ∷ values) body =
    let rest = set_elements size n (suc i) values (write_at (i * size) value body) in
    if ltb i n then rest else panic

-- The bytes of consecutive elements.
abbrev pub flatten : List (List ℕ) → List ℕ
flatten [] = []
flatten (x ∷ xs) = x ++ flatten xs

-- What a builder returns: the command, the memory, and the tracker.
abbrev pub Built : Type 0
Built = Command × List ℕ × FenceTracker

-- A header in front of a body of a length, which `fill` writes.
unfoldable pub with_header :
    ℕ → ℕ → List ℕ → (List ℕ → Outcome (List ℕ)) → List ℕ → Outcome (List ℕ × List ℕ)
unfolding split_at write_to_prefix
with_header header_size body_len hdr fill dma = do
  (slice, rest) ← split_at (header_size + body_len) dma
  (hdr_dma, body_dma) ← split_at header_size slice
  hdr_dma' ← write_to_prefix hdr hdr_dma
  body_dma' ← fill body_dma
  ok (hdr_dma' ++ body_dma', (hdr_dma' ++ body_dma') ++ rest)

module _ (w : Wire) where
  -- `as_bytes` of an array of words.
  abbrev pub words_bytes : List ℕ → List ℕ
  words_bytes [] = []
  words_bytes (x ∷ xs) = w.word_bytes x ++ words_bytes xs

  -- A `CmdSubmit3D` in front of a body.
  unfoldable pub submit_3d :
      Option ℕ → Option ℕ → ℕ → (List ℕ → Outcome (List ℕ)) → List ℕ → FenceTracker → Outcome Built
  unfolding with_header new_header new
  submit_3d context ring body_len fill dma t =
      let (header, t') = new_header ControlType.submit_3d true context ring t in
      with_header size_cmd_submit_3d body_len
        (w.bytes (Message.cmd_submit_3d header (body_len % u32_size))) fill dma
      >>= λ (slice, dma'). ok (new CommandId.submit ring no_flags (some slice), dma', t')

  abbrev pub blit_regions : ℕ → ℕ → ℕ × ℕ → List Rect → List (List ℕ)
  unfolding copy_region
  blit_regions src dst delta [] = []
  blit_regions src dst delta (rect ∷ rects) =
      words_bytes
        (copy_region dst 0 (top_left rect) src 0 (top_left (shifted rect delta)) (dimensions rect))
      ∷ blit_regions src dst delta rects

  unfoldable pub virgl_blit :
      Option ℕ → ℕ → ℕ → ℕ × ℕ → List Rect → Option ℕ → List ℕ → FenceTracker → Outcome Built
  unfolding submit_3d write_elements
  virgl_blit context src dst delta rects ring =
      submit_3d context ring (size_copy_region * length rects)
        (write_elements size_copy_region 0 (blit_regions src dst delta rects))

  unfoldable pub virgl_set_type :
      Option ℕ → ℕ → BlobInfo → Option ℕ → List ℕ → FenceTracker → Outcome Built
  unfolding submit_3d write_to_prefix from_blob_info
  virgl_set_type context id info ring =
      submit_3d context ring size_set_type (write_to_prefix (words_bytes (from_blob_info id info)))

  unfoldable pub virgl_get_resource_layout :
      ℕ → ℕ → ℕ → Option ℕ → List ℕ → FenceTracker → Outcome Built
  unfolding submit_3d write_to_prefix get_layout
  virgl_get_resource_layout context out target ring =
      submit_3d (some context) ring size_get_layout
        (write_to_prefix (words_bytes (get_layout out target)))

  -- A structure alone.
  unfoldable pub whole_message : ℕ → List ℕ → List ℕ → Outcome (List ℕ × List ℕ)
  unfolding split_at write_to_prefix
  whole_message size bytes dma = do
    (slice, rest) ← split_at size dma
    slice' ← write_to_prefix bytes slice
    ok (slice', slice' ++ rest)

  abbrev pub transfer_host : CommandTransfer → TransferHost
  transfer_host t = record {
    box = t.box;
    offset = t.offset;
    resource_id = t.res_id;
    level = t.level;
    stride = t.stride;
    layer_stride = t.layer_stride;
  }

  unfoldable pub transfer_3d :
      ControlType
      → CommandId
      → Option ℕ
      → CommandTransfer
      → Option ℕ
      → List ℕ
      → FenceTracker
      → Outcome Built
  unfolding whole_message new_header new
  transfer_3d hdr_type id context transfer ring dma t =
      let (header, t') = new_header hdr_type true context ring t in
      whole_message size_cmd_transfer_host_3d
        (w.bytes (Message.cmd_transfer_host_3d header (transfer_host transfer))) dma
      >>= λ (slice, dma'). ok (new id ring no_flags (some slice), dma', t')

  unfoldable pub from_item :
      Option ℕ → CommandBodyItem → Option ℕ → List ℕ → FenceTracker → Outcome Built
  unfolding transfer_3d submit_3d copy_from_slice new
  from_item context CommandBodyItem.nop ring dma t =
      ok (new CommandId.nop ring no_flags none, dma, t)
  from_item context (CommandBodyItem.submit bytes) ring dma t =
      submit_3d context ring (length bytes) (λ body_dma. copy_from_slice body_dma bytes) dma t
  from_item context (CommandBodyItem.transfer_to_host transfer) ring dma t =
      transfer_3d ControlType.transfer_to_host_3d CommandId.transfer_to_host context transfer ring
        dma t
  from_item context (CommandBodyItem.transfer_from_host transfer) ring dma t =
      transfer_3d ControlType.transfer_from_host_3d CommandId.transfer_from_host context transfer
        ring dma t
  from_item context (CommandBodyItem.fence _) ring dma t = panic
