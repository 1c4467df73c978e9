-- ===== src/Buffers.antt =====
-- `MaybeInlineBuffer` of gpu-wddm/src/queue.rs: the bytes of a request or of a response, beside the
-- length if they are few. `PAGE_SIZE` is generated, so it is a parameter, and so is `MAX_INLINE`.
-- Whether the allocator has memory is an argument of each call that allocates.
pub mod Contents
pub mod Pages
mod Tests
use virtio_drivers_windows.Base.{
  ℕ, ◌+◌, ◌-◌, ◌/◌, ◌%◌, ◌^◌, Bool, true, false, ◌||◌, List, [], ◌∷◌, ◌++◌, Outcome, ok, err, panic,
  ◌>>=◌, no_memory, leb, ◌==◌, if◌then◌else◌, length, take, drop, replicate,
}

-- `dma` stands for the bytes that its pointer leads to.
pub data MaybeInlineBuffer : Type 0 where
  inline : ℕ → List ℕ → MaybeInlineBuffer
  boxed : List ℕ → MaybeInlineBuffer
  dma : List ℕ → MaybeInlineBuffer

-- `copy_from_slice` into `bytes` at an offset.
abbrev pub write_at : ℕ → List ℕ → List ℕ → List ℕ
write_at offset new bytes = take offset bytes ++ (new ++ drop (offset + length new) bytes)

-- A boxed slice, if there is memory for it.
abbrev pub try_box : Bool → List ℕ → Outcome MaybeInlineBuffer
try_box true bytes = ok (boxed bytes)
try_box false bytes = err no_memory

abbrev pub as_len : ℕ → ℕ
as_len size = size % 2 ^ 16

module _ (page_size max_inline : ℕ) where
  unfoldable pub try_new_zeroed_size : Bool → ℕ → Outcome MaybeInlineBuffer
  try_new_zeroed_size memory size =
      if leb size max_inline
      then ok (inline (as_len size) (replicate max_inline 0))
      else if leb size page_size
      then try_box memory (replicate size 0)
      else err no_memory

  unfoldable pub try_from_hdr_with_body : Bool → List ℕ → List ℕ → Outcome MaybeInlineBuffer
  try_from_hdr_with_body memory hdr body =
      let size = length hdr + length body in
      if leb size max_inline
      then ok (
          inline (as_len size)
            (write_at (length hdr) body (write_at 0 hdr (replicate max_inline 0))))
      else if leb size page_size
      then try_box memory (hdr ++ body)
      else err no_memory

  unfoldable pub try_from_value : Bool → List ℕ → Outcome MaybeInlineBuffer
  try_from_value memory value =
      let size = length value in
      if leb size max_inline
      then ok (inline (as_len size) (write_at 0 value (replicate max_inline 0)))
      else if leb size page_size
      then try_box memory value
      else err no_memory

-- A range out of bounds panics.
unfoldable pub as_ref : MaybeInlineBuffer → Outcome (List ℕ)
as_ref (inline len bytes) = if leb len (length bytes) then ok (take len bytes) else panic
as_ref (boxed bytes) = ok bytes
as_ref (dma bytes) = ok bytes

-- A write of the device through `as_mut`: the bytes it leaves in the buffer.
abbrev pub as_mut : MaybeInlineBuffer → List ℕ → MaybeInlineBuffer
as_mut (inline len bytes) new = inline len (write_at 0 new bytes)
as_mut (boxed bytes) new = boxed new
as_mut (dma bytes) new = dma new

unfoldable pub into_boxed : Bool → MaybeInlineBuffer → ℕ → Outcome (List ℕ)
into_boxed memory buffer strip_prefix = as_ref buffer >>= λ bytes.
    if leb strip_prefix (length bytes)
    then (if memory then ok (drop strip_prefix bytes) else err no_memory)
    else panic

-- On the address and the length of a slice.
unfoldable pub slice_in_one_page : ℕ → ℕ → ℕ → Bool
slice_in_one_page page_size start_addr len =
    if len == 0 then true else (start_addr / page_size) == ((start_addr + len - 1) / page_size)
