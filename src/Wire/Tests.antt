-- ===== src/Wire/Tests.antt =====
-- Headers at concrete inputs.
use virtio_drivers_windows.Base.{
  ℕ, ◌≡◌, refl, Bool, true, false, none, some, arith, if◌then◌else◌, List, [], ◌∷◌, inl, inr,
  replicate, ◌==◌,
}
use virtio_drivers_windows.Handler.Errors.{io_error}
use virtio_drivers_windows.Tracker.{new, query}
use virtio_drivers_windows.Tracker.Laws.{IsValid, new-IsValid}
use virtio_drivers_windows.Wire.{ControlType, Message, Wire}
use virtio_drivers_windows.Wire.Headers.{new_header, new_header_lem, has_fence, has_ring}

-- A transfer in context 7 on ring 2.
new_header_example :
    let (h, t') = new_header ControlType.submit_3d true (some 7) (some 2) new in
    (h.hdr_type ≡ ControlType.submit_3d)
    × (has_fence h ≡ true)
    × ((if has_ring h then some h.ring_idx else none) ≡ some 2)
    × (h.ctx_id ≡ 7)
    × IsValid t'
    × (query t' h.fence_id ≡ false)
new_header_example =
    new_header_lem ControlType.submit_3d true (some 7) (some 2) new new-IsValid (omega arith)

abbrev pub first_is_zero : List ℕ → Bool
first_is_zero [] = false
first_is_zero (x ∷ xs) = x == 0

-- A layout of the structures: the identifiers in the first byte, zeros behind them.
abbrev pub plain_bytes : Message → List ℕ
plain_bytes (Message.cmd_submit_3d h size) = h.ctx_id ∷ replicate 31 0
plain_bytes (Message.cmd_transfer_host_3d h t) = t.resource_id ∷ replicate 71 0
plain_bytes (Message.resource_attach_backing h id n) = id ∷ replicate 31 n
plain_bytes (Message.resource_detach_backing h id) = id ∷ replicate 31 0
plain_bytes _ = replicate 24 0

abbrev pub plain_wire : Wire
plain_wire = record {
  bytes = plain_bytes;
  entry_bytes = λ e. e.addr ∷ replicate 15 0;
  word_bytes = λ n. n ∷ 0 ∷ 0 ∷ 0 ∷ [];
  length-submit = λ h n. refl;
  length-transfer = λ h t. refl;
  length-attach = λ h id n. refl;
  length-detach = λ h id. refl;
  length-entry = λ e. refl;
  length-word = λ n. refl;
  check_type = λ response expected. if first_is_zero response then inr tt else inl io_error;
  size_resp_capset_info = 40;
  size_resp_display_info = 408;
  size_resp_map_info = 32;
  size_resp_edid = 1056;
  capset_id = λ response. 1;
  capset_max_version = λ response. 2;
  capset_max_size = λ response. 3;
  pmodes = λ response. [];
  map_info = λ response. 0;
  edid = λ response. response;
  edid_size = λ response. 0;
}
