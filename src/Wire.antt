-- ===== src/Wire.antt =====
-- The structures of the virtio GPU device that the driver fills in, as virtio-drivers/src/device/gpu
-- declares them, without their padding, and `GpuChannel::new_header` of gpu-wddm/src/queue.rs in the
-- module Headers. How the structures are laid out in bytes, and how the driver reads a response, is
-- the business of the zerocopy crate and of virtio-drivers: it is the parameter `Wire`.
pub mod Headers
pub mod Tests
use virtio_drivers_windows.Base.{ℕ, List, ◌≡◌, ◌⊎◌, length}
use virtio_drivers_windows.Handler.Errors.{VirtioError}
use virtio_drivers_windows.Pages.{MemEntry}

-- `gpu::Command`, the kinds of requests and of responses that the driver names.
pub data ControlType : Type 0 where
  get_display_info resource_create_2d resource_unref set_scanout resource_flush : ControlType
  transfer_to_host_2d resource_attach_backing resource_detach_backing get_capset_info : ControlType
  get_capset get_edid resource_create_blob set_scanout_blob ctx_create ctx_destroy : ControlType
  ctx_attach_resource ctx_detach_resource resource_create_3d transfer_to_host_3d : ControlType
  transfer_from_host_3d submit_3d resource_map_blob resource_unmap_blob : ControlType
  update_cursor move_cursor : ControlType
  ok_nodata ok_display_info ok_capset_info ok_capset ok_edid ok_map_info : ControlType

abbrev pub gpu_flag_fence : ℕ
gpu_flag_fence = 1

abbrev pub gpu_flag_ring_index : ℕ
gpu_flag_ring_index = 2

pub record CtrlHeader : Type 0 where
  pub hdr_type : ControlType
  pub flags : ℕ
  pub fence_id : ℕ
  pub ctx_id : ℕ
  pub ring_idx : ℕ

pub record Rect : Type 0 where
  pub x : ℕ
  pub y : ℕ
  pub width : ℕ
  pub height : ℕ

pub record GpuBox : Type 0 where
  pub x : ℕ
  pub y : ℕ
  pub z : ℕ
  pub w : ℕ
  pub h : ℕ
  pub d : ℕ

-- `CmdTransferHost3D`.
pub record TransferHost : Type 0 where
  pub box : GpuBox
  pub offset : ℕ
  pub resource_id : ℕ
  pub level : ℕ
  pub stride : ℕ
  pub layer_stride : ℕ

-- `Allocate3d` of gpu-wddm/src/uapi.rs, whose fields `CmdResourceCreate3D` repeats.
pub record Allocate3d : Type 0 where
  pub target : ℕ
  pub format : ℕ
  pub bind : ℕ
  pub width : ℕ
  pub height : ℕ
  pub depth : ℕ
  pub array_size : ℕ
  pub last_level : ℕ
  pub nr_samples : ℕ
  pub flags : ℕ

-- `BlobInfo` of gpu-wddm/src/uapi.rs; `strides` and `offsets` have four elements.
pub record BlobInfo : Type 0 where
  pub width : ℕ
  pub height : ℕ
  pub format : ℕ
  pub bind : ℕ
  pub modifier : ℕ
  pub strides : List ℕ
  pub offsets : List ℕ

-- `gpu::CursorPos`.
pub record CursorPos : Type 0 where
  pub scanout_id : ℕ
  pub x : ℕ
  pub y : ℕ

-- A request: a header, and after it the fields in the order of the structure.
pub data Message : Type 0 where
  bare : CtrlHeader → Message
  cmd_get_capset_info : CtrlHeader → (capset_index : ℕ) → Message
  cmd_get_capset : CtrlHeader → (capset_id capset_version : ℕ) → Message
  cmd_ctx_create : CtrlHeader → (nlen context_init : ℕ) → (debug_name : List ℕ) → Message
  resource_create_2d : CtrlHeader → (resource_id format width height : ℕ) → Message
  cmd_resource_create_3d : CtrlHeader → (resource_id : ℕ) → Allocate3d → Message
  cmd_ctx_resource : CtrlHeader → (resource_id : ℕ) → Message
  cmd_resource_create_blob :
      CtrlHeader → (resource_id blob_mem blob_flags nr_entries blob_id size : ℕ) → Message
  cmd_resource_map_blob : CtrlHeader → (resource_id offset : ℕ) → Message
  cmd_resource_unmap_blob : CtrlHeader → (resource_id : ℕ) → Message
  transfer_to_host_2d : CtrlHeader → Rect → (offset resource_id : ℕ) → Message
  resource_flush : CtrlHeader → (resource_id : ℕ) → Rect → Message
  resource_attach_backing : CtrlHeader → (resource_id nr_entries : ℕ) → Message
  resource_detach_backing : CtrlHeader → (resource_id : ℕ) → Message
  resource_unref : CtrlHeader → (resource_id : ℕ) → Message
  cmd_transfer_host_3d : CtrlHeader → TransferHost → Message
  cmd_submit_3d : CtrlHeader → (size : ℕ) → Message
  cmd_get_edid : CtrlHeader → (scanout : ℕ) → Message
  set_scanout : CtrlHeader → Rect → (scanout_id resource_id : ℕ) → Message
  set_scanout_blob : CtrlHeader → Rect → (scanout_id resource_id : ℕ) → BlobInfo → Message
  update_cursor : CtrlHeader → CursorPos → (resource_id hot_x hot_y : ℕ) → Message

-- `size_of` the structures.
abbrev pub size_ctrl_header : ℕ
size_ctrl_header = 24

abbrev pub size_cmd_submit_3d : ℕ
size_cmd_submit_3d = 32

abbrev pub size_cmd_transfer_host_3d : ℕ
size_cmd_transfer_host_3d = 72

abbrev pub size_resource_attach_backing : ℕ
size_resource_attach_backing = 32

abbrev pub size_resource_detach_backing : ℕ
size_resource_detach_backing = 32

abbrev pub size_mem_entry : ℕ
size_mem_entry = 16

pub record Wire : Type 0 where
  -- `IntoBytes::as_bytes` of a request, of an entry and of a word.
  pub bytes : Message → List ℕ
  pub entry_bytes : MemEntry → List ℕ
  pub word_bytes : ℕ → List ℕ
  pub length-submit :
      (h : CtrlHeader) (n : ℕ) → length (bytes (Message.cmd_submit_3d h n)) ≡ size_cmd_submit_3d
  pub length-transfer :
      (h : CtrlHeader) (t : TransferHost)
      → length (bytes (Message.cmd_transfer_host_3d h t)) ≡ size_cmd_transfer_host_3d
  pub length-attach :
      (h : CtrlHeader) (id n : ℕ)
      → length (bytes (Message.resource_attach_backing h id n)) ≡ size_resource_attach_backing
  pub length-detach :
      (h : CtrlHeader) (id : ℕ)
      → length (bytes (Message.resource_detach_backing h id)) ≡ size_resource_detach_backing
  pub length-entry : (e : MemEntry) → length (entry_bytes e) ≡ size_mem_entry
  pub length-word : (n : ℕ) → length (word_bytes n) ≡ 4
  -- `CtrlHeader::check_type` of the header that a response starts with.
  pub check_type : List ℕ → ControlType → VirtioError ⊎ Unit {0}
  -- `size_of` the responses, and the fields that the driver reads of them.
  pub size_resp_capset_info : ℕ
  pub size_resp_display_info : ℕ
  pub size_resp_map_info : ℕ
  pub size_resp_edid : ℕ
  pub capset_id : List ℕ → ℕ
  pub capset_max_version : List ℕ → ℕ
  pub capset_max_size : List ℕ → ℕ
  pub pmodes : List ℕ → List Rect
  pub map_info : List ℕ → ℕ
  pub edid : List ℕ → List ℕ
  pub edid_size : List ℕ → ℕ
