-- ===== src/Outputs/Framebuffers.antt =====
-- `Framebuffer`: a 2D resource of the device with its pixels in the memory of the driver.
use virtio_drivers_windows.Base.{
  ℕ, ◌*◌, List, no_memory, replicate, Outcome, ok, err, panic, if◌then◌else◌,
}
use virtio_drivers_windows.Commands.{Command}
use virtio_drivers_windows.Commands.Dma.{attach_backing_dma_len}
use virtio_drivers_windows.Commands.Backing.{attach_backing_box, div_ceil}
use virtio_drivers_windows.Tracker.{FenceTracker}
use virtio_drivers_windows.Handler.Errors.{dma_error, from_virtio_error}
use virtio_drivers_windows.Requests.{State, Host}
use virtio_drivers_windows.Requests.Monad.{
  returned, failed, panicked, Action, pure, fail, ◌>>=◌, ◌>>◌,
}
use virtio_drivers_windows.Requests.Queues.{ask}
use virtio_drivers_windows.Requests.Resources.{
  resource_create_2d, resource_transfer_to_host_2d, resource_detach_backing, resource_unref,
}
use virtio_drivers_windows.Requests.Submits.{submit_command_sync}

pub record Framebuffer : Type 0 where
  pub width : ℕ
  pub height : ℕ
  pub format : ℕ
  pub pixels : List ℕ
  pub id : ℕ

-- `Format::stride`, the same for every format.
abbrev pub format_stride : ℕ
format_stride = 4

abbrev pub zeroed : ℕ → ℕ → ℕ → ℕ → Framebuffer
zeroed width height format id = record {
  width = width;
  height = height;
  format = format;
  pixels = replicate (width * height * format_stride) 0;
  id = id;
}

module _ (h : Host) where
  unfoldable pub transfer_to_host : Framebuffer → Action (State h.env) (Unit {0})
  unfolding resource_transfer_to_host_2d
  transfer_to_host f =
      resource_transfer_to_host_2d h (record { x = 0; y = 0; width = f.width; height = f.height }) 0
        f.id

  unfoldable pub destroy : Framebuffer → Action (State h.env) (Unit {0})
  unfolding resource_detach_backing resource_unref
  destroy f = do resource_detach_backing h f.id; resource_unref h f.id

-- `physical` is the physical address of a byte of the pixels, by the number of the request for memory
-- that they come from.
module _ (h : Host) (physical : ℕ → ℕ → ℕ) where
  abbrev pub built : Outcome (Command × List ℕ × FenceTracker) → Action (State h.env) Command
  built (ok (cmd, dma, t)) s = returned cmd (record s { gpu = record (s.gpu) { fence = t } })
  built (err e) s = failed e s
  built panic s = panicked

  -- The command that attaches the pixels, in new zeroed DMA memory of so many pages.
  abbrev pub attach_command : ℕ → ℕ → ℕ → ℕ → Action (State h.env) Command
  attach_command asked id size pages s =
      built
        (attach_backing_box h.env.wire h.env.platform.page_size (physical asked) id size
          (replicate (pages * h.env.platform.page_size) 0) s.gpu.fence)
        s

  -- The number of the next request for memory.
  abbrev pub next_asked : Action (State h.env) ℕ
  next_asked s = returned s.asked s

  -- The memory for the pixels of a resource, and the command that attaches it.
  unfoldable pub allocate_and_attach : ℕ → ℕ → Action (State h.env) (Unit {0})
  unfolding attach_backing_box submit_command_sync
  allocate_and_attach id size = do
    asked ← next_asked
    memory ← ask h
    if memory then pure tt else fail no_memory
    let page_size = h.env.platform.page_size
    let attach_pages = div_ceil (attach_backing_dma_len (div_ceil size page_size)) page_size
    dma ← ask h
    if dma then pure tt else fail (from_virtio_error dma_error)
    cmd ← attach_command asked id size attach_pages
    submit_command_sync h cmd

  -- `Framebuffer::try_new`.
  unfoldable pub try_new : ℕ → ℕ → ℕ → Action (State h.env) Framebuffer
  unfolding resource_create_2d allocate_and_attach transfer_to_host
  try_new width height format = do
    id ← resource_create_2d h width height format
    let size = width * height * format_stride
    allocate_and_attach id size
    let framebuffer = zeroed width height format id
    transfer_to_host h framebuffer
    pure framebuffer
