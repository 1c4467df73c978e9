-- ===== src/Requests.antt =====
-- `QueueChannel` and `GpuChannel` of gpu-wddm/src/queue.rs: the requests that the driver sends, and
-- waits for. A channel is the state that its senders and the queue handler share.
pub mod Monad
pub mod Leaving
pub mod Queues
pub mod Contexts
pub mod Resources
pub mod Capsets
pub mod Scanouts
pub mod Submits
pub mod Keeping
pub mod Owned
pub mod Transfers
pub mod Batches
pub mod Singles
mod Masks
pub mod Supported
pub mod Tests
use virtio_drivers_windows.Base.{ℕ, suc, Bool, false, Option, none, List, Status, ◌⊎◌}
use virtio_drivers_windows.Channel.{AsyncQueue}
use virtio_drivers_windows.Handler.Data.{GpuData}
use virtio_drivers_windows.Handler.Interface.{Buffer, Platform}
use virtio_drivers_windows.Wire.{Wire}

pub record Env : Type 1 where
  pub platform : Platform
  pub wire : Wire
  -- The inline lengths of the buffers of the two queues.
  pub control_in : ℕ
  pub control_out : ℕ
  pub cursor_in : ℕ
  pub cursor_out : ℕ
  -- Whether there is memory, each time that the driver asks.
  pub memory : ℕ → Bool
  -- `offset_allocator::Allocator` and `Allocation`.
  pub Allocator : Type 0
  pub Offset : Type 0
  pub allocate : Allocator → ℕ → Option Offset × Allocator
  pub free_offset : Allocator → Offset → Allocator
  pub offset : Offset → ℕ

-- `gpu` is the field `data` of the source. `asked` counts how often the driver asked for memory, `made` the blocking
-- buffers and `shared` the shared batches that it made.
pub record State (env : Env) : Type 0 where
  pub gpu : GpuData
  pub control : AsyncQueue env.platform.fast_queue env.platform.slow_queue
  pub cursor : AsyncQueue env.platform.fast_queue env.platform.slow_queue
  pub offsets : env.Allocator
  pub asked : ℕ
  pub made : ℕ
  pub shared : ℕ

-- `wait` is what happens until the event of a blocking buffer is set or its time is up: the handler
-- and other senders go on meanwhile.
pub record Host : Type 1 where
  pub env : Env
  pub wait : ℕ → ℕ → State env → (Status ⊎ Unit {0}) × State env
