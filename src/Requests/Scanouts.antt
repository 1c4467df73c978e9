-- ===== src/Requests/Scanouts.antt =====
-- The scanouts and the cursor of `GpuChannel`: requests that nobody waits for.
use virtio_drivers_windows.Base.{ℕ, true, false, none}
use virtio_drivers_windows.Handler.Interface.{Callback}
use virtio_drivers_windows.Wire.{Message, ControlType, Rect, BlobInfo, size_ctrl_header}
use virtio_drivers_windows.Requests.{State, Host}
use virtio_drivers_windows.Requests.Monad.{Action, ◌>>=◌}
use virtio_drivers_windows.Requests.Queues.{Target, new_header, request_async}

module _ (h : Host) where
  unfoldable pub set_scanout : Rect → ℕ → ℕ → Action (State h.env) (Unit {0})
  unfolding request_async
  set_scanout rect scanout res_id = do
    header ← new_header h ControlType.set_scanout false none none
    request_async h Target.control size_ctrl_header (Message.set_scanout header rect scanout res_id)
        Callback.nothing

  unfoldable pub set_scanout_blob : Rect → ℕ → ℕ → BlobInfo → Action (State h.env) (Unit {0})
  unfolding request_async
  set_scanout_blob rect scanout res_id info = do
    header ← new_header h ControlType.set_scanout_blob false none none
    request_async h Target.control size_ctrl_header
        (Message.set_scanout_blob header rect scanout res_id info) Callback.nothing

  unfoldable pub move_cursor : ℕ → ℕ → ℕ → Action (State h.env) (Unit {0})
  unfolding request_async
  move_cursor scanout_id x y = do
    header ← new_header h ControlType.move_cursor true none none
    request_async h Target.cursor size_ctrl_header
        (Message.update_cursor header (record { scanout_id = scanout_id; x = x; y = y }) 0 0 0)
        Callback.nothing

  unfoldable pub update_cursor : ℕ → ℕ → ℕ → ℕ → ℕ → ℕ → Action (State h.env) (Unit {0})
  unfolding request_async
  update_cursor scanout_id resource_id hot_x hot_y x y = do
    header ← new_header h ControlType.update_cursor true none none
    request_async h Target.cursor size_ctrl_header
        (Message.update_cursor header (record { scanout_id = scanout_id; x = x; y = y }) resource_id
          hot_x hot_y)
        Callback.nothing
