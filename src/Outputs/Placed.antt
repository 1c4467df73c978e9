-- ===== src/Outputs/Placed.antt =====
-- The cursor of an output stays on the screen.
use virtio_drivers_windows.Base.{
  ℕ, ◌*◌, ◌≤◌, ◌≡◌, refl, false, Option, none, some, length, ok, length-replicate,
}
use virtio_drivers_windows.Requests.{State, Host}
use virtio_drivers_windows.Requests.Monad.{◌>>=◌, pure}
use virtio_drivers_windows.Requests.Leaving.{Returns, Returns-then, Leaves-bind}
use virtio_drivers_windows.Outputs.Framebuffers.{
  Framebuffer, zeroed, allocate_and_attach, transfer_to_host, try_new,
}
use virtio_drivers_windows.Requests.Resources.{resource_create_2d}
use virtio_drivers_windows.Outputs.Pointers.{Cursor, b8g8r8a8unorm, try_new_cursor}
use virtio_drivers_windows.Outputs.Displays.{MonitorMode, Output, cursor_mode}

-- A cursor inside a mode, with the pixels of 64 rows and columns.
pub record IsHeld (m : MonitorMode) (c : Cursor) : Type 0 where
  pub inside_x : c.position.0 ≤ m.width
  pub inside_y : c.position.1 ≤ m.height
  pub columns : c.pixels.width ≡ 64
  pub rows : c.pixels.height ≡ 64
  pub bytes : length c.pixels.pixels ≡ 64 * 64 * 4

abbrev pub Held : MonitorMode → Option Cursor → Type 0
Held m none = Unit {0}
Held m (some c) = IsHeld m c

pub record IsPlaced (m : MonitorMode) (o : Output) : Type 0 where
  pub mode : cursor_mode o ≡ ok m
  pub held : Held m o.cursor

module _ (h : Host) (physical : ℕ → ℕ → ℕ) where
  abbrev IsMade : ℕ → ℕ → Framebuffer → Type 0
  IsMade width height f =
      (f.width ≡ width) × (f.height ≡ height) × (length f.pixels ≡ width * height * 4)

  try_new-IsMade :
      (width height format : ℕ) (s : State h.env)
      → Returns (IsMade width height) (try_new h physical width height format s)
  unfolding try_new
  try_new-IsMade width height format s =
      Returns-then (IsMade width height) (resource_create_2d h width height format s)
        (λ id. allocate_and_attach h physical id (width * height * 4) >>= λ u.
          (transfer_to_host h (zeroed width height format id) >>= λ v.
          pure (zeroed width height format id)))
        λ id t.
          Returns-then (IsMade width height)
            (allocate_and_attach h physical id (width * height * 4) t)
            (λ u. transfer_to_host h (zeroed width height format id) >>= λ v.
              pure (zeroed width height format id))
            λ u t'.
              Returns-then (IsMade width height)
                (transfer_to_host h (zeroed width height format id) t')
                (λ v. pure (zeroed width height format id))
                (λ v t''. (refl, refl, length-replicate (width * height * 4) 0))

  -- A new cursor of 64 rows and columns at a place inside the mode.
  pub try_new_cursor-IsHeld :
      (m : MonitorMode) (x_hot y_hot x y : ℕ) (s : State h.env)
      → x ≤ m.width
      → y ≤ m.height
      → Returns
          (λ c.
            IsHeld m c × (c.position ≡ (x, y)) × (c.hidden ≡ false) × (c.hotspot ≡ (x_hot, y_hot)))
          (try_new_cursor h physical 64 64 x_hot y_hot x y s)
  unfolding try_new_cursor
  try_new_cursor-IsHeld m x_hot y_hot x y s p q =
      Leaves-bind (λ f t. IsMade 64 64 f)
        (λ c t.
          IsHeld m c × (c.position ≡ (x, y)) × (c.hidden ≡ false) × (c.hotspot ≡ (x_hot, y_hot)))
        (λ t. Unit {0}) (try_new h physical 64 64 b8g8r8a8unorm s) _
        (try_new-IsMade 64 64 b8g8r8a8unorm s)
        (λ f t e. (
          record { inside_x = p; inside_y = q; columns = e.0; rows = e.1; bytes = e.2 },
          refl,
          refl,
          refl,
        ))
