-- ===== src/Outputs/Calls.antt =====
-- The calls that change the cursor of an output, one after the other.
use virtio_drivers_windows.Base.{
  ℕ, ◌≤◌, ◌<◌, Bool, true, false, Option, none, some, List, ok, ◌≡◌, ◌⊎◌, ℤ, pos, negsuc,
}
use virtio_drivers_windows.Wire.{ControlType}
use virtio_drivers_windows.Requests.{State, Host}
use virtio_drivers_windows.Requests.Monad.{Run, Action}
use virtio_drivers_windows.Outputs.Pointers.{Cursor, Shape, draw}
use virtio_drivers_windows.Outputs.Displays.{
  MonitorMode, Session, hide_cursor, move_cursor, update_cursor_shape,
}
use virtio_drivers_windows.Outputs.Asked.{CursorSent}
use virtio_drivers_windows.Outputs.Placed.{IsPlaced}
use virtio_drivers_windows.Requests.Leaving.{Leaves, after}

pub data Call : Type 0 where
  hide_call : ℕ → Cursor → Call
  move_call : ℕ → ℤ → ℤ → Call
  shape_call : ℕ → ℕ → ℕ → Shape → Call

module _ (h : Host) (physical : ℕ → ℕ → ℕ) where
  unfoldable pub run_call : Call → Action (Session h) (Unit {0})
  unfolding hide_cursor move_cursor update_cursor_shape
  run_call (hide_call scanout empty) = hide_cursor h scanout empty
  run_call (move_call scanout x y) = move_cursor h physical scanout x y
  run_call (shape_call scanout y_hot x_hot shape) =
      update_cursor_shape h physical scanout y_hot x_hot shape

  abbrev pub run_calls : List Call → Session h → Option (Session h)
  run_calls cs s = after run_call cs s

-- A number from 0 to a bound, as near to a number as there is.
abbrev pub Clamped : ℤ → ℕ → ℕ → Type 0
Clamped (pos n) bound r = ((n ≤ bound) × (r ≡ n)) ⊎ ((bound < n) × (r ≡ bound))
Clamped (negsuc n) bound r = r ≡ 0

-- Where a shape puts the hotspot: transposed, at a cursor that it makes.
abbrev pub Pointed : ℕ → ℕ → Option Cursor → Cursor → Type 0
Pointed y_hot x_hot none c = (c.hotspot ≡ (y_hot, x_hot)) × (c.position ≡ (0, 0))
Pointed y_hot x_hot (some c₀) c =
    (c.hotspot ≡ (x_hot, y_hot)) × (c.position ≡ c₀.position) × (c.pixels.id ≡ c₀.pixels.id)

module _ (h : Host) where
  -- The device is asked to show the pixels of a resource with the hotspot and the place of a cursor.
  abbrev pub Showing : ℕ → ℕ → Cursor → State h.env → State h.env → Type 0
  Showing scanout id c =
      CursorSent h ControlType.update_cursor scanout id c.hotspot.0 c.hotspot.1 c.position.0
        c.position.1

  abbrev pub Hidden : ℕ → Cursor → Option Cursor → Session h → Session h → Type 0
  Hidden scanout empty none s t =
      (t.output.cursor ≡ none) × Showing scanout empty.pixels.id empty s.chan t.chan
  Hidden scanout empty (some c) s t =
      (t.output.cursor ≡ some (record c { hidden = true }))
      × Showing scanout empty.pixels.id c s.chan t.chan

  -- A cursor that was hidden is shown again, and one that was not only moves.
  abbrev pub Moving : Bool → ℕ → Cursor → State h.env → State h.env → Type 0
  Moving true scanout c = Showing scanout c.pixels.id c
  Moving false scanout c =
      CursorSent h ControlType.move_cursor scanout 0 0 0 c.position.0 c.position.1

  -- The first move makes the cursor.
  abbrev pub Moved : ℕ → ℕ → ℕ → Option Cursor → Session h → Session h → Type 0
  Moved scanout x y none s t =
      (c : Cursor) × (t.output.cursor ≡ some c) × (c.position ≡ (x, y)) × (c.hidden ≡ false)
  Moved scanout x y (some c) s t =
      let c' = record c { position = (x, y); hidden = false } in
      (t.output.cursor ≡ some c') × Moving c.hidden scanout c' s.chan t.chan

  abbrev pub Shaped : ℕ → ℕ → ℕ → Shape → Session h → Session h → Type 0
  Shaped scanout y_hot x_hot shape s t =
      (c : Cursor) × (t.output.cursor ≡ some c)
      × Pointed y_hot x_hot s.output.cursor c
      × ((old : List ℕ) × (draw shape 64 old ≡ ok c.pixels.pixels))
      × ((before : State h.env) × Showing scanout c.pixels.id c before t.chan)

  -- What a call is for, on an output with such a mode.
  abbrev pub Done : MonitorMode → Call → Session h → Session h → Type 0
  Done m (hide_call scanout empty) s t = Hidden scanout empty s.output.cursor s t
  Done m (move_call scanout v w) s t =
      (x y : ℕ) × Clamped v m.width x × Clamped w m.height y × Moved scanout x y s.output.cursor s t
  Done m (shape_call scanout y_hot x_hot shape) s t = Shaped scanout y_hot x_hot shape s t

  -- A call that fails may not be done.
  abbrev pub Serves : MonitorMode → (Session h → Type 0) → Run (Session h) (Unit {0}) → Type 0
  Serves m D r = Leaves (λ u t. IsPlaced m t.output × D t) (λ t. IsPlaced m t.output) r

  abbrev pub Served : MonitorMode → Call → Session h → Run (Session h) (Unit {0}) → Type 0
  Served m c s r = Serves m (Done m c s) r
