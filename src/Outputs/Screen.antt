-- ===== src/Outputs/Screen.antt =====
-- The cursor of an output stays on the screen, whatever calls there are.
use virtio_drivers_windows.Base.{
  ◌∙◌, ℕ, ◌*◌, ◌≡◌, refl, false, Option, none, some, List, length, Outcome, ok, err, panic, Allows,
  Allows-bind, arith, subst,
}
use virtio_drivers_windows.Requests.{State, Host}
use virtio_drivers_windows.Requests.Monad.{Run, returned, failed, panicked, continue_with}
use virtio_drivers_windows.Outputs.Pointers.{
  Cursor, Shape, draw, with_shape, set_hotspot, try_new_cursor, transfer_pixels, update,
}
use virtio_drivers_windows.Outputs.Displays.{
  MonitorMode, Session, clamp, hide_cursor, move_cursor, update_cursor_shape, on_chan, moved,
  put_cursor, of_outcome, hotspot_set, show,
}
use virtio_drivers_windows.Outputs.Kept.{draw-HasLength}
use virtio_drivers_windows.Outputs.Placed.{IsHeld, Held, try_new_cursor-IsHeld}
use virtio_drivers_windows.Requests.Leaving.{Leaves, Leaves-bind, Returns}
use virtio_drivers_windows.Outputs.Calls.{
  Call, Shaped, Pointed, hide_call, move_call, shape_call, run_call, Served, Serves,
}
use virtio_drivers_windows.Outputs.Moves.{
  Placed, sent, put-IsPlaced, hide-Hidden, update-Showing, moved_to,
}

-- What a computation that succeeds comes to.
Allows-known :
    {A : Type 0} (P : A → Type 0) (o : Outcome A) → Allows P o → Allows (λ a. P a × (o ≡ ok a)) o
Allows-known P (ok a) p = (p, refl)
Allows-known P (err e) p = tt
Allows-known P panic p = tt

Pointed-same :
    (y_hot x_hot : ℕ) (o : Option Cursor) (c c' : Cursor)
    → c'.hotspot ≡ c.hotspot
    → c'.position ≡ c.position
    → c'.pixels.id ≡ c.pixels.id
    → Pointed y_hot x_hot o c
    → Pointed y_hot x_hot o c'
Pointed-same y_hot x_hot none c c' a b d p = (a ∙ p.0, b ∙ p.1)
Pointed-same y_hot x_hot (some c₀) c c' a b d p = (a ∙ p.0, b ∙ p.1, d ∙ p.2)

module _ (h : Host) (physical : ℕ → ℕ → ℕ) (m : MonitorMode) where
  abbrev HasCursor : ℕ → ℕ → Option Cursor → Cursor → Session h → Type 0
  HasCursor y_hot x_hot o c t = Placed h physical m t × IsHeld m c × Pointed y_hot x_hot o c

  new_hotspot :
      (y_hot x_hot : ℕ) (r : Run (State h.env) Cursor) (s : Session h)
      → Returns
          (λ c.
            IsHeld m c × (c.position ≡ (0, 0)) × (c.hidden ≡ false) × (c.hotspot ≡ (y_hot, x_hot)))
          r
      → Placed h physical m s
      → Leaves
          (HasCursor y_hot x_hot none)
          (Placed h physical m)
          (continue_with (moved h r s) (λ c t. returned c (put_cursor h c t)))
  new_hotspot y_hot x_hot (returned c chan) s q p =
      (put-IsPlaced h physical m c (record s { chan = chan }) q.0 p, q.0, (q.3, q.1))
  new_hotspot y_hot x_hot (failed e chan) s q p = p
  new_hotspot y_hot x_hot panicked s q p = tt

  set_hotspot-IsHeld : (x y : ℕ) (c : Cursor) → IsHeld m c → IsHeld m (set_hotspot x y c)
  unfolding set_hotspot
  set_hotspot-IsHeld x y c held = record {
    inside_x = held.inside_x;
    inside_y = held.inside_y;
    columns = held.columns;
    rows = held.rows;
    bytes = held.bytes;
  }

  hotspot_set-HasCursor :
      (y_hot x_hot : ℕ) (o : Option Cursor) (s : Session h)
      → Held m o
      → Placed h physical m s
      → Leaves
          (HasCursor y_hot x_hot o)
          (Placed h physical m)
          (hotspot_set h physical y_hot x_hot o s)
  unfolding set_hotspot
  hotspot_set-HasCursor y_hot x_hot (some c) s held p =
      let held' = set_hotspot-IsHeld x_hot y_hot c held in
      (put-IsPlaced h physical m (set_hotspot x_hot y_hot c) s held' p, held', (refl, refl, refl))
  hotspot_set-HasCursor y_hot x_hot none s held p =
      new_hotspot y_hot x_hot (try_new_cursor h physical 64 64 y_hot x_hot 0 0 s.chan) s
        (try_new_cursor-IsHeld h physical m y_hot x_hot 0 0 s.chan (omega arith) (omega arith)) p

  abbrev Drawn : Shape → Cursor → Type 0
  Drawn shape c = (old : List ℕ) × (draw shape 64 old ≡ ok c.pixels.pixels)

  -- The cursor with the shape drawn into it.
  abbrev HasShape : ℕ → ℕ → Shape → Option Cursor → Cursor → Type 0
  HasShape y_hot x_hot shape o c = IsHeld m c × Pointed y_hot x_hot o c × Drawn shape c

  with_shape-HasShape :
      (y_hot x_hot : ℕ) (shape : Shape) (o : Option Cursor) (c : Cursor)
      → IsHeld m c
      → Pointed y_hot x_hot o c
      → Allows (HasShape y_hot x_hot shape o) (with_shape shape c)
  with_shape-HasShape y_hot x_hot shape o c held pointed =
      let drawn = draw shape c.pixels.width c.pixels.pixels in
      Allows-bind (λ ps. (length ps ≡ 64 * 64 * 4) × (drawn ≡ ok ps)) (HasShape y_hot x_hot shape o)
        drawn _
        (Allows-known (λ ps. length ps ≡ 64 * 64 * 4) drawn
          (draw-HasLength (64 * 64 * 4) shape c.pixels.width c.pixels.pixels held.bytes))
        (λ ps (e, made).
          let c' = record c { pixels = record (c.pixels) { pixels = ps } } in
          (
            record {
              inside_x = held.inside_x;
              inside_y = held.inside_y;
              columns = held.columns;
              rows = held.rows;
              bytes = e;
            },
            Pointed-same y_hot x_hot o c c' refl refl refl pointed,
            (c.pixels.pixels, subst (λ w. draw shape w c.pixels.pixels ≡ ok ps) held.columns made),
          ))

  module _ (scanout y_hot x_hot : ℕ) (shape : Shape) (s₀ : Session h) where
    abbrev Shown : Session h → Type 0
    Shown t = Shaped h scanout y_hot x_hot shape s₀ t

    updated :
        (c : Cursor) (r : Run (State h.env) (Unit {0})) (s : Session h)
        → HasShape y_hot x_hot shape s₀.output.cursor c
        → Placed h physical m s
        → s.output.cursor ≡ some c
        → Serves h m Shown (continue_with (moved h r s) (λ u. on_chan h (update h scanout c)))
    updated c (returned u chan) s made p e =
        sent h physical m Shown _ (update h scanout c chan) (record s { chan = chan })
          (update-Showing h physical m scanout c chan) p (λ t k. (c, e, made.1, made.2, (chan, k)))
    updated c (failed e' chan) s made p e = p
    updated c panicked s made p e = tt

    shown :
        (o : Outcome Cursor) (s : Session h)
        → Allows (HasShape y_hot x_hot shape s₀.output.cursor) o
        → Placed h physical m s
        → Serves h m Shown (of_outcome h o (show h scanout) s)
    shown (ok c) s made p =
        updated c (transfer_pixels h c s.chan) (put_cursor h c s) made
          (put-IsPlaced h physical m c s made.0 p) refl
    shown (err e) s made p = p
    shown panic s made p = tt

  -- A call on an output whose cursor is on the screen leaves it there, and does what it is for.
  pub run_call-Served :
      (call : Call) (s : Session h)
      → Placed h physical m s
      → Served h m call s (run_call h physical call s)
  unfolding run_call hide_cursor move_cursor update_cursor_shape
  run_call-Served (hide_call scanout empty) s p =
      hide-Hidden h physical m scanout empty s.output.cursor s refl p.held p
  run_call-Served (move_call scanout x y) s p =
      rw (p.mode)
        (moved_to h physical m scanout x y (clamp x m.width) (clamp y m.height) s refl refl p)
  run_call-Served (shape_call scanout y_hot x_hot shape) s p =
      Leaves-bind (HasCursor y_hot x_hot s.output.cursor) _ (Placed h physical m)
        (hotspot_set h physical y_hot x_hot s.output.cursor s) _
        (hotspot_set-HasCursor y_hot x_hot s.output.cursor s p.held p)
        (λ c t q.
          shown scanout y_hot x_hot shape s (with_shape shape c) t
            (with_shape-HasShape y_hot x_hot shape s.output.cursor c q.1 q.2) q.0)
