-- ===== src/Outputs/Displays.antt =====
-- `VidPnOutput`: the modes of an output and its cursor. The queue of flips is left out.
use virtio_drivers_windows.Base.{
  ℕ, ◌^◌, Bool, true, false, Option, none, some, List, [], ◌∷◌, Outcome, ok, err, panic, ◌>>=◌,
  unwrap, get_elem?, min, ltb, ◌==◌, ◌&&◌, ◌||◌, if◌then◌else◌, ℤ, pos, negsuc,
}
use virtio_drivers_windows.Requests.{State, Host}
use virtio_drivers_windows.Requests.Monad.{Run, returned, failed, panicked, Action, continue_with}
use virtio_drivers_windows.Requests.Scanouts
use virtio_drivers_windows.Outputs.Pointers.{
  Cursor, Shape, with_shape, set_position, set_hotspot, try_new_cursor, transfer_pixels, move_to,
  update,
}

pub record MonitorMode : Type 0 where
  pub width : ℕ
  pub height : ℕ

pub record Output : Type 0 where
  pub current_mode : Option ℕ
  pub modes : List MonitorMode
  pub cursor : Option Cursor

abbrev same_resolution : ℕ × ℕ → ℕ × ℕ → Bool
same_resolution a b = (a.0 == b.0) && (a.1 == b.1)

-- The standard timings but for the preferred resolution.
unfoldable pub other_modes : ℕ × ℕ → List (ℕ × ℕ) → List MonitorMode
other_modes preferred [] = []
other_modes preferred (r ∷ rest) =
    let modes = other_modes preferred rest in
    if same_resolution r preferred then modes else record { width = r.0; height = r.1 } ∷ modes

-- `VidPnOutput::new`, from the rectangle and the flag of the display, and what its EDID says of the
-- preferred resolution and the standard timings.
unfoldable pub new : ℕ → ℕ → ℕ → Option (ℕ × ℕ) → List (ℕ × ℕ) → Outcome Output
unfolding other_modes
new width height enabled preferred_resolution standard_timings = do
  preferred ←
      if ltb width 640 || ltb height 480 then unwrap preferred_resolution else ok (width, height)
  ok (record {
    current_mode = if enabled == 0 then none else some 0;
    modes =
        record { width = preferred.0; height = preferred.1 }
        ∷ other_modes preferred standard_timings;
    cursor = none;
  })

-- The mode that bounds the cursor: indices outside the list panic.
unfoldable pub cursor_mode : Output → Outcome MonitorMode
cursor_mode o = unwrap (get_elem? o.modes (elim (o.current_mode) [ none ↦ 0 | some i ↦ i ]))

-- `v.clamp(0, bound as i32) as u32`, which panics where `bound as i32` is negative.
unfoldable pub clamp : ℤ → ℕ → Outcome ℕ
clamp v bound =
    if ltb bound (2 ^ 31) then ok (elim v [ pos n ↦ min n bound | negsuc n ↦ 0 ]) else panic

-- An output with the channel that its methods use.
pub record Session (h : Host) : Type 0 where
  pub chan : State h.env
  pub output : Output

module _ (h : Host) where
  -- A method of the channel.
  abbrev pub moved : {A : Type 0} → Run (State h.env) A → Session h → Run (Session h) A
  moved (returned a c) s = returned a (record s { chan = c })
  moved (failed e c) s = failed e (record s { chan = c })
  moved panicked s = panicked

  abbrev pub on_chan : {A : Type 0} → Action (State h.env) A → Action (Session h) A
  on_chan m s = moved (m s.chan) s

  abbrev pub put_cursor : Cursor → Session h → Session h
  put_cursor c s = record s { output = record (s.output) { cursor = some c } }

  abbrev pub of_outcome :
      {A : Type 0} → Outcome A → (A → Action (Session h) (Unit {0})) → Action (Session h) (Unit {0})
  of_outcome (ok a) k s = k a s
  of_outcome (err e) k s = failed e s
  of_outcome panic k s = panicked

  -- A cursor of another one's pixels, at the place and with the hotspot of a cursor.
  abbrev pub show_pixels : ℕ → Cursor → Cursor → Action (State h.env) (Unit {0})
  show_pixels scanout empty c =
      Scanouts.update_cursor h scanout empty.pixels.id c.hotspot.0 c.hotspot.1 c.position.0
        c.position.1

  abbrev pub hide : ℕ → Cursor → Option Cursor → Action (Session h) (Unit {0})
  hide scanout empty none s = on_chan (show_pixels scanout empty empty) s
  hide scanout empty (some c) s =
      on_chan (show_pixels scanout empty c) (put_cursor (record c { hidden = true }) s)

  -- `empty` is a cursor that shows nothing.
  unfoldable pub hide_cursor : ℕ → Cursor → Action (Session h) (Unit {0})
  unfolding Scanouts.update_cursor
  hide_cursor scanout empty s = hide scanout empty s.output.cursor s

  abbrev pub show : ℕ → Cursor → Action (Session h) (Unit {0})
  show scanout c s =
      continue_with (on_chan (transfer_pixels h c) (put_cursor c s))
        (λ u. on_chan (update h scanout c))

  module _ (physical : ℕ → ℕ → ℕ) where
    abbrev pub place : ℕ → ℕ → ℕ → Option Cursor → Action (Session h) (Unit {0})
    place scanout x y (some c) s =
        if c.hidden
        then on_chan (update h scanout (record (set_position x y c) { hidden = false }))
            (put_cursor (record (set_position x y c) { hidden = false }) s)
        else on_chan (move_to h scanout (set_position x y c)) (put_cursor (set_position x y c) s)
    place scanout x y none s =
        continue_with (on_chan (try_new_cursor h physical 64 64 0 0 x y) s)
          (λ c t. returned tt (put_cursor c t))

    unfoldable pub move_cursor : ℕ → ℤ → ℤ → Action (Session h) (Unit {0})
    unfolding cursor_mode clamp set_position update move_to try_new_cursor
    move_cursor scanout x y s =
        of_outcome {A = ℕ × ℕ}
          (do
            mode ← cursor_mode s.output
            x' ← clamp x mode.width
            y' ← clamp y mode.height
            ok (x', y'))
          (λ p. place scanout p.0 p.1 s.output.cursor) s

    -- The cursor with its new hotspot, or a new one. The two coordinates of the hotspot change places
    -- in a new one.
    abbrev pub hotspot_set : ℕ → ℕ → Option Cursor → Action (Session h) Cursor
    hotspot_set y_hot x_hot (some c) s =
        returned (set_hotspot x_hot y_hot c) (put_cursor (set_hotspot x_hot y_hot c) s)
    hotspot_set y_hot x_hot none s =
        continue_with (on_chan (try_new_cursor h physical 64 64 y_hot x_hot 0 0) s)
          (λ c t. returned c (put_cursor c t))

    -- `update_cursor_bgra`, `update_cursor_mono` and `update_cursor_masked_color`.
    unfoldable pub update_cursor_shape : ℕ → ℕ → ℕ → Shape → Action (Session h) (Unit {0})
    unfolding set_hotspot try_new_cursor transfer_pixels update
    update_cursor_shape scanout y_hot x_hot shape s =
        continue_with (hotspot_set y_hot x_hot s.output.cursor s)
          (λ c. of_outcome (with_shape shape c) (show scanout))
