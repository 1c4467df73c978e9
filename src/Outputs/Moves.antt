-- ===== src/Outputs/Moves.antt =====
-- Hiding and moving the cursor of an output.
use virtio_drivers_windows.Base.{
  inl, inr, dec_le, ℕ, ◌≤◌, ◌≡◌, refl, Bool, true, false, Option, none, some, Outcome, ok, err,
  panic, ◌>>=◌, arith, ℤ, pos, negsuc, ap, subst, sym, if◌then◌else◌,
}
use virtio_drivers_windows.Requests.{State, Host}
use virtio_drivers_windows.Requests.Monad.{Run, returned, failed, panicked, continue_with}
use virtio_drivers_windows.Outputs.Pointers.{Cursor, set_position, try_new_cursor, move_to, update}
use virtio_drivers_windows.Outputs.Displays.{
  MonitorMode, Session, cursor_mode, clamp, on_chan, moved, put_cursor, of_outcome, place,
  show_pixels, hide,
}
use virtio_drivers_windows.Outputs.Placed.{IsHeld, Held, IsPlaced, try_new_cursor-IsHeld}
use virtio_drivers_windows.Requests.Leaving.{Leaves, Leaves-map, Returns}
use virtio_drivers_windows.Outputs.Asked.{update_cursor-Sent, move_cursor-Sent}
use virtio_drivers_windows.Outputs.Calls.{
  move_call, Hidden, Moving, Moved, Showing, Done, Served, Serves, Clamped,
}

clamp-le : (v : ℤ) (b r : ℕ) → clamp v b ≡ ok r → r ≤ b
unfolding clamp
clamp-le (pos n) b r e = ground arith
clamp-le (negsuc n) b r e = ground arith

clamp-Clamped : (v : ℤ) (b r : ℕ) → clamp v b ≡ ok r → Clamped v b r
unfolding clamp
clamp-Clamped (pos n) b r e = elim (dec_le n b) [
  | yes l ↦ inl (l, ground arith)
  | no g ↦ inr (omega arith, ground arith)
]
clamp-Clamped (negsuc n) b r e = ground arith

module _ (h : Host) (physical : ℕ → ℕ → ℕ) (m : MonitorMode) where
  abbrev pub Placed : Session h → Type 0
  Placed t = IsPlaced m t.output

  -- A method of the channel leaves the output alone.
  pub sent :
      (D : Session h → Type 0) (K : State h.env → Type 0) (r : Run (State h.env) (Unit {0}))
      (s : Session h)
      → Leaves (λ u c. K c) (λ c. Unit {0}) r
      → Placed s
      → ((c : State h.env) → K c → D (record s { chan = c }))
      → Serves h m D (moved h r s)
  sent D K (returned u c) s k p done = (p, done c k)
  sent D K (failed e c) s k p done = p
  sent D K panicked s k p done = tt

  pub put-IsPlaced :
      (c : Cursor) (s : Session h) → IsHeld m c → Placed s → Placed (put_cursor h c s)
  unfolding cursor_mode
  put-IsPlaced c s held p = record { mode = p.mode; held = held }

  pub hide-Hidden :
      (scanout : ℕ) (empty : Cursor) (o : Option Cursor) (s : Session h)
      → s.output.cursor ≡ o
      → Held m o
      → Placed s
      → Serves h m (Hidden h scanout empty o s) (hide h scanout empty o s)
  hide-Hidden scanout empty none s e held p =
      sent (Hidden h scanout empty none s) _ (show_pixels h scanout empty empty s.chan) s
        (update_cursor-Sent h scanout empty.pixels.id empty.hotspot.0 empty.hotspot.1
          empty.position.0 empty.position.1 s.chan)
        p (λ c k. (e, k))
  hide-Hidden scanout empty (some c) s e held p =
      let c' = record c { hidden = true } in
      sent (Hidden h scanout empty (some c) s) _ (show_pixels h scanout empty c s.chan)
        (put_cursor h c' s)
        (update_cursor-Sent h scanout empty.pixels.id c.hotspot.0 c.hotspot.1 c.position.0
          c.position.1 s.chan)
        (put-IsPlaced c' s
          (record {
            inside_x = held.inside_x;
            inside_y = held.inside_y;
            columns = held.columns;
            rows = held.rows;
            bytes = held.bytes;
          })
          p)
        (λ t k. (refl, k))

  pub update-Showing :
      (scanout : ℕ) (c : Cursor) (s : State h.env)
      → Leaves (λ u t. Showing h scanout c.pixels.id c s t) (λ t. Unit {0}) (update h scanout c s)
  unfolding update
  update-Showing scanout c s =
      update_cursor-Sent h scanout c.pixels.id c.hotspot.0 c.hotspot.1 c.position.0 c.position.1 s

  move_to-Moving :
      (scanout : ℕ) (c : Cursor) (s : State h.env)
      → Leaves (λ u t. Moving h false scanout c s t) (λ t. Unit {0}) (move_to h scanout c s)
  unfolding move_to
  move_to-Moving scanout c s = move_cursor-Sent h scanout c.position.0 c.position.1 s

  module _ (scanout x y : ℕ) (in_x : x ≤ m.width) (in_y : y ≤ m.height) where
    -- The cursor at its new place, shown.
    abbrev placed_at : Cursor → Cursor
    placed_at c = record c { position = (x, y); hidden = false }

    placed_at-IsHeld : (c : Cursor) → IsHeld m c → IsHeld m (placed_at c)
    placed_at-IsHeld c held = record {
      inside_x = in_x;
      inside_y = in_y;
      columns = held.columns;
      rows = held.rows;
      bytes = held.bytes;
    }

    -- Whether a cursor is hidden decides on the request.
    abbrev At : Cursor → Bool → Session h → Session h → Type 0
    At c b s t =
        (t.output.cursor ≡ some (placed_at c)) × Moving h b scanout (placed_at c) s.chan t.chan

    place_some :
        (c : Cursor) (b : Bool) (s : Session h)
        → c.hidden ≡ b
        → IsHeld m c
        → Placed s
        → Serves h m (At c b s) (
            if b
            then on_chan h
                (update h scanout (record (set_position x y c) { hidden = false }))
                (put_cursor h (record (set_position x y c) { hidden = false }) s)
            else on_chan h
                (move_to h scanout (set_position x y c))
                (put_cursor h (set_position x y c) s))
    unfolding set_position
    place_some c true s e held p =
        sent (At c true s) _ (update h scanout (placed_at c) s.chan) (put_cursor h (placed_at c) s)
          (update-Showing scanout (placed_at c) s.chan)
          (put-IsPlaced (placed_at c) s (placed_at-IsHeld c held) p) (λ t k. (refl, k))
    place_some c false s e held p =
        let same : placed_at c ≡ set_position x y c =
          ap (λ b. record c { position = (x, y); hidden = b }) (sym e) in
        subst (λ k. Serves h m (At c false s) (on_chan h (move_to h scanout k) (put_cursor h k s)))
          same
          (sent (At c false s) _ (move_to h scanout (placed_at c) s.chan)
            (put_cursor h (placed_at c) s) (move_to-Moving scanout (placed_at c) s.chan)
            (put-IsPlaced (placed_at c) s (placed_at-IsHeld c held) p) (λ t k. (refl, k)))

    -- The first move makes the cursor.
    place_none :
        (r : Run (State h.env) Cursor) (s : Session h)
        → Returns
            (λ c. IsHeld m c × (c.position ≡ (x, y)) × (c.hidden ≡ false) × (c.hotspot ≡ (0, 0)))
            r
        → Placed s
        → Serves h m
            (Moved h scanout x y none s)
            (continue_with (moved h r s) (λ c t. returned tt (put_cursor h c t)))
    place_none (returned c chan) s q p =
        (put-IsPlaced c (record s { chan = chan }) q.0 p, (c, refl, q.1, q.2))
    place_none (failed e chan) s q p = p
    place_none panicked s q p = tt

    pub place-Moved :
        (o : Option Cursor) (s : Session h)
        → Held m o
        → Placed s
        → Serves h m (Moved h scanout x y o s) (place h physical scanout x y o s)
    place-Moved (some c) s held p = place_some c c.hidden s refl held p
    place-Moved none s held p =
        place_none (try_new_cursor h physical 64 64 0 0 x y s.chan) s
          (try_new_cursor-IsHeld h physical m 0 0 x y s.chan in_x in_y) p

  pub moved_to :
      (scanout : ℕ) (v w : ℤ) (ox oy : Outcome ℕ) (s : Session h)
      → clamp v m.width ≡ ox
      → clamp w m.height ≡ oy
      → Placed s
      → Served h m (move_call scanout v w) s (
          of_outcome h
            (do x ← ox; y ← oy; ok (x, y))
            (λ (p : ℕ × ℕ). place h physical scanout p.0 p.1 s.output.cursor)
            s)
  moved_to scanout v w (ok x) (ok y) s ex ey p =
      Leaves-map (λ u t. Placed t × Moved h scanout x y s.output.cursor s t)
        (λ u t. Placed t × Done h m (move_call scanout v w) s t) Placed Placed
        (place h physical scanout x y s.output.cursor s)
        (place-Moved scanout x y (clamp-le v m.width x ex) (clamp-le w m.height y ey)
          s.output.cursor s p.held p)
        (λ u t q. (q.0, (x, y, clamp-Clamped v m.width x ex, clamp-Clamped w m.height y ey, q.1)))
        (λ t q. q)
  moved_to scanout v w (ok x) (err e) s ex ey p = p
  moved_to scanout v w (ok x) panic s ex ey p = tt
  moved_to scanout v w (err e) oy s ex ey p = p
  moved_to scanout v w panic oy s ex ey p = tt
