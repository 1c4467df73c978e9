-- ===== src/Outputs/Asked.antt =====
-- The requests for the cursor of an output.
use virtio_drivers_windows.Base.{ℕ, suc, Bool, true, none, ok, ◌≡◌, refl}
use virtio_drivers_windows.Buffers.{MaybeInlineBuffer, try_new_zeroed_size, try_from_value}
use virtio_drivers_windows.Handler.Interface.{Callback}
use virtio_drivers_windows.Tracker.{FenceTracker}
use virtio_drivers_windows.Wire.{ControlType, Message, size_ctrl_header}
use virtio_drivers_windows.Wire.Headers
use virtio_drivers_windows.Requests.{State, Host}
use virtio_drivers_windows.Requests.Queues.{
  Target, push_buffer, request_async, zeroed_buffer, value_buffer,
}
use virtio_drivers_windows.Requests.Scanouts
use virtio_drivers_windows.Requests.Leaving.{Leaves, Leaves-bind, lift-keeps}

module _ (h : Host) where
  -- The message of a request for the cursor.
  abbrev pub cursor_message :
      ControlType → (scanout id hot_x hot_y x y : ℕ) → FenceTracker → Message
  cursor_message type scanout id hot_x hot_y x y tracker =
      Message.update_cursor (Headers.new_header type true none none tracker).0
        (record { scanout_id = scanout; x = x; y = y }) id hot_x hot_y

  -- One request more waits in the channel of the cursor, with this message.
  abbrev pub CursorSent :
      ControlType → (scanout id hot_x hot_y x y : ℕ) → State h.env → State h.env → Type 0
  CursorSent type scanout id hot_x hot_y x y c c' =
      (tracker : FenceTracker) × (memory : Bool) × (input output : MaybeInlineBuffer)
      × (before : State h.env) × (before.cursor ≡ c.cursor)
      × (try_from_value h.env.platform.page_size h.env.cursor_in memory
            (h.env.wire.bytes (cursor_message type scanout id hot_x hot_y x y tracker))
          ≡ ok input)
      × (c'
          ≡ push_buffer h Target.cursor
              (record { input = input; output = output; callback = Callback.nothing }) before)

  module _ (type : ControlType) (scanout id hot_x hot_y x y : ℕ) (c : State h.env) where
    abbrev SameCursor : State h.env → Type 0
    SameCursor t = t.cursor ≡ c.cursor

    abbrev Sent : State h.env → Type 0
    Sent t = CursorSent type scanout id hot_x hot_y x y c t

    request_async-CursorSent :
        (tracker : FenceTracker) (s : State h.env)
        → SameCursor s
        → Leaves
            (λ u t. Sent t)
            (λ t. Unit {0})
            (request_async h Target.cursor size_ctrl_header
              (cursor_message type scanout id hot_x hot_y x y tracker)
              Callback.nothing
              s)
    unfolding request_async
    request_async-CursorSent tracker s e =
        let zeroed =
          try_new_zeroed_size h.env.platform.page_size h.env.cursor_out (h.env.memory s.asked)
            size_ctrl_header in
        let msg = cursor_message type scanout id hot_x hot_y x y tracker in
        Leaves-bind (λ output t. SameCursor t × (zeroed ≡ ok output)) (λ u t. Sent t)
          (λ t. Unit {0}) (zeroed_buffer h Target.cursor size_ctrl_header s) _
          (lift-keeps SameCursor zeroed (record s { asked = suc s.asked }) e)
          λ output t q.
            let value =
              try_from_value h.env.platform.page_size h.env.cursor_in (h.env.memory t.asked)
                (h.env.wire.bytes msg) in
            Leaves-bind (λ input t'. SameCursor t' × (value ≡ ok input)) (λ u t'. Sent t')
              (λ t'. Unit {0}) (value_buffer h Target.cursor msg t) _
              (lift-keeps SameCursor value (record t { asked = suc t.asked }) q.0)
              λ input t' r. (tracker, h.env.memory t.asked, input, output, t', r.0, r.1, refl)

  pub update_cursor-Sent :
      (scanout id hot_x hot_y x y : ℕ) (c : State h.env)
      → Leaves
          (λ u t. CursorSent ControlType.update_cursor scanout id hot_x hot_y x y c t)
          (λ t. Unit {0})
          (Scanouts.update_cursor h scanout id hot_x hot_y x y c)
  unfolding Scanouts.update_cursor
  update_cursor-Sent scanout id hot_x hot_y x y c =
      let f = (Headers.new_header ControlType.update_cursor true none none c.gpu.fence).1 in
      request_async-CursorSent ControlType.update_cursor scanout id hot_x hot_y x y c c.gpu.fence
        (record c { gpu = record (c.gpu) { fence = f } }) refl

  pub move_cursor-Sent :
      (scanout x y : ℕ) (c : State h.env)
      → Leaves
          (λ u t. CursorSent ControlType.move_cursor scanout 0 0 0 x y c t)
          (λ t. Unit {0})
          (Scanouts.move_cursor h scanout x y c)
  unfolding Scanouts.move_cursor
  move_cursor-Sent scanout x y c =
      let f = (Headers.new_header ControlType.move_cursor true none none c.gpu.fence).1 in
      request_async-CursorSent ControlType.move_cursor scanout 0 0 0 x y c c.gpu.fence
        (record c { gpu = record (c.gpu) { fence = f } }) refl
