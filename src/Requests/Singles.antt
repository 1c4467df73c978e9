-- ===== src/Requests/Singles.antt =====
-- What the submission of one command hands to the queue handler.
use virtio_drivers_windows.Base.{
  ◌⊎◌, ◌≢◌, Bool, true, false, ℕ, suc, ◌≤◌, ◌≡◌, refl, Option, none, some, List, [], ◌∷◌, ◌++◌, ok,
  err, panic, Outcome, unsuccessful, replicate, inl, inr,
}
use virtio_drivers_windows.Buffers.{inline, dma}
use virtio_drivers_windows.Commands.{Command, CommandId, unless_patch}
use virtio_drivers_windows.Handler.Data.{GpuData, submit_engine, notify_dma_completed}
use virtio_drivers_windows.Handler.Interface.{AllocationsBatch, Buffer}
use virtio_drivers_windows.Nodes.{Engine}
use virtio_drivers_windows.Wire.{size_ctrl_header}
use virtio_drivers_windows.Requests.{State, Host}
use virtio_drivers_windows.Requests.Monad.{
  continue_with, or_drop, some_or, pure, Run, returned, failed, panicked,
}
use virtio_drivers_windows.Requests.Queues.{
  changed, drop_allocations, request_async_buf, Target, push_buffer, request_async_dma,
  dma_callback,
}
use virtio_drivers_windows.Requests.Submits.{is_nop, submit_command}
use virtio_drivers_windows.Requests.Batches.{waiting, Ready, push_buffer-waiting, zeroed-control}

module _ (h : Host) where
  abbrev pub command_buffer : Engine → ℕ → Option AllocationsBatch → List ℕ → Buffer
  command_buffer engine fence allocations bytes = record {
    input = dma bytes;
    output = inline size_ctrl_header (replicate h.env.control_out 0);
    callback = dma_callback h engine fence allocations;
  }

  -- A submission that needs no request, from the data after its start and after its notification.
  abbrev pub Notified : Outcome GpuData → State h.env → Run (State h.env) (Unit {0}) → Type 0
  Notified (ok d) s r = r ≡ returned tt (record s { gpu = d })
  Notified (err e) s r = (s' : State h.env) × (r ≡ failed e s') × (waiting h s' ≡ waiting h s)
  Notified panic s r = r ≡ panicked

  -- A submission that hands over one request, with these bytes.
  abbrev pub Handed :
      Engine → ℕ → GpuData → State h.env → Run (State h.env) (Unit {0}) → List ℕ → Type 0
  Handed engine fence d s r bytes =
      (s' : State h.env) × (r ≡ returned tt s')
      × Ready h s'
      × (waiting h s' ≡ waiting h s ++ (command_buffer engine fence none bytes ∷ []))
      × (s'.gpu ≡ d)

  -- A submission by what the command is: nothing to do, not ready to be sent, or ready with its memory.
  abbrev pub Submitted :
      Engine → ℕ → Command → GpuData → State h.env → Run (State h.env) (Unit {0}) → Type 0
  Submitted engine fence c d s r =
      ((c.id ≡ CommandId.nop)
        × Notified (notify_dma_completed h.env.platform.counter engine fence d) s r)
      ⊎ ((c.id ≢ CommandId.nop)
          × (((c.flags.needs_patch ≡ true) ⊎ (c.dma ≡ none))
                × (r ≡ failed unsuccessful (record s { gpu = d }))
              ⊎ ((bytes : List ℕ) × (c.flags.needs_patch ≡ false)
                  × (c.dma ≡ some bytes)
                  × Handed engine fence d s r bytes)))

  notified :
      (o : Outcome GpuData) (s : State h.env) (d : GpuData)
      → Notified o s (continue_with (changed h o (record s { gpu = d })) (λ u. pure tt))
  notified (ok d') s d = refl
  notified (err x) s d = (_, refl, refl)
  notified panic s d = refl

  -- What is left of a command's submission once its memory has been looked up.
  abbrev hand_over :
      Engine → ℕ → State h.env → GpuData → Option (List ℕ) → Run (State h.env) (Unit {0})
  hand_over engine fence s d o =
      continue_with
        (or_drop (some_or o unsuccessful) (drop_allocations h none) (record s { gpu = d }))
        (λ bytes. request_async_dma h Target.control size_ctrl_header bytes engine fence none)

  handed :
      (engine : Engine) (fence : ℕ) (s : State h.env) (d : GpuData) (bytes : List ℕ)
      → size_ctrl_header ≤ h.env.control_out
      → Ready h s
      → Handed engine fence d s (hand_over engine fence s d (some bytes)) bytes
  unfolding request_async_dma request_async_buf
  handed engine fence s d bytes l v =
      let s' : State h.env = record s { gpu = d; asked = suc s.asked } in
      let (v', w, g) = push_buffer-waiting h (command_buffer engine fence none bytes) s' v in
      (
        push_buffer h Target.control (command_buffer engine fence none bytes) s',
        rw (zeroed-control h (h.env.memory s.asked) l) refl,
        v',
        w,
        g,
      )

  hand_over_lem :
      (engine : Engine) (fence : ℕ) (s : State h.env) (d : GpuData) (patch : Bool)
      (o : Option (List ℕ))
      → size_ctrl_header ≤ h.env.control_out
      → Ready h s
      → (let r = hand_over engine fence s d (unless_patch patch o) in
          ((patch ≡ true) ⊎ (o ≡ none)) × (r ≡ failed unsuccessful (record s { gpu = d }))
          ⊎ ((bytes : List ℕ) × (patch ≡ false)
              × (o ≡ some bytes)
              × Handed engine fence d s r bytes))
  hand_over_lem engine fence s d true o l v = inl (inl refl, refl)
  hand_over_lem engine fence s d false none l v = inl (inr refl, refl)
  hand_over_lem engine fence s d false (some bytes) l v =
      inr (bytes, refl, refl, handed engine fence s d bytes l v)

  is_nop_lem :
      (id : CommandId) → (id ≡ CommandId.nop) ⊎ ((id ≢ CommandId.nop) × (is_nop id ≡ false))
  is_nop_lem CommandId.nop = inl refl
  is_nop_lem CommandId.submit = inr (λ e. cc, refl)
  is_nop_lem CommandId.transfer_to_host = inr (λ e. cc, refl)
  is_nop_lem CommandId.transfer_from_host = inr (λ e. cc, refl)
  is_nop_lem CommandId.fence = inr (λ e. cc, refl)
  is_nop_lem CommandId.map_aperture = inr (λ e. cc, refl)
  is_nop_lem CommandId.unmap_aperture = inr (λ e. cc, refl)

  -- A command without allocations, for an engine of the device. One whose identifier is that of
  -- `Nop` sends no request: its fence is notified as completed at once. Of any other, one without the
  -- flag that it needs a patch and with memory is handed over as one request with that memory and the
  -- fence, behind the requests that waited; one with the flag or without memory fails, and nothing
  -- waits for the fence that the submission started.
  pub submit_command-Handed :
      (engine : Engine) (fence : ℕ) (c : Command) (s : State h.env) (d : GpuData)
      → size_ctrl_header ≤ h.env.control_out
      → Ready h s
      → submit_engine h.env.platform.counter engine fence s.gpu ≡ ok d
      → Submitted engine fence c d s (submit_command h engine fence c none s)
  unfolding submit_command
  submit_command-Handed engine fence c s d l v e = elim (is_nop_lem c.id) [
    | inl n ↦
        inl
          (n, rw (n, e) (notified (notify_dma_completed h.env.platform.counter engine fence d) s d))
    | inr (n, f) ↦ inr (n, rw (f, e) (hand_over_lem engine fence s d c.flags.needs_patch c.dma l v))
  ]
