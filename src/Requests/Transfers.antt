-- ===== src/Requests/Transfers.antt =====
-- What a refused transfer does to the identifier of its resource.
use virtio_drivers_windows.Base.{
  ℕ, ◌≡◌, refl, sym, subst, true, none, List, [], ◌∷◌, ◌⊎◌, inl, inr, arith, contains,
  contains-append,
}
use virtio_drivers_windows.Handler.Errors.{VirtioError, from_virtio_error}
use virtio_drivers_windows.Ids.{free}
use virtio_drivers_windows.Ids.Owned.{IsValid}
use virtio_drivers_windows.Wire.{Message, ControlType, CtrlHeader, Rect, size_ctrl_header}
use virtio_drivers_windows.Wire.Headers
use virtio_drivers_windows.Requests.{State, Host}
use virtio_drivers_windows.Requests.Monad.{
  Run, returned, failed, panicked, on_err, inspect_err, continue_with,
}
use virtio_drivers_windows.Requests.Queues.{Target, check, checked, request_blocking}
use virtio_drivers_windows.Requests.Resources.{
  free_resource, send_or_free, resource_transfer_to_host_2d,
}
use virtio_drivers_windows.Requests.Keeping.{Keeps, Kept, request_blocking-Keeping}
use virtio_drivers_windows.Requests.Owned.{held_pool, state_pool}

module _ (h : Host) where
  abbrev pub Answered :
      List ℕ → State h.env → Run (State h.env) (Unit {0}) → VirtioError ⊎ Unit {0} → Type 0
  Answered held s r (inr u) = (r ≡ returned tt s) × IsValid 1 (state_pool h s held)
  Answered held s r (inl e) =
      (s' : State h.env) × (r ≡ failed (from_virtio_error e) s')
      × ¬ IsValid 1 (state_pool h s' held)

  -- What is to come of a transfer, from what came of its request.
  abbrev pub Transferred :
      List ℕ → Run (State h.env) (List ℕ) → Run (State h.env) (Unit {0}) → Type 0
  Transferred held (returned resp s) r =
      Answered held s r (h.env.wire.check_type resp ControlType.ok_nodata)
  Transferred held (failed e s) r = (r ≡ failed e s) × IsValid 1 (state_pool h s held)
  Transferred held panicked r = r ≡ panicked

  answer-Answered :
      (held : List ℕ) (id : ℕ) (s : State h.env) (x : VirtioError ⊎ Unit {0})
      → contains held id ≡ true
      → IsValid 1 (state_pool h s held)
      → Answered held s (on_err (checked h x s) (free_resource h id)) x
  unfolding free
  answer-Answered held id s (inl e) c v = (
    _,
    refl,
    λ w. ground (arith, w.apart id, contains-append s.gpu.resource_id.free_ids (id ∷ []) id),
  )
  answer-Answered held id s (inr u) c v = (refl, v)

  transferred :
      (held : List ℕ) (id : ℕ) (s : State h.env) (r : Run (State h.env) (List ℕ))
      → contains held id ≡ true
      → IsValid 1 (state_pool h s held)
      → Kept h s r
      → Transferred held r (
          continue_with r
            (λ resp. inspect_err (check h resp ControlType.ok_nodata) (free_resource h id)))
  transferred held id s (returned resp s') c v k =
      answer-Answered held id s' (h.env.wire.check_type resp ControlType.ok_nodata) c
        (subst (λ ids. IsValid 1 (held_pool ids held)) (sym k) v)
  transferred held id s (failed e s') c v k =
      (refl, subst (λ ids. IsValid 1 (held_pool ids held)) (sym k) v)
  transferred held id s panicked c v k = refl

  -- If nobody takes or gives back an identifier while the sender waits, then a transfer to a resource
  -- in use, from a valid pool, leaves the pool valid where the device accepts it and where there is no
  -- response. Where the device refuses it, the transfer fails, and the pool with the same identifiers
  -- in use is not valid any more.
  pub resource_transfer_to_host_2d-Transferred :
      (rect : Rect) (offset id : ℕ) (held : List ℕ) (s : State h.env)
      → Keeps h
      → contains held id ≡ true
      → IsValid 1 (state_pool h s held)
      → (header : CtrlHeader) × (s' : State h.env) × Transferred held
          (request_blocking h Target.control size_ctrl_header
            (Message.transfer_to_host_2d header rect offset id)
            s')
          (resource_transfer_to_host_2d h rect offset id s)
  unfolding resource_transfer_to_host_2d send_or_free
  resource_transfer_to_host_2d-Transferred rect offset id held s k c v =
      let (header, t) =
        Headers.new_header ControlType.transfer_to_host_2d true none none s.gpu.fence in
      let s' : State h.env = record s { gpu = record (s.gpu) { fence = t } } in
      (
        header,
        s',
        transferred held id s'
            (request_blocking h Target.control size_ctrl_header
              (Message.transfer_to_host_2d header rect offset id) s')
            c v
            (request_blocking-Keeping h k Target.control size_ctrl_header
              (Message.transfer_to_host_2d header rect offset id) s'),
      )
