-- ===== src/Requests/Owned.antt =====
-- Who owns a resource identifier after its request.
use virtio_drivers_windows.Base.{ℕ, ◌≤◌, ◌<◌, ◌≡◌, false, none, List, ◌∷◌, ◌⊎◌, inl, inr, contains}
use virtio_drivers_windows.Ids.{SimpleIdAllocator, u32_max}
use virtio_drivers_windows.Ids.Owned.{Pool, IsValid}
use virtio_drivers_windows.Wire.Headers
use virtio_drivers_windows.Requests.{State, Host}
use virtio_drivers_windows.Requests.Monad.{
  Run, returned, failed, panicked, Action, ◌>>=◌, some_or, continue_with,
}
use virtio_drivers_windows.Base.{no_memory, true}
use virtio_drivers_windows.Handler.Errors.{VirtioError, from_virtio_error}
use virtio_drivers_windows.Wire.{Message, ControlType, CtrlHeader, size_ctrl_header}
use virtio_drivers_windows.Requests.{State, Host}
use virtio_drivers_windows.Requests.Monad.{
  Run, returned, failed, panicked, Action, pure, ◌>>=◌, ◌>>◌, some_or, inspect_err, continue_with,
}
use virtio_drivers_windows.Requests.Queues.{Target, new_header, check, request_blocking}
use virtio_drivers_windows.Requests.Resources.{next_resource_id, free_resource, send_or_free}

abbrev pub held_pool : SimpleIdAllocator → List ℕ → Pool
held_pool ids held = record { ids = ids; held = held }

-- Giving back the identifier that was taken last leaves in use what was in use before.
abbrev pub SameHeld : SimpleIdAllocator → List ℕ → Type 0
SameHeld ids held =
    (held' : List ℕ) × IsValid 1 (held_pool ids held')
    × ((a : ℕ) → contains held' a ≡ contains held a)

module _ (h : Host) where
  abbrev pub state_pool : State h.env → List ℕ → Pool
  state_pool s held = held_pool s.gpu.resource_id held

  -- What is to come of a request to create the resource `id`, from the check of its response: the
  -- identifier goes to the caller, or it is given back.
  abbrev pub Answered :
      List ℕ → ℕ → State h.env → Run (State h.env) ℕ → VirtioError ⊎ Unit {0} → Type 0
  Answered held id s r (inr u) = (r ≡ returned id s) × IsValid 1 (state_pool s (id ∷ held))
  Answered held id s r (inl e) =
      (s' : State h.env) × (r ≡ failed (from_virtio_error e) s') × SameHeld s'.gpu.resource_id held

  -- The same from what came of the request: without a response the caller gets an error, and the
  -- identifier stays in use.
  abbrev pub Settled : List ℕ → ℕ → Run (State h.env) (List ℕ) → Run (State h.env) ℕ → Type 0
  Settled held id (returned resp s) r =
      Answered held id s r (h.env.wire.check_type resp ControlType.ok_nodata)
  Settled held id (failed e s) r = (r ≡ failed e s) × IsValid 1 (state_pool s (id ∷ held))
  Settled held id panicked r = r ≡ panicked

  -- The rest of a request to create the resource `id`, from what came of the request.
  settle : ℕ → Run (State h.env) (List ℕ) → Run (State h.env) ℕ
  settle id r =
      continue_with
        (continue_with r
          (λ resp. inspect_err (check h resp ControlType.ok_nodata) (free_resource h id)))
        (λ u. pure id)

  -- What came of an attempt to create a resource in a state.
  abbrev pub Created :
      (ℕ → CtrlHeader → Message) → List ℕ → State h.env → Run (State h.env) ℕ → Type 0
  Created message held s r =
      ((s' : State h.env) × (r ≡ failed no_memory s') × IsValid 1 (state_pool s' held))
      ⊎ ((id : ℕ) × (header : CtrlHeader) × (s' : State h.env) × (contains held id ≡ false)
          × (1 ≤ id)
          × (id < u32_max)
          × Settled held id
              (request_blocking h Target.control size_ctrl_header (message id header) s') r)

  -- The common steps of the two functions that create a resource.
  create : ControlType → (ℕ → CtrlHeader → Message) → Action (State h.env) ℕ
  create hdr_type message = do
    id ← next_resource_id h
    resource_id ← some_or id no_memory
    header ← new_header h hdr_type true none none
    send_or_free h resource_id (message resource_id header)
    pure resource_id
