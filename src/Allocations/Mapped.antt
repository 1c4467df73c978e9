-- ===== src/Allocations/Mapped.antt =====
-- An allocation knows that it is mapped exactly if it knows where.
use virtio_drivers_windows.Base.{
  ℕ, ◌*◌, ◌/◌, ◌%◌, Bool, true, false, Bool-cases, Option, none, some, List, ◌≡◌, refl, sym, ap,
  ◌∙◌, ◌==◌, inl, inr, arith, u64_size, u32_size, no_memory, reinitialization_needed,
}
use virtio_drivers_windows.Wire.{ControlType, CtrlHeader, Message}
use virtio_drivers_windows.Requests.{State, Host}
use virtio_drivers_windows.Requests.Monad.{
  Run, returned, failed, panicked, Action, continue_with, pure, some_or, ◌>>=◌, ◌>>◌,
}
use virtio_drivers_windows.Requests.Queues.{Target, check, new_header, request_blocking}
use virtio_drivers_windows.Requests.Leaving.{Returns, Returns-then}
use virtio_drivers_windows.Requests.Resources.{resource_map_blob, resource_unmap_blob}
use virtio_drivers_windows.Devices.{Device, context_internal, context_map_blob, context_unmap_blob}
use virtio_drivers_windows.Allocations.{
  Blob, Resource, Allocation, Session, resource_3d, blob, is_mapped, set_flag_mapped, mapped_range,
  map_blob, unmap_blob, moved, unmap_taken,
}
use virtio_drivers_windows.Allocations.Calls.{
  Call, Answer, map_call, unmap_call, mapped, finished, offset_of, answer, run_call, Answered,
  Requested, Refused, Blamed,
}

abbrev pub has : {A : Type 0} → Option A → Bool
has none = false
has (some a) = true

pub has-none : {A : Type 0} (o : Option A) → has o ≡ false → o ≡ none
has-none none e = refl
has-none (some a) e = absurd (cc)

-- The flag of a mapped resource, against the offset.
abbrev pub Agrees : {Offset : Type 0} → Resource Offset → Bool → Type 0
Agrees r m = m ≡ has (offset_of r)

abbrev pub IsConsistent : {Offset : Type 0} → Allocation Offset → Type 0
IsConsistent a = Agrees a.resource (is_mapped a)

set_flag_mapped-true : (f : ℕ) → (set_flag_mapped f true / 2 % 2 == 1) ≡ true
unfolding set_flag_mapped
set_flag_mapped-true f = ground arith

set_flag_mapped-false : (f : ℕ) → (set_flag_mapped f false / 2 % 2 == 1) ≡ false
unfolding set_flag_mapped
set_flag_mapped-false f = ground arith

module _ (h : Host) where
  abbrev pub st : State h.env → ℕ → ℕ → Resource h.env.Offset → Option (List ℕ) → Session h
  st chan id flags resource cmd = record {
    chan = chan;
    alloc = record { id = id; flags = flags; resource = resource; cmd = cmd };
  }

  -- What there is after a call.
  abbrev pub Served : Call → Session h → Run (Session h) Answer → Type 0
  Served c s (returned x t) =
      IsConsistent t.alloc × Requested h c s × Answered h c s.alloc x t.alloc
  Served c s (failed e t) = IsConsistent t.alloc × Refused h c s.alloc t.alloc
  Served c s panicked = Blamed h c s

  abbrev place_of : h.env.Offset → ℕ
  place_of o = h.env.offset o * h.env.platform.page_size % u64_size

  abbrev InPlace : h.env.Offset × ℕ × ℕ → Type 0
  InPlace r = r.1 ≡ place_of (r.0)

  mapped-Served :
      (d : Device) (chan : State h.env) (id flags : ℕ) (b : Blob h.env.Offset)
      (cmd : Option (List ℕ)) (r : Run (State h.env) (h.env.Offset × ℕ × ℕ))
      → Returns InPlace r
      → b.map ≡ none
      → Agrees (blob b) (flags / 2 % 2 == 1)
      → Served (map_call d) (st chan id flags (blob b) cmd) (
          answer h {A = ℕ × ℕ × ℕ}
            (λ q. mapped (q.0) (q.1) (q.2))
            (continue_with (moved h r (st chan id flags (blob b) cmd)) (λ q t.
              returned
                (q.1, b.size, q.2)
                (record t {
                  alloc = record (t.alloc) {
                    flags = set_flag_mapped t.alloc.flags true;
                    resource = blob (record b { map = some (q.0) });
                  };
                }))))
  unfolding mapped_range
  mapped-Served d chan id flags b cmd (returned q chan') p n c =
      (set_flag_mapped-true flags, tt, (rw n refl, ap (λ k. some (k, b.size)) (sym p)))
  mapped-Served d chan id flags b cmd (failed e chan') p n c = (c, refl)
  mapped-Served d chan id flags b cmd panicked p n c = tt

  resource_map_blob-place :
      (ctx id size : ℕ) (s : State h.env) → Returns InPlace (resource_map_blob h ctx id size s)
  unfolding resource_map_blob
  resource_map_blob-place ctx id size s =
      let pages = size / h.env.platform.page_size % u32_size in
      let taken = h.env.allocate s.offsets pages in
      let s' = record s { offsets = taken.1 } in
      let asked : h.env.Offset → CtrlHeader → Action (State h.env) (h.env.Offset × ℕ × ℕ) =
        λ o header.
          request_blocking h Target.control h.env.wire.size_resp_map_info
            (Message.cmd_resource_map_blob header id (place_of o))
          >>= λ resp.
              (check h resp ControlType.ok_map_info
                >> pure (o, place_of o, h.env.wire.map_info resp)) in
      Returns-then InPlace (some_or (taken.0) no_memory s')
        (λ o. new_header h ControlType.resource_map_blob true (some ctx) none >>= asked o)
        λ o t.
          Returns-then InPlace (new_header h ControlType.resource_map_blob true (some ctx) none t)
            (asked o)
            λ header t'.
              Returns-then InPlace
                (request_blocking h Target.control h.env.wire.size_resp_map_info
                  (Message.cmd_resource_map_blob header id (place_of o)) t')
                (λ resp.
                  check h resp ControlType.ok_map_info
                  >> pure (o, place_of o, h.env.wire.map_info resp))
                λ resp t''.
                  Returns-then InPlace (check h resp ControlType.ok_map_info t'')
                    (λ u. pure (o, place_of o, h.env.wire.map_info resp)) λ u v. refl

  context_map_blob-place :
      (d : Device) (id size : ℕ) (s : State h.env)
      → Returns InPlace (context_map_blob h d id size s)
  unfolding context_map_blob
  context_map_blob-place d id size s =
      Returns-then InPlace (some_or (context_internal d false) reinitialization_needed s)
        (λ c. resource_map_blob h c.0 id size) λ c t. resource_map_blob-place c.0 id size t

  pub map-Served :
      (d : Device) (chan : State h.env) (id flags : ℕ) (r : Resource h.env.Offset)
      (cmd : Option (List ℕ))
      → Agrees r (flags / 2 % 2 == 1)
      → Served
          (map_call d)
          (st chan id flags r cmd)
          (run_call h (map_call d) (st chan id flags r cmd))
  unfolding run_call map_blob
  map-Served d chan id flags (resource_3d n) cmd c = (c, refl)
  map-Served d chan id flags (blob b) cmd c = elim (Bool-cases (b.flags % 2 == 1)) [
    | inr e ↦ rw e (c, refl)
    | inl e ↦ rw e (elim (Bool-cases (flags / 2 % 2 == 1)) [
      | inl m ↦ rw m (c, refl)
      | inr m ↦ rw m (
          mapped-Served d chan id flags b cmd (context_map_blob h d id b.size chan)
            (context_map_blob-place d id b.size chan) (has-none b.map (sym c ∙ m)) c)
    ])
  ]

  unmapped-Served :
      (d : Device) (chan : State h.env) (id flags : ℕ) (b : Blob h.env.Offset)
      (cmd : Option (List ℕ)) (o : h.env.Offset) (r : Run (State h.env) (Unit {0}))
      → b.map ≡ some o
      → resource_unmap_blob h id o chan ≡ r
      → Served (unmap_call d) (st chan id flags (blob b) cmd) (
          answer h {A = Unit {0}}
            (λ u. finished)
            (moved h r
              (st chan id (set_flag_mapped flags false) (blob (record b { map = none })) cmd)))
  unfolding mapped_range
  unmapped-Served d chan id flags b cmd o (returned u chan') n e =
      (set_flag_mapped-false flags, tt, refl)
  unmapped-Served d chan id flags b cmd o (failed x chan') n e = (set_flag_mapped-false flags, refl)
  unmapped-Served d chan id flags b cmd o panicked n e = (o, n, e)

  taken-Served :
      (d : Device) (chan : State h.env) (id flags : ℕ) (b : Blob h.env.Offset)
      (cmd : Option (List ℕ)) (o : Option h.env.Offset)
      → b.map ≡ o
      → has o ≡ true
      → Served (unmap_call d) (st chan id flags (blob b) cmd) (
          answer h {A = Unit {0}}
            (λ u. finished)
            (unmap_taken h d b o (st chan id flags (blob b) cmd)))
  unfolding context_unmap_blob
  taken-Served d chan id flags b cmd none n t = absurd (cc)
  taken-Served d chan id flags b cmd (some o) n t =
      unmapped-Served d chan id flags b cmd o (resource_unmap_blob h id o chan) n refl

  pub unmap-Served :
      (d : Device) (chan : State h.env) (id flags : ℕ) (r : Resource h.env.Offset)
      (cmd : Option (List ℕ))
      → Agrees r (flags / 2 % 2 == 1)
      → Served
          (unmap_call d)
          (st chan id flags r cmd)
          (run_call h (unmap_call d) (st chan id flags r cmd))
  unfolding run_call unmap_blob mapped_range
  unmap-Served d chan id flags (resource_3d n) cmd c = rw c (c, refl)
  unmap-Served d chan id flags (blob b) cmd c = elim (Bool-cases (flags / 2 % 2 == 1)) [
    | inl m ↦ rw m (taken-Served d chan id flags b cmd b.map refl (sym c ∙ m))
    | inr m ↦ rw m (c, rw (has-none b.map (sym c ∙ m)) refl)
  ]
