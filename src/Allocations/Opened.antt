-- ===== src/Allocations/Opened.antt =====
-- Opening an allocation, which creates its blob once.
use virtio_drivers_windows.Base.{
  ℕ, ◌+◌, ◌/◌, ◌%◌, Bool, true, false, Bool-cases, Option, none, some, List, ◌≡◌, refl, sym, ap,
  subst, ◌∙◌, ◌==◌, inl, inr, arith, if◌then◌else◌, not, ◌&&◌,
}
use virtio_drivers_windows.Requests.{State, Host}
use virtio_drivers_windows.Requests.Monad.{Run, returned, failed, panicked, Action, pure, ◌>>◌}
use virtio_drivers_windows.Requests.Leaving.{Leaves, Leaves-bind, Leaves-map, Returns, Returns-then}
use virtio_drivers_windows.Devices.{
  Device, context_internal, context_submit_3d, context_create_blob, context_attach_virgl,
  context_attach_resource_internal,
}
use virtio_drivers_windows.Allocations.{
  Resource, Allocation, Session, DeviceSpecific, resource_3d, blob, is_created, is_mapped, is_blob,
  mapped_range, open_on, moved, send_cmd, create, runs_virgl, create_once, attach,
}
use virtio_drivers_windows.Allocations.Asked.{
  CmdSent, BlobMade, context_submit_3d-CmdSent, context_create_blob-Accepted,
}
use virtio_drivers_windows.Allocations.Calls.{open_call, opened, offset_of, answer, run_call}
use virtio_drivers_windows.Allocations.Mapped.{IsConsistent, Served, st, has}

flag_created : (f : ℕ) → (f % 2 == 1) ≡ false → ((f + 1) / 2 % 2 == 1) ≡ (f / 2 % 2 == 1)
flag_created f e = ground arith

flag_created_now : (f : ℕ) → (f % 2 == 1) ≡ false → ((f + 1) % 2 == 1) ≡ true
flag_created_now f e = ground arith

module _ (h : Host) where
  -- What opening leaves as it is.
  abbrev Same : Allocation h.env.Offset → Allocation h.env.Offset → Type 0
  Same a a' = (a'.resource ≡ a.resource) × (is_mapped a' ≡ is_mapped a)

  abbrev Sent : Allocation h.env.Offset → Allocation h.env.Offset → Type 0
  Sent a a' = Same a a' × (a'.cmd ≡ none) × (a'.id ≡ a.id) × (is_created a' ≡ is_created a)

  abbrev Created : Allocation h.env.Offset → Allocation h.env.Offset → Type 0
  Created a a' = Same a a' × (a'.cmd ≡ none) × (is_created a' ≡ true)

  -- A method of the channel leaves the allocation alone.
  moved_same :
      {A : Type 0} (P Q : Allocation h.env.Offset → Type 0) (K : State h.env → Type 0)
      (r : Run (State h.env) A) (s : Session h)
      → Leaves (λ a c. K c) (λ c. Unit {0}) r
      → P s.alloc
      → Q s.alloc
      → Leaves (λ a t. P t.alloc × K t.chan) (λ t. Q t.alloc) (moved h r s)
  moved_same P Q K (returned a c) s k p q = (p, k)
  moved_same P Q K (failed e c) s k p q = q
  moved_same P Q K panicked s k p q = tt

  send_cmd-Sent :
      (d : Device) (chan : State h.env) (id flags : ℕ) (r : Resource h.env.Offset)
      (cmd : Option (List ℕ))
      → let s = st h chan id flags r cmd in
        Leaves
          (λ u t. Sent s.alloc t.alloc × CmdSent h cmd chan t.chan)
          (λ t. Same s.alloc t.alloc)
          (send_cmd h d cmd s)
  send_cmd-Sent d chan id flags r none = (((refl, refl), refl, refl, refl), refl)
  send_cmd-Sent d chan id flags r (some cmd) =
      let s = st h chan id flags r (some cmd) in
      moved_same (Sent s.alloc) (Same s.alloc) (CmdSent h (some cmd) chan)
        (context_submit_3d h d cmd chan) (st h chan id flags r none)
        (context_submit_3d-CmdSent h chan d cmd) ((refl, refl), refl, refl, refl) (refl, refl)

  create-Created :
      (d : Device) (a : Allocation h.env.Offset) (r : Resource h.env.Offset) (s : Session h)
      → Created a s.alloc
      → Leaves
          (λ u t. Created a t.alloc × BlobMade h s.alloc.id false r s.chan t.chan)
          (λ t. Same a t.alloc)
          (create h d r s)
  create-Created d a (resource_3d n) s p = (p, refl)
  create-Created d a (blob b) s p =
      moved_same (Created a) (Same a) (BlobMade h s.alloc.id false (blob b) s.chan)
        (context_create_blob h d s.alloc.id b.id b.mem b.flags b.size s.chan) s
        (context_create_blob-Accepted h s.chan d s.alloc.id b.mem b.flags b.id b.size) p p.0

  made_already : (id : ℕ) (r : Resource h.env.Offset) (c : State h.env) → BlobMade h id true r c c
  made_already id (resource_3d n) c = refl
  made_already id (blob b) c = refl

  create_once-Created :
      (d : Device) (a : Allocation h.env.Offset) (s : Session h)
      → Sent a s.alloc
      → Leaves
          (λ u t. Created a t.alloc × BlobMade h a.id (is_created a) a.resource s.chan t.chan)
          (λ t. Same a t.alloc)
          (create_once h d s)
  create_once-Created d a s (same, c, i, k) =
      let s' : Session h = record s { alloc = record (s.alloc) { flags = s.alloc.flags + 1 } } in
      elim (Bool-cases (is_created s.alloc)) [
        | inl e ↦ rw (e, sym k ∙ e) (((same, c, e), made_already a.id a.resource s.chan))
        | inr e ↦
            rw (e, sym k ∙ e)
              (Leaves-map
                (λ u t.
                  Created a t.alloc × BlobMade h s.alloc.id false s.alloc.resource s.chan t.chan)
                (λ u t. Created a t.alloc × BlobMade h a.id false a.resource s.chan t.chan)
                (λ t. Same a t.alloc) (λ t. Same a t.alloc) (create h d s.alloc.resource s')
                (create-Created d a s.alloc.resource s' (
                  (same.0, flag_created s.alloc.flags e ∙ same.1),
                  c,
                  flag_created_now s.alloc.flags e,
                ))
                (λ u t q. (
                  q.0,
                  subst (λ r. BlobMade h a.id false r s.chan t.chan) same.0
                      (subst (λ n. BlobMade h n false s.alloc.resource s.chan t.chan) i q.1),
                ))
                (λ t q. q))
      ]

  moved-Returns :
      {A : Type 0} (P : A → Type 0) (Q Q' : Allocation h.env.Offset → Type 0)
      (r : Run (State h.env) A) (s : Session h)
      → Returns P r
      → Q s.alloc
      → Q' s.alloc
      → Leaves (λ a t. Q t.alloc × P a) (λ t. Q' t.alloc) (moved h r s)
  moved-Returns P Q Q' (returned a c) s p q q' = (q, p)
  moved-Returns P Q Q' (failed e c) s p q q' = q'
  moved-Returns P Q Q' panicked s p q q' = tt

  abbrev Owned : Bool → DeviceSpecific → Type 0
  Owned owned ds = ds.owned ≡ owned

  attach-Created :
      (d : Device) (owned : Bool) (a : Allocation h.env.Offset) (s : Session h)
      → Created a s.alloc
      → Leaves
          (λ ds t. Created a t.alloc × Owned owned ds)
          (λ t. Same a t.alloc)
          (attach h d owned s)
  attach-Created d owned a s p =
      let shadow =
        not (is_blob s.alloc.resource) && not (runs_virgl h (context_internal d false)) in
      let ds : DeviceSpecific = record { owned = owned; virgl = shadow } in
      let shadowed : Action (State h.env) (Unit {0}) =
        if shadow then context_attach_virgl h d s.alloc.id else pure tt in
      let rest : Action (State h.env) DeviceSpecific =
        context_attach_resource_internal h d s.alloc.id false >> pure ds in
      moved-Returns (Owned owned) (Created a) (Same a) ((shadowed >> rest) s.chan) s
        (Returns-then (Owned owned) (shadowed s.chan) (λ u. rest)
          λ u t.
            Returns-then (Owned owned) (context_attach_resource_internal h d s.alloc.id false t)
              (λ v. pure ds) λ v t'. refl)
        p p.0

  -- What opening has asked for, and what it leaves.
  abbrev OpenedOn : Bool → Session h → DeviceSpecific → Session h → Type 0
  OpenedOn owned s ds t =
      Created s.alloc t.alloc
      × Owned owned ds
      × ((c c' : State h.env) × CmdSent h s.alloc.cmd s.chan c
          × BlobMade h s.alloc.id (is_created s.alloc) s.alloc.resource c c')

  open_on-Created :
      (d : Device) (owned : Bool) (chan : State h.env) (id flags : ℕ) (r : Resource h.env.Offset)
      (cmd : Option (List ℕ))
      → let s = st h chan id flags r cmd in
        Leaves (OpenedOn owned s) (λ t. Same s.alloc t.alloc) (open_on h d owned s)
  unfolding open_on
  open_on-Created d owned chan id flags r cmd =
      let s = st h chan id flags r cmd in
      Leaves-bind (λ u t. Sent s.alloc t.alloc × CmdSent h cmd chan t.chan) (OpenedOn owned s)
        (λ t. Same s.alloc t.alloc) (send_cmd h d cmd s) _ (send_cmd-Sent d chan id flags r cmd)
        (λ u t p.
          Leaves-bind
            (λ v w. Created s.alloc w.alloc × BlobMade h id (is_created s.alloc) r t.chan w.chan)
            (OpenedOn owned s) (λ w. Same s.alloc w.alloc) (create_once h d t)
            (λ v. attach h d owned) (create_once-Created d s.alloc t p.0)
            (λ v w q.
              Leaves-map (λ ds x. Created s.alloc x.alloc × Owned owned ds) (OpenedOn owned s)
                (λ x. Same s.alloc x.alloc) (λ x. Same s.alloc x.alloc) (attach h d owned w)
                (attach-Created d owned s.alloc w q.0)
                (λ ds x y. (y.0, y.1, (t.chan, w.chan, p.1, q.1))) (λ x y. y)))

  keeps_range :
      (a a' : Allocation h.env.Offset)
      → Same a a'
      → IsConsistent a
      → IsConsistent a' × (mapped_range h a' ≡ mapped_range h a)
  unfolding mapped_range
  keeps_range a a' (e, m) c = (
    m ∙ c ∙ ap (λ r. has (offset_of r)) (sym e),
    ap (λ r. mapped_range h (record a { resource = r })) e,
  )

  opened-Served :
      (d : Device) (owned : Bool) (s : Session h) (r : Run (Session h) DeviceSpecific)
      → IsConsistent s.alloc
      → Leaves (OpenedOn owned s) (λ t. Same s.alloc t.alloc) r
      → Served h (open_call d owned) s (answer h {A = DeviceSpecific} opened r)
  opened-Served d owned s (returned ds t) c p =
      let (kept, range) = keeps_range s.alloc t.alloc p.0.0 c in
      (kept, p.2, (range, p.0.2, p.0.1, p.1))
  opened-Served d owned s (failed e t) c p = keeps_range s.alloc t.alloc p c
  opened-Served d owned s panicked c p = tt

  pub open-Served :
      (d : Device) (owned : Bool) (chan : State h.env) (id flags : ℕ) (r : Resource h.env.Offset)
      (cmd : Option (List ℕ))
      → IsConsistent ((st h chan id flags r cmd).alloc)
      → Served h
          (open_call d owned)
          (st h chan id flags r cmd)
          (run_call h (open_call d owned) (st h chan id flags r cmd))
  unfolding run_call
  open-Served d owned chan id flags r cmd c =
      opened-Served d owned (st h chan id flags r cmd)
        (open_on h d owned (st h chan id flags r cmd)) c
        (open_on-Created d owned chan id flags r cmd)
