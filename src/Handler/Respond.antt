-- ===== src/Handler/Respond.antt =====
-- One turn of the response loop, on every branch.
use virtio_drivers_windows.Base.{
  ℕ, ◌+◌, ◌<◌, ◌≡◌, ◌≢◌, refl, sym, ◌∙◌, ap, true, false, ◌&&◌, inl, inr, Option, none, some, List,
  Outcome, ok, arith, length, contains, Option-cases, Bool-cases, bind_assoc, bind_cong, lt→ltb,
  ◌>>=◌, ◌>>◌, unwrap, if◌then◌else◌, length-append, length-drop, leb, take, drop, dec_le,
}
use virtio_drivers_windows.Buffers.{MaybeInlineBuffer, inline, boxed, dma, as_ref, as_mut, write_at}
use virtio_drivers_windows.Handler.{Queue, update}
use virtio_drivers_windows.Handler.Interface.{Platform, nothing}
use virtio_drivers_windows.Handler.Data.{GpuData, signal_fence}
use virtio_drivers_windows.Handler.Slots.{IsValid, free_slots}
use virtio_drivers_windows.Handler.Responses.{
  finish, completed, read_req_header, read_rsp_header, read_completed_fence, read_failed,
  check_response,
}
use virtio_drivers_windows.Handler.Freed.{written-IsValid, Freed}
use virtio_drivers_windows.Handler.Effects.{effect, finish-effect}

-- What the device leaves in a buffer can be read as before.
pub as_ref-as_mut :
    (b : MaybeInlineBuffer) (old new : List ℕ)
    → as_ref b ≡ ok old
    → (bytes : List ℕ) × (as_ref (as_mut b new) ≡ ok bytes)
unfolding as_ref
as_ref-as_mut (inline len bytes) old new e = elim (dec_le len (length bytes)) [
  | yes h ↦
      let e = length-append new (drop (0 + length new) bytes) in
      let d = length-drop (0 + length new) bytes in
      let fits : leb len (length (write_at 0 new bytes)) ≡ true = ground arith in
      (take len (write_at 0 new bytes), rw fits refl)
  | no h ↦ absurd (ground arith)
]
as_ref-as_mut (boxed bytes) old new e = (new, refl)
as_ref-as_mut (dma bytes) old new e = (new, refl)

module _ (p : Platform) where
  -- What the headers of a request and of its response report: the fence that has completed. A header
  -- that cannot be read panics, as does a failed `ResourceUnref` that cannot be read for the log.
  abbrev pub completed_fence : List ℕ → List ℕ → Outcome (Option ℕ)
  completed_fence sent received = unwrap (p.read_from_prefix received) >>= λ rsp.
      unwrap (p.read_from_prefix sent) >>= λ req.
      (if p.is_error rsp && p.is_resource_unref req
        then (unwrap (p.read_resource_unref sent) >>= λ _. ok tt)
        else ok tt)
      >> ok (
          if p.has_fence rsp
          then some (p.fence_id rsp)
          else if p.has_fence req
          then some (p.fence_id req)
          else none)

  reads_lem :
      (q : Queue p) (i : ℕ) (input output : MaybeInlineBuffer) (sent received : List ℕ)
      → i < p.size
      → q.inputs i ≡ some input
      → q.outputs i ≡ some output
      → as_ref input ≡ ok sent
      → as_ref output ≡ ok received
      → (check_response p q i >>= λ _. read_completed_fence p q i) ≡ completed_fence sent received
  unfolding check_response read_completed_fence read_rsp_header read_req_header read_failed
  reads_lem q i input output sent received h hi ho bi bo =
      rw (lt→ltb i p.size h, hi, ho, bi, bo)
        (elim (Option-cases (p.read_from_prefix received)) [
          | inl e ↦ rw e refl
          | inr (rsp, e) ↦ rw e (elim (Option-cases (p.read_from_prefix sent)) [
            | inl e ↦ rw e refl
            | inr (req, e) ↦ rw e (elim (Bool-cases (p.is_error rsp)) [
              | inr x ↦ rw x refl
              | inl x ↦ rw x (elim (Bool-cases (p.is_resource_unref req)) [
                | inr y ↦ rw y refl
                | inl y ↦ rw y (elim (Option-cases (p.read_resource_unref sent)) [
                  | inl z ↦ rw z refl
                  | inr (u, z) ↦ rw z refl
                ])
              ])
            ])
          ])
        ])

  -- With the request `f` in flight in the slot `i`, of which the device has used the token.
  pub completed-effect :
      (q : Queue p) (i : ℕ) (d : GpuData) (input output : MaybeInlineBuffer)
      (sent received : List ℕ)
      → IsValid p q
      → i < p.size
      → contains (free_slots p q) i ≡ false
      → ((t : ℕ) → q.indices t ≢ some i)
      → q.inputs i ≡ some input
      → q.outputs i ≡ some output
      → as_ref input ≡ ok sent
      → as_ref output ≡ ok received
      → (q' : Queue p) × Freed p q i q'
        × (completed p q i d
            ≡ ◌>>=◌ {B = Queue p × GpuData} (completed_fence sent received) (λ fence.
              signal_fence fence d >>= λ d'.
              effect p.counter (q.callbacks i) output d' >>= λ d''. ok (q', d'')))
  unfolding completed
  completed-effect q i d input output sent received v h absent apart hi ho bi bo =
      let taken = record q { callbacks = update q.callbacks i nothing } in
      let tv =
        written-IsValid p q i q.inputs q.outputs taken.callbacks v apart (λ j ne. refl)
          (λ j ne. refl) in
      let next : Option ℕ → Outcome (Queue p × GpuData) =
        λ fence. signal_fence fence d >>= finish p (q.callbacks i) taken i in
      let (q', f, e) = finish-effect p taken i output tv h absent apart ho (q.callbacks i) in
      (
        q',
        record {
          valid = f.valid;
          slot_free = f.slot_free;
          no_callback = f.no_callback;
          same_indices = f.same_indices;
          same_chan = f.same_chan;
          same_queue = f.same_queue;
        },
        rw (lt→ltb i p.size h) (
            sym (bind_assoc (check_response p taken i) (λ _. read_completed_fence p taken i) next)
            ∙ (ap (λ m. m >>= next) (reads_lem taken i input output sent received h hi ho bi bo)
                ∙ bind_cong (completed_fence sent received)
                    (λ fence. bind_cong (signal_fence fence d) e))),
      )
