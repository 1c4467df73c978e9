-- ===== src/Handler/Effects.antt =====
-- Finishing a request: the effect of its callback, and the freed slot.
use virtio_drivers_windows.Base.{
  ℕ, ◌<◌, ◌≡◌, ◌≢◌, refl, sym, ◌∙◌, ap, true, false, none, some, Outcome, ok, err, panic, arith,
  contains, ◌>>=◌, if◌then◌else◌, Bool-cases, inl, inr, bind_assoc,
}
use virtio_drivers_windows.Buffers.{MaybeInlineBuffer}
use virtio_drivers_windows.Ids.{free}
use virtio_drivers_windows.Handler.{Queue, update, mark_free}
use virtio_drivers_windows.Handler.Interface.{
  Platform, Callback, nothing, set_event, free_context_id, free_resource_id, dma_completed,
  dma_completed_with_allocations, dma_completed_batched,
}
use virtio_drivers_windows.Handler.Data.{
  GpuData, BlockingBuffer, write, drop_batch, into_inner, notify_dma_completed,
}
use virtio_drivers_windows.Handler.Slots.{IsValid, free_slots}
use virtio_drivers_windows.Handler.Responses.{finish}
use virtio_drivers_windows.Handler.Freed.{Freed, mark_free-Freed}

-- The sender is woken, with the response unless it has stopped waiting.
abbrev pub delivered : MaybeInlineBuffer → BlockingBuffer → BlockingBuffer
delivered output b = record b {
  event = true;
  response = if b.cancel then b.response else some output;
}

delivered_lem :
    (b : BlockingBuffer) (output : MaybeInlineBuffer)
    → let b' = if b.cancel then b else write b output in
      record b' { event = true } ≡ delivered output b
delivered_lem b output = elim (Bool-cases b.cancel) [ inl e ↦ rw e refl | inr e ↦ rw e refl ]

-- What a callback does for the rest of the driver, with the bytes of the response.
abbrev pub effect : (ℕ → ℕ) → Callback → MaybeInlineBuffer → GpuData → Outcome GpuData
effect counter nothing output d = ok d
effect counter (set_event b) output d =
    ok (record d { blocks = update d.blocks b (delivered output (d.blocks b)) })
effect counter (free_resource_id id) output d =
    ok (record d { resource_id = free d.resource_id id })
effect counter (free_context_id id) output d = ok (record d { context_id = free d.context_id id })
effect counter (dma_completed engine fence) output d = notify_dma_completed counter engine fence d
effect counter (dma_completed_with_allocations engine fence batch) output d =
    drop_batch batch d >>= notify_dma_completed counter engine fence
effect counter (dma_completed_batched engine fence k) output d = elim (into_inner k d).0 [
  | some batch ↦ drop_batch batch (into_inner k d).1 >>= notify_dma_completed counter engine fence
  | none ↦ ok (into_inner k d).1
]

module _ (p : Platform) where
  -- Freeing after an effect, or before one that cannot fail.
  frees_after :
      (q q' : Queue p) (i : ℕ) (m : Outcome GpuData)
      → mark_free p q i ≡ ok q'
      → ◌>>=◌ {B = Queue p × GpuData} m (λ d'. mark_free p q i >>= λ q'. ok (q', d'))
        ≡ ◌>>=◌ {B = Queue p × GpuData} m (λ d'. ok (q', d'))
  frees_after q q' i (ok d) e = rw e refl
  frees_after q q' i (err s) e = refl
  frees_after q q' i panic e = refl

  module _ (q : Queue p) (i : ℕ) (output : MaybeInlineBuffer) (v : IsValid p q) (h : i < p.size)
      (absent : contains (free_slots p q) i ≡ false) (apart : (t : ℕ) → q.indices t ≢ some i)
      (out : q.outputs i ≡ some output) where
    freed : (q' : Queue p) × (mark_free p q i ≡ ok q') × Freed p q i q'
    freed = mark_free-Freed p q i q.outputs v h absent apart (λ j ne. refl)

    pub finish-effect :
        (c : Callback)
        → (q' : Queue p) × Freed p q i q'
          × ((d : GpuData)
              → finish p c q i d
                ≡ ◌>>=◌ {B = Queue p × GpuData} (effect p.counter c output d) (λ d'. ok (q', d')))
    unfolding finish
    finish-effect nothing = let (q', e, f) = freed in (q', f, λ d. rw e refl)
    finish-effect (set_event b) =
        let (q', e, f) =
          mark_free-Freed p q i (update q.outputs i none) v h absent apart (λ j ne. ground arith) in
        (
          q',
          f,
          λ d.
              rw (out, e)
                (ap (λ k. ok (q', record d { blocks = update d.blocks b k }))
                  (delivered_lem (d.blocks b) output)),
        )
    finish-effect (free_resource_id id) = let (q', e, f) = freed in (q', f, λ d. rw e refl)
    finish-effect (free_context_id id) = let (q', e, f) = freed in (q', f, λ d. rw e refl)
    finish-effect (dma_completed engine fence) =
        let (q', e, f) = freed in
        (q', f, λ d. frees_after q q' i (notify_dma_completed p.counter engine fence d) e)
    finish-effect (dma_completed_with_allocations engine fence batch) =
        let (q', e, f) = freed in
        (
          q',
          f,
          λ d.
              let m = drop_batch batch d >>= notify_dma_completed p.counter engine fence in
              sym (bind_assoc (drop_batch batch d) (notify_dma_completed p.counter engine fence) _)
              ∙ frees_after q q' i m e,
        )
    finish-effect (dma_completed_batched engine fence k) =
        let (q', e, f) = freed in
        (
          q',
          f,
          λ d.
              frees_after q q' i (effect p.counter (dma_completed_batched engine fence k) output d)
                e,
        )
