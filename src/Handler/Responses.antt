-- ===== src/Handler/Responses.antt =====
-- The responses of the device, of `Queue` in gpu-wddm/src/queue.rs.
use virtio_drivers_windows.Base.{
  ℕ, zero, suc, ◌⊎◌, inl, inr, Bool, true, false, ◌||◌, Option, none, some, Outcome, ok, ◌>>=◌,
  ◌>>◌, Status, assert, unwrap, ltb, if◌then◌else◌,
}
use virtio_drivers_windows.Buffers.{as_ref}
use virtio_drivers_windows.Ids.{free}
use virtio_drivers_windows.Handler.{Queue, update, pop_from_device, mark_free, again}
use virtio_drivers_windows.Handler.Data.{
  GpuData, write, drop_batch, into_inner, notify_dma_completed, signal_fence,
}
use virtio_drivers_windows.Handler.Interface.{
  Platform, Callback, nothing, set_event, free_context_id, free_resource_id, dma_completed,
  dma_completed_with_allocations, dma_completed_batched,
}

module _ (p : Platform) where
  open p use {CtrlHeader, size}

  unfoldable pub read_req_header : Queue p → ℕ → Outcome CtrlHeader
  read_req_header q i = do
    assert (ltb i size)
    input ← unwrap (q.inputs i)
    bytes ← as_ref input
    unwrap (p.read_from_prefix bytes)

  unfoldable pub read_rsp_header : Queue p → ℕ → Outcome CtrlHeader
  read_rsp_header q i = do
    assert (ltb i size)
    output ← unwrap (q.outputs i)
    bytes ← as_ref output
    unwrap (p.read_from_prefix bytes)

  -- A difference of the two fence flags is only reported in the log.
  unfoldable pub read_completed_fence : Queue p → ℕ → Outcome (Option ℕ)
  read_completed_fence q i = do
    rsp ← read_rsp_header q i
    req ← read_req_header q i
    ok (
        if p.has_fence rsp
        then some (p.fence_id rsp)
        else if p.has_fence req
        then some (p.fence_id req)
        else none)

  -- The failed request, for the log, is read as a `ResourceUnref` if it is one.
  unfoldable pub read_failed : Queue p → ℕ → CtrlHeader → Outcome Bool
  read_failed q i req =
      if p.is_resource_unref req
      then (unwrap (q.inputs i) >>= λ input.
          as_ref input >>= λ bytes. unwrap (p.read_resource_unref bytes) >>= λ _. ok false)
      else ok false

  unfoldable pub check_response : Queue p → ℕ → Outcome Bool
  unfolding read_failed
  check_response q i = do
    rsp ← read_rsp_header q i
    req ← read_req_header q i
    (if p.is_error rsp then read_failed q i req else ok (p.is_response rsp || p.is_cursor req))

  unfoldable pub finish : Callback → Queue p → ℕ → GpuData → Outcome (Queue p × GpuData)
  finish nothing q i d = do q' ← mark_free p q i; ok (q', d)
  finish (set_event b) q i d = do
    output ← unwrap (q.outputs i)
    let block = d.blocks b
    let block' = if block.cancel then block else write block output
    q' ← mark_free p (record q { outputs = update q.outputs i none }) i
    ok (q', record d { blocks = update d.blocks b (record block' { event = true }) })
  finish (free_resource_id id) q i d = do
    q' ← mark_free p q i
    ok (q', record d { resource_id = free d.resource_id id })
  finish (free_context_id id) q i d = do
    q' ← mark_free p q i
    ok (q', record d { context_id = free d.context_id id })
  finish (dma_completed engine fence) q i d = do
    d' ← notify_dma_completed p.counter engine fence d
    q' ← mark_free p q i
    ok (q', d')
  finish (dma_completed_with_allocations engine fence allocations) q i d = do
    dropped ← drop_batch allocations d
    d' ← notify_dma_completed p.counter engine fence dropped
    q' ← mark_free p q i
    ok (q', d')
  finish (dma_completed_batched engine fence allocations) q i d = do
    let (inner, left) = into_inner allocations d
    d' ← elim inner [
      | some batch ↦ drop_batch batch left >>= notify_dma_completed p.counter engine fence
      | none ↦ ok left
    ]
    q' ← mark_free p q i
    ok (q', d')

  -- The part of `response` on a slot that the device has used.
  unfoldable pub completed : Queue p → ℕ → GpuData → Outcome (Queue p × GpuData)
  unfolding finish
  completed q i d = do
    assert (ltb i size)
    let taken = record q { callbacks = update q.callbacks i nothing }
    _ ← check_response taken i
    fence ← read_completed_fence taken i
    d' ← signal_fence fence d
    finish (q.callbacks i) taken i d'

  unfoldable pub response :
      Queue p → GpuData → Outcome ((Status ⊎ Option (Unit {0})) × (Queue p × GpuData))
  unfolding completed
  response q d = do
    (r, q') ← pop_from_device p q
    elim r [
      | inl e ↦ ok (inl e, (q', d))
      | inr found ↦ elim found [
        | none ↦ ok (inr none, (q', d))
        | some (i, len) ↦ completed q' i d >>= λ s. ok (inr (some tt), s)
      ]
    ]

  -- The loop on fuel, `none` where it runs out.
  unfoldable pub handle_responses : ℕ → Queue p × GpuData → Option (Outcome (Queue p × GpuData))
  unfolding again
  handle_responses zero s = none
  handle_responses (suc n) (q, d) = again p (handle_responses n) (response q d)
