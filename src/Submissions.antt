-- ===== src/Submissions.antt =====
-- The fence submissions of gpu-wddm/src/queue.rs: the fences of engines that wait for a virtio fence,
-- in `GpuData::handle_fence_submissions` and `GpuChannel::submit_fence`. The field
-- `fence_submissions` of the source stands beside the rest of `GpuData`. The performance counter and
-- its frequency are parameters.
pub mod Sweep
mod Tests
use virtio_drivers_windows.Base.{
  if◌then◌else◌, ℕ, suc, ◌+◌, ◌-◌, ◌*◌, ◌%◌, Bool, true, false, List, [], ◌∷◌, ◌++◌, Outcome, ok,
  ◌>>=◌, unwrap, leb, get_elem?, set, u64_size,
}
use virtio_drivers_windows.Engines.{EngineState, submit, responsive_timeout_sec}
use virtio_drivers_windows.Handler.Data.{GpuData, notify_dma_completed}
use virtio_drivers_windows.Nodes.{Engine, node_ordinal}
use virtio_drivers_windows.Tracker.{FenceTracker, query}

pub record FenceSubmission : Type 0 where
  pub engine : Engine
  pub dxgk_fence : ℕ
  pub virtio_fence : ℕ
  pub timestamp : ℕ

pub record State : Type 0 where
  pub gpu : GpuData
  pub fence_submissions : List FenceSubmission

abbrev pub is_ready : FenceSubmission → FenceTracker → Bool
is_ready f tracker = query tracker f.virtio_fence

-- One reading of the performance counter.
abbrev pub read_counter : GpuData → GpuData
read_counter d = record d { world = record d.world { reads = suc d.world.reads } }

module _ (counter : ℕ → ℕ) (freq : ℕ) where
  abbrev pub new : Engine → ℕ → ℕ → GpuData → FenceSubmission × GpuData
  new engine dxgk_fence virtio_fence d = (
    record {
      engine = engine;
      dxgk_fence = dxgk_fence;
      virtio_fence = virtio_fence;
      timestamp = counter d.world.reads;
    },
    read_counter d,
  )

  -- `now - timestamp` and the product wrap.
  unfoldable pub is_timeout : FenceSubmission → GpuData → Bool × GpuData
  is_timeout f d = (
    leb (responsive_timeout_sec * freq % u64_size)
        ((counter d.world.reads + u64_size - f.timestamp) % u64_size),
    read_counter d,
  )

  -- What `retain` leaves in the list, and the submissions that are started again.
  abbrev pub Swept : Type 0
  Swept = List FenceSubmission × List FenceSubmission × GpuData

  -- A submission that was kept, or started again, among those of the rest of the list.
  abbrev pub keeps : FenceSubmission → Swept → Outcome Swept
  keeps f (kept, resubmit, d) = ok (f ∷ kept, resubmit, d)

  abbrev pub resubmits : FenceSubmission → Swept → Outcome Swept
  resubmits f (kept, resubmit, d) = ok (kept, f ∷ resubmit, d)

  -- The closure of `retain`, in the order of the list.
  unfoldable pub sweep : List FenceSubmission → GpuData → Outcome Swept
  sweep [] d = ok ([], [], d)
  sweep (f ∷ fs) d = elim (is_ready f d.fence) [
    | true ↦ notify_dma_completed counter f.engine f.dxgk_fence d >>= sweep fs
    | false ↦
        let (late, d1) = is_timeout f d in
        elim late [
          | true ↦
              let (f', d2) = new f.engine f.dxgk_fence f.virtio_fence d1 in
              sweep fs d2 >>= resubmits f'
          | false ↦ sweep fs d1 >>= keeps f
        ]
  ]

  unfoldable pub handle_fence_submissions : State → Outcome State
  unfolding sweep
  handle_fence_submissions s = do
    (kept, resubmit, d) ← sweep s.fence_submissions s.gpu
    ok (record { gpu = d; fence_submissions = kept ++ resubmit })

  unfoldable pub submit_fence : Engine → ℕ → ℕ → State → Outcome State
  unfolding handle_fence_submissions
  submit_fence engine dxgk_fence virtio_fence s = do
    n ← node_ordinal engine
    state ← unwrap (get_elem? s.gpu.engines n)
    let (state', world) = submit counter state s.gpu.world dxgk_fence
    let d = record s.gpu { engines = set s.gpu.engines n state'; world = world }
    (if query d.fence virtio_fence
        then (notify_dma_completed counter engine dxgk_fence d >>= λ d'. ok (record s { gpu = d' }))
        else handle_fence_submissions (
            let (f, d') = new engine dxgk_fence virtio_fence d in
            record { gpu = d'; fence_submissions = s.fence_submissions ++ (f ∷ []) }))

unfoldable pub submit_preemption : Engine → ℕ → State → Outcome State
submit_preemption engine preemption_fence s = do
  n ← node_ordinal engine
  state ← unwrap (get_elem? s.gpu.engines n)
  ok (record s {
    gpu = record s.gpu {
      engines = set s.gpu.engines n (record state { last_preemption_fence = preemption_fence });
    };
  })
