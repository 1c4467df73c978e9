-- ===== src/Requests/Batches.antt =====
-- What the submission of a batch hands to the queue handler.
use virtio_drivers_windows.Base.{
  ℕ, suc, ◌+◌, ◌-◌, ◌≤◌, ◌<◌, ◌≡◌, refl, sym, ap, ◌∙◌, Bool, true, false, Option, none, some, List,
  [], ◌∷◌, ◌++◌, append-nil, append_assoc, ok, arith, length, replicate, ltb, leb, ◌==◌,
}
use virtio_drivers_windows.Buffers.{inline, dma, try_new_zeroed_size}
use virtio_drivers_windows.Channel.{push_async}
use virtio_drivers_windows.Channel.Fifo.{contents, push-contents}
use virtio_drivers_windows.Channel.Fifo
use virtio_drivers_windows.Commands.{Command, command_dma}
use virtio_drivers_windows.Handler.{update}
use virtio_drivers_windows.Handler.Data.{GpuData, into_inner, submit_engine}
use virtio_drivers_windows.Handler.Interface.{AllocationsBatch, Buffer, Callback}
use virtio_drivers_windows.Nodes.{Engine}
use virtio_drivers_windows.Wire.{size_ctrl_header}
use virtio_drivers_windows.Requests.{State, Host}
use virtio_drivers_windows.Requests.Monad.{returned}
use virtio_drivers_windows.Requests.Queues.{Target, push_buffer, request_async_dma_batched}
use virtio_drivers_windows.Requests.Submits.{is_nop, send_all, submit_command_batch}

-- The bytes of a command that has some.
abbrev pub dma_bytes : Option (List ℕ) → List ℕ
dma_bytes (some bytes) = bytes
dma_bytes none = []

-- Commands that do something, and whose memory is there.
abbrev pub Sendable : List Command → Type 0
Sendable [] = Unit {0}
Sendable (c ∷ cs) =
    ((is_nop c.id ≡ false) × (command_dma c ≡ some (dma_bytes (command_dma c)))) × Sendable cs

module _ (h : Host) where
  -- The requests that wait for the handler of the control queue, oldest first.
  abbrev pub waiting : State h.env → List Buffer
  waiting s = contents h.env.platform.fast_queue h.env.platform.slow_queue s.control.q

  abbrev pub Ready : State h.env → Type 0
  Ready s = Fifo.IsValid h.env.platform.fast_queue h.env.platform.slow_queue s.control.q

  -- The request of a command of a batch.
  abbrev pub batch_buffer : Engine → ℕ → ℕ → Command → Buffer
  batch_buffer engine fence k c = record {
    input = dma (dma_bytes (command_dma c));
    output = inline size_ctrl_header (replicate h.env.control_out 0);
    callback = Callback.dma_completed_batched engine fence k;
  }

  abbrev pub batch_buffers : Engine → ℕ → ℕ → List Command → List Buffer
  batch_buffers engine fence k [] = []
  batch_buffers engine fence k (c ∷ cs) =
      batch_buffer engine fence k c ∷ batch_buffers engine fence k cs

  pub push_buffer-waiting :
      (b : Buffer) (s : State h.env)
      → Ready s
      → let s' = push_buffer h Target.control b s in
        Ready s' × (waiting s' ≡ waiting s ++ (b ∷ [])) × (s'.gpu ≡ s.gpu)
  unfolding push_buffer push_async
  push_buffer-waiting b s v =
      let (w, e) =
        push-contents h.env.platform.fast_queue h.env.platform.slow_queue s.control.q b v in
      (w, e, refl)

  pub zeroed-control :
      (memory : Bool)
      → size_ctrl_header ≤ h.env.control_out
      → try_new_zeroed_size h.env.platform.page_size h.env.control_out memory size_ctrl_header
        ≡ ok (inline size_ctrl_header (replicate h.env.control_out 0))
  unfolding try_new_zeroed_size
  zeroed-control memory l =
      let e : leb size_ctrl_header h.env.control_out ≡ true = ground arith in rw e refl

  request_async_dma_batched-control :
      (bytes : List ℕ) (engine : Engine) (fence k : ℕ) (s : State h.env)
      → size_ctrl_header ≤ h.env.control_out
      → request_async_dma_batched h Target.control size_ctrl_header bytes engine fence k s
        ≡ returned tt (
            push_buffer h Target.control
              (record {
                input = dma bytes;
                output = inline size_ctrl_header (replicate h.env.control_out 0);
                callback = Callback.dma_completed_batched engine fence k;
              })
              (record s { asked = suc s.asked }))
  unfolding request_async_dma_batched
  request_async_dma_batched-control bytes engine fence k s l =
      rw (zeroed-control (h.env.memory s.asked) l) refl

  -- What sending commands of the batch `k` leaves of the state.
  abbrev pub Sent : ℕ → ℕ → List Buffer → State h.env → State h.env → Type 0
  Sent k n buffers s s' =
      Ready s'
      × (waiting s' ≡ waiting s ++ buffers)
      × ((s'.gpu.batches k).strong_count ≡ (s.gpu.batches k).strong_count + n)
      × ((s'.gpu.batches k).batch ≡ (s.gpu.batches k).batch)
      × (s'.gpu.world ≡ s.gpu.world)

  send_all-Sent :
      (engine : Engine) (fence k : ℕ) (cmds : List Command) (s : State h.env)
      → size_ctrl_header ≤ h.env.control_out
      → Ready s
      → Sendable cmds
      → (s' : State h.env) × (send_all h engine fence k cmds s ≡ returned tt s')
        × Sent k (length cmds) (batch_buffers engine fence k cmds) s s'
  unfolding send_all
  send_all-Sent engine fence k [] s l v c =
      (s, refl, (v, sym (append-nil (waiting s)), omega arith, refl, refl))
  send_all-Sent engine fence k (cmd ∷ cmds) s l v ((n, d), c) =
      let same : (k == k) ≡ true = ground arith in
      let s₁ : State h.env = record s {
        gpu = record (s.gpu) {
          batches =
              update s.gpu.batches k
                (record (s.gpu.batches k) { strong_count = (s.gpu.batches k).strong_count + 1 });
        };
        asked = suc s.asked;
      } in
      let s₂ = push_buffer h Target.control (batch_buffer engine fence k cmd) s₁ in
      let (v₂, w₂, g) = push_buffer-waiting (batch_buffer engine fence k cmd) s₁ v in
      let (s', e, (r, w, b, a, o)) = send_all-Sent engine fence k cmds s₂ l v₂ c in
      let q : s₂.gpu.batches k
          ≡ record (s.gpu.batches k) { strong_count = (s.gpu.batches k).strong_count + 1 } =
        ap (λ d. d.batches k) g ∙ rw same refl in
      (
        s',
        rw
            (
              n,
              d,
              request_async_dma_batched-control (dma_bytes (command_dma cmd)) engine fence k
                  (record s₁ { asked = s.asked }) l,
            )
            e,
        (
          r,
          w
              ∙ ap (λ l. l ++ batch_buffers engine fence k cmds) w₂
              ∙ append_assoc (waiting s) (batch_buffer engine fence k cmd ∷ [])
                  (batch_buffers engine fence k cmds),
          omega (arith, b, ap (λ x. x.strong_count) q),
          a ∙ ap (λ x. x.batch) q,
          o ∙ ap (λ d. d.world) g,
        ),
      )

  -- A batch of at least two commands that do something and whose memory is there, for an engine of the
  -- device, is handed over as one request for each command, behind the requests that waited, in order;
  -- the batch of allocations is shared by as many references as there are requests, and nothing is
  -- reported beyond what the start of the submission does.
  pub submit_command_batch-Sent :
      (engine : Engine) (fence : ℕ) (cmds : List Command) (allocations : AllocationsBatch)
      (s : State h.env) (d : GpuData)
      → size_ctrl_header ≤ h.env.control_out
      → Ready s
      → Sendable cmds
      → 1 < length cmds
      → submit_engine h.env.platform.counter engine fence s.gpu ≡ ok d
      → (s' : State h.env) × (submit_command_batch h engine fence cmds allocations s
          ≡ returned tt s')
        × Ready s'
        × (waiting s' ≡ waiting s ++ batch_buffers engine fence s.shared cmds)
        × ((s'.gpu.batches s.shared).strong_count ≡ length cmds)
        × ((s'.gpu.batches s.shared).batch ≡ allocations)
        × (s'.gpu.world ≡ d.world)
  unfolding submit_command_batch into_inner
  submit_command_batch-Sent engine fence cmds allocations s d l v c n e =
      let k = s.shared in
      let many : ltb 1 (length cmds) ≡ true = ground arith in
      let same : (k == k) ≡ true = ground arith in
      let s₁ : State h.env = record s {
        gpu = record d {
          batches = update d.batches k (record { strong_count = 1; batch = allocations });
        };
        shared = suc s.shared;
      } in
      let (s₂, f, (r, w, b, a, o)) = send_all-Sent engine fence k cmds s₁ l v c in
      let one : s₁.gpu.batches k ≡ record { strong_count = 1; batch = allocations } =
        rw same refl in
      let count : (s₂.gpu.batches k).strong_count ≡ 1 + length cmds =
        b ∙ ap (λ x. x.strong_count + length cmds) one in
      let shared : ((s₂.gpu.batches k).strong_count == 1) ≡ false = ground arith in
      let s₃ : State h.env = record s₂ {
        control = record (s₂.control) { event = true };
        gpu = record (s₂.gpu) {
          batches =
              update s₂.gpu.batches k
                (record (s₂.gpu.batches k) { strong_count = (s₂.gpu.batches k).strong_count - 1 });
        };
      } in
      let last : s₃.gpu.batches k
          ≡ record (s₂.gpu.batches k) { strong_count = (s₂.gpu.batches k).strong_count - 1 } =
        rw same refl in
      (
        s₃,
        rw (many, e, f, shared) refl,
        r,
        w,
        ap (λ x. x.strong_count) last ∙ omega (arith, count),
        ap (λ x. x.batch) last ∙ a ∙ ap (λ x. x.batch) one,
        o,
      )
