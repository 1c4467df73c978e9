-- ===== src/Requests/Keeping.antt =====
-- Requests that leave the resource identifiers alone.
use virtio_drivers_windows.Base.{
  io_device_error, Bool-cases, length, ℕ, ◌≡◌, refl, ◌∙◌, Option, none, some, List, Status, ◌⊎◌,
  inl, inr, ok, err, panic, Outcome,
}
use virtio_drivers_windows.Requests.{State, Host}
use virtio_drivers_windows.Requests.Monad.{
  on_err, Run, returned, failed, panicked, Action, ◌>>=◌, lift, some_or, continue_with,
}
use virtio_drivers_windows.Base.{length, leb, Bool-cases, io_device_error, List}
use virtio_drivers_windows.Buffers.{MaybeInlineBuffer, as_ref}
use virtio_drivers_windows.Handler.Interface.{Callback}
use virtio_drivers_windows.Wire.{Message}
use virtio_drivers_windows.Requests.Monad.{on_err, inspect_err}
use virtio_drivers_windows.Requests.Queues.{
  Target, request_blocking, zeroed_buffer, value_buffer, make_block, request_async_buf, ended,
  cancel_block, request_blocking_buf, wait_block, read_block, read_from_prefix,
  request_blocking_into_buf, default_blocking_timeout,
}
use virtio_drivers_windows.Base.{suc, ap, ℕ}
use virtio_drivers_windows.Buffers.{try_new_zeroed_size, try_from_value}
use virtio_drivers_windows.Handler.Interface.{Buffer}
use virtio_drivers_windows.Requests.Queues.{max_in, max_out, push_buffer}

module _ (h : Host) where
  -- Nobody takes or gives back a resource identifier while a sender waits.
  abbrev pub Keeps : Type 0
  Keeps =
      (b timeout : ℕ) (s : State h.env) → (h.wait b timeout s).1.gpu.resource_id ≡ s.gpu.resource_id

  abbrev pub Kept : {A : Type 0} → State h.env → Run (State h.env) A → Type 0
  Kept s (returned a s') = s'.gpu.resource_id ≡ s.gpu.resource_id
  Kept s (failed e s') = s'.gpu.resource_id ≡ s.gpu.resource_id
  Kept s panicked = Unit {0}

  abbrev pub Keeping : {A : Type 0} → Action (State h.env) A → Type 0
  Keeping m = (s : State h.env) → Kept s (m s)

  Kept-trans :
      {A : Type 0} (s s' : State h.env) (r : Run (State h.env) A)
      → s'.gpu.resource_id ≡ s.gpu.resource_id
      → Kept s' r
      → Kept s r
  Kept-trans s s' (returned a s'') e k = k ∙ e
  Kept-trans s s' (failed x s'') e k = k ∙ e
  Kept-trans s s' panicked e k = tt

  continue_with-Kept :
      {A B : Type 0} (s : State h.env) (r : Run (State h.env) A) (f : A → Action (State h.env) B)
      → Kept s r
      → ((a : A) → Keeping (f a))
      → Kept s (continue_with r f)
  continue_with-Kept s (returned a s') f k g = Kept-trans s s' (f a s') k (g a s')
  continue_with-Kept s (failed e s') f k g = k
  continue_with-Kept s panicked f k g = tt

  -- The composition of two actions that keep the identifiers.
  bind-Keeping :
      {A B : Type 0} (m : Action (State h.env) A) (f : A → Action (State h.env) B)
      → Keeping m
      → ((a : A) → Keeping (f a))
      → Keeping (m >>= f)
  bind-Keeping m f k g s = continue_with-Kept s (m s) f (k s) g

  lift-Keeping : {A : Type 0} (o : Outcome A) → Keeping (lift o)
  lift-Keeping (ok a) s = refl
  lift-Keeping (err e) s = refl
  lift-Keeping panic s = tt

  some_or-Keeping : {A : Type 0} (o : Option A) (e : Status) → Keeping (some_or o e)
  some_or-Keeping none e s = refl
  some_or-Keeping (some a) e s = refl

  zeroed_buffer-Keeping : (t : Target) (size : ℕ) → Keeping (zeroed_buffer h t size)
  zeroed_buffer-Keeping t size s =
      lift-Keeping
        (try_new_zeroed_size h.env.platform.page_size (max_out h t) (h.env.memory s.asked) size)
        (record s { asked = suc s.asked })

  value_buffer-Keeping : (t : Target) (req : Message) → Keeping (value_buffer h t req)
  value_buffer-Keeping t req s =
      lift-Keeping
        (try_from_value h.env.platform.page_size (max_in h t) (h.env.memory s.asked)
          (h.env.wire.bytes req))
        (record s { asked = suc s.asked })

  make_block-Keeping : Keeping (make_block h)
  make_block-Keeping s = elim (Bool-cases (h.env.memory s.asked)) [
    | inl e ↦ rw e refl
    | inr e ↦ rw e refl
  ]

  pub push_buffer-gpu :
      (t : Target) (b : Buffer) (s : State h.env) → (push_buffer h t b s).gpu ≡ s.gpu
  unfolding push_buffer
  push_buffer-gpu Target.control b s = refl
  push_buffer-gpu Target.cursor b s = refl

  request_async_buf-Keeping :
      (t : Target) (input output : MaybeInlineBuffer) (callback : Callback)
      → Keeping (request_async_buf h t input output callback)
  unfolding request_async_buf
  request_async_buf-Keeping t input output callback s =
      ap (λ d. d.resource_id)
        (push_buffer-gpu t (record { input = input; output = output; callback = callback }) s)

  cancelled-Kept :
      (s : State h.env) (b : ℕ) (r : (Status ⊎ Unit {0}) × State h.env)
      → r.1.gpu.resource_id ≡ s.gpu.resource_id
      → Kept s (on_err (ended h r) (cancel_block h b))
  cancelled-Kept s b (inl e, s') k = k
  cancelled-Kept s b (inr u, s') k = k

  -- Sending a request and waiting for it leaves the identifiers alone if the wait does.
  request_blocking_buf-Keeping :
      Keeps
      → (t : Target) (input output : MaybeInlineBuffer) (timeout : ℕ)
      → Keeping (request_blocking_buf h t input output timeout)
  unfolding request_blocking_buf
  request_blocking_buf-Keeping k t input output timeout =
      let taken : Option MaybeInlineBuffer → Action (State h.env) MaybeInlineBuffer =
        λ response. some_or response io_device_error in
      let read : ℕ → Action (State h.env) MaybeInlineBuffer = λ b. read_block h b >>= taken in
      let waited : ℕ → Action (State h.env) MaybeInlineBuffer =
        λ b. inspect_err (wait_block h b timeout) (cancel_block h b) >>= λ v. read b in
      let sent : ℕ → Action (State h.env) MaybeInlineBuffer =
        λ b. request_async_buf h t input output (Callback.set_event b) >>= λ u. waited b in
      bind-Keeping (make_block h) sent make_block-Keeping (λ b.
        bind-Keeping (request_async_buf h t input output (Callback.set_event b)) (λ u. waited b)
          (request_async_buf-Keeping t input output (Callback.set_event b))
          (λ u.
            bind-Keeping (inspect_err (wait_block h b timeout) (cancel_block h b)) (λ v. read b)
              (λ s. cancelled-Kept s b (h.wait b timeout s) (k b timeout s))
              (λ v.
                bind-Keeping (read_block h b) taken (λ s. refl)
                  (λ response. some_or-Keeping response io_device_error))))

  read_from_prefix-Keeping : (size : ℕ) (bytes : List ℕ) → Keeping (read_from_prefix h size bytes)
  read_from_prefix-Keeping size bytes s = elim (Bool-cases (leb size (length bytes))) [
    | inl e ↦ rw e refl
    | inr e ↦ rw e tt
  ]

  pub request_blocking-Keeping :
      Keeps → (t : Target) (size : ℕ) (req : Message) → Keeping (request_blocking h t size req)
  unfolding request_blocking request_blocking_into_buf
  request_blocking-Keeping k t size req =
      let read : MaybeInlineBuffer → Action (State h.env) (List ℕ) =
        λ response. lift (as_ref response) >>= λ bytes. read_from_prefix h size bytes in
      let sent : MaybeInlineBuffer → MaybeInlineBuffer → Action (State h.env) MaybeInlineBuffer =
        λ output input. request_blocking_buf h t input output default_blocking_timeout in
      bind-Keeping (zeroed_buffer h t size)
        (λ output. request_blocking_into_buf h t req output >>= read) (zeroed_buffer-Keeping t size)
        (λ output.
          bind-Keeping (request_blocking_into_buf h t req output) read
            (bind-Keeping (value_buffer h t req) (sent output) (value_buffer-Keeping t req)
              (λ input. request_blocking_buf-Keeping k t input output default_blocking_timeout))
            (λ response.
              bind-Keeping (lift (as_ref response)) (λ bytes. read_from_prefix h size bytes)
                (lift-Keeping (as_ref response)) (λ bytes. read_from_prefix-Keeping size bytes)))
