-- ===== src/Handler/Tests.antt =====
-- The queue handler at concrete inputs.
use virtio_drivers_windows.Base.{
  ℕ, zero, suc, ◌≡◌, refl, subst, ◌⊎◌, inl, true, false, Option, none, some, [], ◌∷◌, ok, arith,
  contains, Status,
}
use virtio_drivers_windows.Buffers.{dma, as_ref}
use virtio_drivers_windows.Ids as Ids
use virtio_drivers_windows.Tracker as Tracker
use virtio_drivers_windows.Handler.{Queue, update, request, handle_requests}
use virtio_drivers_windows.Handler.Model.{platform, ring}
use virtio_drivers_windows.Handler.Interface.{Buffer, nothing, free_resource_id}
use virtio_drivers_windows.Handler.Data.{GpuData}
use virtio_drivers_windows.Handler.Slots.{waiting, IsValid, InFlight, IsSendable, AllSendable}
use virtio_drivers_windows.Handler.Loop.{
  Requested, request-Requested, handle_requests-IsIdle, IsIdle,
}
use virtio_drivers_windows.Handler.Responses.{handle_responses}
use virtio_drivers_windows.Handler.Tokens.{AllStand}
use virtio_drivers_windows.Handler.Kept.{Ends}
use virtio_drivers_windows.Handler.Drained.{Drains, handle_responses_lem}
use virtio_drivers_windows.Handler.Turns.{response-Answered, Responded}

abbrev pub unref : Buffer
unref = record { input = dma (1 ∷ 2 ∷ []); output = dma (0 ∷ []); callback = free_resource_id 7 }

-- Three requests wait for two slots.
abbrev waiting_queue : Queue platform
waiting_queue = record {
  queue = (0, 0);
  inputs = λ i. none;
  outputs = λ i. none;
  callbacks = λ i. nothing;
  indices = λ t. none;
  free = (0 ∷ 1 ∷ [], 2);
  chan = record { fast = (unref ∷ unref ∷ unref ∷ [], 4); slow = [] };
  notified = 0;
}

waiting-IsValid : IsValid platform waiting_queue
waiting-IsValid = record {
  channel = record { roomy = omega arith; bounded = omega arith; overflow = inl refl };
  room = refl;
  distinct = (refl, (refl, tt));
  small = λ i m. ground arith;
  in_flight = λ t i e. cc;
  apart = λ t u i e. cc;
}

pub unref-IsSendable : IsSendable platform unref
unfolding as_ref
unref-IsSendable = record {
  sent = _;
  received = _;
  input_bytes = refl;
  output_bytes = refl;
  input_page = λ i. refl;
  output_page = λ i. refl;
}

all-IsSendable : AllSendable platform (waiting platform waiting_queue)
all-IsSendable = (unref-IsSendable, (unref-IsSendable, (unref-IsSendable, tt)))

request-Requested_example :
    (r : Status ⊎ Option (Unit {0})) × (q' : Queue platform) × (request platform waiting_queue
      ≡ ok (r, q'))
    × IsValid platform q'
    × AllSendable platform (waiting platform q')
    × Requested platform waiting_queue r q'
request-Requested_example = request-Requested platform waiting_queue waiting-IsValid all-IsSendable

handle_requests-IsIdle_example :
    (q' : Queue platform) × (handle_requests platform 4 waiting_queue ≡ some (ok q'))
    × IsValid platform q'
    × IsIdle platform q'
handle_requests-IsIdle_example =
    handle_requests-IsIdle platform 4 waiting_queue waiting-IsValid all-IsSendable (omega arith)

-- A request in the slot 0, under the token 0, that the device has used.
abbrev busy_queue : Queue platform
busy_queue = record waiting_queue {
  queue = (1, 0);
  inputs = update (λ i. none) 0 (some unref.input);
  outputs = update (λ i. none) 0 (some unref.output);
  callbacks = update (λ i. nothing) 0 unref.callback;
  indices = update (λ t. none) 0 (some 0);
  free = (1 ∷ [], 2);
}

busy-InFlight : (t i : ℕ) → busy_queue.indices t ≡ some i → InFlight platform busy_queue i
unfolding as_ref
busy-InFlight zero i e =
    let z : 0 ≡ i = ground arith in
    subst (InFlight platform busy_queue) z (record {
      input = unref.input;
      output = unref.output;
      sent = _;
      received = _;
      small = omega arith;
      taken = refl;
      has_input = refl;
      has_output = refl;
      input_bytes = refl;
      output_bytes = refl;
    })
busy-InFlight (suc t) i e = absurd (ground arith)

busy-IsValid : IsValid platform busy_queue
busy-IsValid = record {
  channel = record { roomy = omega arith; bounded = omega arith; overflow = inl refl };
  room = refl;
  distinct = (refl, tt);
  small = λ i m. ground arith;
  in_flight = busy-InFlight;
  apart = λ t u i d e. ground arith;
}

abbrev pub gpu_data : GpuData
gpu_data = record {
  resource_id = Ids.new 8;
  context_id = Ids.new 1;
  fence = Tracker.new;
  engines = [];
  world = record { sent = []; reads = 0 };
  blocks = λ b. record { event = false; cancel = false; response = none };
  batches = λ k. record { strong_count = 0; batch = [] };
  allocations = λ a. none;
}

response-Answered_example : Responded platform busy_queue gpu_data
response-Answered_example = response-Answered platform busy_queue gpu_data busy-IsValid

handle_responses_example :
    (AllStand busy_queue.indices (0 ∷ [])
      × Drains platform ring busy_queue
          (0 ∷ [])
          (handle_responses platform 2 (busy_queue, gpu_data)))
    ⊎ ((t : ℕ) × (contains (0 ∷ []) t ≡ true)
        × (busy_queue.indices t ≡ none)
        × Ends (λ s. ⊥) (handle_responses platform 2 (busy_queue, gpu_data)))
handle_responses_example =
    handle_responses_lem platform ring 2 busy_queue gpu_data busy-IsValid (refl, tt) (omega arith)
