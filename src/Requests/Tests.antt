-- ===== src/Requests/Tests.antt =====
-- Requests at concrete inputs, for a device that answers every request.
use virtio_drivers_windows.Base.{
  none, ℕ, ◌+◌, ◌≡◌, refl, false, true, some, List, [], ◌∷◌, ◌++◌, inr, arith, replicate,
}
use virtio_drivers_windows.Buffers.{inline, try_new_zeroed_size, try_from_value}
use virtio_drivers_windows.Channel
use virtio_drivers_windows.Channel.Fifo.{new-IsValid}
use virtio_drivers_windows.Commands.{Command, CommandId, no_flags}
use virtio_drivers_windows.Engines.{fresh}
use virtio_drivers_windows.Handler.{update}
use virtio_drivers_windows.Handler.Data.{GpuData, submit_engine}
use virtio_drivers_windows.Handler.Model.{platform}
use virtio_drivers_windows.Handler.Tests.{gpu_data}
use virtio_drivers_windows.Ids
use virtio_drivers_windows.Ids.Owned.{IsValid}
use virtio_drivers_windows.Nodes.{Engine, node_ordinal}
use virtio_drivers_windows.Wire.{Message, Rect, CtrlHeader, Allocate3d, size_ctrl_header}
use virtio_drivers_windows.Wire.Tests.{plain_wire}
use virtio_drivers_windows.Requests.{Env, State, Host}
use virtio_drivers_windows.Requests.Monad.{returned}
use virtio_drivers_windows.Requests.Queues.{Target, request_blocking}
use virtio_drivers_windows.Requests.Resources.{resource_transfer_to_host_2d}
use virtio_drivers_windows.Requests.Owned.{held_pool}
use virtio_drivers_windows.Requests.Transfers.{
  Transferred, resource_transfer_to_host_2d-Transferred,
}
use virtio_drivers_windows.Requests.Submits.{submit_command, submit_command_batch}
use virtio_drivers_windows.Requests.Capsets.{get_capset_info, get_capset_infos}
use virtio_drivers_windows.Requests.Supported.{Supported, get_capset_infos-Supported}
use virtio_drivers_windows.Requests.Singles.{Submitted, submit_command-Handed}
use virtio_drivers_windows.Requests.Batches.{
  Ready, waiting, batch_buffers, submit_command_batch-Sent,
}

abbrev pub env : Env
env = record {
  platform = platform;
  wire = plain_wire;
  control_in = 40;
  control_out = 40;
  cursor_in = 40;
  cursor_out = 40;
  memory = λ n. true;
  Allocator = ℕ;
  Offset = ℕ;
  allocate = λ n pages. (some n, n + pages);
  free_offset = λ n o. n;
  offset = λ o. o;
}

-- While a sender waits, its response arrives.
abbrev pub host : Host
host = record {
  env = env;
  wait = λ b timeout s. (
    inr tt,
    record s {
      gpu = record (s.gpu) {
        blocks =
            update s.gpu.blocks b (record {
              event = true;
              cancel = false;
              response = some (inline 24 (replicate 40 0));
            });
      };
    },
  );
}

abbrev pub start_state : State env
start_state = record {
  gpu = record gpu_data { resource_id = Ids.new 1; engines = fresh ∷ [] };
  control = record { q = Channel.new platform.fast_queue platform.slow_queue 2; event = false };
  cursor = record { q = Channel.new platform.fast_queue platform.slow_queue 2; event = false };
  offsets = 0;
  asked = 0;
  made = 0;
  shared = 0;
}

abbrev a_texture : Allocate3d
a_texture = record {
  target = 2;
  format = 1;
  bind = 2;
  width = 8;
  height = 8;
  depth = 1;
  array_size = 1;
  last_level = 0;
  nr_samples = 0;
  flags = 0;
}

-- The identifier 1 is in use.
abbrev one_state : State env
one_state = record start_state { gpu = record (start_state.gpu) { resource_id = Ids.new 2 } }

one_held : IsValid 1 (held_pool (Ids.new 2) (1 ∷ []))
one_held = record {
  held_distinct = (refl, tt);
  free_distinct = tt;
  apart = λ a h. refl;
  range = λ a. ground arith;
  counter = omega arith;
}

abbrev a_rect : Rect
a_rect = record { x = 0; y = 0; width = 8; height = 8 }

resource_transfer_to_host_2d-Transferred_example :
    (header : CtrlHeader) × (s' : State env) × Transferred host
      (1 ∷ [])
      (request_blocking host Target.control size_ctrl_header
        (Message.transfer_to_host_2d header a_rect 0 1)
        s')
      (resource_transfer_to_host_2d host a_rect 0 1 one_state)
resource_transfer_to_host_2d-Transferred_example =
    resource_transfer_to_host_2d-Transferred host a_rect 0 1 (1 ∷ []) one_state
      (λ b timeout s. refl) refl one_held

abbrev a_command : Command
a_command = record { id = CommandId.submit; flags = no_flags; ring = 0; dma = some (1 ∷ 2 ∷ []) }

abbrev three_commands : List Command
three_commands = a_command ∷ a_command ∷ a_command ∷ []

abbrev started : GpuData
started = record (start_state.gpu) {
  engines = record fresh { last_submitted_fence = 7; last_submitted_timestamp = 0 } ∷ [];
  world = record { sent = []; reads = 1 };
}

submit_command_batch-Sent_example :
    (s' : State env) × (submit_command_batch host Engine.graphics 7 three_commands [] start_state
      ≡ returned tt s')
    × Ready host s'
    × (waiting host s'
        ≡ waiting host start_state ++ batch_buffers host Engine.graphics 7 0 three_commands)
    × ((s'.gpu.batches 0).strong_count ≡ 3)
    × ((s'.gpu.batches 0).batch ≡ [])
    × (s'.gpu.world ≡ record { sent = []; reads = 1 })
unfolding submit_engine node_ordinal
submit_command_batch-Sent_example =
    submit_command_batch-Sent host Engine.graphics 7 three_commands [] start_state started
      (omega arith) (new-IsValid platform.fast_queue platform.slow_queue 2 (omega arith))
      ((refl, refl), ((refl, refl), ((refl, refl), tt))) (omega arith) refl

submit_command-Handed_example :
    Submitted host Engine.graphics 7 a_command started start_state
      (submit_command host Engine.graphics 7 a_command none start_state)
unfolding submit_engine node_ordinal
submit_command-Handed_example =
    submit_command-Handed host Engine.graphics 7 a_command start_state started (omega arith)
      (new-IsValid platform.fast_queue platform.slow_queue 2 (omega arith)) refl

-- Each request is answered with the first capset.
abbrev capset_host : Host
capset_host = record {
  env = env;
  wait = λ b timeout s. (
    inr tt,
    record s {
      gpu = record (s.gpu) {
        blocks = λ k. record {
          event = true;
          cancel = false;
          response = some (inline 40 (replicate 40 0));
        };
      };
    },
  );
}

get_capset_infos-Supported_example :
    Supported capset_host (get_capset_infos capset_host 2 start_state)
unfolding get_capset_info request_blocking try_new_zeroed_size try_from_value
get_capset_infos-Supported_example =
    get_capset_infos-Supported capset_host 2 start_state (λ j s. tt)
