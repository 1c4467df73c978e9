-- ===== src/Handler/Errors.antt =====
-- The conversion of the errors of virtio-drivers, in gpu-wddm/src/adapter.rs.
use virtio_drivers_windows.Base.{
  Status, buffer_too_small, invalid_handle, already_committed, invalid_parameter, no_memory,
  io_device_error, device_not_ready, invalid_device_request, device_configuration_error,
  unexpected_network_error,
}

-- `virtio_drivers::Error`.
pub data VirtioError : Type 0 where
  queue_full not_ready wrong_token already_used invalid_param dma_error io_error : VirtioError
  unsupported config_space_too_small config_space_missing socket_device_error : VirtioError

abbrev pub from_virtio_error : VirtioError → Status
from_virtio_error queue_full = buffer_too_small
from_virtio_error not_ready = device_not_ready
from_virtio_error wrong_token = invalid_handle
from_virtio_error already_used = already_committed
from_virtio_error invalid_param = invalid_parameter
from_virtio_error dma_error = no_memory
from_virtio_error io_error = io_device_error
from_virtio_error unsupported = invalid_device_request
from_virtio_error config_space_too_small = buffer_too_small
from_virtio_error config_space_missing = device_configuration_error
from_virtio_error socket_device_error = unexpected_network_error
