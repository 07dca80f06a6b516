-- ===== src/Dcgm/Fields.antt =====
-- The field identifiers of internal/include/dcgm_fields.h and their copies in pkg/dcgm/const.go.
use gpu_metric_collector.Base.{ℕ, String, List, [], ◌∷◌, ◌++◌, str_eq, if◌then◌else◌}
use gpu_metric_collector.Dcgm.Fields.Device.{
  identity_fields, clock_fields, limit_fields, ecc_fields,
}
use gpu_metric_collector.Dcgm.Fields.Nvlink.{
  nvlink_crc_fields, nvlink_replay_fields, vgpu_fields, latency_fields_0,
}
use gpu_metric_collector.Dcgm.Fields.Switch.{latency_fields_2, latency_fields_10, port_fields_17}
use gpu_metric_collector.Dcgm.Fields.Profiling.{bandwidth_fields_1, profiling_fields}
use gpu_metric_collector.Dcgm.Fields.ConstantsDevice.{device_constants}
use gpu_metric_collector.Dcgm.Fields.ConstantsLink.{link_constants}
use gpu_metric_collector.Dcgm.Fields.ConstantsSwitch.{switch_constants}
use gpu_metric_collector.Dcgm.Fields.KeysDevice.{device_keys}
use gpu_metric_collector.Dcgm.Fields.KeysLink.{link_keys}
use gpu_metric_collector.Dcgm.Fields.KeysSwitch.{switch_keys}
pub mod Device
pub mod Nvlink
pub mod Switch
pub mod Profiling
pub mod ConstantsDevice
pub mod ConstantsLink
pub mod ConstantsSwitch
pub mod KeysDevice
pub mod KeysLink
pub mod KeysSwitch
pub mod Old
pub mod Agreement
pub mod Distinct
mod Tests

-- The header's field identifiers, in order.
abbrev pub header_fields : List (String × ℕ)
header_fields =
    identity_fields ++ clock_fields ++ limit_fields ++ ecc_fields ++ nvlink_crc_fields
    ++ nvlink_replay_fields ++ vgpu_fields ++ latency_fields_0 ++ latency_fields_2
    ++ latency_fields_10 ++ port_fields_17 ++ bandwidth_fields_1 ++ profiling_fields

abbrev pub field_constants : List (String × ℕ)
field_constants = device_constants ++ link_constants ++ switch_constants

abbrev pub field_keys : List (String × ℕ)
field_keys = device_keys ++ link_keys ++ switch_keys

-- Reading a Go map: a name that it lacks gives 0.
unfoldable pub map_read : String → List (String × ℕ) → ℕ
map_read name [] = 0
map_read name ((key, id) ∷ rest) =
    let later = map_read name rest in if str_eq key name then id else later
