-- ===== src/Dcgm/Structs/Device.antt =====
-- The clocks, limits and identity of a device structs of internal/include/dcgm_structs.h.
use gpu_metric_collector.Base.{[], ◌∷◌}
use gpu_metric_collector.Dcgm.Layout.{
  Ctype, array, char, enumeration, members, scalar, struct, unsigned_int, unsigned_long_long,
}
use gpu_metric_collector.Dcgm.Structs.Limits.{
  dcgm_max_clocks, dcgm_max_fbc_sessions, dcgm_max_str_length,
}
use gpu_metric_collector.Dcgm.Structs.Groups.{dcgm_clock_set_v1}

abbrev pub dcgm_clock_set_t : Ctype
dcgm_clock_set_t = dcgm_clock_set_v1

abbrev pub dcgm_device_supported_clock_sets_v1 : Ctype
dcgm_device_supported_clock_sets_v1 = struct (
    members (
      ("version", scalar unsigned_int)
      ∷ ("count", scalar unsigned_int)
      ∷ ("clockSet", array dcgm_clock_set_t dcgm_max_clocks)
      ∷ []))

abbrev pub dcgm_device_supported_clock_sets_t : Ctype
dcgm_device_supported_clock_sets_t = dcgm_device_supported_clock_sets_v1

abbrev pub dcgm_device_pid_accounting_stats_v1 : Ctype
dcgm_device_pid_accounting_stats_v1 = struct (
    members (
      ("version", scalar unsigned_int)
      ∷ ("pid", scalar unsigned_int)
      ∷ ("gpuUtilization", scalar unsigned_int)
      ∷ ("memoryUtilization", scalar unsigned_int)
      ∷ ("maxMemoryUsage", scalar unsigned_long_long)
      ∷ ("startTimestamp", scalar unsigned_long_long)
      ∷ ("activeTimeUsec", scalar unsigned_long_long)
      ∷ []))

abbrev pub dcgm_device_thermals_v1 : Ctype
dcgm_device_thermals_v1 = struct (
    members (
      ("version", scalar unsigned_int)
      ∷ ("slowdownTemp", scalar unsigned_int)
      ∷ ("shutdownTemp", scalar unsigned_int)
      ∷ []))

abbrev pub dcgm_device_thermals_t : Ctype
dcgm_device_thermals_t = dcgm_device_thermals_v1

abbrev pub dcgm_device_power_limits_v1 : Ctype
dcgm_device_power_limits_v1 = struct (
    members (
      ("version", scalar unsigned_int)
      ∷ ("curPowerLimit", scalar unsigned_int)
      ∷ ("defaultPowerLimit", scalar unsigned_int)
      ∷ ("enforcedPowerLimit", scalar unsigned_int)
      ∷ ("minPowerLimit", scalar unsigned_int)
      ∷ ("maxPowerLimit", scalar unsigned_int)
      ∷ []))

abbrev pub dcgm_device_power_limits_t : Ctype
dcgm_device_power_limits_t = dcgm_device_power_limits_v1

abbrev pub dcgm_device_identifiers_v1 : Ctype
dcgm_device_identifiers_v1 = struct (
    members (
      ("version", scalar unsigned_int)
      ∷ ("brandName", array (scalar char) dcgm_max_str_length)
      ∷ ("deviceName", array (scalar char) dcgm_max_str_length)
      ∷ ("pciBusId", array (scalar char) dcgm_max_str_length)
      ∷ ("serial", array (scalar char) dcgm_max_str_length)
      ∷ ("uuid", array (scalar char) dcgm_max_str_length)
      ∷ ("vbios", array (scalar char) dcgm_max_str_length)
      ∷ ("inforomImageVersion", array (scalar char) dcgm_max_str_length)
      ∷ ("pciDeviceId", scalar unsigned_int)
      ∷ ("pciSubSystemId", scalar unsigned_int)
      ∷ ("driverVersion", array (scalar char) dcgm_max_str_length)
      ∷ ("virtualizationMode", scalar unsigned_int)
      ∷ []))

abbrev pub dcgm_device_identifiers_t : Ctype
dcgm_device_identifiers_t = dcgm_device_identifiers_v1

abbrev pub dcgm_device_memory_usage_v1 : Ctype
dcgm_device_memory_usage_v1 = struct (
    members (
      ("version", scalar unsigned_int)
      ∷ ("bar1Total", scalar unsigned_int)
      ∷ ("fbTotal", scalar unsigned_int)
      ∷ ("fbUsed", scalar unsigned_int)
      ∷ ("fbFree", scalar unsigned_int)
      ∷ []))

abbrev pub dcgm_device_memory_usage_t : Ctype
dcgm_device_memory_usage_t = dcgm_device_memory_usage_v1

abbrev pub dcgm_device_vgpu_util_info_v1 : Ctype
dcgm_device_vgpu_util_info_v1 = struct (
    members (
      ("version", scalar unsigned_int)
      ∷ ("vgpuId", scalar unsigned_int)
      ∷ ("smUtil", scalar unsigned_int)
      ∷ ("memUtil", scalar unsigned_int)
      ∷ ("encUtil", scalar unsigned_int)
      ∷ ("decUtil", scalar unsigned_int)
      ∷ []))

abbrev pub dcgm_device_enc_stats_v1 : Ctype
dcgm_device_enc_stats_v1 = struct (
    members (
      ("version", scalar unsigned_int)
      ∷ ("sessionCount", scalar unsigned_int)
      ∷ ("averageFps", scalar unsigned_int)
      ∷ ("averageLatency", scalar unsigned_int)
      ∷ []))

abbrev pub dcgm_device_fbc_stats_v1 : Ctype
dcgm_device_fbc_stats_v1 = struct (
    members (
      ("version", scalar unsigned_int)
      ∷ ("sessionCount", scalar unsigned_int)
      ∷ ("averageFps", scalar unsigned_int)
      ∷ ("averageLatency", scalar unsigned_int)
      ∷ []))

abbrev pub dcgm_device_fbc_session_info_v1 : Ctype
dcgm_device_fbc_session_info_v1 = struct (
    members (
      ("version", scalar unsigned_int)
      ∷ ("sessionId", scalar unsigned_int)
      ∷ ("pid", scalar unsigned_int)
      ∷ ("vgpuId", scalar unsigned_int)
      ∷ ("displayOrdinal", scalar unsigned_int)
      ∷ ("sessionType", scalar enumeration)
      ∷ ("sessionFlags", scalar unsigned_int)
      ∷ ("hMaxResolution", scalar unsigned_int)
      ∷ ("vMaxResolution", scalar unsigned_int)
      ∷ ("hResolution", scalar unsigned_int)
      ∷ ("vResolution", scalar unsigned_int)
      ∷ ("averageFps", scalar unsigned_int)
      ∷ ("averageLatency", scalar unsigned_int)
      ∷ []))

abbrev pub dcgm_device_fbc_session_info_t : Ctype
dcgm_device_fbc_session_info_t = dcgm_device_fbc_session_info_v1

abbrev pub dcgm_device_fbc_sessions_v1 : Ctype
dcgm_device_fbc_sessions_v1 = struct (
    members (
      ("version", scalar unsigned_int)
      ∷ ("sessionCount", scalar unsigned_int)
      ∷ ("sessionInfo", array dcgm_device_fbc_session_info_t dcgm_max_fbc_sessions)
      ∷ []))
