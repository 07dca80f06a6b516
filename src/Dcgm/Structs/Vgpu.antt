-- ===== src/Dcgm/Structs/Vgpu.antt =====
-- The virtual GPU, device attribute and configuration structs of internal/include/dcgm_structs.h.
use gpu_metric_collector.Base.{[], ◌∷◌}
use gpu_metric_collector.Dcgm.Layout.{
  Ctype, array, char, enumeration, int, members, scalar, struct, union, unsigned_int,
}
use gpu_metric_collector.Dcgm.Structs.Limits.{
  dcgm_grid_license_buffer_size, dcgm_vgpu_name_buffer_size,
}
use gpu_metric_collector.Dcgm.Structs.Device.{
  dcgm_clock_set_t, dcgm_device_identifiers_t, dcgm_device_memory_usage_t,
  dcgm_device_power_limits_t, dcgm_device_supported_clock_sets_t, dcgm_device_thermals_t,
}

abbrev pub dcgm_device_vgpu_enc_sessions_v1 : Ctype
dcgm_device_vgpu_enc_sessions_v1 = struct (
    members (
      ("version", scalar unsigned_int)
      ∷ (
        "encoderSessionInfo",
        union (
            members (("vgpuId", scalar unsigned_int) ∷ ("sessionCount", scalar unsigned_int) ∷ [])),
      )
      ∷ ("sessionId", scalar unsigned_int)
      ∷ ("pid", scalar unsigned_int)
      ∷ ("codecType", scalar enumeration)
      ∷ ("hResolution", scalar unsigned_int)
      ∷ ("vResolution", scalar unsigned_int)
      ∷ ("averageFps", scalar unsigned_int)
      ∷ ("averageLatency", scalar unsigned_int)
      ∷ []))

abbrev pub dcgm_device_vgpu_process_util_info_v1 : Ctype
dcgm_device_vgpu_process_util_info_v1 = struct (
    members (
      ("version", scalar unsigned_int)
      ∷ (
        "vgpuProcessUtilInfo",
        union (
            members (
              ("vgpuId", scalar unsigned_int)
              ∷ ("vgpuProcessSamplesCount", scalar unsigned_int)
              ∷ [])),
      )
      ∷ ("pid", scalar unsigned_int)
      ∷ ("processName", array (scalar char) dcgm_vgpu_name_buffer_size)
      ∷ ("smUtil", scalar unsigned_int)
      ∷ ("memUtil", scalar unsigned_int)
      ∷ ("encUtil", scalar unsigned_int)
      ∷ ("decUtil", scalar unsigned_int)
      ∷ []))

abbrev pub dcgm_device_vgpu_type_info_v1 : Ctype
dcgm_device_vgpu_type_info_v1 = struct (
    members (
      ("version", scalar unsigned_int)
      ∷ (
        "vgpuTypeInfo",
        union (
            members (
              ("vgpuTypeId", scalar unsigned_int)
              ∷ ("supportedVgpuTypeCount", scalar unsigned_int)
              ∷ [])),
      )
      ∷ ("vgpuTypeName", array (scalar char) dcgm_vgpu_name_buffer_size)
      ∷ ("vgpuTypeClass", array (scalar char) dcgm_vgpu_name_buffer_size)
      ∷ ("vgpuTypeLicense", array (scalar char) dcgm_grid_license_buffer_size)
      ∷ ("deviceId", scalar int)
      ∷ ("subsystemId", scalar int)
      ∷ ("numDisplayHeads", scalar int)
      ∷ ("maxInstances", scalar int)
      ∷ ("frameRateLimit", scalar int)
      ∷ ("maxResolutionX", scalar int)
      ∷ ("maxResolutionY", scalar int)
      ∷ ("fbTotal", scalar int)
      ∷ []))

abbrev pub dcgm_device_settings_v1 : Ctype
dcgm_device_settings_v1 = struct (
    members (
      ("version", scalar unsigned_int)
      ∷ ("persistenceModeEnabled", scalar unsigned_int)
      ∷ ("migModeEnabled", scalar unsigned_int)
      ∷ []))

abbrev pub dcgm_device_settings_t : Ctype
dcgm_device_settings_t = dcgm_device_settings_v1

abbrev pub dcgm_device_attributes_v1 : Ctype
dcgm_device_attributes_v1 = struct (
    members (
      ("version", scalar unsigned_int)
      ∷ ("clockSets", dcgm_device_supported_clock_sets_t)
      ∷ ("thermalSettings", dcgm_device_thermals_t)
      ∷ ("powerLimits", dcgm_device_power_limits_t)
      ∷ ("identifiers", dcgm_device_identifiers_t)
      ∷ ("memoryUsage", dcgm_device_memory_usage_t)
      ∷ ("unused", array (scalar char) 208)
      ∷ []))

abbrev pub dcgm_device_attributes_v2 : Ctype
dcgm_device_attributes_v2 = struct (
    members (
      ("version", scalar unsigned_int)
      ∷ ("clockSets", dcgm_device_supported_clock_sets_t)
      ∷ ("thermalSettings", dcgm_device_thermals_t)
      ∷ ("powerLimits", dcgm_device_power_limits_t)
      ∷ ("identifiers", dcgm_device_identifiers_t)
      ∷ ("memoryUsage", dcgm_device_memory_usage_t)
      ∷ ("settings", dcgm_device_settings_t)
      ∷ []))

abbrev pub dcgm_device_attributes_t : Ctype
dcgm_device_attributes_t = dcgm_device_attributes_v2

abbrev pub dcgm_config_perf_state_settings_t : Ctype
dcgm_config_perf_state_settings_t =
    struct (members (("syncBoost", scalar unsigned_int) ∷ ("targetClocks", dcgm_clock_set_t) ∷ []))

abbrev pub dcgm_config_power_limit_t : Ctype
dcgm_config_power_limit_t =
    struct (members (("type", scalar enumeration) ∷ ("val", scalar unsigned_int) ∷ []))

abbrev pub dcgm_config_v1 : Ctype
dcgm_config_v1 = struct (
    members (
      ("version", scalar unsigned_int)
      ∷ ("gpuId", scalar unsigned_int)
      ∷ ("eccMode", scalar unsigned_int)
      ∷ ("computeMode", scalar unsigned_int)
      ∷ ("perfState", dcgm_config_perf_state_settings_t)
      ∷ ("powerLimit", dcgm_config_power_limit_t)
      ∷ []))
