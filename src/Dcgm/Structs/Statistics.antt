-- ===== src/Dcgm/Structs/Statistics.antt =====
-- The health, process and job structs of internal/include/dcgm_structs.h.
use gpu_metric_collector.Base.{[], ◌∷◌}
use gpu_metric_collector.Dcgm.Layout.{
  Ctype, array, char, double, enumeration, int, long_long, members, scalar, struct, unsigned_int,
  unsigned_long, unsigned_long_long,
}
use gpu_metric_collector.Dcgm.Structs.Limits.{
  dcgm_health_watch_count_v1, dcgm_health_watch_max_incidents, dcgm_max_num_devices,
  dcgm_max_pid_info_num,
}
use gpu_metric_collector.Dcgm.Structs.Groups.{dcgm_group_entity_pair_t}

abbrev pub dcgm_stat_summary_int64_t : Ctype
dcgm_stat_summary_int64_t = struct (
    members (
      ("minValue", scalar long_long)
      ∷ ("maxValue", scalar long_long)
      ∷ ("average", scalar long_long)
      ∷ []))

abbrev pub dcgm_stat_summary_int32_t : Ctype
dcgm_stat_summary_int32_t =
    struct
      (members (("minValue", scalar int) ∷ ("maxValue", scalar int) ∷ ("average", scalar int) ∷ []))

abbrev pub dcgm_stat_summary_fp64_t : Ctype
dcgm_stat_summary_fp64_t = struct (
    members
      (("minValue", scalar double) ∷ ("maxValue", scalar double) ∷ ("average", scalar double) ∷ []))

abbrev pub dcgm_diag_error_detail_t : Ctype
dcgm_diag_error_detail_t =
    struct (members (("msg", array (scalar char) 1024) ∷ ("code", scalar unsigned_int) ∷ []))

abbrev pub dcgm_incident_info_t : Ctype
dcgm_incident_info_t = struct (
    members (
      ("system", scalar enumeration)
      ∷ ("health", scalar enumeration)
      ∷ ("error", dcgm_diag_error_detail_t)
      ∷ ("entityInfo", dcgm_group_entity_pair_t)
      ∷ []))

abbrev pub dcgm_health_response_v4 : Ctype
dcgm_health_response_v4 = struct (
    members (
      ("version", scalar unsigned_int)
      ∷ ("overallHealth", scalar enumeration)
      ∷ ("incidentCount", scalar unsigned_int)
      ∷ ("incidents", array dcgm_incident_info_t dcgm_health_watch_max_incidents)
      ∷ []))

abbrev pub dcgm_health_response_t : Ctype
dcgm_health_response_t = dcgm_health_response_v4

abbrev pub dcgm_health_set_params_v2 : Ctype
dcgm_health_set_params_v2 = struct (
    members (
      ("version", scalar unsigned_int)
      ∷ ("groupId", scalar unsigned_long)
      ∷ ("systems", scalar enumeration)
      ∷ ("updateInterval", scalar long_long)
      ∷ ("maxKeepAge", scalar double)
      ∷ []))

abbrev pub dcgm_process_util_info_t : Ctype
dcgm_process_util_info_t = struct (
    members
      (("pid", scalar unsigned_int) ∷ ("smUtil", scalar double) ∷ ("memUtil", scalar double) ∷ []))

abbrev pub dcgm_process_util_sample_t : Ctype
dcgm_process_util_sample_t =
    struct (members (("util", scalar double) ∷ ("pid", scalar unsigned_int) ∷ []))

abbrev pub dcgm_pid_single_info_t : Ctype
dcgm_pid_single_info_t = struct (
    members (
      ("gpuId", scalar unsigned_int)
      ∷ ("energyConsumed", scalar long_long)
      ∷ ("pcieRxBandwidth", dcgm_stat_summary_int64_t)
      ∷ ("pcieTxBandwidth", dcgm_stat_summary_int64_t)
      ∷ ("pcieReplays", scalar long_long)
      ∷ ("startTime", scalar long_long)
      ∷ ("endTime", scalar long_long)
      ∷ ("processUtilization", dcgm_process_util_info_t)
      ∷ ("smUtilization", dcgm_stat_summary_int32_t)
      ∷ ("memoryUtilization", dcgm_stat_summary_int32_t)
      ∷ ("eccSingleBit", scalar unsigned_int)
      ∷ ("eccDoubleBit", scalar unsigned_int)
      ∷ ("memoryClock", dcgm_stat_summary_int32_t)
      ∷ ("smClock", dcgm_stat_summary_int32_t)
      ∷ ("numXidCriticalErrors", scalar int)
      ∷ ("xidCriticalErrorsTs", array (scalar long_long) 10)
      ∷ ("numOtherComputePids", scalar int)
      ∷ ("otherComputePids", array (scalar unsigned_int) dcgm_max_pid_info_num)
      ∷ ("numOtherGraphicsPids", scalar int)
      ∷ ("otherGraphicsPids", array (scalar unsigned_int) dcgm_max_pid_info_num)
      ∷ ("maxGpuMemoryUsed", scalar long_long)
      ∷ ("powerViolationTime", scalar long_long)
      ∷ ("thermalViolationTime", scalar long_long)
      ∷ ("reliabilityViolationTime", scalar long_long)
      ∷ ("boardLimitViolationTime", scalar long_long)
      ∷ ("lowUtilizationTime", scalar long_long)
      ∷ ("syncBoostTime", scalar long_long)
      ∷ ("overallHealth", scalar enumeration)
      ∷ ("incidentCount", scalar unsigned_int)
      ∷ (
        "systems",
        array
            (struct
              (members (("system", scalar enumeration) ∷ ("health", scalar enumeration) ∷ [])))
            dcgm_health_watch_count_v1,
      )
      ∷ []))

abbrev pub dcgm_pid_info_v2 : Ctype
dcgm_pid_info_v2 = struct (
    members (
      ("version", scalar unsigned_int)
      ∷ ("pid", scalar unsigned_int)
      ∷ ("unused", scalar unsigned_int)
      ∷ ("numGpus", scalar int)
      ∷ ("summary", dcgm_pid_single_info_t)
      ∷ ("gpus", array dcgm_pid_single_info_t dcgm_max_num_devices)
      ∷ []))

abbrev pub dcgm_pid_info_t : Ctype
dcgm_pid_info_t = dcgm_pid_info_v2

abbrev pub dcgm_gpu_usage_info_t : Ctype
dcgm_gpu_usage_info_t = struct (
    members (
      ("gpuId", scalar unsigned_int)
      ∷ ("energyConsumed", scalar long_long)
      ∷ ("powerUsage", dcgm_stat_summary_fp64_t)
      ∷ ("pcieRxBandwidth", dcgm_stat_summary_int64_t)
      ∷ ("pcieTxBandwidth", dcgm_stat_summary_int64_t)
      ∷ ("pcieReplays", scalar long_long)
      ∷ ("startTime", scalar long_long)
      ∷ ("endTime", scalar long_long)
      ∷ ("smUtilization", dcgm_stat_summary_int32_t)
      ∷ ("memoryUtilization", dcgm_stat_summary_int32_t)
      ∷ ("eccSingleBit", scalar unsigned_int)
      ∷ ("eccDoubleBit", scalar unsigned_int)
      ∷ ("memoryClock", dcgm_stat_summary_int32_t)
      ∷ ("smClock", dcgm_stat_summary_int32_t)
      ∷ ("numXidCriticalErrors", scalar int)
      ∷ ("xidCriticalErrorsTs", array (scalar long_long) 10)
      ∷ ("numComputePids", scalar int)
      ∷ ("computePidInfo", array dcgm_process_util_info_t dcgm_max_pid_info_num)
      ∷ ("numGraphicsPids", scalar int)
      ∷ ("graphicsPidInfo", array dcgm_process_util_info_t dcgm_max_pid_info_num)
      ∷ ("maxGpuMemoryUsed", scalar long_long)
      ∷ ("powerViolationTime", scalar long_long)
      ∷ ("thermalViolationTime", scalar long_long)
      ∷ ("reliabilityViolationTime", scalar long_long)
      ∷ ("boardLimitViolationTime", scalar long_long)
      ∷ ("lowUtilizationTime", scalar long_long)
      ∷ ("syncBoostTime", scalar long_long)
      ∷ ("overallHealth", scalar enumeration)
      ∷ ("incidentCount", scalar unsigned_int)
      ∷ (
        "systems",
        array
            (struct
              (members (("system", scalar enumeration) ∷ ("health", scalar enumeration) ∷ [])))
            dcgm_health_watch_count_v1,
      )
      ∷ []))

abbrev pub dcgm_job_info_v3 : Ctype
dcgm_job_info_v3 = struct (
    members (
      ("version", scalar unsigned_int)
      ∷ ("numGpus", scalar int)
      ∷ ("summary", dcgm_gpu_usage_info_t)
      ∷ ("gpus", array dcgm_gpu_usage_info_t dcgm_max_num_devices)
      ∷ []))

abbrev pub dcgm_running_process_v1 : Ctype
dcgm_running_process_v1 = struct (
    members (
      ("version", scalar unsigned_int)
      ∷ ("pid", scalar unsigned_int)
      ∷ ("memoryUsed", scalar unsigned_long_long)
      ∷ []))
