-- ===== src/Dcgm/Structs/Links.antt =====
-- The NvLink, module and profiling structs of internal/include/dcgm_structs.h.
use gpu_metric_collector.Base.{[], ◌*◌, ◌∷◌}
use gpu_metric_collector.Dcgm.Layout.{
  Ctype, array, char, double, enumeration, int, long, long_long, members, pointer, scalar, struct,
  union, unsigned_int, unsigned_long, unsigned_short,
}
use gpu_metric_collector.Dcgm.Structs.Limits.{
  dcgm_max_num_devices, dcgm_max_num_switches, dcgm_max_str_length, dcgm_module_id_count,
  dcgm_module_statuses_capacity, dcgm_nvlink_max_links_per_gpu,
  dcgm_nvlink_max_links_per_gpu_legacy1, dcgm_nvlink_max_links_per_nvswitch,
  dcgm_prof_max_field_ids_per_group, dcgm_prof_max_num_groups, dcgm_summary_size,
}

abbrev pub dcgm_topo_sched_hint_v1 : Ctype
dcgm_topo_sched_hint_v1 = struct (
    members (
      ("version", scalar unsigned_int)
      ∷ ("inputGpuIds", scalar unsigned_long)
      ∷ ("numGpus", scalar unsigned_int)
      ∷ ("hintFlags", scalar unsigned_long)
      ∷ []))

abbrev pub dcgm_nvlink_gpu_link_status_v1 : Ctype
dcgm_nvlink_gpu_link_status_v1 = struct (
    members (
      ("entityId", scalar unsigned_int)
      ∷ ("linkState", array (scalar enumeration) dcgm_nvlink_max_links_per_gpu_legacy1)
      ∷ []))

abbrev pub dcgm_nvlink_gpu_link_status_v2 : Ctype
dcgm_nvlink_gpu_link_status_v2 = struct (
    members (
      ("entityId", scalar unsigned_int)
      ∷ ("linkState", array (scalar enumeration) dcgm_nvlink_max_links_per_gpu)
      ∷ []))

abbrev pub dcgm_nvlink_nvswitch_link_status_t : Ctype
dcgm_nvlink_nvswitch_link_status_t = struct (
    members (
      ("entityId", scalar unsigned_int)
      ∷ ("linkState", array (scalar enumeration) dcgm_nvlink_max_links_per_nvswitch)
      ∷ []))

abbrev pub dcgm_nvlink_status_v1 : Ctype
dcgm_nvlink_status_v1 = struct (
    members (
      ("version", scalar unsigned_int)
      ∷ ("numGpus", scalar unsigned_int)
      ∷ ("gpus", array dcgm_nvlink_gpu_link_status_v1 dcgm_max_num_devices)
      ∷ ("numNvSwitches", scalar unsigned_int)
      ∷ ("nvSwitches", array dcgm_nvlink_nvswitch_link_status_t dcgm_max_num_switches)
      ∷ []))

abbrev pub dcgm_nvlink_status_v2 : Ctype
dcgm_nvlink_status_v2 = struct (
    members (
      ("version", scalar unsigned_int)
      ∷ ("numGpus", scalar unsigned_int)
      ∷ ("gpus", array dcgm_nvlink_gpu_link_status_v2 dcgm_max_num_devices)
      ∷ ("numNvSwitches", scalar unsigned_int)
      ∷ ("nvSwitches", array dcgm_nvlink_nvswitch_link_status_t dcgm_max_num_switches)
      ∷ []))

abbrev pub dcgm_summary_response_t : Ctype
dcgm_summary_response_t = struct (
    members (
      ("fieldType", scalar unsigned_int)
      ∷ ("summaryCount", scalar unsigned_int)
      ∷ (
        "values",
        array (union (members (("i64", scalar long) ∷ ("fp64", scalar double) ∷ [])))
            dcgm_summary_size,
      )
      ∷ []))

abbrev pub dcgm_field_summary_request_v1 : Ctype
dcgm_field_summary_request_v1 = struct (
    members (
      ("version", scalar unsigned_int)
      ∷ ("fieldId", scalar unsigned_short)
      ∷ ("entityGroupId", scalar enumeration)
      ∷ ("entityId", scalar unsigned_int)
      ∷ ("summaryTypeMask", scalar unsigned_int)
      ∷ ("startTime", scalar unsigned_long)
      ∷ ("endTime", scalar unsigned_long)
      ∷ ("response", dcgm_summary_response_t)
      ∷ []))

abbrev pub dcgm_module_get_statuses_module_t : Ctype
dcgm_module_get_statuses_module_t =
    struct (members (("id", scalar enumeration) ∷ ("status", scalar enumeration) ∷ []))

abbrev pub dcgm_module_get_statuses_v1 : Ctype
dcgm_module_get_statuses_v1 = struct (
    members (
      ("version", scalar unsigned_int)
      ∷ ("numStatuses", scalar unsigned_int)
      ∷ ("statuses", array dcgm_module_get_statuses_module_t dcgm_module_statuses_capacity)
      ∷ []))

abbrev pub dcgm_start_embedded_v2_params_v1 : Ctype
dcgm_start_embedded_v2_params_v1 = struct (
    members (
      ("version", scalar unsigned_int)
      ∷ ("opMode", scalar enumeration)
      ∷ ("dcgmHandle", scalar unsigned_long)
      ∷ ("logFile", scalar pointer)
      ∷ ("severity", scalar enumeration)
      ∷ ("blackListCount", scalar unsigned_int)
      ∷ ("blackList", array (scalar enumeration) dcgm_module_id_count)
      ∷ ("unused", scalar unsigned_int)
      ∷ []))

abbrev pub dcgm_prof_metric_group_info_t : Ctype
dcgm_prof_metric_group_info_t = struct (
    members (
      ("majorId", scalar unsigned_short)
      ∷ ("minorId", scalar unsigned_short)
      ∷ ("numFieldIds", scalar unsigned_int)
      ∷ ("fieldIds", array (scalar unsigned_short) dcgm_prof_max_field_ids_per_group)
      ∷ []))

abbrev pub dcgm_prof_get_metric_groups_v2 : Ctype
dcgm_prof_get_metric_groups_v2 = struct (
    members (
      ("version", scalar unsigned_int)
      ∷ ("unused", scalar unsigned_int)
      ∷ ("groupId", scalar unsigned_long)
      ∷ ("numMetricGroups", scalar unsigned_int)
      ∷ ("unused1", scalar unsigned_int)
      ∷ ("metricGroups", array dcgm_prof_metric_group_info_t dcgm_prof_max_num_groups)
      ∷ []))

abbrev pub dcgm_prof_get_metric_groups_t : Ctype
dcgm_prof_get_metric_groups_t = dcgm_prof_get_metric_groups_v2

abbrev pub dcgm_prof_watch_fields_v1 : Ctype
dcgm_prof_watch_fields_v1 = struct (
    members (
      ("version", scalar unsigned_int)
      ∷ ("groupId", scalar unsigned_long)
      ∷ ("numFieldIds", scalar unsigned_int)
      ∷ ("fieldIds", array (scalar unsigned_short) 16)
      ∷ ("updateFreq", scalar long_long)
      ∷ ("maxKeepAge", scalar double)
      ∷ ("maxKeepSamples", scalar int)
      ∷ ("flags", scalar unsigned_int)
      ∷ []))

abbrev pub dcgm_prof_unwatch_fields_v1 : Ctype
dcgm_prof_unwatch_fields_v1 = struct (
    members (
      ("version", scalar unsigned_int)
      ∷ ("groupId", scalar unsigned_long)
      ∷ ("flags", scalar unsigned_int)
      ∷ []))

abbrev pub dcgm_settings_set_logging_severity_v1 : Ctype
dcgm_settings_set_logging_severity_v1 =
    struct (members (("targetLogger", scalar int) ∷ ("targetSeverity", scalar enumeration) ∷ []))

abbrev pub dcgm_version_info_v2 : Ctype
dcgm_version_info_v2 = struct (
    members (
      ("version", scalar unsigned_int)
      ∷ ("rawBuildInfoString", array (scalar char) (dcgm_max_str_length * 2))
      ∷ []))

abbrev pub dcgm_version_info_t : Ctype
dcgm_version_info_t = dcgm_version_info_v2
