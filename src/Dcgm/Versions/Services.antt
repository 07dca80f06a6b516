-- ===== src/Dcgm/Versions/Services.antt =====
-- The version macros of the policy, health, job, diagnostic, introspection and module structs.
use gpu_metric_collector.Base.{List, [], ◌∷◌}
use gpu_metric_collector.Dcgm.Versions.{Version}
use gpu_metric_collector.Dcgm.Structs.Diagnostics.{
  dcgm_device_topology_v1, dcgm_diag_response_v6, dcgm_group_topology_v1,
}
use gpu_metric_collector.Dcgm.Structs.Introspection.{
  dcgm_introspect_context_v1, dcgm_introspect_cpu_util_v1, dcgm_introspect_fields_exec_time_v1,
  dcgm_introspect_full_fields_exec_time_v2, dcgm_introspect_full_memory_v1,
  dcgm_introspect_memory_v1, dcgm_run_diag_v7,
}
use gpu_metric_collector.Dcgm.Structs.Links.{
  dcgm_field_summary_request_v1, dcgm_module_get_statuses_v1, dcgm_nvlink_status_v1,
  dcgm_nvlink_status_v2, dcgm_prof_get_metric_groups_v2, dcgm_prof_unwatch_fields_v1,
  dcgm_prof_watch_fields_v1, dcgm_settings_set_logging_severity_v1,
  dcgm_start_embedded_v2_params_v1, dcgm_topo_sched_hint_v1, dcgm_version_info_v2,
}
use gpu_metric_collector.Dcgm.Structs.Policy.{
  dcgm_field_value_v1, dcgm_field_value_v2, dcgm_policy_callback_response_v1, dcgm_policy_v1,
  dcgm_policy_violation_v1,
}
use gpu_metric_collector.Dcgm.Structs.Statistics.{
  dcgm_health_response_v4, dcgm_health_set_params_v2, dcgm_job_info_v3, dcgm_pid_info_v2,
  dcgm_running_process_v1,
}

abbrev pub dcgm_policy_violation_version1 : Version
dcgm_policy_violation_version1 = record { structure = dcgm_policy_violation_v1; number = 1 }

abbrev pub dcgm_policy_version1 : Version
dcgm_policy_version1 = record { structure = dcgm_policy_v1; number = 1 }

abbrev pub dcgm_policy_callback_response_version1 : Version
dcgm_policy_callback_response_version1 = record {
  structure = dcgm_policy_callback_response_v1;
  number = 1;
}

abbrev pub dcgm_field_value_version1 : Version
dcgm_field_value_version1 = record { structure = dcgm_field_value_v1; number = 1 }

abbrev pub dcgm_field_value_version2 : Version
dcgm_field_value_version2 = record { structure = dcgm_field_value_v2; number = 2 }

abbrev pub dcgm_health_response_version4 : Version
dcgm_health_response_version4 = record { structure = dcgm_health_response_v4; number = 4 }

abbrev pub dcgm_health_set_params_version2 : Version
dcgm_health_set_params_version2 = record { structure = dcgm_health_set_params_v2; number = 2 }

abbrev pub dcgm_pid_info_version2 : Version
dcgm_pid_info_version2 = record { structure = dcgm_pid_info_v2; number = 2 }

abbrev pub dcgm_job_info_version3 : Version
dcgm_job_info_version3 = record { structure = dcgm_job_info_v3; number = 3 }

abbrev pub dcgm_running_process_version1 : Version
dcgm_running_process_version1 = record { structure = dcgm_running_process_v1; number = 1 }

abbrev pub dcgm_diag_response_version6 : Version
dcgm_diag_response_version6 = record { structure = dcgm_diag_response_v6; number = 6 }

abbrev pub dcgm_device_topology_version1 : Version
dcgm_device_topology_version1 = record { structure = dcgm_device_topology_v1; number = 1 }

abbrev pub dcgm_group_topology_version1 : Version
dcgm_group_topology_version1 = record { structure = dcgm_group_topology_v1; number = 1 }

abbrev pub dcgm_introspect_context_version1 : Version
dcgm_introspect_context_version1 = record { structure = dcgm_introspect_context_v1; number = 1 }

abbrev pub dcgm_introspect_fields_exec_time_version1 : Version
dcgm_introspect_fields_exec_time_version1 = record {
  structure = dcgm_introspect_fields_exec_time_v1;
  number = 1;
}

abbrev pub dcgm_introspect_full_fields_exec_time_version2 : Version
dcgm_introspect_full_fields_exec_time_version2 = record {
  structure = dcgm_introspect_full_fields_exec_time_v2;
  number = 2;
}

abbrev pub dcgm_introspect_memory_version1 : Version
dcgm_introspect_memory_version1 = record { structure = dcgm_introspect_memory_v1; number = 1 }

abbrev pub dcgm_introspect_full_memory_version1 : Version
dcgm_introspect_full_memory_version1 = record {
  structure = dcgm_introspect_full_memory_v1;
  number = 1;
}

abbrev pub dcgm_introspect_cpu_util_version1 : Version
dcgm_introspect_cpu_util_version1 = record { structure = dcgm_introspect_cpu_util_v1; number = 1 }

abbrev pub dcgm_run_diag_version7 : Version
dcgm_run_diag_version7 = record { structure = dcgm_run_diag_v7; number = 7 }

abbrev pub dcgm_topo_sched_hint_version1 : Version
dcgm_topo_sched_hint_version1 = record { structure = dcgm_topo_sched_hint_v1; number = 1 }

abbrev pub dcgm_nvlink_status_version1 : Version
dcgm_nvlink_status_version1 = record { structure = dcgm_nvlink_status_v1; number = 1 }

abbrev pub dcgm_nvlink_status_version2 : Version
dcgm_nvlink_status_version2 = record { structure = dcgm_nvlink_status_v2; number = 2 }

abbrev pub dcgm_field_summary_request_version1 : Version
dcgm_field_summary_request_version1 = record {
  structure = dcgm_field_summary_request_v1;
  number = 1;
}

abbrev pub dcgm_module_get_statuses_version1 : Version
dcgm_module_get_statuses_version1 = record { structure = dcgm_module_get_statuses_v1; number = 1 }

abbrev pub dcgm_start_embedded_v2_params_version1 : Version
dcgm_start_embedded_v2_params_version1 = record {
  structure = dcgm_start_embedded_v2_params_v1;
  number = 1;
}

abbrev pub dcgm_prof_get_metric_groups_version2 : Version
dcgm_prof_get_metric_groups_version2 = record {
  structure = dcgm_prof_get_metric_groups_v2;
  number = 2;
}

abbrev pub dcgm_prof_watch_fields_version1 : Version
dcgm_prof_watch_fields_version1 = record { structure = dcgm_prof_watch_fields_v1; number = 1 }

abbrev pub dcgm_prof_unwatch_fields_version1 : Version
dcgm_prof_unwatch_fields_version1 = record { structure = dcgm_prof_unwatch_fields_v1; number = 1 }

abbrev pub dcgm_settings_set_logging_severity_version1 : Version
dcgm_settings_set_logging_severity_version1 = record {
  structure = dcgm_settings_set_logging_severity_v1;
  number = 1;
}

abbrev pub dcgm_version_info_version2 : Version
dcgm_version_info_version2 = record { structure = dcgm_version_info_v2; number = 2 }

-- In the order of the header.
abbrev pub service_versions : List Version
service_versions =
    dcgm_policy_violation_version1 ∷ dcgm_policy_version1 ∷ dcgm_policy_callback_response_version1
    ∷ dcgm_field_value_version1 ∷ dcgm_field_value_version2 ∷ dcgm_health_response_version4
    ∷ dcgm_health_set_params_version2 ∷ dcgm_pid_info_version2 ∷ dcgm_job_info_version3
    ∷ dcgm_running_process_version1 ∷ dcgm_diag_response_version6 ∷ dcgm_device_topology_version1
    ∷ dcgm_group_topology_version1 ∷ dcgm_introspect_context_version1
    ∷ dcgm_introspect_fields_exec_time_version1 ∷ dcgm_introspect_full_fields_exec_time_version2
    ∷ dcgm_introspect_memory_version1 ∷ dcgm_introspect_full_memory_version1
    ∷ dcgm_introspect_cpu_util_version1 ∷ dcgm_run_diag_version7 ∷ dcgm_topo_sched_hint_version1
    ∷ dcgm_nvlink_status_version1 ∷ dcgm_nvlink_status_version2
    ∷ dcgm_field_summary_request_version1 ∷ dcgm_module_get_statuses_version1
    ∷ dcgm_start_embedded_v2_params_version1 ∷ dcgm_prof_get_metric_groups_version2
    ∷ dcgm_prof_watch_fields_version1 ∷ dcgm_prof_unwatch_fields_version1
    ∷ dcgm_settings_set_logging_severity_version1 ∷ dcgm_version_info_version2 ∷ []
