-- ===== src/Dcgm/Versions/Devices.antt =====
-- The version macros of the connection, group and device structs.
use gpu_metric_collector.Base.{List, [], ◌∷◌}
use gpu_metric_collector.Dcgm.Versions.{Version}
use gpu_metric_collector.Dcgm.Structs.Device.{
  dcgm_device_enc_stats_v1, dcgm_device_fbc_session_info_v1, dcgm_device_fbc_sessions_v1,
  dcgm_device_fbc_stats_v1, dcgm_device_identifiers_v1, dcgm_device_memory_usage_v1,
  dcgm_device_pid_accounting_stats_v1, dcgm_device_power_limits_v1,
  dcgm_device_supported_clock_sets_v1, dcgm_device_thermals_v1, dcgm_device_vgpu_util_info_v1,
}
use gpu_metric_collector.Dcgm.Structs.Groups.{
  dcgm_all_field_group_v1, dcgm_clock_set_v1, dcgm_connect_v2_params_v1, dcgm_connect_v2_params_v2,
  dcgm_field_group_info_v1, dcgm_group_info_v2, dcgm_hostengine_health_v1, dcgm_mig_hierarchy_v1,
  dcgm_mig_hierarchy_v2,
}
use gpu_metric_collector.Dcgm.Structs.Vgpu.{
  dcgm_config_v1, dcgm_device_attributes_v1, dcgm_device_attributes_v2, dcgm_device_settings_v1,
  dcgm_device_vgpu_enc_sessions_v1, dcgm_device_vgpu_process_util_info_v1,
  dcgm_device_vgpu_type_info_v1,
}

abbrev pub dcgm_connect_v2_params_version1 : Version
dcgm_connect_v2_params_version1 = record { structure = dcgm_connect_v2_params_v1; number = 1 }

abbrev pub dcgm_connect_v2_params_version2 : Version
dcgm_connect_v2_params_version2 = record { structure = dcgm_connect_v2_params_v2; number = 2 }

abbrev pub dcgm_hostengine_health_version1 : Version
dcgm_hostengine_health_version1 = record { structure = dcgm_hostengine_health_v1; number = 1 }

abbrev pub dcgm_group_info_version2 : Version
dcgm_group_info_version2 = record { structure = dcgm_group_info_v2; number = 2 }

abbrev pub dcgm_mig_hierarchy_version1 : Version
dcgm_mig_hierarchy_version1 = record { structure = dcgm_mig_hierarchy_v1; number = 1 }

abbrev pub dcgm_mig_hierarchy_version2 : Version
dcgm_mig_hierarchy_version2 = record { structure = dcgm_mig_hierarchy_v2; number = 2 }

abbrev pub dcgm_field_group_info_version1 : Version
dcgm_field_group_info_version1 = record { structure = dcgm_field_group_info_v1; number = 1 }

abbrev pub dcgm_all_field_group_version1 : Version
dcgm_all_field_group_version1 = record { structure = dcgm_all_field_group_v1; number = 1 }

abbrev pub dcgm_clock_set_version1 : Version
dcgm_clock_set_version1 = record { structure = dcgm_clock_set_v1; number = 1 }

abbrev pub dcgm_device_supported_clock_sets_version1 : Version
dcgm_device_supported_clock_sets_version1 = record {
  structure = dcgm_device_supported_clock_sets_v1;
  number = 1;
}

abbrev pub dcgm_device_pid_accounting_stats_version1 : Version
dcgm_device_pid_accounting_stats_version1 = record {
  structure = dcgm_device_pid_accounting_stats_v1;
  number = 1;
}

abbrev pub dcgm_device_thermals_version1 : Version
dcgm_device_thermals_version1 = record { structure = dcgm_device_thermals_v1; number = 1 }

abbrev pub dcgm_device_power_limits_version1 : Version
dcgm_device_power_limits_version1 = record { structure = dcgm_device_power_limits_v1; number = 1 }

abbrev pub dcgm_device_identifiers_version1 : Version
dcgm_device_identifiers_version1 = record { structure = dcgm_device_identifiers_v1; number = 1 }

abbrev pub dcgm_device_memory_usage_version1 : Version
dcgm_device_memory_usage_version1 = record { structure = dcgm_device_memory_usage_v1; number = 1 }

abbrev pub dcgm_device_vgpu_util_info_version1 : Version
dcgm_device_vgpu_util_info_version1 = record {
  structure = dcgm_device_vgpu_util_info_v1;
  number = 1;
}

abbrev pub dcgm_device_enc_stats_version1 : Version
dcgm_device_enc_stats_version1 = record { structure = dcgm_device_enc_stats_v1; number = 1 }

abbrev pub dcgm_device_fbc_stats_version1 : Version
dcgm_device_fbc_stats_version1 = record { structure = dcgm_device_fbc_stats_v1; number = 1 }

abbrev pub dcgm_device_fbc_session_info_version1 : Version
dcgm_device_fbc_session_info_version1 = record {
  structure = dcgm_device_fbc_session_info_v1;
  number = 1;
}

abbrev pub dcgm_device_fbc_sessions_version1 : Version
dcgm_device_fbc_sessions_version1 = record { structure = dcgm_device_fbc_sessions_v1; number = 1 }

abbrev pub dcgm_device_vgpu_enc_sessions_version1 : Version
dcgm_device_vgpu_enc_sessions_version1 = record {
  structure = dcgm_device_vgpu_enc_sessions_v1;
  number = 1;
}

abbrev pub dcgm_device_vgpu_process_util_info_version1 : Version
dcgm_device_vgpu_process_util_info_version1 = record {
  structure = dcgm_device_vgpu_process_util_info_v1;
  number = 1;
}

abbrev pub dcgm_device_vgpu_type_info_version1 : Version
dcgm_device_vgpu_type_info_version1 = record {
  structure = dcgm_device_vgpu_type_info_v1;
  number = 1;
}

abbrev pub dcgm_devices_settings_version1 : Version
dcgm_devices_settings_version1 = record { structure = dcgm_device_settings_v1; number = 1 }

abbrev pub dcgm_device_attributes_version1 : Version
dcgm_device_attributes_version1 = record { structure = dcgm_device_attributes_v1; number = 1 }

abbrev pub dcgm_device_attributes_version2 : Version
dcgm_device_attributes_version2 = record { structure = dcgm_device_attributes_v2; number = 2 }

abbrev pub dcgm_config_version1 : Version
dcgm_config_version1 = record { structure = dcgm_config_v1; number = 1 }

-- In the order of the header.
abbrev pub device_versions : List Version
device_versions =
    dcgm_connect_v2_params_version1 ∷ dcgm_connect_v2_params_version2
    ∷ dcgm_hostengine_health_version1 ∷ dcgm_group_info_version2 ∷ dcgm_mig_hierarchy_version1
    ∷ dcgm_mig_hierarchy_version2 ∷ dcgm_field_group_info_version1 ∷ dcgm_all_field_group_version1
    ∷ dcgm_clock_set_version1 ∷ dcgm_device_supported_clock_sets_version1
    ∷ dcgm_device_pid_accounting_stats_version1 ∷ dcgm_device_thermals_version1
    ∷ dcgm_device_power_limits_version1 ∷ dcgm_device_identifiers_version1
    ∷ dcgm_device_memory_usage_version1 ∷ dcgm_device_vgpu_util_info_version1
    ∷ dcgm_device_enc_stats_version1 ∷ dcgm_device_fbc_stats_version1
    ∷ dcgm_device_fbc_session_info_version1 ∷ dcgm_device_fbc_sessions_version1
    ∷ dcgm_device_vgpu_enc_sessions_version1 ∷ dcgm_device_vgpu_process_util_info_version1
    ∷ dcgm_device_vgpu_type_info_version1 ∷ dcgm_devices_settings_version1
    ∷ dcgm_device_attributes_version1 ∷ dcgm_device_attributes_version2 ∷ dcgm_config_version1 ∷ []
