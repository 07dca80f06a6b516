-- ===== src/Dcgm/Enums.antt =====
-- The enums of internal/include/dcgm_structs.h that no other module has.
use gpu_metric_collector.Base.{List, [], ◌∷◌}
use gpu_metric_collector.Dcgm.Enums.Enumerators.{Enum}
use gpu_metric_collector.Dcgm.Enums.Settings.{
  dcgm_operation_mode, dcgm_order, dcgm_group_type, dcgm_chip_architecture, dcgm_config_type,
  dcgm_config_power_limit_type, dcgm_logging_severity, dcgm_mig_profile, dcgm_fbc_session_type,
  dcgm_encoder_type, dcgm_policy_mode, dcgm_policy_isolation, dcgm_policy_action,
  dcgm_policy_validation, dcgm_policy_failure_resp,
}
use gpu_metric_collector.Dcgm.Enums.States.{
  dcgm_diagnostic_level, dcgm_diag_result, dcgm_per_gpu_test_indices, dcgm_software_test,
  dcgm_gpu_topology_level, dcgm_introspect_level, dcgm_introspect_state, dcgm_gpu_nvlink_error_type,
  dcgm_nv_link_link_state, dcgm_module_id, dcgm_module_status,
}
pub mod Enumerators
pub mod Settings
pub mod States
pub mod Distinct

abbrev pub header_enums : List Enum
header_enums =
    dcgm_operation_mode ∷ dcgm_order ∷ dcgm_group_type ∷ dcgm_chip_architecture ∷ dcgm_config_type
    ∷ dcgm_config_power_limit_type ∷ dcgm_logging_severity ∷ dcgm_mig_profile
    ∷ dcgm_fbc_session_type ∷ dcgm_encoder_type ∷ dcgm_policy_mode ∷ dcgm_policy_isolation
    ∷ dcgm_policy_action ∷ dcgm_policy_validation ∷ dcgm_policy_failure_resp ∷ dcgm_diagnostic_level
    ∷ dcgm_diag_result ∷ dcgm_per_gpu_test_indices ∷ dcgm_software_test ∷ dcgm_gpu_topology_level
    ∷ dcgm_introspect_level ∷ dcgm_introspect_state ∷ dcgm_gpu_nvlink_error_type
    ∷ dcgm_nv_link_link_state ∷ dcgm_module_id ∷ dcgm_module_status ∷ []
