-- ===== src/Dcgm/Returns.antt =====
-- dcgmReturn_t of internal/include/dcgm_structs.h, and `errorString` of pkg/dcgm/utils.go.
use gpu_metric_collector.Base.{Option, none, some}
use gpu_metric_collector.Base.Int.{ℤ, pos, negsuc}

pub data DcgmReturn : Type 0 where
  dcgm_st_ok dcgm_st_badparam dcgm_st_generic_error dcgm_st_memory : DcgmReturn
  dcgm_st_not_configured dcgm_st_not_supported dcgm_st_init_error : DcgmReturn
  dcgm_st_nvml_error dcgm_st_pending dcgm_st_uninitialized dcgm_st_timeout : DcgmReturn
  dcgm_st_ver_mismatch dcgm_st_unknown_field dcgm_st_no_data dcgm_st_stale_data : DcgmReturn
  dcgm_st_not_watched dcgm_st_no_permission dcgm_st_gpu_is_lost : DcgmReturn
  dcgm_st_reset_required dcgm_st_function_not_found : DcgmReturn
  dcgm_st_connection_not_valid dcgm_st_gpu_not_supported : DcgmReturn
  dcgm_st_group_incompatible dcgm_st_max_limit dcgm_st_library_not_found : DcgmReturn
  dcgm_st_duplicate_key dcgm_st_gpu_in_sync_boost_group : DcgmReturn
  dcgm_st_gpu_not_in_sync_boost_group dcgm_st_requires_root dcgm_st_nvvs_error : DcgmReturn
  dcgm_st_insufficient_size dcgm_st_field_unsupported_by_api : DcgmReturn
  dcgm_st_module_not_loaded dcgm_st_in_use dcgm_st_group_is_empty : DcgmReturn
  dcgm_st_profiling_not_supported dcgm_st_profiling_library_error : DcgmReturn
  dcgm_st_profiling_multi_pass dcgm_st_diag_already_running : DcgmReturn
  dcgm_st_diag_bad_json dcgm_st_diag_bad_launch dcgm_st_diag_variance : DcgmReturn
  dcgm_st_diag_threshold_exceeded dcgm_st_insufficient_driver_version : DcgmReturn
  dcgm_st_instance_not_found dcgm_st_compute_instance_not_found : DcgmReturn
  dcgm_st_child_not_killed dcgm_st_3rd_party_library_error : DcgmReturn
  dcgm_st_insufficient_resources dcgm_st_plugin_exception : DcgmReturn
  dcgm_st_nvvs_isolate_error : DcgmReturn

-- The number that the enumerator stands for.
abbrev pub return_code : DcgmReturn → ℤ
return_code dcgm_st_ok = pos 0
return_code dcgm_st_badparam = negsuc 0
return_code dcgm_st_generic_error = negsuc 2
return_code dcgm_st_memory = negsuc 3
return_code dcgm_st_not_configured = negsuc 4
return_code dcgm_st_not_supported = negsuc 5
return_code dcgm_st_init_error = negsuc 6
return_code dcgm_st_nvml_error = negsuc 7
return_code dcgm_st_pending = negsuc 8
return_code dcgm_st_uninitialized = negsuc 9
return_code dcgm_st_timeout = negsuc 10
return_code dcgm_st_ver_mismatch = negsuc 11
return_code dcgm_st_unknown_field = negsuc 12
return_code dcgm_st_no_data = negsuc 13
return_code dcgm_st_stale_data = negsuc 14
return_code dcgm_st_not_watched = negsuc 15
return_code dcgm_st_no_permission = negsuc 16
return_code dcgm_st_gpu_is_lost = negsuc 17
return_code dcgm_st_reset_required = negsuc 18
return_code dcgm_st_function_not_found = negsuc 19
return_code dcgm_st_connection_not_valid = negsuc 20
return_code dcgm_st_gpu_not_supported = negsuc 21
return_code dcgm_st_group_incompatible = negsuc 22
return_code dcgm_st_max_limit = negsuc 23
return_code dcgm_st_library_not_found = negsuc 24
return_code dcgm_st_duplicate_key = negsuc 25
return_code dcgm_st_gpu_in_sync_boost_group = negsuc 26
return_code dcgm_st_gpu_not_in_sync_boost_group = negsuc 27
return_code dcgm_st_requires_root = negsuc 28
return_code dcgm_st_nvvs_error = negsuc 29
return_code dcgm_st_insufficient_size = negsuc 30
return_code dcgm_st_field_unsupported_by_api = negsuc 31
return_code dcgm_st_module_not_loaded = negsuc 32
return_code dcgm_st_in_use = negsuc 33
return_code dcgm_st_group_is_empty = negsuc 34
return_code dcgm_st_profiling_not_supported = negsuc 35
return_code dcgm_st_profiling_library_error = negsuc 36
return_code dcgm_st_profiling_multi_pass = negsuc 37
return_code dcgm_st_diag_already_running = negsuc 38
return_code dcgm_st_diag_bad_json = negsuc 39
return_code dcgm_st_diag_bad_launch = negsuc 40
return_code dcgm_st_diag_variance = negsuc 41
return_code dcgm_st_diag_threshold_exceeded = negsuc 42
return_code dcgm_st_insufficient_driver_version = negsuc 43
return_code dcgm_st_instance_not_found = negsuc 44
return_code dcgm_st_compute_instance_not_found = negsuc 45
return_code dcgm_st_child_not_killed = negsuc 46
return_code dcgm_st_3rd_party_library_error = negsuc 47
return_code dcgm_st_insufficient_resources = negsuc 48
return_code dcgm_st_plugin_exception = negsuc 49
return_code dcgm_st_nvvs_isolate_error = negsuc 50

-- The error that a call's answer makes, without its text; none is Go's nil.
abbrev pub error_string : DcgmReturn → Option DcgmReturn
error_string dcgm_st_ok = none
error_string result = some result

-- What a query of pkg/dcgm returns: its value, or an error.
pub data Answered (A : Type 0) : Type 0 where
  answer : A → Answered A
  failed : DcgmReturn → Answered A
