-- ===== src/Dcgm/Structs/Limits.antt =====
-- The sizes of internal/include/dcgm_structs.h that its structs use.
use gpu_metric_collector.Base.{ℕ, ◌*◌}

abbrev pub dcgm_max_num_devices : ℕ
dcgm_max_num_devices = 32

abbrev pub dcgm_nvlink_max_links_per_gpu : ℕ
dcgm_nvlink_max_links_per_gpu = 12

abbrev pub dcgm_nvlink_max_links_per_gpu_legacy1 : ℕ
dcgm_nvlink_max_links_per_gpu_legacy1 = 6

abbrev pub dcgm_max_num_switches : ℕ
dcgm_max_num_switches = 12

abbrev pub dcgm_nvlink_max_links_per_nvswitch : ℕ
dcgm_nvlink_max_links_per_nvswitch = 36

abbrev pub dcgm_max_str_length : ℕ
dcgm_max_str_length = 256

abbrev pub dcgm_max_clocks : ℕ
dcgm_max_clocks = 256

abbrev pub dcgm_max_fbc_sessions : ℕ
dcgm_max_fbc_sessions = 256

abbrev pub dcgm_vgpu_name_buffer_size : ℕ
dcgm_vgpu_name_buffer_size = 64

abbrev pub dcgm_grid_license_buffer_size : ℕ
dcgm_grid_license_buffer_size = 128

abbrev pub dcgm_group_max_entities : ℕ
dcgm_group_max_entities = 64

abbrev pub dcgm_max_total_instances_per_gpu : ℕ
dcgm_max_total_instances_per_gpu = 14

abbrev pub dcgm_max_hierarchy_info : ℕ
dcgm_max_hierarchy_info = dcgm_max_num_devices * dcgm_max_total_instances_per_gpu

abbrev pub dcgm_max_num_field_groups : ℕ
dcgm_max_num_field_groups = 64

abbrev pub dcgm_max_field_ids_per_field_group : ℕ
dcgm_max_field_ids_per_field_group = 128

abbrev pub dcgm_policy_cond_max : ℕ
dcgm_policy_cond_max = 7

abbrev pub dcgm_max_blob_length : ℕ
dcgm_max_blob_length = 4096

abbrev pub dcgm_health_watch_count_v1 : ℕ
dcgm_health_watch_count_v1 = 10

abbrev pub dcgm_health_watch_max_incidents : ℕ
dcgm_health_watch_max_incidents = dcgm_group_max_entities

abbrev pub dcgm_max_pid_info_num : ℕ
dcgm_max_pid_info_num = 16

abbrev pub dcgm_per_gpu_test_count : ℕ
dcgm_per_gpu_test_count = 7

abbrev pub level_one_max_results : ℕ
level_one_max_results = 16

abbrev pub dcgm_affinity_bitmask_array_size : ℕ
dcgm_affinity_bitmask_array_size = 8

abbrev pub dcgm_max_config_file_len : ℕ
dcgm_max_config_file_len = 10000

abbrev pub dcgm_max_test_names : ℕ
dcgm_max_test_names = 20

abbrev pub dcgm_max_test_names_len : ℕ
dcgm_max_test_names_len = 50

abbrev pub dcgm_max_test_parms : ℕ
dcgm_max_test_parms = 100

abbrev pub dcgm_max_test_parms_len : ℕ
dcgm_max_test_parms_len = 100

abbrev pub dcgm_gpu_list_len : ℕ
dcgm_gpu_list_len = 50

abbrev pub dcgm_path_len : ℕ
dcgm_path_len = 128

abbrev pub dcgm_throttle_mask_len : ℕ
dcgm_throttle_mask_len = 50

abbrev pub dcgm_summary_size : ℕ
dcgm_summary_size = 7

abbrev pub dcgm_module_id_count : ℕ
dcgm_module_id_count = 9

abbrev pub dcgm_module_statuses_capacity : ℕ
dcgm_module_statuses_capacity = 16

abbrev pub dcgm_prof_max_num_groups : ℕ
dcgm_prof_max_num_groups = 10

abbrev pub dcgm_prof_max_field_ids_per_group : ℕ
dcgm_prof_max_field_ids_per_group = 8
