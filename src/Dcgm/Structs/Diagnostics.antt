-- ===== src/Dcgm/Structs/Diagnostics.antt =====
-- The diagnostic and topology structs of internal/include/dcgm_structs.h.
use gpu_metric_collector.Base.{[], ◌-◌, ◌∷◌}
use gpu_metric_collector.Dcgm.Layout.{
  Ctype, array, char, enumeration, members, scalar, struct, unsigned_int, unsigned_long,
}
use gpu_metric_collector.Dcgm.Structs.Limits.{
  dcgm_affinity_bitmask_array_size, dcgm_max_num_devices, dcgm_per_gpu_test_count,
  level_one_max_results,
}
use gpu_metric_collector.Dcgm.Structs.Statistics.{dcgm_diag_error_detail_t, dcgm_running_process_v1}

abbrev pub dcgm_running_process_t : Ctype
dcgm_running_process_t = dcgm_running_process_v1

abbrev pub dcgm_diag_test_result_v1 : Ctype
dcgm_diag_test_result_v1 = struct (
    members (
      ("status", scalar enumeration)
      ∷ ("warning", array (scalar char) 1024)
      ∷ ("info", array (scalar char) 1024)
      ∷ []))

abbrev pub dcgm_diag_test_result_v2 : Ctype
dcgm_diag_test_result_v2 = struct (
    members (
      ("status", scalar enumeration)
      ∷ ("error", dcgm_diag_error_detail_t)
      ∷ ("info", array (scalar char) 1024)
      ∷ []))

abbrev pub dcgm_diag_response_per_gpu_v2 : Ctype
dcgm_diag_response_per_gpu_v2 = struct (
    members (
      ("gpuId", scalar unsigned_int)
      ∷ ("hwDiagnosticReturn", scalar unsigned_int)
      ∷ ("results", array dcgm_diag_test_result_v2 dcgm_per_gpu_test_count)
      ∷ []))

abbrev pub dcgm_diag_response_v6 : Ctype
dcgm_diag_response_v6 = struct (
    members (
      ("version", scalar unsigned_int)
      ∷ ("gpuCount", scalar unsigned_int)
      ∷ ("levelOneTestCount", scalar unsigned_int)
      ∷ ("levelOneResults", array dcgm_diag_test_result_v2 level_one_max_results)
      ∷ ("perGpuResponses", array dcgm_diag_response_per_gpu_v2 dcgm_max_num_devices)
      ∷ ("systemError", dcgm_diag_error_detail_t)
      ∷ ("trainingMsg", array (scalar char) 1024)
      ∷ []))

abbrev pub dcgm_device_topology_v1 : Ctype
dcgm_device_topology_v1 = struct (
    members (
      ("version", scalar unsigned_int)
      ∷ ("cpuAffinityMask", array (scalar unsigned_long) dcgm_affinity_bitmask_array_size)
      ∷ ("numGpus", scalar unsigned_int)
      ∷ (
        "gpuPaths",
        array
            (struct (
              members (
                ("gpuId", scalar unsigned_int)
                ∷ ("path", scalar enumeration)
                ∷ ("localNvLinkIds", scalar unsigned_int)
                ∷ [])))
            (dcgm_max_num_devices - 1),
      )
      ∷ []))

abbrev pub dcgm_device_topology_t : Ctype
dcgm_device_topology_t = dcgm_device_topology_v1

abbrev pub dcgm_group_topology_v1 : Ctype
dcgm_group_topology_v1 = struct (
    members (
      ("version", scalar unsigned_int)
      ∷ ("groupCpuAffinityMask", array (scalar unsigned_long) dcgm_affinity_bitmask_array_size)
      ∷ ("numaOptimalFlag", scalar unsigned_int)
      ∷ ("slowestPath", scalar enumeration)
      ∷ []))
