-- ===== src/Dcgm/Structs/Introspection.antt =====
-- The introspection structs of internal/include/dcgm_structs.h.
use gpu_metric_collector.Base.{[], ◌∷◌}
use gpu_metric_collector.Dcgm.Layout.{
  Ctype, array, char, double, enumeration, int, long_long, members, scalar, struct, union,
  unsigned_int, unsigned_long, unsigned_long_long, unsigned_short,
}
use gpu_metric_collector.Dcgm.Structs.Limits.{
  dcgm_gpu_list_len, dcgm_max_config_file_len, dcgm_max_num_devices, dcgm_max_test_names,
  dcgm_max_test_names_len, dcgm_max_test_parms, dcgm_max_test_parms_len, dcgm_path_len,
  dcgm_throttle_mask_len,
}

abbrev pub dcgm_introspect_context_v1 : Ctype
dcgm_introspect_context_v1 = struct (
    members (
      ("version", scalar unsigned_int)
      ∷ ("introspectLvl", scalar enumeration)
      ∷ (
        "",
        union (
            members (
              ("fieldGroupId", scalar unsigned_long)
              ∷ ("fieldId", scalar unsigned_short)
              ∷ ("contextId", scalar unsigned_long_long)
              ∷ [])),
      )
      ∷ []))

abbrev pub dcgm_introspect_fields_exec_time_v1 : Ctype
dcgm_introspect_fields_exec_time_v1 = struct (
    members (
      ("version", scalar unsigned_int)
      ∷ ("meanUpdateFreqUsec", scalar long_long)
      ∷ ("recentUpdateUsec", scalar double)
      ∷ ("totalEverUpdateUsec", scalar long_long)
      ∷ []))

abbrev pub dcgm_introspect_full_fields_exec_time_v2 : Ctype
dcgm_introspect_full_fields_exec_time_v2 = struct (
    members (
      ("version", scalar unsigned_int)
      ∷ ("aggregateInfo", dcgm_introspect_fields_exec_time_v1)
      ∷ ("hasGlobalInfo", scalar int)
      ∷ ("globalInfo", dcgm_introspect_fields_exec_time_v1)
      ∷ ("gpuInfoCount", scalar unsigned_short)
      ∷ ("gpuIdsForGpuInfo", array (scalar unsigned_int) dcgm_max_num_devices)
      ∷ ("gpuInfo", array dcgm_introspect_fields_exec_time_v1 dcgm_max_num_devices)
      ∷ []))

abbrev pub dcgm_introspect_memory_v1 : Ctype
dcgm_introspect_memory_v1 =
    struct (members (("version", scalar unsigned_int) ∷ ("bytesUsed", scalar long_long) ∷ []))

abbrev pub dcgm_introspect_memory_t : Ctype
dcgm_introspect_memory_t = dcgm_introspect_memory_v1

abbrev pub dcgm_introspect_full_memory_v1 : Ctype
dcgm_introspect_full_memory_v1 = struct (
    members (
      ("version", scalar unsigned_int)
      ∷ ("aggregateInfo", dcgm_introspect_memory_v1)
      ∷ ("hasGlobalInfo", scalar int)
      ∷ ("globalInfo", dcgm_introspect_memory_v1)
      ∷ ("gpuInfoCount", scalar unsigned_short)
      ∷ ("gpuIdsForGpuInfo", array (scalar unsigned_int) dcgm_max_num_devices)
      ∷ ("gpuInfo", array dcgm_introspect_memory_v1 dcgm_max_num_devices)
      ∷ []))

abbrev pub dcgm_introspect_cpu_util_v1 : Ctype
dcgm_introspect_cpu_util_v1 = struct (
    members (
      ("version", scalar unsigned_int)
      ∷ ("total", scalar double)
      ∷ ("kernel", scalar double)
      ∷ ("user", scalar double)
      ∷ []))

abbrev pub dcgm_introspect_cpu_util_t : Ctype
dcgm_introspect_cpu_util_t = dcgm_introspect_cpu_util_v1

abbrev pub dcgm_run_diag_v7 : Ctype
dcgm_run_diag_v7 = struct (
    members (
      ("version", scalar unsigned_int)
      ∷ ("flags", scalar unsigned_int)
      ∷ ("debugLevel", scalar unsigned_int)
      ∷ ("groupId", scalar unsigned_long)
      ∷ ("validate", scalar enumeration)
      ∷ ("testNames", array (array (scalar char) dcgm_max_test_names_len) dcgm_max_test_names)
      ∷ ("testParms", array (array (scalar char) dcgm_max_test_parms_len) dcgm_max_test_parms)
      ∷ ("fakeGpuList", array (scalar char) dcgm_gpu_list_len)
      ∷ ("gpuList", array (scalar char) dcgm_gpu_list_len)
      ∷ ("debugLogFile", array (scalar char) dcgm_path_len)
      ∷ ("statsPath", array (scalar char) dcgm_path_len)
      ∷ ("configFileContents", array (scalar char) dcgm_max_config_file_len)
      ∷ ("throttleMask", array (scalar char) dcgm_throttle_mask_len)
      ∷ ("pluginPath", array (scalar char) dcgm_path_len)
      ∷ ("trainingIterations", scalar unsigned_int)
      ∷ ("trainingVariance", scalar unsigned_int)
      ∷ ("trainingTolerance", scalar unsigned_int)
      ∷ ("goldenValuesFile", array (scalar char) dcgm_path_len)
      ∷ ("failCheckInterval", scalar unsigned_int)
      ∷ []))
