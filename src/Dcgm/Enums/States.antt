-- ===== src/Dcgm/Enums/States.antt =====
-- Enums of internal/include/dcgm_structs.h, lines 2035 to 2746, each named as there in snake_case.
use gpu_metric_collector.Base.{[], ◌∷◌, none, some}
use gpu_metric_collector.Base.Int.{pos}
use gpu_metric_collector.Dcgm.Enums.Enumerators.{Enum}

abbrev pub dcgm_diagnostic_level : Enum
dcgm_diagnostic_level =
    ("DCGM_DIAG_LVL_INVALID", (some (pos 0)))
    ∷ ("DCGM_DIAG_LVL_SHORT", (some (pos 10)))
    ∷ ("DCGM_DIAG_LVL_MED", (some (pos 20)))
    ∷ ("DCGM_DIAG_LVL_LONG", (some (pos 30)))
    ∷ []

abbrev pub dcgm_diag_result : Enum
dcgm_diag_result =
    ("DCGM_DIAG_RESULT_PASS", (some (pos 0)))
    ∷ ("DCGM_DIAG_RESULT_SKIP", (some (pos 1)))
    ∷ ("DCGM_DIAG_RESULT_WARN", (some (pos 2)))
    ∷ ("DCGM_DIAG_RESULT_FAIL", (some (pos 3)))
    ∷ ("DCGM_DIAG_RESULT_NOT_RUN", (some (pos 4)))
    ∷ []

abbrev pub dcgm_per_gpu_test_indices : Enum
dcgm_per_gpu_test_indices =
    ("DCGM_MEMORY_INDEX", (some (pos 0)))
    ∷ ("DCGM_DIAGNOSTIC_INDEX", (some (pos 1)))
    ∷ ("DCGM_PCI_INDEX", (some (pos 2)))
    ∷ ("DCGM_SM_STRESS_INDEX", (some (pos 3)))
    ∷ ("DCGM_TARGETED_STRESS_INDEX", (some (pos 4)))
    ∷ ("DCGM_TARGETED_POWER_INDEX", (some (pos 5)))
    ∷ ("DCGM_MEMORY_BANDWIDTH_INDEX", (some (pos 6)))
    ∷ ("DCGM_SOFTWARE_INDEX", (some (pos 7)))
    ∷ ("DCGM_CONTEXT_CREATE_INDEX", (some (pos 8)))
    ∷ ("DCGM_UNKNOWN_INDEX", (some (pos 9)))
    ∷ []

abbrev pub dcgm_software_test : Enum
dcgm_software_test =
    ("DCGM_SWTEST_BLACKLIST", (some (pos 0)))
    ∷ ("DCGM_SWTEST_NVML_LIBRARY", (some (pos 1)))
    ∷ ("DCGM_SWTEST_CUDA_MAIN_LIBRARY", (some (pos 2)))
    ∷ ("DCGM_SWTEST_CUDA_RUNTIME_LIBRARY", (some (pos 3)))
    ∷ ("DCGM_SWTEST_PERMISSIONS", (some (pos 4)))
    ∷ ("DCGM_SWTEST_PERSISTENCE_MODE", (some (pos 5)))
    ∷ ("DCGM_SWTEST_ENVIRONMENT", (some (pos 6)))
    ∷ ("DCGM_SWTEST_PAGE_RETIREMENT", (some (pos 7)))
    ∷ ("DCGM_SWTEST_GRAPHICS_PROCESSES", (some (pos 8)))
    ∷ ("DCGM_SWTEST_INFOROM", (some (pos 9)))
    ∷ []

abbrev pub dcgm_gpu_topology_level : Enum
dcgm_gpu_topology_level =
    ("DCGM_TOPOLOGY_UNINITIALIZED", (some (pos 0)))
    ∷ ("DCGM_TOPOLOGY_BOARD", (some (pos 1)))
    ∷ ("DCGM_TOPOLOGY_SINGLE", (some (pos 2)))
    ∷ ("DCGM_TOPOLOGY_MULTIPLE", (some (pos 4)))
    ∷ ("DCGM_TOPOLOGY_HOSTBRIDGE", (some (pos 8)))
    ∷ ("DCGM_TOPOLOGY_CPU", (some (pos 16)))
    ∷ ("DCGM_TOPOLOGY_SYSTEM", (some (pos 32)))
    ∷ ("DCGM_TOPOLOGY_NVLINK1", (some (pos 256)))
    ∷ ("DCGM_TOPOLOGY_NVLINK2", (some (pos 512)))
    ∷ ("DCGM_TOPOLOGY_NVLINK3", (some (pos 1024)))
    ∷ ("DCGM_TOPOLOGY_NVLINK4", (some (pos 2048)))
    ∷ ("DCGM_TOPOLOGY_NVLINK5", (some (pos 4096)))
    ∷ ("DCGM_TOPOLOGY_NVLINK6", (some (pos 8192)))
    ∷ ("DCGM_TOPOLOGY_NVLINK7", (some (pos 16384)))
    ∷ ("DCGM_TOPOLOGY_NVLINK8", (some (pos 32768)))
    ∷ ("DCGM_TOPOLOGY_NVLINK9", (some (pos 65536)))
    ∷ ("DCGM_TOPOLOGY_NVLINK10", (some (pos 131072)))
    ∷ ("DCGM_TOPOLOGY_NVLINK11", (some (pos 262144)))
    ∷ ("DCGM_TOPOLOGY_NVLINK12", (some (pos 524288)))
    ∷ []

abbrev pub dcgm_introspect_level : Enum
dcgm_introspect_level =
    ("DCGM_INTROSPECT_LVL_INVALID", (some (pos 0)))
    ∷ ("DCGM_INTROSPECT_LVL_FIELD", (some (pos 1)))
    ∷ ("DCGM_INTROSPECT_LVL_FIELD_GROUP", (some (pos 2)))
    ∷ ("DCGM_INTROSPECT_LVL_ALL_FIELDS", none)
    ∷ []

abbrev pub dcgm_introspect_state : Enum
dcgm_introspect_state =
    ("DCGM_INTROSPECT_STATE_DISABLED", (some (pos 0)))
    ∷ ("DCGM_INTROSPECT_STATE_ENABLED", (some (pos 1)))
    ∷ []

abbrev pub dcgm_gpu_nvlink_error_type : Enum
dcgm_gpu_nvlink_error_type =
    ("DCGM_GPU_NVLINK_ERROR_RECOVERY_REQUIRED", (some (pos 1)))
    ∷ ("DCGM_GPU_NVLINK_ERROR_FATAL", none)
    ∷ []

abbrev pub dcgm_nv_link_link_state : Enum
dcgm_nv_link_link_state =
    ("DcgmNvLinkLinkStateNotSupported", (some (pos 0)))
    ∷ ("DcgmNvLinkLinkStateDisabled", (some (pos 1)))
    ∷ ("DcgmNvLinkLinkStateDown", (some (pos 2)))
    ∷ ("DcgmNvLinkLinkStateUp", (some (pos 3)))
    ∷ []

abbrev pub dcgm_module_id : Enum
dcgm_module_id =
    ("DcgmModuleIdCore", (some (pos 0)))
    ∷ ("DcgmModuleIdNvSwitch", (some (pos 1)))
    ∷ ("DcgmModuleIdVGPU", (some (pos 2)))
    ∷ ("DcgmModuleIdIntrospect", (some (pos 3)))
    ∷ ("DcgmModuleIdHealth", (some (pos 4)))
    ∷ ("DcgmModuleIdPolicy", (some (pos 5)))
    ∷ ("DcgmModuleIdConfig", (some (pos 6)))
    ∷ ("DcgmModuleIdDiag", (some (pos 7)))
    ∷ ("DcgmModuleIdProfiling", (some (pos 8)))
    ∷ ("DcgmModuleIdCount", none)
    ∷ []

abbrev pub dcgm_module_status : Enum
dcgm_module_status =
    ("DcgmModuleStatusNotLoaded", (some (pos 0)))
    ∷ ("DcgmModuleStatusBlacklisted", (some (pos 1)))
    ∷ ("DcgmModuleStatusFailed", (some (pos 2)))
    ∷ ("DcgmModuleStatusLoaded", (some (pos 3)))
    ∷ ("DcgmModuleStatusUnloaded", (some (pos 4)))
    ∷ []
