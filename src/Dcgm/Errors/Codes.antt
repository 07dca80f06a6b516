-- ===== src/Dcgm/Errors/Codes.antt =====
-- The enum dcgmError_enum of internal/include/dcgm_errors.h.
use gpu_metric_collector.Base.{ℕ, String, List, [], ◌∷◌}

abbrev pub error_codes : List (String × ℕ)
error_codes =
    ("DCGM_FR_OK", 0)
    ∷ ("DCGM_FR_UNKNOWN", 1)
    ∷ ("DCGM_FR_UNRECOGNIZED", 2)
    ∷ ("DCGM_FR_PCI_REPLAY_RATE", 3)
    ∷ ("DCGM_FR_VOLATILE_DBE_DETECTED", 4)
    ∷ ("DCGM_FR_VOLATILE_SBE_DETECTED", 5)
    ∷ ("DCGM_FR_PENDING_PAGE_RETIREMENTS", 6)
    ∷ ("DCGM_FR_RETIRED_PAGES_LIMIT", 7)
    ∷ ("DCGM_FR_RETIRED_PAGES_DBE_LIMIT", 8)
    ∷ ("DCGM_FR_CORRUPT_INFOROM", 9)
    ∷ ("DCGM_FR_CLOCK_THROTTLE_THERMAL", 10)
    ∷ ("DCGM_FR_POWER_UNREADABLE", 11)
    ∷ ("DCGM_FR_CLOCK_THROTTLE_POWER", 12)
    ∷ ("DCGM_FR_NVLINK_ERROR_THRESHOLD", 13)
    ∷ ("DCGM_FR_NVLINK_DOWN", 14)
    ∷ ("DCGM_FR_NVSWITCH_FATAL_ERROR", 15)
    ∷ ("DCGM_FR_NVSWITCH_NON_FATAL_ERROR", 16)
    ∷ ("DCGM_FR_NVSWITCH_DOWN", 17)
    ∷ ("DCGM_FR_NO_ACCESS_TO_FILE", 18)
    ∷ ("DCGM_FR_NVML_API", 19)
    ∷ ("DCGM_FR_DEVICE_COUNT_MISMATCH", 20)
    ∷ ("DCGM_FR_BAD_PARAMETER", 21)
    ∷ ("DCGM_FR_CANNOT_OPEN_LIB", 22)
    ∷ ("DCGM_FR_BLACKLISTED_DRIVER", 23)
    ∷ ("DCGM_FR_NVML_LIB_BAD", 24)
    ∷ ("DCGM_FR_GRAPHICS_PROCESSES", 25)
    ∷ ("DCGM_FR_HOSTENGINE_CONN", 26)
    ∷ ("DCGM_FR_FIELD_QUERY", 27)
    ∷ ("DCGM_FR_BAD_CUDA_ENV", 28)
    ∷ ("DCGM_FR_PERSISTENCE_MODE", 29)
    ∷ ("DCGM_FR_LOW_BANDWIDTH", 30)
    ∷ ("DCGM_FR_HIGH_LATENCY", 31)
    ∷ ("DCGM_FR_CANNOT_GET_FIELD_TAG", 32)
    ∷ ("DCGM_FR_FIELD_VIOLATION", 33)
    ∷ ("DCGM_FR_FIELD_THRESHOLD", 34)
    ∷ ("DCGM_FR_FIELD_VIOLATION_DBL", 35)
    ∷ ("DCGM_FR_FIELD_THRESHOLD_DBL", 36)
    ∷ ("DCGM_FR_UNSUPPORTED_FIELD_TYPE", 37)
    ∷ ("DCGM_FR_FIELD_THRESHOLD_TS", 38)
    ∷ ("DCGM_FR_FIELD_THRESHOLD_TS_DBL", 39)
    ∷ ("DCGM_FR_THERMAL_VIOLATIONS", 40)
    ∷ ("DCGM_FR_THERMAL_VIOLATIONS_TS", 41)
    ∷ ("DCGM_FR_TEMP_VIOLATION", 42)
    ∷ ("DCGM_FR_THROTTLING_VIOLATION", 43)
    ∷ ("DCGM_FR_INTERNAL", 44)
    ∷ ("DCGM_FR_PCIE_GENERATION", 45)
    ∷ ("DCGM_FR_PCIE_WIDTH", 46)
    ∷ ("DCGM_FR_ABORTED", 47)
    ∷ ("DCGM_FR_TEST_DISABLED", 48)
    ∷ ("DCGM_FR_CANNOT_GET_STAT", 49)
    ∷ ("DCGM_FR_STRESS_LEVEL", 50)
    ∷ ("DCGM_FR_CUDA_API", 51)
    ∷ ("DCGM_FR_FAULTY_MEMORY", 52)
    ∷ ("DCGM_FR_CANNOT_SET_WATCHES", 53)
    ∷ ("DCGM_FR_CUDA_UNBOUND", 54)
    ∷ ("DCGM_FR_ECC_DISABLED", 55)
    ∷ ("DCGM_FR_MEMORY_ALLOC", 56)
    ∷ ("DCGM_FR_CUDA_DBE", 57)
    ∷ ("DCGM_FR_MEMORY_MISMATCH", 58)
    ∷ ("DCGM_FR_CUDA_DEVICE", 59)
    ∷ ("DCGM_FR_ECC_UNSUPPORTED", 60)
    ∷ ("DCGM_FR_ECC_PENDING", 61)
    ∷ ("DCGM_FR_MEMORY_BANDWIDTH", 62)
    ∷ ("DCGM_FR_TARGET_POWER", 63)
    ∷ ("DCGM_FR_API_FAIL", 64)
    ∷ ("DCGM_FR_API_FAIL_GPU", 65)
    ∷ ("DCGM_FR_CUDA_CONTEXT", 66)
    ∷ ("DCGM_FR_DCGM_API", 67)
    ∷ ("DCGM_FR_CONCURRENT_GPUS", 68)
    ∷ ("DCGM_FR_TOO_MANY_ERRORS", 69)
    ∷ ("DCGM_FR_NVLINK_CRC_ERROR_THRESHOLD", 70)
    ∷ ("DCGM_FR_NVLINK_ERROR_CRITICAL", 71)
    ∷ ("DCGM_FR_ENFORCED_POWER_LIMIT", 72)
    ∷ ("DCGM_FR_MEMORY_ALLOC_HOST", 73)
    ∷ ("DCGM_FR_GPU_OP_MODE", 74)
    ∷ ("DCGM_FR_NO_MEMORY_CLOCKS", 75)
    ∷ ("DCGM_FR_NO_GRAPHICS_CLOCKS", 76)
    ∷ ("DCGM_FR_HAD_TO_RESTORE_STATE", 77)
    ∷ ("DCGM_FR_L1TAG_UNSUPPORTED", 78)
    ∷ ("DCGM_FR_L1TAG_MISCOMPARE", 79)
    ∷ ("DCGM_FR_ROW_REMAP_FAILURE", 80)
    ∷ ("DCGM_FR_UNCONTAINED_ERROR", 81)
    ∷ ("DCGM_FR_EMPTY_GPU_LIST", 82)
    ∷ ("DCGM_FR_DBE_PENDING_PAGE_RETIREMENTS", 83)
    ∷ ("DCGM_FR_ERROR_SENTINEL", 84)
    ∷ []
