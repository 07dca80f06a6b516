-- ===== src/Dcgm/Errors/Running.antt =====
-- The messages of internal/include/dcgm_errors.h, lines 236 to 335.
use gpu_metric_collector.Base.{List, [], ◌∷◌, none, some}
use gpu_metric_collector.Dcgm.Errors.Formats.{ErrorMessage, message}

abbrev pub test_messages : List ErrorMessage
test_messages =
    message "DCGM_FR_THERMAL_VIOLATIONS_MSG" (some "total seconds of violation, gpu id")
      "There were thermal violations totaling %lu seconds for GPU %u"
    ∷ message "DCGM_FR_THERMAL_VIOLATIONS_TS_MSG"
        (some "total seconds of violations, first instance, gpu id")
        "Thermal violations totaling %lu samples started at %.1f seconds into the test for GPU %u"
    ∷ message "DCGM_FR_TEMP_VIOLATION_MSG"
        (some "observed temperature, gpu id, max allowed temperature")
        "Temperature %lld of GPU %u exceeded user-specified maximum allowed temperature %lld"
    ∷ message "DCGM_FR_THROTTLING_VIOLATION_MSG"
        (some "gpu id, seconds into test, details about throttling")
        "Clocks are being throttled for GPU %u because of clock throttling starting %.1f seconds into the test. %s"
    ∷ message "DCGM_FR_INTERNAL_MSG" (some "details about error")
        "There was an internal error during the test: '%s'"
    ∷ message "DCGM_FR_PCIE_GENERATION_MSG"
        (some "gpu id, PCIe generation, minimum allowed, parameter to control")
        "GPU %u is running at PCI link generation %d, which is below the minimum allowed link generation of %d (parameter '%s')"
    ∷ message "DCGM_FR_PCIE_WIDTH_MSG"
        (some "gpu id, PCIe width, minimum allowed, parameter to control")
        "GPU %u is running at PCI link width %dX, which is below the minimum allowed link generation of %d (parameter '%s')"
    ∷ message "DCGM_FR_ABORTED_MSG" none "Test was aborted early due to user signal"
    ∷ message "DCGM_FR_TEST_DISABLED_MSG" (some "Test name") "The %s test is skipped for this GPU."
    ∷ message "DCGM_FR_CANNOT_GET_STAT_MSG" (some "stat name, gpu id")
        "Unable to generate / collect stat %s for GPU %u"
    ∷ message "DCGM_FR_STRESS_LEVEL_MSG" (some "observed value, minimum allowed, gpu id")
        "Max stress level of %.1f did not reach desired stress level of %.1f for GPU %u"
    ∷ message "DCGM_FR_CUDA_API_MSG" (some "CUDA API name") "Error using CUDA API %s"
    ∷ message "DCGM_FR_FAULTY_MEMORY_MSG" (some "count, gpu id")
        "Found %d faulty memory elements on GPU %u"
    ∷ message "DCGM_FR_CANNOT_SET_WATCHES_MSG" (some "error detail")
        "Unable to add field watches to DCGM: %s"
    ∷ message "DCGM_FR_CUDA_UNBOUND_MSG" (some "gpu id")
        "Cuda GPU %d is no longer bound to a CUDA context...Aborting"
    ∷ message "DCGM_FR_ECC_DISABLED_MSG" (some "Test name, gpu id")
        "Skipping test %s because ECC is not enabled on GPU %u"
    ∷ message "DCGM_FR_MEMORY_ALLOC_MSG" (some "percentage of memory we tried to allocate, gpu id")
        "Couldn't allocate at least %.1f%% of GPU memory on GPU %u"
    ∷ message "DCGM_FR_CUDA_DBE_MSG" (some "gpu id")
        "CUDA APIs have indicated that a double-bit ECC error has occured on GPU %u."
    ∷ message "DCGM_FR_MEMORY_MISMATCH_MSG" (some "gpu id")
        "A memory mismatch was detected on GPU %u, but no error was reported by CUDA or NVML."
    ∷ message "DCGM_FR_CUDA_DEVICE_MSG" (some "gpu id, error detail")
        "Unable to find a corresponding CUDA device for GPU %u: '%s'"
    ∷ message "DCGM_FR_ECC_UNSUPPORTED_MSG" none
        "ECC Memory is not turned on or is unsupported. Skipping test."
    ∷ message "DCGM_FR_ECC_PENDING_MSG" (some "gpu id")
        "ECC memory for GPU %u is in a pending state."
    ∷ message "DCGM_FR_MEMORY_BANDWIDTH_MSG"
        (some "gpu id, observed bandwidth, required, test name")
        "GPU %u only achieved a memory bandwidth of %.2f GB/s, failing to meet %.2f GB/s for test %d"
    ∷ message "DCGM_FR_TARGET_POWER_MSG"
        (some "power draw observed, field tag, minimum power draw required, gpu id")
        "Max power of %.1f did not reach desired power minimum %s of %.1f for GPU %u"
    ∷ message "DCGM_FR_API_FAIL_MSG" (some "API name, error detail") "API call %s failed: '%s'"
    ∷ message "DCGM_FR_API_FAIL_GPU_MSG" (some "API name, gpu id, error detail")
        "API call %s failed for GPU %u: '%s'"
    ∷ message "DCGM_FR_CUDA_CONTEXT_MSG" (some "gpu id, error detail")
        "GPU %u failed to create a CUDA context: %s"
    ∷ message "DCGM_FR_DCGM_API_MSG" (some "DCGM API name") "Error using DCGM API %s"
    ∷ message "DCGM_FR_CONCURRENT_GPUS_MSG" none
        "Unable to run concurrent pair bandwidth test without 2 or more gpus. Skipping"
    ∷ message "DCGM_FR_TOO_MANY_ERRORS_MSG" none
        "This API can only return up to four errors per system. Additional errors were found for this system that couldn't be communicated."
    ∷ message "DCGM_FR_NVLINK_CRC_ERROR_THRESHOLD_MSG" none
        "%.1f %s NvLink errors found occuring per second on GPU %u, exceeding the limit of 100 per second."
    ∷ message "DCGM_FR_NVLINK_ERROR_CRITICAL_MSG" none
        "Detected %ld %s NvLink errors on GPU %u's NVLink (should be 0)"
    ∷ message "DCGM_FR_ENFORCED_POWER_LIMIT_MSG" none
        "Enforced power limit on GPU %u set to %.1f, which is too low to attempt to achieve target power %.1f"
    ∷ message "DCGM_FR_MEMORY_ALLOC_HOST_MSG" none "Cannot allocate %zu bytes on the host"
    ∷ message "DCGM_FR_GPU_OP_MODE_MSG" none
        "Skipping plugin due to a GPU being in GPU Operating Mode: LOW_DP."
    ∷ message "DCGM_FR_NO_MEMORY_CLOCKS_MSG" none
        "No memory clocks <= %u MHZ were found in %u supported memory clocks."
    ∷ message "DCGM_FR_NO_GRAPHICS_CLOCKS_MSG" none
        "No graphics clocks <= %u MHZ were found in %u supported graphics clocks for memory clock %u MHZ."
    ∷ message "DCGM_FR_HAD_TO_RESTORE_STATE_MSG" none "Had to restore GPU state on NVML GPU(s): %s"
    ∷ message "DCGM_FR_L1TAG_UNSUPPORTED_MSG" none
        "This card does not support the L1 cache test. Skipping test."
    ∷ message "DCGM_FR_L1TAG_MISCOMPARE_MSG" none "Detected a miscompare failure in the L1 cache."
    ∷ message "DCGM_FR_ROW_REMAP_FAILURE_MSG" none "Row remapping failed."
    ∷ message "DCGM_FR_UNCONTAINED_ERROR_MSG" none "GPU had an uncontained error (XID 95)"
    ∷ message "DCGM_FR_EMPTY_GPU_LIST_MSG" none "No valid GPUs passed to plugin"
    ∷ message "DCGM_FR_DBE_PENDING_PAGE_RETIREMENTS_MSG" none
        "Pending page retirements together with a DBE were detected on GPU %u."
    ∷ []
