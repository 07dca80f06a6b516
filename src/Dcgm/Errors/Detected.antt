-- ===== src/Dcgm/Errors/Detected.antt =====
-- The messages of internal/include/dcgm_errors.h, lines 140 to 235.
use gpu_metric_collector.Base.{List, [], ◌∷◌, none, some}
use gpu_metric_collector.Dcgm.Errors.Formats.{ErrorMessage, message}

abbrev pub detected_messages : List ErrorMessage
detected_messages =
    message "DCGM_FR_OK_MSG" none "The operation completed successfully."
    ∷ message "DCGM_FR_UNKNOWN_MSG" none "Unknown error."
    ∷ message "DCGM_FR_UNRECOGNIZED_MSG" none "Unrecognized error code."
    ∷ message "DCGM_FR_PCI_REPLAY_RATE_MSG" (some "replay limit, gpu id, replay errors detected")
        "Detected more than %u PCIe replays per minute for GPU %u : %d"
    ∷ message "DCGM_FR_VOLATILE_DBE_DETECTED_MSG" (some "dbes deteced, gpu id")
        "Detected %d volatile double-bit ECC error(s) in GPU %u."
    ∷ message "DCGM_FR_VOLATILE_SBE_DETECTED_MSG" (some "sbe limit, gpu id, sbes detected")
        "More than %u single-bit ECC error(s) detected in GPU %u Volatile SBEs: %lld"
    ∷ message "DCGM_FR_PENDING_PAGE_RETIREMENTS_MSG" (some "gpu id")
        "A pending retired page has been detected in GPU %u."
    ∷ message "DCGM_FR_RETIRED_PAGES_LIMIT_MSG" (some "retired pages detected, gpud id")
        "%u or more retired pages have been detected in GPU %u. "
    ∷ message "DCGM_FR_RETIRED_PAGES_DBE_LIMIT_MSG"
        (some "retired pages due to dbes detected, gpu id")
        "An excess of %u retired pages due to DBEs have been detected and more than one page has been retired due to DBEs in the past week in GPU %u."
    ∷ message "DCGM_FR_CORRUPT_INFOROM_MSG" (some "gpu id")
        "A corrupt InfoROM has been detected in GPU %u."
    ∷ message "DCGM_FR_CLOCK_THROTTLE_THERMAL_MSG" (some "gpu id")
        "Detected clock throttling due to thermal violation in GPU %u."
    ∷ message "DCGM_FR_POWER_UNREADABLE_MSG" (some "gpu id")
        "Cannot reliably read the power usage for GPU %u."
    ∷ message "DCGM_FR_CLOCK_THROTTLE_POWER_MSG" (some "gpu id")
        "Detected clock throttling due to power violation in GPU %u."
    ∷ message "DCGM_FR_NVLINK_ERROR_THRESHOLD_MSG"
        (some "nvlink errors detected, nvlink id, error threshold")
        "Detected %ld %s NvLink errors on GPU %u's NVLink which exceeds threshold of %u"
    ∷ message "DCGM_FR_NVLINK_DOWN_MSG" (some "gpu id, nvlink id")
        "GPU %u's NvLink link %d is currently down"
    ∷ message "DCGM_FR_NVSWITCH_FATAL_ERROR_MSG" (some "nvswitch id, nvlink id")
        "Detected fatal errors on NvSwitch %u link %u"
    ∷ message "DCGM_FR_NVSWITCH_NON_FATAL_ERROR_MSG" (some "nvswitch id, nvlink id")
        "Detected nonfatal errors on NvSwitch %u link %u"
    ∷ message "DCGM_FR_NVSWITCH_DOWN_MSG" (some "nvswitch id, nvlink port")
        "NvSwitch physical ID %u's NvLink port %d is currently down."
    ∷ message "DCGM_FR_NO_ACCESS_TO_FILE_MSG" (some "file path, error detail")
        "File %s could not be accessed directly: %s"
    ∷ message "DCGM_FR_NVML_API_MSG"
        (some "purpose for communicating with NVML, NVML error as string, NVML error")
        "Error calling NVML API %s: %s"
    ∷ message "DCGM_FR_DEVICE_COUNT_MISMATCH_MSG" none
        "The number of devices NVML returns is different than the number of devices in /dev."
    ∷ message "DCGM_FR_BAD_PARAMETER_MSG" (some "function name")
        "Bad parameter to function %s cannot be processed"
    ∷ message "DCGM_FR_CANNOT_OPEN_LIB_MSG" (some "library name, error returned from dlopen")
        "Cannot open library %s: '%s'"
    ∷ message "DCGM_FR_BLACKLISTED_DRIVER_MSG" (some "the name of the blacklisted driver")
        "Found blacklisted driver: %s"
    ∷ message "DCGM_FR_NVML_LIB_BAD_MSG" (some "the name of the function that wasn't found")
        "Cannot get pointer to %s from libnvidia-ml.so"
    ∷ message "DCGM_FR_GRAPHICS_PROCESSES_MSG" none
        "NVVS has detected processes with graphics contexts open running on at least one GPU. This may cause some tests to fail."
    ∷ message "DCGM_FR_HOSTENGINE_CONN_MSG" (some "error message from the API call")
        "Could not connect to the host engine: '%s'"
    ∷ message "DCGM_FR_FIELD_QUERY_MSG" (some "field name, gpu id")
        "Could not query field %s for GPU %u"
    ∷ message "DCGM_FR_BAD_CUDA_ENV_MSG" (some "environment variable name")
        "Found CUDA performance-limiting environment variable '%s'."
    ∷ message "DCGM_FR_PERSISTENCE_MODE_MSG" (some "gpu id")
        "Persistence mode for GPU %u is currently disabled. The DCGM diagnostic requires peristence mode to be enabled."
    ∷ message "DCGM_FR_LOW_BANDWIDTH_MSG"
        (some "gpu id, direction (d2h, e.g.), measured bandwidth, expected bandwidth")
        "Bandwidth of GPU %u in direction %s of %.2f did not exceed minimum required bandwidth of %.2f."
    ∷ message "DCGM_FR_HIGH_LATENCY_MSG"
        (some "gpu id, direction (d2h, e.g.), measured latency, expected latency")
        "Latency type %s of GPU %u value %.2f exceeded maximum allowed latency of %.2f."
    ∷ message "DCGM_FR_CANNOT_GET_FIELD_TAG_MSG" (some "field id")
        "Unable to get field information for field id %hu"
    ∷ message "DCGM_FR_FIELD_VIOLATION_MSG"
        (some
          "field value, field name, gpu id (this message is for fields that should always have a 0 value)")
        "Detected %ld %s for GPU %u"
    ∷ message "DCGM_FR_FIELD_THRESHOLD_MSG"
        (some "field value, field name, gpu id, allowable threshold")
        "Detected %ld %s for GPU %u which is above the threshold %ld"
    ∷ message "DCGM_FR_FIELD_VIOLATION_DBL_MSG"
        (some
          "field value, field name, gpu id (same as DCGM_FR_FIELD_VIOLATION, but it's a double)")
        "Detected %.1f %s for GPU %u"
    ∷ message "DCGM_FR_FIELD_THRESHOLD_DBL_MSG"
        (some
          "field value, field name, gpu id, allowable threshold (same as DCGM_FR_FIELD_THRESHOLD, but it's a double)")
        "Detected %.1f %s for GPU %u which is above the threshold %.1f"
    ∷ message "DCGM_FR_UNSUPPORTED_FIELD_TYPE_MSG" (some "field name")
        "Field %s is not supported by this API because it is neither an int64 nor a double type."
    ∷ message "DCGM_FR_FIELD_THRESHOLD_TS_MSG"
        (some "field name, allowable threshold, observed value, seconds")
        "%s met or exceeded the threshold of %lu per second: %lu at %.1f seconds into the test."
    ∷ message "DCGM_FR_FIELD_THRESHOLD_TS_DBL_MSG"
        (some
          "field name, allowable threshold, observed value, seconds (same as DCGM_FR_FIELD_THRESHOLD, but it's a double)")
        "%s met or exceeded the threshold of %.1f per second: %.1f at %.1f seconds into the test."
    ∷ []
