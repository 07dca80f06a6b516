-- ===== src/Dcgm/Errors/Suggestions.antt =====
-- The suggestions of internal/include/dcgm_errors.h for what to do about an error.
use Prim.Native.String.{◌++◌}
use gpu_metric_collector.Base.{String, List, [], ◌∷◌}

abbrev pub triage_run_field_diag_msg : String
triage_run_field_diag_msg = "Run a field diagnostic on the GPU."

abbrev pub debug_cooling_msg : String
debug_cooling_msg =
    "Verify that the cooling on this machine is functional, including external, thermal material interface, fans, and any other components."

abbrev pub dcgm_fr_volatile_dbe_detected_next : String
dcgm_fr_volatile_dbe_detected_next = "Drain the GPU and reset it or reboot the node."

abbrev pub error_suggestions : List (String × String)
error_suggestions =
    ("DCGM_FR_OK_NEXT", "N/A")
    ∷ ("DCGM_FR_UNKNOWN_NEXT", "")
    ∷ ("DCGM_FR_UNRECOGNIZED_NEXT", "")
    ∷ (
      "DCGM_FR_PCI_REPLAY_RATE_NEXT",
      "Reconnect PCIe card. Run system side PCIE diagnostic utilities to verify hops off the GPU board. If issue is on the board, run the field diagnostic.",
    )
    ∷ ("DCGM_FR_VOLATILE_DBE_DETECTED_NEXT", dcgm_fr_volatile_dbe_detected_next)
    ∷ ("DCGM_FR_VOLATILE_SBE_DETECTED_NEXT", "Monitor - this GPU can still perform workload.")
    ∷ ("DCGM_FR_PENDING_PAGE_RETIREMENTS_NEXT", "Monitor - this GPU can still perform workload")
    ∷ ("DCGM_FR_RETIRED_PAGES_LIMIT_NEXT", triage_run_field_diag_msg)
    ∷ ("DCGM_FR_RETIRED_PAGES_DBE_LIMIT_NEXT", triage_run_field_diag_msg)
    ∷ ("DCGM_FR_CORRUPT_INFOROM_NEXT", "Flash the InfoROM to clear this corruption.")
    ∷ ("DCGM_FR_CLOCK_THROTTLE_THERMAL_NEXT", debug_cooling_msg)
    ∷ ("DCGM_FR_POWER_UNREADABLE_NEXT", "")
    ∷ (
      "DCGM_FR_CLOCK_THROTTLE_POWER_NEXT",
      "Monitor the power conditions. This GPU can still perform workload.",
    )
    ∷ ("DCGM_FR_NVLINK_ERROR_THRESHOLD_NEXT", "Monitor the NVLink. It can still perform workload.")
    ∷ ("DCGM_FR_NVLINK_DOWN_NEXT", triage_run_field_diag_msg)
    ∷ ("DCGM_FR_NVSWITCH_FATAL_ERROR_NEXT", triage_run_field_diag_msg)
    ∷ (
      "DCGM_FR_NVSWITCH_NON_FATAL_ERROR_NEXT",
      "Monitor the NVSwitch. It can still perform workload.",
    )
    ∷ ("DCGM_FR_NVSWITCH_DOWN_NEXT", "")
    ∷ (
      "DCGM_FR_NO_ACCESS_TO_FILE_NEXT",
      "Check relevant permissions, access, and existence of the file.",
    )
    ∷ (
      "DCGM_FR_NVML_API_NEXT",
      "Check the error condition and ensure that appropriate libraries are present and accessible.",
    )
    ∷ (
      "DCGM_FR_DEVICE_COUNT_MISMATCH_NEXT",
      "Check for the presence of cgroups, operating system blocks, and or unsupported / older cards",
    )
    ∷ ("DCGM_FR_BAD_PARAMETER_NEXT", "")
    ∷ (
      "DCGM_FR_CANNOT_OPEN_LIB_NEXT",
      "Check for the existence of the library and set LD_LIBRARY_PATH if needed.",
    )
    ∷ ("DCGM_FR_BLACKLISTED_DRIVER_NEXT", "Please load the appropriate driver.")
    ∷ (
      "DCGM_FR_NVML_LIB_BAD_NEXT",
      "Make sure that the required version of libnvidia-ml.so is present and accessible on the system.",
    )
    ∷ (
      "DCGM_FR_GRAPHICS_PROCESSES_NEXT",
      "Stop the graphics processes or run this diagnostic on a server that is not being used for display purposes.",
    )
    ∷ (
      "DCGM_FR_HOSTENGINE_CONN_NEXT",
      "If hostengine is run separately, please ensure that it is up and responsive.",
    )
    ∷ ("DCGM_FR_FIELD_QUERY_NEXT", "")
    ∷ (
      "DCGM_FR_BAD_CUDA_ENV_NEXT",
      "Please unset this environment variable to address test failures.",
    )
    ∷ (
      "DCGM_FR_PERSISTENCE_MODE_NEXT",
      "Enable persistence mode by running \"nvidia-smi -i <gpuId> -pm 1 \" as root.",
    )
    ∷ (
      "DCGM_FR_LOW_BANDWIDTH_NEXT",
      "Verify that your minimum bandwidth setting is appropriate for the topology of each GPU. If so, and errors are consistent, please run a field diagnostic.",
    )
    ∷ (
      "DCGM_FR_HIGH_LATENCY_NEXT",
      "Verify that your maximum latency setting is appropriate for the topology of each GPU. If so, and errors are consistent, please run a field diagnostic.",
    )
    ∷ ("DCGM_FR_CANNOT_GET_FIELD_TAG_NEXT", "")
    ∷ ("DCGM_FR_FIELD_VIOLATION_NEXT", "")
    ∷ ("DCGM_FR_FIELD_THRESHOLD_NEXT", "")
    ∷ ("DCGM_FR_FIELD_VIOLATION_DBL_NEXT", "")
    ∷ ("DCGM_FR_FIELD_THRESHOLD_DBL_NEXT", "")
    ∷ ("DCGM_FR_UNSUPPORTED_FIELD_TYPE_NEXT", "")
    ∷ ("DCGM_FR_FIELD_THRESHOLD_TS_NEXT", "")
    ∷ ("DCGM_FR_FIELD_THRESHOLD_TS_DBL_NEXT", "")
    ∷ ("DCGM_FR_THERMAL_VIOLATIONS_NEXT", debug_cooling_msg)
    ∷ ("DCGM_FR_THERMAL_VIOLATIONS_TS_NEXT", debug_cooling_msg)
    ∷ (
      "DCGM_FR_TEMP_VIOLATION_NEXT",
      "Verify that the user-specified temperature maximum is set correctly. If it is, check the cooling for this GPU and node: "
          ++ debug_cooling_msg,
    )
    ∷ ("DCGM_FR_THROTTLING_VIOLATION_NEXT", "")
    ∷ ("DCGM_FR_INTERNAL_NEXT", "")
    ∷ ("DCGM_FR_PCIE_GENERATION_NEXT", "")
    ∷ ("DCGM_FR_PCIE_WIDTH_NEXT", "")
    ∷ ("DCGM_FR_ABORTED_NEXT", "")
    ∷ ("DCGM_FR_TEST_DISABLED_NEXT", "")
    ∷ (
      "DCGM_FR_CANNOT_GET_STAT_NEXT",
      "If running a standalone nv-hostengine, verify that it is up and responsive.",
    )
    ∷ ("DCGM_FR_STRESS_LEVEL_NEXT", "")
    ∷ ("DCGM_FR_CUDA_API_NEXT", "")
    ∷ ("DCGM_FR_FAULTY_MEMORY_NEXT", triage_run_field_diag_msg)
    ∷ ("DCGM_FR_CANNOT_SET_WATCHES_NEXT", "")
    ∷ ("DCGM_FR_CUDA_UNBOUND_NEXT", "")
    ∷ (
      "DCGM_FR_ECC_DISABLED_NEXT",
      "Enable ECC memory by running \"nvidia-smi -i <gpuId> -e 1\" to enable. This may require a GPU reset or reboot to take effect.",
    )
    ∷ ("DCGM_FR_MEMORY_ALLOC_NEXT", "")
    ∷ ("DCGM_FR_CUDA_DBE_NEXT", triage_run_field_diag_msg)
    ∷ ("DCGM_FR_MEMORY_MISMATCH_NEXT", triage_run_field_diag_msg)
    ∷ (
      "DCGM_FR_CUDA_DEVICE_NEXT",
      "Make sure CUDA_VISIBLE_DEVICES is not preventing visibility of this GPU. Also check if CUDA libraries are compatible and correctly installed.",
    )
    ∷ ("DCGM_FR_ECC_UNSUPPORTED_NEXT", "")
    ∷ ("DCGM_FR_ECC_PENDING_NEXT", "Reboot to complete activation of the ECC memory.")
    ∷ ("DCGM_FR_MEMORY_BANDWIDTH_NEXT", "")
    ∷ ("DCGM_FR_TARGET_POWER_NEXT", "Verify that the clock speeds and GPU utilization are high.")
    ∷ ("DCGM_FR_API_FAIL_NEXT", "")
    ∷ ("DCGM_FR_API_FAIL_GPU_NEXT", "")
    ∷ (
      "DCGM_FR_CUDA_CONTEXT_NEXT",
      "Please make sure the correct driver version is installed and verify that no conflicting libraries are present.",
    )
    ∷ ("DCGM_FR_DCGM_API_NEXT", "")
    ∷ ("DCGM_FR_CONCURRENT_GPUS_NEXT", "")
    ∷ ("DCGM_FR_TOO_MANY_ERRORS_NEXT", "")
    ∷ ("DCGM_FR_NVLINK_CRC_ERROR_THRESHOLD_NEXT", triage_run_field_diag_msg)
    ∷ ("DCGM_FR_NVLINK_ERROR_CRITICAL_NEXT", triage_run_field_diag_msg)
    ∷ (
      "DCGM_FR_ENFORCED_POWER_LIMIT_NEXT",
      "If this enforced power limit is necessary, then this test cannot be run. If it is unnecessary, then raise the enforced power limit setting to be able to run this test.",
    )
    ∷ ("DCGM_FR_MEMORY_ALLOC_HOST_NEXT", "Manually kill processes or restart your machine.")
    ∷ (
      "DCGM_FR_GPU_OP_MODE_NEXT",
      "Fix by running nvidia-smi as root with: nvidia-smi --gom=0 -i <gpu index>",
    )
    ∷ ("DCGM_FR_NO_MEMORY_CLOCKS_NEXT", "")
    ∷ ("DCGM_FR_NO_GRAPHICS_CLOCKS_NEXT", "")
    ∷ ("DCGM_FR_HAD_TO_RESTORE_STATE_NEXT", "")
    ∷ ("DCGM_FR_L1TAG_UNSUPPORTED_NEXT", "")
    ∷ ("DCGM_FR_L1TAG_MISCOMPARE_NEXT", triage_run_field_diag_msg)
    ∷ ("DCGM_FR_ROW_REMAP_FAILURE_NEXT", dcgm_fr_volatile_dbe_detected_next)
    ∷ ("DCGM_FR_UNCONTAINED_ERROR_NEXT", dcgm_fr_volatile_dbe_detected_next)
    ∷ (
      "DCGM_FR_DBE_PENDING_PAGE_RETIREMENTS_NEXT",
      "Drain the GPU and reset it or reboot the node to resolve this issue.",
    )
    ∷ ("DCGM_FR_EMPTY_GPU_LIST_NEXT", "")
    ∷ []
