-- ===== src/Dcgm/Enums/Settings.antt =====
-- Enums of internal/include/dcgm_structs.h, lines 247 to 1405, each named as there in snake_case.
use gpu_metric_collector.Base.{[], ◌∷◌, none, some}
use gpu_metric_collector.Base.Int.{pos, negsuc}
use gpu_metric_collector.Dcgm.Enums.Enumerators.{Enum}

abbrev pub dcgm_operation_mode : Enum
dcgm_operation_mode =
    ("DCGM_OPERATION_MODE_AUTO", (some (pos 1)))
    ∷ ("DCGM_OPERATION_MODE_MANUAL", (some (pos 2)))
    ∷ []

abbrev pub dcgm_order : Enum
dcgm_order =
    ("DCGM_ORDER_ASCENDING", (some (pos 1))) ∷ ("DCGM_ORDER_DESCENDING", (some (pos 2))) ∷ []

abbrev pub dcgm_group_type : Enum
dcgm_group_type =
    ("DCGM_GROUP_DEFAULT", (some (pos 0)))
    ∷ ("DCGM_GROUP_EMPTY", (some (pos 1)))
    ∷ ("DCGM_GROUP_DEFAULT_NVSWITCHES", (some (pos 2)))
    ∷ ("DCGM_GROUP_DEFAULT_INSTANCES", (some (pos 3)))
    ∷ ("DCGM_GROUP_DEFAULT_COMPUTE_INSTANCES", (some (pos 4)))
    ∷ ("DCGM_GROUP_DEFAULT_EVERYTHING", (some (pos 5)))
    ∷ []

abbrev pub dcgm_chip_architecture : Enum
dcgm_chip_architecture =
    ("DCGM_CHIP_ARCH_OLDER", (some (pos 1)))
    ∷ ("DCGM_CHIP_ARCH_KEPLER", (some (pos 2)))
    ∷ ("DCGM_CHIP_ARCH_MAXWELL", (some (pos 3)))
    ∷ ("DCGM_CHIP_ARCH_PASCAL", (some (pos 4)))
    ∷ ("DCGM_CHIP_ARCH_VOLTA", (some (pos 5)))
    ∷ ("DCGM_CHIP_ARCH_TURING", (some (pos 6)))
    ∷ ("DCGM_CHIP_ARCH_AMPERE", (some (pos 7)))
    ∷ ("DCGM_CHIP_ARCH_COUNT", none)
    ∷ ("DCGM_CHIP_ARCH_UNKNOWN", (some (pos 4294967295)))
    ∷ []

abbrev pub dcgm_config_type : Enum
dcgm_config_type =
    ("DCGM_CONFIG_TARGET_STATE", (some (pos 0)))
    ∷ ("DCGM_CONFIG_CURRENT_STATE", (some (pos 1)))
    ∷ []

abbrev pub dcgm_config_power_limit_type : Enum
dcgm_config_power_limit_type =
    ("DCGM_CONFIG_POWER_CAP_INDIVIDUAL", (some (pos 0)))
    ∷ ("DCGM_CONFIG_POWER_BUDGET_GROUP", (some (pos 1)))
    ∷ []

abbrev pub dcgm_logging_severity : Enum
dcgm_logging_severity =
    ("DcgmLoggingSeverityUnspecified", (some (negsuc 0)))
    ∷ ("DcgmLoggingSeverityNone", (some (pos 0)))
    ∷ ("DcgmLoggingSeverityFatal", (some (pos 1)))
    ∷ ("DcgmLoggingSeverityError", (some (pos 2)))
    ∷ ("DcgmLoggingSeverityWarning", (some (pos 3)))
    ∷ ("DcgmLoggingSeverityInfo", (some (pos 4)))
    ∷ ("DcgmLoggingSeverityDebug", (some (pos 5)))
    ∷ ("DcgmLoggingSeverityVerbose", (some (pos 6)))
    ∷ []

abbrev pub dcgm_mig_profile : Enum
dcgm_mig_profile =
    ("DcgmMigProfileNone", (some (pos 0)))
    ∷ ("DcgmMigProfileGpuInstanceSlice1", (some (pos 1)))
    ∷ ("DcgmMigProfileGpuInstanceSlice2", (some (pos 2)))
    ∷ ("DcgmMigProfileGpuInstanceSlice3", (some (pos 3)))
    ∷ ("DcgmMigProfileGpuInstanceSlice4", (some (pos 4)))
    ∷ ("DcgmMigProfileGpuInstanceSlice7", (some (pos 5)))
    ∷ ("DcgmMigProfileGpuInstanceSlice8", (some (pos 6)))
    ∷ ("DcgmMigProfileComputeInstanceSlice1", (some (pos 30)))
    ∷ ("DcgmMigProfileComputeInstanceSlice2", (some (pos 31)))
    ∷ ("DcgmMigProfileComputeInstanceSlice3", (some (pos 32)))
    ∷ ("DcgmMigProfileComputeInstanceSlice4", (some (pos 33)))
    ∷ ("DcgmMigProfileComputeInstanceSlice7", (some (pos 34)))
    ∷ ("DcgmMigProfileComputeInstanceSlice8", (some (pos 35)))
    ∷ []

abbrev pub dcgm_fbc_session_type : Enum
dcgm_fbc_session_type =
    ("DCGM_FBC_SESSION_TYPE_UNKNOWN", (some (pos 0)))
    ∷ ("DCGM_FBC_SESSION_TYPE_TOSYS", none)
    ∷ ("DCGM_FBC_SESSION_TYPE_CUDA", none)
    ∷ ("DCGM_FBC_SESSION_TYPE_VID", none)
    ∷ ("DCGM_FBC_SESSION_TYPE_HWENC", none)
    ∷ []

abbrev pub dcgm_encoder_type : Enum
dcgm_encoder_type =
    ("DCGM_ENCODER_QUERY_H264", (some (pos 0))) ∷ ("DCGM_ENCODER_QUERY_HEVC", (some (pos 1))) ∷ []

abbrev pub dcgm_policy_mode : Enum
dcgm_policy_mode =
    ("DCGM_POLICY_MODE_AUTOMATED", (some (pos 0)))
    ∷ ("DCGM_POLICY_MODE_MANUAL", (some (pos 1)))
    ∷ []

abbrev pub dcgm_policy_isolation : Enum
dcgm_policy_isolation = ("DCGM_POLICY_ISOLATION_NONE", (some (pos 0))) ∷ []

abbrev pub dcgm_policy_action : Enum
dcgm_policy_action =
    ("DCGM_POLICY_ACTION_NONE", (some (pos 0)))
    ∷ ("DCGM_POLICY_ACTION_GPURESET", (some (pos 1)))
    ∷ []

abbrev pub dcgm_policy_validation : Enum
dcgm_policy_validation =
    ("DCGM_POLICY_VALID_NONE", (some (pos 0)))
    ∷ ("DCGM_POLICY_VALID_SV_SHORT", (some (pos 1)))
    ∷ ("DCGM_POLICY_VALID_SV_MED", (some (pos 2)))
    ∷ ("DCGM_POLICY_VALID_SV_LONG", (some (pos 3)))
    ∷ []

abbrev pub dcgm_policy_failure_resp : Enum
dcgm_policy_failure_resp = ("DCGM_POLICY_FAILURE_NONE", (some (pos 0))) ∷ []
