-- ===== src/Dcgm/Fields/Nvlink.antt =====
-- internal/include/dcgm_fields.h: the fields of the links, of virtual GPUs and of the first switch ports.
use gpu_metric_collector.Base.{ℕ, String, List, [], ◌∷◌}

-- Lines 794 to 943.
abbrev pub nvlink_crc_fields : List (String × ℕ)
nvlink_crc_fields =
    ("DCGM_FI_DEV_ECC_SBE_AGG_DEV", 328)
    ∷ ("DCGM_FI_DEV_ECC_DBE_AGG_DEV", 329)
    ∷ ("DCGM_FI_DEV_ECC_SBE_AGG_REG", 330)
    ∷ ("DCGM_FI_DEV_ECC_DBE_AGG_REG", 331)
    ∷ ("DCGM_FI_DEV_ECC_SBE_AGG_TEX", 332)
    ∷ ("DCGM_FI_DEV_ECC_DBE_AGG_TEX", 333)
    ∷ ("DCGM_FI_DEV_RETIRED_SBE", 390)
    ∷ ("DCGM_FI_DEV_RETIRED_DBE", 391)
    ∷ ("DCGM_FI_DEV_RETIRED_PENDING", 392)
    ∷ ("DCGM_FI_DEV_UNCORRECTABLE_REMAPPED_ROWS", 393)
    ∷ ("DCGM_FI_DEV_CORRECTABLE_REMAPPED_ROWS", 394)
    ∷ ("DCGM_FI_DEV_ROW_REMAP_FAILURE", 395)
    ∷ ("DCGM_FI_DEV_NVLINK_CRC_FLIT_ERROR_COUNT_L0", 400)
    ∷ ("DCGM_FI_DEV_NVLINK_CRC_FLIT_ERROR_COUNT_L1", 401)
    ∷ ("DCGM_FI_DEV_NVLINK_CRC_FLIT_ERROR_COUNT_L2", 402)
    ∷ ("DCGM_FI_DEV_NVLINK_CRC_FLIT_ERROR_COUNT_L3", 403)
    ∷ ("DCGM_FI_DEV_NVLINK_CRC_FLIT_ERROR_COUNT_L4", 404)
    ∷ ("DCGM_FI_DEV_NVLINK_CRC_FLIT_ERROR_COUNT_L5", 405)
    ∷ ("DCGM_FI_DEV_NVLINK_CRC_FLIT_ERROR_COUNT_TOTAL", 409)
    ∷ ("DCGM_FI_DEV_NVLINK_CRC_DATA_ERROR_COUNT_L0", 410)
    ∷ ("DCGM_FI_DEV_NVLINK_CRC_DATA_ERROR_COUNT_L1", 411)
    ∷ ("DCGM_FI_DEV_NVLINK_CRC_DATA_ERROR_COUNT_L2", 412)
    ∷ ("DCGM_FI_DEV_NVLINK_CRC_DATA_ERROR_COUNT_L3", 413)
    ∷ ("DCGM_FI_DEV_NVLINK_CRC_DATA_ERROR_COUNT_L4", 414)
    ∷ ("DCGM_FI_DEV_NVLINK_CRC_DATA_ERROR_COUNT_L5", 415)
    ∷ ("DCGM_FI_DEV_NVLINK_CRC_DATA_ERROR_COUNT_TOTAL", 419)
    ∷ ("DCGM_FI_DEV_NVLINK_REPLAY_ERROR_COUNT_L0", 420)
    ∷ ("DCGM_FI_DEV_NVLINK_REPLAY_ERROR_COUNT_L1", 421)
    ∷ ("DCGM_FI_DEV_NVLINK_REPLAY_ERROR_COUNT_L2", 422)
    ∷ []

-- Lines 944 to 1093.
abbrev pub nvlink_replay_fields : List (String × ℕ)
nvlink_replay_fields =
    ("DCGM_FI_DEV_NVLINK_REPLAY_ERROR_COUNT_L3", 423)
    ∷ ("DCGM_FI_DEV_NVLINK_REPLAY_ERROR_COUNT_L4", 424)
    ∷ ("DCGM_FI_DEV_NVLINK_REPLAY_ERROR_COUNT_L5", 425)
    ∷ ("DCGM_FI_DEV_NVLINK_REPLAY_ERROR_COUNT_TOTAL", 429)
    ∷ ("DCGM_FI_DEV_NVLINK_RECOVERY_ERROR_COUNT_L0", 430)
    ∷ ("DCGM_FI_DEV_NVLINK_RECOVERY_ERROR_COUNT_L1", 431)
    ∷ ("DCGM_FI_DEV_NVLINK_RECOVERY_ERROR_COUNT_L2", 432)
    ∷ ("DCGM_FI_DEV_NVLINK_RECOVERY_ERROR_COUNT_L3", 433)
    ∷ ("DCGM_FI_DEV_NVLINK_RECOVERY_ERROR_COUNT_L4", 434)
    ∷ ("DCGM_FI_DEV_NVLINK_RECOVERY_ERROR_COUNT_L5", 435)
    ∷ ("DCGM_FI_DEV_NVLINK_RECOVERY_ERROR_COUNT_TOTAL", 439)
    ∷ ("DCGM_FI_DEV_NVLINK_BANDWIDTH_L0", 440)
    ∷ ("DCGM_FI_DEV_NVLINK_BANDWIDTH_L1", 441)
    ∷ ("DCGM_FI_DEV_NVLINK_BANDWIDTH_L2", 442)
    ∷ ("DCGM_FI_DEV_NVLINK_BANDWIDTH_L3", 443)
    ∷ ("DCGM_FI_DEV_NVLINK_BANDWIDTH_L4", 444)
    ∷ ("DCGM_FI_DEV_NVLINK_BANDWIDTH_L5", 445)
    ∷ ("DCGM_FI_DEV_NVLINK_BANDWIDTH_TOTAL", 449)
    ∷ ("DCGM_FI_DEV_GPU_NVLINK_ERRORS", 450)
    ∷ ("DCGM_FI_DEV_NVLINK_CRC_FLIT_ERROR_COUNT_L6", 451)
    ∷ ("DCGM_FI_DEV_NVLINK_CRC_FLIT_ERROR_COUNT_L7", 452)
    ∷ ("DCGM_FI_DEV_NVLINK_CRC_FLIT_ERROR_COUNT_L8", 453)
    ∷ ("DCGM_FI_DEV_NVLINK_CRC_FLIT_ERROR_COUNT_L9", 454)
    ∷ ("DCGM_FI_DEV_NVLINK_CRC_FLIT_ERROR_COUNT_L10", 455)
    ∷ ("DCGM_FI_DEV_NVLINK_CRC_FLIT_ERROR_COUNT_L11", 456)
    ∷ ("DCGM_FI_DEV_NVLINK_CRC_DATA_ERROR_COUNT_L6", 457)
    ∷ ("DCGM_FI_DEV_NVLINK_CRC_DATA_ERROR_COUNT_L7", 458)
    ∷ ("DCGM_FI_DEV_NVLINK_CRC_DATA_ERROR_COUNT_L8", 459)
    ∷ ("DCGM_FI_DEV_NVLINK_CRC_DATA_ERROR_COUNT_L9", 460)
    ∷ ("DCGM_FI_DEV_NVLINK_CRC_DATA_ERROR_COUNT_L10", 461)
    ∷ []

-- Lines 1094 to 1243.
abbrev pub vgpu_fields : List (String × ℕ)
vgpu_fields =
    ("DCGM_FI_DEV_NVLINK_CRC_DATA_ERROR_COUNT_L11", 462)
    ∷ ("DCGM_FI_DEV_NVLINK_REPLAY_ERROR_COUNT_L6", 463)
    ∷ ("DCGM_FI_DEV_NVLINK_REPLAY_ERROR_COUNT_L7", 464)
    ∷ ("DCGM_FI_DEV_NVLINK_REPLAY_ERROR_COUNT_L8", 465)
    ∷ ("DCGM_FI_DEV_NVLINK_REPLAY_ERROR_COUNT_L9", 466)
    ∷ ("DCGM_FI_DEV_NVLINK_REPLAY_ERROR_COUNT_L10", 467)
    ∷ ("DCGM_FI_DEV_NVLINK_REPLAY_ERROR_COUNT_L11", 468)
    ∷ ("DCGM_FI_DEV_NVLINK_RECOVERY_ERROR_COUNT_L6", 469)
    ∷ ("DCGM_FI_DEV_NVLINK_RECOVERY_ERROR_COUNT_L7", 470)
    ∷ ("DCGM_FI_DEV_NVLINK_RECOVERY_ERROR_COUNT_L8", 471)
    ∷ ("DCGM_FI_DEV_NVLINK_RECOVERY_ERROR_COUNT_L9", 472)
    ∷ ("DCGM_FI_DEV_NVLINK_RECOVERY_ERROR_COUNT_L10", 473)
    ∷ ("DCGM_FI_DEV_NVLINK_RECOVERY_ERROR_COUNT_L11", 474)
    ∷ ("DCGM_FI_DEV_NVLINK_BANDWIDTH_L6", 475)
    ∷ ("DCGM_FI_DEV_NVLINK_BANDWIDTH_L7", 476)
    ∷ ("DCGM_FI_DEV_NVLINK_BANDWIDTH_L8", 477)
    ∷ ("DCGM_FI_DEV_NVLINK_BANDWIDTH_L9", 478)
    ∷ ("DCGM_FI_DEV_NVLINK_BANDWIDTH_L10", 479)
    ∷ ("DCGM_FI_DEV_NVLINK_BANDWIDTH_L11", 480)
    ∷ ("DCGM_FI_DEV_VIRTUAL_MODE", 500)
    ∷ ("DCGM_FI_DEV_SUPPORTED_TYPE_INFO", 501)
    ∷ ("DCGM_FI_DEV_CREATABLE_VGPU_TYPE_IDS", 502)
    ∷ ("DCGM_FI_DEV_VGPU_INSTANCE_IDS", 503)
    ∷ ("DCGM_FI_DEV_VGPU_UTILIZATIONS", 504)
    ∷ ("DCGM_FI_DEV_VGPU_PER_PROCESS_UTILIZATION", 505)
    ∷ ("DCGM_FI_DEV_ENC_STATS", 506)
    ∷ ("DCGM_FI_DEV_FBC_STATS", 507)
    ∷ ("DCGM_FI_DEV_FBC_SESSIONS_INFO", 508)
    ∷ ("DCGM_FI_DEV_VGPU_VM_ID", 520)
    ∷ []

-- Lines 1244 to 1393.
abbrev pub latency_fields_0 : List (String × ℕ)
latency_fields_0 =
    ("DCGM_FI_DEV_VGPU_VM_NAME", 521)
    ∷ ("DCGM_FI_DEV_VGPU_TYPE", 522)
    ∷ ("DCGM_FI_DEV_VGPU_UUID", 523)
    ∷ ("DCGM_FI_DEV_VGPU_DRIVER_VERSION", 524)
    ∷ ("DCGM_FI_DEV_VGPU_MEMORY_USAGE", 525)
    ∷ ("DCGM_FI_DEV_VGPU_LICENSE_STATUS", 526)
    ∷ ("DCGM_FI_DEV_VGPU_FRAME_RATE_LIMIT", 527)
    ∷ ("DCGM_FI_DEV_VGPU_ENC_STATS", 528)
    ∷ ("DCGM_FI_DEV_VGPU_ENC_SESSIONS_INFO", 529)
    ∷ ("DCGM_FI_DEV_VGPU_FBC_STATS", 530)
    ∷ ("DCGM_FI_DEV_VGPU_FBC_SESSIONS_INFO", 531)
    ∷ ("DCGM_FI_DEV_VGPU_LICENSE_INSTANCE_STATUS", 532)
    ∷ ("DCGM_FI_FIRST_VGPU_FIELD_ID", 520)
    ∷ ("DCGM_FI_LAST_VGPU_FIELD_ID", 570)
    ∷ ("DCGM_FI_INTERNAL_FIELDS_0_START", 600)
    ∷ ("DCGM_FI_INTERNAL_FIELDS_0_END", 699)
    ∷ ("DCGM_FI_DEV_NVSWITCH_LATENCY_LOW_P00", 700)
    ∷ ("DCGM_FI_DEV_NVSWITCH_LATENCY_MED_P00", 701)
    ∷ ("DCGM_FI_DEV_NVSWITCH_LATENCY_HIGH_P00", 702)
    ∷ ("DCGM_FI_DEV_NVSWITCH_LATENCY_MAX_P00", 703)
    ∷ ("DCGM_FI_DEV_NVSWITCH_LATENCY_LOW_P01", 704)
    ∷ ("DCGM_FI_DEV_NVSWITCH_LATENCY_MED_P01", 705)
    ∷ ("DCGM_FI_DEV_NVSWITCH_LATENCY_HIGH_P01", 706)
    ∷ ("DCGM_FI_DEV_NVSWITCH_LATENCY_MAX_P01", 707)
    ∷ ("DCGM_FI_DEV_NVSWITCH_LATENCY_LOW_P02", 708)
    ∷ ("DCGM_FI_DEV_NVSWITCH_LATENCY_MED_P02", 709)
    ∷ ("DCGM_FI_DEV_NVSWITCH_LATENCY_HIGH_P02", 710)
    ∷ []
