-- ===== src/Dcgm/Fields/ConstantsLink.antt =====
-- pkg/dcgm/const.go: the constants DCGM_FI_*, lines 165 to 278.
use gpu_metric_collector.Base.{ℕ, String, List, [], ◌∷◌}

-- From DCGM_FI_DEV_ROW_REMAP_FAILURE to DCGM_FI_DEV_NVSWITCH_LATENCY_LOW_P12.
abbrev pub link_constants : List (String × ℕ)
link_constants =
    ("DCGM_FI_DEV_ROW_REMAP_FAILURE", 395)
    ∷ ("DCGM_FI_DEV_RETIRED_SBE", 390)
    ∷ ("DCGM_FI_DEV_RETIRED_DBE", 391)
    ∷ ("DCGM_FI_DEV_RETIRED_PENDING", 392)
    ∷ ("DCGM_FI_DEV_NVLINK_CRC_FLIT_ERROR_COUNT_L0", 400)
    ∷ ("DCGM_FI_DEV_NVLINK_CRC_FLIT_ERROR_COUNT_L1", 401)
    ∷ ("DCGM_FI_DEV_NVLINK_CRC_FLIT_ERROR_COUNT_L2", 402)
    ∷ ("DCGM_FI_DEV_NVLINK_CRC_FLIT_ERROR_COUNT_L3", 403)
    ∷ ("DCGM_FI_DEV_NVLINK_CRC_FLIT_ERROR_COUNT_L4", 404)
    ∷ ("DCGM_FI_DEV_NVLINK_CRC_FLIT_ERROR_COUNT_L5", 405)
    ∷ ("DCGM_FI_DEV_NVLINK_CRC_FLIT_ERROR_COUNT_TOTAL", 409)
    ∷ ("DCGM_FI_DEV_NVLINK_CRC_DATA_ERROR_COUNT_L0", 410)
    ∷ ("DCGM_FI_DEV_NVLINK_CRC_DATA_ERROR_COUNT_L1", 411)
    ∷ ("DCGM_FI_DEV_NVLINK_CRC_DATA_ERROR_COUNT_L2", 412)
    ∷ ("DCGM_FI_DEV_NVLINK_CRC_DATA_ERROR_COUNT_L3", 413)
    ∷ ("DCGM_FI_DEV_NVLINK_CRC_DATA_ERROR_COUNT_L4", 414)
    ∷ ("DCGM_FI_DEV_NVLINK_CRC_DATA_ERROR_COUNT_L5", 415)
    ∷ ("DCGM_FI_DEV_NVLINK_CRC_DATA_ERROR_COUNT_TOTAL", 419)
    ∷ ("DCGM_FI_DEV_NVLINK_REPLAY_ERROR_COUNT_L0", 420)
    ∷ ("DCGM_FI_DEV_NVLINK_REPLAY_ERROR_COUNT_L1", 421)
    ∷ ("DCGM_FI_DEV_NVLINK_REPLAY_ERROR_COUNT_L2", 422)
    ∷ ("DCGM_FI_DEV_NVLINK_REPLAY_ERROR_COUNT_L3", 423)
    ∷ ("DCGM_FI_DEV_NVLINK_REPLAY_ERROR_COUNT_L4", 424)
    ∷ ("DCGM_FI_DEV_NVLINK_REPLAY_ERROR_COUNT_L5", 425)
    ∷ ("DCGM_FI_DEV_NVLINK_REPLAY_ERROR_COUNT_TOTAL", 429)
    ∷ ("DCGM_FI_DEV_NVLINK_RECOVERY_ERROR_COUNT_L0", 430)
    ∷ ("DCGM_FI_DEV_NVLINK_RECOVERY_ERROR_COUNT_L1", 431)
    ∷ ("DCGM_FI_DEV_NVLINK_RECOVERY_ERROR_COUNT_L2", 432)
    ∷ ("DCGM_FI_DEV_NVLINK_RECOVERY_ERROR_COUNT_L3", 433)
    ∷ ("DCGM_FI_DEV_NVLINK_RECOVERY_ERROR_COUNT_L4", 434)
    ∷ ("DCGM_FI_DEV_NVLINK_RECOVERY_ERROR_COUNT_L5", 435)
    ∷ ("DCGM_FI_DEV_NVLINK_RECOVERY_ERROR_COUNT_TOTAL", 439)
    ∷ ("DCGM_FI_DEV_NVLINK_BANDWIDTH_L0", 440)
    ∷ ("DCGM_FI_DEV_NVLINK_BANDWIDTH_L1", 441)
    ∷ ("DCGM_FI_DEV_NVLINK_BANDWIDTH_L2", 442)
    ∷ ("DCGM_FI_DEV_NVLINK_BANDWIDTH_L3", 443)
    ∷ ("DCGM_FI_DEV_NVLINK_BANDWIDTH_L4", 444)
    ∷ ("DCGM_FI_DEV_NVLINK_BANDWIDTH_L5", 445)
    ∷ ("DCGM_FI_DEV_NVLINK_BANDWIDTH_TOTAL", 449)
    ∷ ("DCGM_FI_DEV_GPU_NVLINK_ERRORS", 450)
    ∷ ("DCGM_FI_DEV_VIRTUAL_MODE", 500)
    ∷ ("DCGM_FI_DEV_SUPPORTED_TYPE_INFO", 501)
    ∷ ("DCGM_FI_DEV_CREATABLE_VGPU_TYPE_IDS", 502)
    ∷ ("DCGM_FI_DEV_VGPU_INSTANCE_IDS", 503)
    ∷ ("DCGM_FI_DEV_VGPU_UTILIZATIONS", 504)
    ∷ ("DCGM_FI_DEV_VGPU_PER_PROCESS_UTILIZATION", 505)
    ∷ ("DCGM_FI_DEV_ENC_STATS", 506)
    ∷ ("DCGM_FI_DEV_FBC_STATS", 507)
    ∷ ("DCGM_FI_DEV_FBC_SESSIONS_INFO", 508)
    ∷ ("DCGM_FI_DEV_VGPU_VM_ID", 520)
    ∷ ("DCGM_FI_DEV_VGPU_VM_NAME", 521)
    ∷ ("DCGM_FI_DEV_VGPU_TYPE", 522)
    ∷ ("DCGM_FI_DEV_VGPU_UUID", 523)
    ∷ ("DCGM_FI_DEV_VGPU_DRIVER_VERSION", 524)
    ∷ ("DCGM_FI_DEV_VGPU_MEMORY_USAGE", 525)
    ∷ ("DCGM_FI_DEV_VGPU_LICENSE_STATUS", 526)
    ∷ ("DCGM_FI_DEV_VGPU_FRAME_RATE_LIMIT", 527)
    ∷ ("DCGM_FI_DEV_VGPU_ENC_STATS", 528)
    ∷ ("DCGM_FI_DEV_VGPU_ENC_SESSIONS_INFO", 529)
    ∷ ("DCGM_FI_DEV_VGPU_FBC_STATS", 530)
    ∷ ("DCGM_FI_DEV_VGPU_FBC_SESSIONS_INFO", 531)
    ∷ ("DCGM_FI_FIRST_VGPU_FIELD_ID", 520)
    ∷ ("DCGM_FI_LAST_VGPU_FIELD_ID", 570)
    ∷ ("DCGM_FI_INTERNAL_FIELDS_0_START", 600)
    ∷ ("DCGM_FI_INTERNAL_FIELDS_0_END", 699)
    ∷ ("DCGM_FI_DEV_NVSWITCH_LATENCY_LOW_P00", 700)
    ∷ ("DCGM_FI_DEV_NVSWITCH_LATENCY_MED_P00", 701)
    ∷ ("DCGM_FI_DEV_NVSWITCH_LATENCY_HIGH_P00", 702)
    ∷ ("DCGM_FI_DEV_NVSWITCH_LATENCY_MAX_P00", 703)
    ∷ ("DCGM_FI_DEV_NVSWITCH_LATENCY_LOW_P01", 704)
    ∷ ("DCGM_FI_DEV_NVSWITCH_LATENCY_MED_P01", 705)
    ∷ ("DCGM_FI_DEV_NVSWITCH_LATENCY_HIGH_P01", 706)
    ∷ ("DCGM_FI_DEV_NVSWITCH_LATENCY_MAX_P01", 707)
    ∷ ("DCGM_FI_DEV_NVSWITCH_LATENCY_LOW_P02", 708)
    ∷ ("DCGM_FI_DEV_NVSWITCH_LATENCY_MED_P02", 709)
    ∷ ("DCGM_FI_DEV_NVSWITCH_LATENCY_HIGH_P02", 710)
    ∷ ("DCGM_FI_DEV_NVSWITCH_LATENCY_MAX_P02", 711)
    ∷ ("DCGM_FI_DEV_NVSWITCH_LATENCY_LOW_P03", 712)
    ∷ ("DCGM_FI_DEV_NVSWITCH_LATENCY_MED_P03", 713)
    ∷ ("DCGM_FI_DEV_NVSWITCH_LATENCY_HIGH_P03", 714)
    ∷ ("DCGM_FI_DEV_NVSWITCH_LATENCY_MAX_P03", 715)
    ∷ ("DCGM_FI_DEV_NVSWITCH_LATENCY_LOW_P04", 716)
    ∷ ("DCGM_FI_DEV_NVSWITCH_LATENCY_MED_P04", 717)
    ∷ ("DCGM_FI_DEV_NVSWITCH_LATENCY_HIGH_P04", 718)
    ∷ ("DCGM_FI_DEV_NVSWITCH_LATENCY_MAX_P04", 719)
    ∷ ("DCGM_FI_DEV_NVSWITCH_LATENCY_LOW_P05", 720)
    ∷ ("DCGM_FI_DEV_NVSWITCH_LATENCY_MED_P05", 721)
    ∷ ("DCGM_FI_DEV_NVSWITCH_LATENCY_HIGH_P05", 722)
    ∷ ("DCGM_FI_DEV_NVSWITCH_LATENCY_MAX_P05", 723)
    ∷ ("DCGM_FI_DEV_NVSWITCH_LATENCY_LOW_P06", 724)
    ∷ ("DCGM_FI_DEV_NVSWITCH_LATENCY_MED_P06", 725)
    ∷ ("DCGM_FI_DEV_NVSWITCH_LATENCY_HIGH_P06", 726)
    ∷ ("DCGM_FI_DEV_NVSWITCH_LATENCY_MAX_P06", 727)
    ∷ ("DCGM_FI_DEV_NVSWITCH_LATENCY_LOW_P07", 728)
    ∷ ("DCGM_FI_DEV_NVSWITCH_LATENCY_MED_P07", 729)
    ∷ ("DCGM_FI_DEV_NVSWITCH_LATENCY_HIGH_P07", 730)
    ∷ ("DCGM_FI_DEV_NVSWITCH_LATENCY_MAX_P07", 731)
    ∷ ("DCGM_FI_DEV_NVSWITCH_LATENCY_LOW_P08", 732)
    ∷ ("DCGM_FI_DEV_NVSWITCH_LATENCY_MED_P08", 733)
    ∷ ("DCGM_FI_DEV_NVSWITCH_LATENCY_HIGH_P08", 734)
    ∷ ("DCGM_FI_DEV_NVSWITCH_LATENCY_MAX_P08", 735)
    ∷ ("DCGM_FI_DEV_NVSWITCH_LATENCY_LOW_P09", 736)
    ∷ ("DCGM_FI_DEV_NVSWITCH_LATENCY_MED_P09", 737)
    ∷ ("DCGM_FI_DEV_NVSWITCH_LATENCY_HIGH_P09", 738)
    ∷ ("DCGM_FI_DEV_NVSWITCH_LATENCY_MAX_P09", 739)
    ∷ ("DCGM_FI_DEV_NVSWITCH_LATENCY_LOW_P10", 740)
    ∷ ("DCGM_FI_DEV_NVSWITCH_LATENCY_MED_P10", 741)
    ∷ ("DCGM_FI_DEV_NVSWITCH_LATENCY_HIGH_P10", 742)
    ∷ ("DCGM_FI_DEV_NVSWITCH_LATENCY_MAX_P10", 743)
    ∷ ("DCGM_FI_DEV_NVSWITCH_LATENCY_LOW_P11", 744)
    ∷ ("DCGM_FI_DEV_NVSWITCH_LATENCY_MED_P11", 745)
    ∷ ("DCGM_FI_DEV_NVSWITCH_LATENCY_HIGH_P11", 746)
    ∷ ("DCGM_FI_DEV_NVSWITCH_LATENCY_MAX_P11", 747)
    ∷ ("DCGM_FI_DEV_NVSWITCH_LATENCY_LOW_P12", 748)
    ∷ []
