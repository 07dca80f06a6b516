-- ===== src/Dcgm/Fields/KeysDevice.antt =====
-- pkg/dcgm/const.go: the map DCGM_FI from a name to its number, lines 400 to 513.
use gpu_metric_collector.Base.{ℕ, String, List, [], ◌∷◌}

-- From DCGM_FI_UNKNOWN to DCGM_FI_DEV_CORRECTABLE_REMAPPED_ROWS.
abbrev pub device_keys : List (String × ℕ)
device_keys =
    ("DCGM_FI_UNKNOWN", 0)
    ∷ ("DCGM_FI_DRIVER_VERSION", 1)
    ∷ ("DCGM_FI_NVML_VERSION", 2)
    ∷ ("DCGM_FI_PROCESS_NAME", 3)
    ∷ ("DCGM_FI_DEV_COUNT", 4)
    ∷ ("DCGM_FI_DEV_NAME", 50)
    ∷ ("DCGM_FI_DEV_BRAND", 51)
    ∷ ("DCGM_FI_DEV_NVML_INDEX", 52)
    ∷ ("DCGM_FI_DEV_SERIAL", 53)
    ∷ ("DCGM_FI_DEV_UUID", 54)
    ∷ ("DCGM_FI_DEV_MINOR_NUMBER", 55)
    ∷ ("DCGM_FI_DEV_OEM_INFOROM_VER", 56)
    ∷ ("DCGM_FI_DEV_PCI_BUSID", 57)
    ∷ ("DCGM_FI_DEV_PCI_COMBINED_ID", 58)
    ∷ ("DCGM_FI_DEV_PCI_SUBSYS_ID", 59)
    ∷ ("DCGM_FI_GPU_TOPOLOGY_PCI", 60)
    ∷ ("DCGM_FI_GPU_TOPOLOGY_NVLINK", 61)
    ∷ ("DCGM_FI_GPU_TOPOLOGY_AFFINITY", 62)
    ∷ ("DCGM_FI_DEV_CUDA_COMPUTE_CAPABILITY", 6)
    ∷ ("DCGM_FI_DEV_COMPUTE_MODE", 65)
    ∷ ("DCGM_FI_DEV_CPU_AFFINITY_0", 70)
    ∷ ("DCGM_FI_DEV_CPU_AFFINITY_1", 71)
    ∷ ("DCGM_FI_DEV_CPU_AFFINITY_2", 72)
    ∷ ("DCGM_FI_DEV_CPU_AFFINITY_3", 73)
    ∷ ("DCGM_FI_DEV_ECC_INFOROM_VER", 80)
    ∷ ("DCGM_FI_DEV_POWER_INFOROM_VER", 81)
    ∷ ("DCGM_FI_DEV_INFOROM_IMAGE_VER", 82)
    ∷ ("DCGM_FI_DEV_INFOROM_CONFIG_CHECK", 83)
    ∷ ("DCGM_FI_DEV_INFOROM_CONFIG_VALID", 84)
    ∷ ("DCGM_FI_DEV_VBIOS_VERSION", 85)
    ∷ ("DCGM_FI_DEV_BAR1_TOTAL", 90)
    ∷ ("DCGM_FI_SYNC_BOOST", 91)
    ∷ ("DCGM_FI_DEV_BAR1_USED", 92)
    ∷ ("DCGM_FI_DEV_BAR1_FREE", 93)
    ∷ ("DCGM_FI_DEV_SM_CLOCK", 100)
    ∷ ("DCGM_FI_DEV_MEM_CLOCK", 101)
    ∷ ("DCGM_FI_DEV_VIDEO_CLOCK", 102)
    ∷ ("DCGM_FI_DEV_APP_SM_CLOCK", 110)
    ∷ ("DCGM_FI_DEV_APP_MEM_CLOCK", 111)
    ∷ ("DCGM_FI_DEV_CLOCK_THROTTLE_REASONS", 112)
    ∷ ("DCGM_FI_DEV_MAX_SM_CLOCK", 113)
    ∷ ("DCGM_FI_DEV_MAX_MEM_CLOCK", 114)
    ∷ ("DCGM_FI_DEV_MAX_VIDEO_CLOCK", 115)
    ∷ ("DCGM_FI_DEV_AUTOBOOST", 120)
    ∷ ("DCGM_FI_DEV_SUPPORTED_CLOCKS", 130)
    ∷ ("DCGM_FI_DEV_MEMORY_TEMP", 140)
    ∷ ("DCGM_FI_DEV_GPU_TEMP", 150)
    ∷ ("DCGM_FI_DEV_POWER_USAGE", 155)
    ∷ ("DCGM_FI_DEV_TOTAL_ENERGY_CONSUMPTION", 156)
    ∷ ("DCGM_FI_DEV_SLOWDOWN_TEMP", 158)
    ∷ ("DCGM_FI_DEV_SHUTDOWN_TEMP", 159)
    ∷ ("DCGM_FI_DEV_POWER_MGMT_LIMIT", 160)
    ∷ ("DCGM_FI_DEV_POWER_MGMT_LIMIT_MIN", 161)
    ∷ ("DCGM_FI_DEV_POWER_MGMT_LIMIT_MAX", 162)
    ∷ ("DCGM_FI_DEV_POWER_MGMT_LIMIT_DEF", 163)
    ∷ ("DCGM_FI_DEV_ENFORCED_POWER_LIMIT", 164)
    ∷ ("DCGM_FI_DEV_PSTATE", 190)
    ∷ ("DCGM_FI_DEV_FAN_SPEED", 191)
    ∷ ("DCGM_FI_DEV_PCIE_TX_THROUGHPUT", 200)
    ∷ ("DCGM_FI_DEV_PCIE_RX_THROUGHPUT", 201)
    ∷ ("DCGM_FI_DEV_PCIE_REPLAY_COUNTER", 202)
    ∷ ("DCGM_FI_DEV_GPU_UTIL", 203)
    ∷ ("DCGM_FI_DEV_MEM_COPY_UTIL", 204)
    ∷ ("DCGM_FI_DEV_ACCOUNTING_DATA", 205)
    ∷ ("DCGM_FI_DEV_ENC_UTIL", 206)
    ∷ ("DCGM_FI_DEV_DEC_UTIL", 207)
    ∷ ("DCGM_FI_DEV_MEM_COPY_UTIL_SAMPLES", 210)
    ∷ ("DCGM_FI_DEV_GPU_UTIL_SAMPLES", 211)
    ∷ ("DCGM_FI_DEV_GRAPHICS_PIDS", 220)
    ∷ ("DCGM_FI_DEV_COMPUTE_PIDS", 221)
    ∷ ("DCGM_FI_DEV_XID_ERRORS", 230)
    ∷ ("DCGM_FI_DEV_PCIE_MAX_LINK_GEN", 235)
    ∷ ("DCGM_FI_DEV_PCIE_MAX_LINK_WIDTH", 236)
    ∷ ("DCGM_FI_DEV_PCIE_LINK_GEN", 237)
    ∷ ("DCGM_FI_DEV_PCIE_LINK_WIDTH", 238)
    ∷ ("DCGM_FI_DEV_POWER_VIOLATION", 240)
    ∷ ("DCGM_FI_DEV_THERMAL_VIOLATION", 241)
    ∷ ("DCGM_FI_DEV_SYNC_BOOST_VIOLATION", 242)
    ∷ ("DCGM_FI_DEV_BOARD_LIMIT_VIOLATION", 243)
    ∷ ("DCGM_FI_DEV_LOW_UTIL_VIOLATION", 244)
    ∷ ("DCGM_FI_DEV_RELIABILITY_VIOLATION", 245)
    ∷ ("DCGM_FI_DEV_TOTAL_APP_CLOCKS_VIOLATION", 246)
    ∷ ("DCGM_FI_DEV_TOTAL_BASE_CLOCKS_VIOLATION", 247)
    ∷ ("DCGM_FI_DEV_FB_TOTAL", 250)
    ∷ ("DCGM_FI_DEV_FB_FREE", 251)
    ∷ ("DCGM_FI_DEV_FB_USED", 252)
    ∷ ("DCGM_FI_DEV_ECC_CURRENT", 300)
    ∷ ("DCGM_FI_DEV_ECC_PENDING", 301)
    ∷ ("DCGM_FI_DEV_ECC_SBE_VOL_TOTAL", 310)
    ∷ ("DCGM_FI_DEV_ECC_DBE_VOL_TOTAL", 311)
    ∷ ("DCGM_FI_DEV_ECC_SBE_AGG_TOTAL", 312)
    ∷ ("DCGM_FI_DEV_ECC_DBE_AGG_TOTAL", 313)
    ∷ ("DCGM_FI_DEV_ECC_SBE_VOL_L1", 314)
    ∷ ("DCGM_FI_DEV_ECC_DBE_VOL_L1", 315)
    ∷ ("DCGM_FI_DEV_ECC_SBE_VOL_L2", 316)
    ∷ ("DCGM_FI_DEV_ECC_DBE_VOL_L2", 317)
    ∷ ("DCGM_FI_DEV_ECC_SBE_VOL_DEV", 318)
    ∷ ("DCGM_FI_DEV_ECC_DBE_VOL_DEV", 319)
    ∷ ("DCGM_FI_DEV_ECC_SBE_VOL_REG", 320)
    ∷ ("DCGM_FI_DEV_ECC_DBE_VOL_REG", 321)
    ∷ ("DCGM_FI_DEV_ECC_SBE_VOL_TEX", 322)
    ∷ ("DCGM_FI_DEV_ECC_DBE_VOL_TEX", 323)
    ∷ ("DCGM_FI_DEV_ECC_SBE_AGG_L1", 324)
    ∷ ("DCGM_FI_DEV_ECC_DBE_AGG_L1", 325)
    ∷ ("DCGM_FI_DEV_ECC_SBE_AGG_L2", 326)
    ∷ ("DCGM_FI_DEV_ECC_DBE_AGG_L2", 327)
    ∷ ("DCGM_FI_DEV_ECC_SBE_AGG_DEV", 328)
    ∷ ("DCGM_FI_DEV_ECC_DBE_AGG_DEV", 329)
    ∷ ("DCGM_FI_DEV_ECC_SBE_AGG_REG", 330)
    ∷ ("DCGM_FI_DEV_ECC_DBE_AGG_REG", 331)
    ∷ ("DCGM_FI_DEV_ECC_SBE_AGG_TEX", 332)
    ∷ ("DCGM_FI_DEV_ECC_DBE_AGG_TEX", 333)
    ∷ ("DCGM_FI_DEV_UNCORRECTABLE_REMAPPED_ROWS", 393)
    ∷ ("DCGM_FI_DEV_CORRECTABLE_REMAPPED_ROWS", 394)
    ∷ []
