-- ===== src/Dcgm/Fields/Profiling.antt =====
-- internal/include/dcgm_fields.h: the second set of switch bandwidths and the profiling fields.
use gpu_metric_collector.Base.{ℕ, String, List, [], ◌∷◌}

-- Lines 1844 to 1993.
abbrev pub bandwidth_fields_1 : List (String × ℕ)
bandwidth_fields_1 =
    ("DCGM_FI_DEV_NVSWITCH_BANDWIDTH_TX_0_P16", 812)
    ∷ ("DCGM_FI_DEV_NVSWITCH_BANDWIDTH_RX_0_P16", 813)
    ∷ ("DCGM_FI_DEV_NVSWITCH_BANDWIDTH_TX_0_P17", 814)
    ∷ ("DCGM_FI_DEV_NVSWITCH_BANDWIDTH_RX_0_P17", 815)
    ∷ ("DCGM_FI_DEV_NVSWITCH_BANDWIDTH_TX_1_P00", 820)
    ∷ ("DCGM_FI_DEV_NVSWITCH_BANDWIDTH_RX_1_P00", 821)
    ∷ ("DCGM_FI_DEV_NVSWITCH_BANDWIDTH_TX_1_P01", 822)
    ∷ ("DCGM_FI_DEV_NVSWITCH_BANDWIDTH_RX_1_P01", 823)
    ∷ ("DCGM_FI_DEV_NVSWITCH_BANDWIDTH_TX_1_P02", 824)
    ∷ ("DCGM_FI_DEV_NVSWITCH_BANDWIDTH_RX_1_P02", 825)
    ∷ ("DCGM_FI_DEV_NVSWITCH_BANDWIDTH_TX_1_P03", 826)
    ∷ ("DCGM_FI_DEV_NVSWITCH_BANDWIDTH_RX_1_P03", 827)
    ∷ ("DCGM_FI_DEV_NVSWITCH_BANDWIDTH_TX_1_P04", 828)
    ∷ ("DCGM_FI_DEV_NVSWITCH_BANDWIDTH_RX_1_P04", 829)
    ∷ ("DCGM_FI_DEV_NVSWITCH_BANDWIDTH_TX_1_P05", 830)
    ∷ ("DCGM_FI_DEV_NVSWITCH_BANDWIDTH_RX_1_P05", 831)
    ∷ ("DCGM_FI_DEV_NVSWITCH_BANDWIDTH_TX_1_P06", 832)
    ∷ ("DCGM_FI_DEV_NVSWITCH_BANDWIDTH_RX_1_P06", 833)
    ∷ ("DCGM_FI_DEV_NVSWITCH_BANDWIDTH_TX_1_P07", 834)
    ∷ ("DCGM_FI_DEV_NVSWITCH_BANDWIDTH_RX_1_P07", 835)
    ∷ ("DCGM_FI_DEV_NVSWITCH_BANDWIDTH_TX_1_P08", 836)
    ∷ ("DCGM_FI_DEV_NVSWITCH_BANDWIDTH_RX_1_P08", 837)
    ∷ ("DCGM_FI_DEV_NVSWITCH_BANDWIDTH_TX_1_P09", 838)
    ∷ ("DCGM_FI_DEV_NVSWITCH_BANDWIDTH_RX_1_P09", 839)
    ∷ ("DCGM_FI_DEV_NVSWITCH_BANDWIDTH_TX_1_P10", 840)
    ∷ ("DCGM_FI_DEV_NVSWITCH_BANDWIDTH_RX_1_P10", 841)
    ∷ ("DCGM_FI_DEV_NVSWITCH_BANDWIDTH_TX_1_P11", 842)
    ∷ ("DCGM_FI_DEV_NVSWITCH_BANDWIDTH_RX_1_P11", 843)
    ∷ ("DCGM_FI_DEV_NVSWITCH_BANDWIDTH_TX_1_P12", 844)
    ∷ ("DCGM_FI_DEV_NVSWITCH_BANDWIDTH_RX_1_P12", 845)
    ∷ ("DCGM_FI_DEV_NVSWITCH_BANDWIDTH_TX_1_P13", 846)
    ∷ ("DCGM_FI_DEV_NVSWITCH_BANDWIDTH_RX_1_P13", 847)
    ∷ []

-- Lines 1994 to 2141.
abbrev pub profiling_fields : List (String × ℕ)
profiling_fields =
    ("DCGM_FI_DEV_NVSWITCH_BANDWIDTH_TX_1_P14", 848)
    ∷ ("DCGM_FI_DEV_NVSWITCH_BANDWIDTH_RX_1_P14", 849)
    ∷ ("DCGM_FI_DEV_NVSWITCH_BANDWIDTH_TX_1_P15", 850)
    ∷ ("DCGM_FI_DEV_NVSWITCH_BANDWIDTH_RX_1_P15", 851)
    ∷ ("DCGM_FI_DEV_NVSWITCH_BANDWIDTH_TX_1_P16", 852)
    ∷ ("DCGM_FI_DEV_NVSWITCH_BANDWIDTH_RX_1_P16", 853)
    ∷ ("DCGM_FI_DEV_NVSWITCH_BANDWIDTH_TX_1_P17", 854)
    ∷ ("DCGM_FI_DEV_NVSWITCH_BANDWIDTH_RX_1_P17", 855)
    ∷ ("DCGM_FI_DEV_NVSWITCH_FATAL_ERRORS", 856)
    ∷ ("DCGM_FI_DEV_NVSWITCH_NON_FATAL_ERRORS", 857)
    ∷ ("DCGM_FI_FIRST_NVSWITCH_FIELD_ID", 700)
    ∷ ("DCGM_FI_LAST_NVSWITCH_FIELD_ID", 860)
    ∷ ("DCGM_FI_PROF_GR_ENGINE_ACTIVE", 1001)
    ∷ ("DCGM_FI_PROF_SM_ACTIVE", 1002)
    ∷ ("DCGM_FI_PROF_SM_OCCUPANCY", 1003)
    ∷ ("DCGM_FI_PROF_PIPE_TENSOR_ACTIVE", 1004)
    ∷ ("DCGM_FI_PROF_DRAM_ACTIVE", 1005)
    ∷ ("DCGM_FI_PROF_PIPE_FP64_ACTIVE", 1006)
    ∷ ("DCGM_FI_PROF_PIPE_FP32_ACTIVE", 1007)
    ∷ ("DCGM_FI_PROF_PIPE_FP16_ACTIVE", 1008)
    ∷ ("DCGM_FI_PROF_PCIE_TX_BYTES", 1009)
    ∷ ("DCGM_FI_PROF_PCIE_RX_BYTES", 1010)
    ∷ ("DCGM_FI_PROF_NVLINK_TX_BYTES", 1011)
    ∷ ("DCGM_FI_PROF_NVLINK_RX_BYTES", 1012)
    ∷ ("DCGM_FI_MAX_FIELDS", 1013)
    ∷ []
