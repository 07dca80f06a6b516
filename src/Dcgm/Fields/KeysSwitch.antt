-- ===== src/Dcgm/Fields/KeysSwitch.antt =====
-- pkg/dcgm/const.go: the map DCGM_FI from a name to its number, lines 628 to 739.
use gpu_metric_collector.Base.{ℕ, String, List, [], ◌∷◌}

-- From DCGM_FI_DEV_NVSWITCH_LATENCY_MED_P12 to DCGM_FI_MAX_FIELDS.
abbrev pub switch_keys : List (String × ℕ)
switch_keys =
    ("DCGM_FI_DEV_NVSWITCH_LATENCY_MED_P12", 749)
    ∷ ("DCGM_FI_DEV_NVSWITCH_LATENCY_HIGH_P12", 750)
    ∷ ("DCGM_FI_DEV_NVSWITCH_LATENCY_MAX_P12", 751)
    ∷ ("DCGM_FI_DEV_NVSWITCH_LATENCY_LOW_P13", 752)
    ∷ ("DCGM_FI_DEV_NVSWITCH_LATENCY_MED_P13", 753)
    ∷ ("DCGM_FI_DEV_NVSWITCH_LATENCY_HIGH_P13", 754)
    ∷ ("DCGM_FI_DEV_NVSWITCH_LATENCY_MAX_P13", 755)
    ∷ ("DCGM_FI_DEV_NVSWITCH_LATENCY_LOW_P14", 756)
    ∷ ("DCGM_FI_DEV_NVSWITCH_LATENCY_MED_P14", 757)
    ∷ ("DCGM_FI_DEV_NVSWITCH_LATENCY_HIGH_P14", 758)
    ∷ ("DCGM_FI_DEV_NVSWITCH_LATENCY_MAX_P14", 759)
    ∷ ("DCGM_FI_DEV_NVSWITCH_LATENCY_LOW_P15", 760)
    ∷ ("DCGM_FI_DEV_NVSWITCH_LATENCY_MED_P15", 761)
    ∷ ("DCGM_FI_DEV_NVSWITCH_LATENCY_HIGH_P15", 762)
    ∷ ("DCGM_FI_DEV_NVSWITCH_LATENCY_MAX_P15", 763)
    ∷ ("DCGM_FI_DEV_NVSWITCH_LATENCY_LOW_P16", 764)
    ∷ ("DCGM_FI_DEV_NVSWITCH_LATENCY_MED_P16", 765)
    ∷ ("DCGM_FI_DEV_NVSWITCH_LATENCY_HIGH_P16", 766)
    ∷ ("DCGM_FI_DEV_NVSWITCH_LATENCY_MAX_P16", 767)
    ∷ ("DCGM_FI_DEV_NVSWITCH_LATENCY_LOW_P17", 768)
    ∷ ("DCGM_FI_DEV_NVSWITCH_LATENCY_MED_P17", 769)
    ∷ ("DCGM_FI_DEV_NVSWITCH_LATENCY_HIGH_P17", 770)
    ∷ ("DCGM_FI_DEV_NVSWITCH_LATENCY_MAX_P17", 771)
    ∷ ("DCGM_FI_DEV_NVSWITCH_BANDWIDTH_TX_0_P00", 780)
    ∷ ("DCGM_FI_DEV_NVSWITCH_BANDWIDTH_RX_0_P00", 781)
    ∷ ("DCGM_FI_DEV_NVSWITCH_BANDWIDTH_TX_0_P01", 782)
    ∷ ("DCGM_FI_DEV_NVSWITCH_BANDWIDTH_RX_0_P01", 783)
    ∷ ("DCGM_FI_DEV_NVSWITCH_BANDWIDTH_TX_0_P02", 784)
    ∷ ("DCGM_FI_DEV_NVSWITCH_BANDWIDTH_RX_0_P02", 785)
    ∷ ("DCGM_FI_DEV_NVSWITCH_BANDWIDTH_TX_0_P03", 786)
    ∷ ("DCGM_FI_DEV_NVSWITCH_BANDWIDTH_RX_0_P03", 787)
    ∷ ("DCGM_FI_DEV_NVSWITCH_BANDWIDTH_TX_0_P04", 788)
    ∷ ("DCGM_FI_DEV_NVSWITCH_BANDWIDTH_RX_0_P04", 789)
    ∷ ("DCGM_FI_DEV_NVSWITCH_BANDWIDTH_TX_0_P05", 790)
    ∷ ("DCGM_FI_DEV_NVSWITCH_BANDWIDTH_RX_0_P05", 791)
    ∷ ("DCGM_FI_DEV_NVSWITCH_BANDWIDTH_TX_0_P06", 792)
    ∷ ("DCGM_FI_DEV_NVSWITCH_BANDWIDTH_RX_0_P06", 793)
    ∷ ("DCGM_FI_DEV_NVSWITCH_BANDWIDTH_TX_0_P07", 794)
    ∷ ("DCGM_FI_DEV_NVSWITCH_BANDWIDTH_RX_0_P07", 795)
    ∷ ("DCGM_FI_DEV_NVSWITCH_BANDWIDTH_TX_0_P08", 796)
    ∷ ("DCGM_FI_DEV_NVSWITCH_BANDWIDTH_RX_0_P08", 797)
    ∷ ("DCGM_FI_DEV_NVSWITCH_BANDWIDTH_TX_0_P09", 798)
    ∷ ("DCGM_FI_DEV_NVSWITCH_BANDWIDTH_RX_0_P09", 799)
    ∷ ("DCGM_FI_DEV_NVSWITCH_BANDWIDTH_TX_0_P10", 800)
    ∷ ("DCGM_FI_DEV_NVSWITCH_BANDWIDTH_RX_0_P10", 801)
    ∷ ("DCGM_FI_DEV_NVSWITCH_BANDWIDTH_TX_0_P11", 802)
    ∷ ("DCGM_FI_DEV_NVSWITCH_BANDWIDTH_RX_0_P11", 803)
    ∷ ("DCGM_FI_DEV_NVSWITCH_BANDWIDTH_TX_0_P12", 804)
    ∷ ("DCGM_FI_DEV_NVSWITCH_BANDWIDTH_RX_0_P12", 805)
    ∷ ("DCGM_FI_DEV_NVSWITCH_BANDWIDTH_TX_0_P13", 806)
    ∷ ("DCGM_FI_DEV_NVSWITCH_BANDWIDTH_RX_0_P13", 807)
    ∷ ("DCGM_FI_DEV_NVSWITCH_BANDWIDTH_TX_0_P14", 808)
    ∷ ("DCGM_FI_DEV_NVSWITCH_BANDWIDTH_RX_0_P14", 809)
    ∷ ("DCGM_FI_DEV_NVSWITCH_BANDWIDTH_TX_0_P15", 810)
    ∷ ("DCGM_FI_DEV_NVSWITCH_BANDWIDTH_RX_0_P15", 811)
    ∷ ("DCGM_FI_DEV_NVSWITCH_BANDWIDTH_TX_0_P16", 812)
    ∷ ("DCGM_FI_DEV_NVSWITCH_BANDWIDTH_RX_0_P16", 813)
    ∷ ("DCGM_FI_DEV_NVSWITCH_BANDWIDTH_TX_0_P17", 814)
    ∷ ("DCGM_FI_DEV_NVSWITCH_BANDWIDTH_RX_0_P17", 815)
    ∷ ("DCGM_FI_DEV_NVSWITCH_BANDWIDTH_TX_1_P00", 820)
    ∷ ("DCGM_FI_DEV_NVSWITCH_BANDWIDTH_RX_1_P00", 821)
    ∷ ("DCGM_FI_DEV_NVSWITCH_BANDWIDTH_TX_1_P01", 822)
    ∷ ("DCGM_FI_DEV_NVSWITCH_BANDWIDTH_RX_1_P01", 823)
    ∷ ("DCGM_FI_DEV_NVSWITCH_BANDWIDTH_TX_1_P02", 824)
    ∷ ("DCGM_FI_DEV_NVSWITCH_BANDWIDTH_RX_1_P02", 825)
    ∷ ("DCGM_FI_DEV_NVSWITCH_BANDWIDTH_TX_1_P03", 826)
    ∷ ("DCGM_FI_DEV_NVSWITCH_BANDWIDTH_RX_1_P03", 827)
    ∷ ("DCGM_FI_DEV_NVSWITCH_BANDWIDTH_TX_1_P04", 828)
    ∷ ("DCGM_FI_DEV_NVSWITCH_BANDWIDTH_RX_1_P04", 829)
    ∷ ("DCGM_FI_DEV_NVSWITCH_BANDWIDTH_TX_1_P05", 830)
    ∷ ("DCGM_FI_DEV_NVSWITCH_BANDWIDTH_RX_1_P05", 831)
    ∷ ("DCGM_FI_DEV_NVSWITCH_BANDWIDTH_TX_1_P06", 832)
    ∷ ("DCGM_FI_DEV_NVSWITCH_BANDWIDTH_RX_1_P06", 833)
    ∷ ("DCGM_FI_DEV_NVSWITCH_BANDWIDTH_TX_1_P07", 834)
    ∷ ("DCGM_FI_DEV_NVSWITCH_BANDWIDTH_RX_1_P07", 835)
    ∷ ("DCGM_FI_DEV_NVSWITCH_BANDWIDTH_TX_1_P08", 836)
    ∷ ("DCGM_FI_DEV_NVSWITCH_BANDWIDTH_RX_1_P08", 837)
    ∷ ("DCGM_FI_DEV_NVSWITCH_BANDWIDTH_TX_1_P09", 838)
    ∷ ("DCGM_FI_DEV_NVSWITCH_BANDWIDTH_RX_1_P09", 839)
    ∷ ("DCGM_FI_DEV_NVSWITCH_BANDWIDTH_TX_1_P10", 840)
    ∷ ("DCGM_FI_DEV_NVSWITCH_BANDWIDTH_RX_1_P10", 841)
    ∷ ("DCGM_FI_DEV_NVSWITCH_BANDWIDTH_TX_1_P11", 842)
    ∷ ("DCGM_FI_DEV_NVSWITCH_BANDWIDTH_RX_1_P11", 843)
    ∷ ("DCGM_FI_DEV_NVSWITCH_BANDWIDTH_TX_1_P12", 844)
    ∷ ("DCGM_FI_DEV_NVSWITCH_BANDWIDTH_RX_1_P12", 845)
    ∷ ("DCGM_FI_DEV_NVSWITCH_BANDWIDTH_TX_1_P13", 846)
    ∷ ("DCGM_FI_DEV_NVSWITCH_BANDWIDTH_RX_1_P13", 847)
    ∷ ("DCGM_FI_DEV_NVSWITCH_BANDWIDTH_TX_1_P14", 848)
    ∷ ("DCGM_FI_DEV_NVSWITCH_BANDWIDTH_RX_1_P14", 849)
    ∷ ("DCGM_FI_DEV_NVSWITCH_BANDWIDTH_TX_1_P15", 850)
    ∷ ("DCGM_FI_DEV_NVSWITCH_BANDWIDTH_RX_1_P15", 851)
    ∷ ("DCGM_FI_DEV_NVSWITCH_BANDWIDTH_TX_1_P16", 852)
    ∷ ("DCGM_FI_DEV_NVSWITCH_BANDWIDTH_RX_1_P16", 853)
    ∷ ("DCGM_FI_DEV_NVSWITCH_BANDWIDTH_TX_1_P17", 854)
    ∷ ("DCGM_FI_DEV_NVSWITCH_BANDWIDTH_RX_1_P17", 855)
    ∷ ("DCGM_FI_DEV_NVSWITCH_FATAL_ERRORS", 856)
    ∷ ("DCGM_FI_DEV_NVSWITCH_NON_FATAL_ERRORS", 857)
    ∷ ("DCGM_FI_FIRST_NVSWITCH_FIELD_ID", 700)
    ∷ ("DCGM_FI_LAST_NVSWITCH_FIELD_ID", 860)
    ∷ ("DCGM_FI_PROF_GR_ENGINE_ACTIVE", 1001)
    ∷ ("DCGM_FI_PROF_SM_ACTIVE", 1002)
    ∷ ("DCGM_FI_PROF_SM_OCCUPANCY", 1003)
    ∷ ("DCGM_FI_PROF_PIPE_TENSOR_ACTIVE", 1004)
    ∷ ("DCGM_FI_PROF_DRAM_ACTIVE", 1005)
    ∷ ("DCGM_FI_PROF_PIPE_FP64_ACTIVE", 1006)
    ∷ ("DCGM_FI_PROF_PIPE_FP32_ACTIVE", 1007)
    ∷ ("DCGM_FI_PROF_PIPE_FP16_ACTIVE", 1008)
    ∷ ("DCGM_FI_PROF_PCIE_TX_BYTES", 1009)
    ∷ ("DCGM_FI_PROF_PCIE_RX_BYTES", 1010)
    ∷ ("DCGM_FI_PROF_NVLINK_TX_BYTES", 1011)
    ∷ ("DCGM_FI_PROF_NVLINK_RX_BYTES", 1012)
    ∷ ("DCGM_FI_MAX_FIELDS", 1013)
    ∷ []
