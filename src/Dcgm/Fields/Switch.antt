-- ===== src/Dcgm/Fields/Switch.antt =====
-- internal/include/dcgm_fields.h: the latency histograms and the traffic of the switch ports.
use gpu_metric_collector.Base.{ℕ, String, List, [], ◌∷◌}

-- Lines 1394 to 1543.
abbrev pub latency_fields_2 : List (String × ℕ)
latency_fields_2 =
    ("DCGM_FI_DEV_NVSWITCH_LATENCY_MAX_P02", 711)
    ∷ ("DCGM_FI_DEV_NVSWITCH_LATENCY_LOW_P03", 712)
    ∷ ("DCGM_FI_DEV_NVSWITCH_LATENCY_MED_P03", 713)
    ∷ ("DCGM_FI_DEV_NVSWITCH_LATENCY_HIGH_P03", 714)
    ∷ ("DCGM_FI_DEV_NVSWITCH_LATENCY_MAX_P03", 715)
    ∷ ("DCGM_FI_DEV_NVSWITCH_LATENCY_LOW_P04", 716)
    ∷ ("DCGM_FI_DEV_NVSWITCH_LATENCY_MED_P04", 717)
    ∷ ("DCGM_FI_DEV_NVSWITCH_LATENCY_HIGH_P04", 718)
    ∷ ("DCGM_FI_DEV_NVSWITCH_LATENCY_MAX_P04", 719)
    ∷ ("DCGM_FI_DEV_NVSWITCH_LATENCY_LOW_P05", 720)
    ∷ ("DCGM_FI_DEV_NVSWITCH_LATENCY_MED_P05", 721)
    ∷ ("DCGM_FI_DEV_NVSWITCH_LATENCY_HIGH_P05", 722)
    ∷ ("DCGM_FI_DEV_NVSWITCH_LATENCY_MAX_P05", 723)
    ∷ ("DCGM_FI_DEV_NVSWITCH_LATENCY_LOW_P06", 724)
    ∷ ("DCGM_FI_DEV_NVSWITCH_LATENCY_MED_P06", 725)
    ∷ ("DCGM_FI_DEV_NVSWITCH_LATENCY_HIGH_P06", 726)
    ∷ ("DCGM_FI_DEV_NVSWITCH_LATENCY_MAX_P06", 727)
    ∷ ("DCGM_FI_DEV_NVSWITCH_LATENCY_LOW_P07", 728)
    ∷ ("DCGM_FI_DEV_NVSWITCH_LATENCY_MED_P07", 729)
    ∷ ("DCGM_FI_DEV_NVSWITCH_LATENCY_HIGH_P07", 730)
    ∷ ("DCGM_FI_DEV_NVSWITCH_LATENCY_MAX_P07", 731)
    ∷ ("DCGM_FI_DEV_NVSWITCH_LATENCY_LOW_P08", 732)
    ∷ ("DCGM_FI_DEV_NVSWITCH_LATENCY_MED_P08", 733)
    ∷ ("DCGM_FI_DEV_NVSWITCH_LATENCY_HIGH_P08", 734)
    ∷ ("DCGM_FI_DEV_NVSWITCH_LATENCY_MAX_P08", 735)
    ∷ ("DCGM_FI_DEV_NVSWITCH_LATENCY_LOW_P09", 736)
    ∷ ("DCGM_FI_DEV_NVSWITCH_LATENCY_MED_P09", 737)
    ∷ ("DCGM_FI_DEV_NVSWITCH_LATENCY_HIGH_P09", 738)
    ∷ ("DCGM_FI_DEV_NVSWITCH_LATENCY_MAX_P09", 739)
    ∷ ("DCGM_FI_DEV_NVSWITCH_LATENCY_LOW_P10", 740)
    ∷ []

-- Lines 1544 to 1693.
abbrev pub latency_fields_10 : List (String × ℕ)
latency_fields_10 =
    ("DCGM_FI_DEV_NVSWITCH_LATENCY_MED_P10", 741)
    ∷ ("DCGM_FI_DEV_NVSWITCH_LATENCY_HIGH_P10", 742)
    ∷ ("DCGM_FI_DEV_NVSWITCH_LATENCY_MAX_P10", 743)
    ∷ ("DCGM_FI_DEV_NVSWITCH_LATENCY_LOW_P11", 744)
    ∷ ("DCGM_FI_DEV_NVSWITCH_LATENCY_MED_P11", 745)
    ∷ ("DCGM_FI_DEV_NVSWITCH_LATENCY_HIGH_P11", 746)
    ∷ ("DCGM_FI_DEV_NVSWITCH_LATENCY_MAX_P11", 747)
    ∷ ("DCGM_FI_DEV_NVSWITCH_LATENCY_LOW_P12", 748)
    ∷ ("DCGM_FI_DEV_NVSWITCH_LATENCY_MED_P12", 749)
    ∷ ("DCGM_FI_DEV_NVSWITCH_LATENCY_HIGH_P12", 750)
    ∷ ("DCGM_FI_DEV_NVSWITCH_LATENCY_MAX_P12", 751)
    ∷ ("DCGM_FI_DEV_NVSWITCH_LATENCY_LOW_P13", 752)
    ∷ ("DCGM_FI_DEV_NVSWITCH_LATENCY_MED_P13", 753)
    ∷ ("DCGM_FI_DEV_NVSWITCH_LATENCY_HIGH_P13", 754)
    ∷ ("DCGM_FI_DEV_NVSWITCH_LATENCY_MAX_P13", 755)
    ∷ ("DCGM_FI_DEV_NVSWITCH_LATENCY_LOW_P14", 756)
    ∷ ("DCGM_FI_DEV_NVSWITCH_LATENCY_MED_P14", 757)
    ∷ ("DCGM_FI_DEV_NVSWITCH_LATENCY_HIGH_P14", 758)
    ∷ ("DCGM_FI_DEV_NVSWITCH_LATENCY_MAX_P14", 759)
    ∷ ("DCGM_FI_DEV_NVSWITCH_LATENCY_LOW_P15", 760)
    ∷ ("DCGM_FI_DEV_NVSWITCH_LATENCY_MED_P15", 761)
    ∷ ("DCGM_FI_DEV_NVSWITCH_LATENCY_HIGH_P15", 762)
    ∷ ("DCGM_FI_DEV_NVSWITCH_LATENCY_MAX_P15", 763)
    ∷ ("DCGM_FI_DEV_NVSWITCH_LATENCY_LOW_P16", 764)
    ∷ ("DCGM_FI_DEV_NVSWITCH_LATENCY_MED_P16", 765)
    ∷ ("DCGM_FI_DEV_NVSWITCH_LATENCY_HIGH_P16", 766)
    ∷ ("DCGM_FI_DEV_NVSWITCH_LATENCY_MAX_P16", 767)
    ∷ ("DCGM_FI_DEV_NVSWITCH_LATENCY_LOW_P17", 768)
    ∷ ("DCGM_FI_DEV_NVSWITCH_LATENCY_MED_P17", 769)
    ∷ ("DCGM_FI_DEV_NVSWITCH_LATENCY_HIGH_P17", 770)
    ∷ []

-- Lines 1694 to 1843.
abbrev pub port_fields_17 : List (String × ℕ)
port_fields_17 =
    ("DCGM_FI_DEV_NVSWITCH_LATENCY_MAX_P17", 771)
    ∷ ("DCGM_FI_DEV_NVSWITCH_BANDWIDTH_TX_0_P00", 780)
    ∷ ("DCGM_FI_DEV_NVSWITCH_BANDWIDTH_RX_0_P00", 781)
    ∷ ("DCGM_FI_DEV_NVSWITCH_BANDWIDTH_TX_0_P01", 782)
    ∷ ("DCGM_FI_DEV_NVSWITCH_BANDWIDTH_RX_0_P01", 783)
    ∷ ("DCGM_FI_DEV_NVSWITCH_BANDWIDTH_TX_0_P02", 784)
    ∷ ("DCGM_FI_DEV_NVSWITCH_BANDWIDTH_RX_0_P02", 785)
    ∷ ("DCGM_FI_DEV_NVSWITCH_BANDWIDTH_TX_0_P03", 786)
    ∷ ("DCGM_FI_DEV_NVSWITCH_BANDWIDTH_RX_0_P03", 787)
    ∷ ("DCGM_FI_DEV_NVSWITCH_BANDWIDTH_TX_0_P04", 788)
    ∷ ("DCGM_FI_DEV_NVSWITCH_BANDWIDTH_RX_0_P04", 789)
    ∷ ("DCGM_FI_DEV_NVSWITCH_BANDWIDTH_TX_0_P05", 790)
    ∷ ("DCGM_FI_DEV_NVSWITCH_BANDWIDTH_RX_0_P05", 791)
    ∷ ("DCGM_FI_DEV_NVSWITCH_BANDWIDTH_TX_0_P06", 792)
    ∷ ("DCGM_FI_DEV_NVSWITCH_BANDWIDTH_RX_0_P06", 793)
    ∷ ("DCGM_FI_DEV_NVSWITCH_BANDWIDTH_TX_0_P07", 794)
    ∷ ("DCGM_FI_DEV_NVSWITCH_BANDWIDTH_RX_0_P07", 795)
    ∷ ("DCGM_FI_DEV_NVSWITCH_BANDWIDTH_TX_0_P08", 796)
    ∷ ("DCGM_FI_DEV_NVSWITCH_BANDWIDTH_RX_0_P08", 797)
    ∷ ("DCGM_FI_DEV_NVSWITCH_BANDWIDTH_TX_0_P09", 798)
    ∷ ("DCGM_FI_DEV_NVSWITCH_BANDWIDTH_RX_0_P09", 799)
    ∷ ("DCGM_FI_DEV_NVSWITCH_BANDWIDTH_TX_0_P10", 800)
    ∷ ("DCGM_FI_DEV_NVSWITCH_BANDWIDTH_RX_0_P10", 801)
    ∷ ("DCGM_FI_DEV_NVSWITCH_BANDWIDTH_TX_0_P11", 802)
    ∷ ("DCGM_FI_DEV_NVSWITCH_BANDWIDTH_RX_0_P11", 803)
    ∷ ("DCGM_FI_DEV_NVSWITCH_BANDWIDTH_TX_0_P12", 804)
    ∷ ("DCGM_FI_DEV_NVSWITCH_BANDWIDTH_RX_0_P12", 805)
    ∷ ("DCGM_FI_DEV_NVSWITCH_BANDWIDTH_TX_0_P13", 806)
    ∷ ("DCGM_FI_DEV_NVSWITCH_BANDWIDTH_RX_0_P13", 807)
    ∷ ("DCGM_FI_DEV_NVSWITCH_BANDWIDTH_TX_0_P14", 808)
    ∷ ("DCGM_FI_DEV_NVSWITCH_BANDWIDTH_RX_0_P14", 809)
    ∷ ("DCGM_FI_DEV_NVSWITCH_BANDWIDTH_TX_0_P15", 810)
    ∷ ("DCGM_FI_DEV_NVSWITCH_BANDWIDTH_RX_0_P15", 811)
    ∷ []
