-- ===== src/Dcgm/Status/Named.antt =====
-- The status of a device and its bandwidth, by the names of the header's fields.
use gpu_metric_collector.Base.{ℕ, String, List, map, ◌≡◌, refl, ok}
use gpu_metric_collector.Base.Int.{ℤ, pos}
use gpu_metric_collector.Server.{to_unsigned}
use gpu_metric_collector.Dcgm.Fields.{header_fields, map_read}
use gpu_metric_collector.Dcgm.Values.{FieldValueV1, int64}
use gpu_metric_collector.Dcgm.Status.{
  DeviceStatus, device_fields, device_status, pci_fields, pci_bandwidth, gen_map, times64,
}

-- The value of the header's field of a name.
abbrev pub value_of : (ℕ → FieldValueV1) → String → List ℕ
value_of held name = (held (map_read name header_fields)).value

module _ (Float : Type 0) (float64_of : List ℕ → Float) where
  -- Each member is the reading of the field that it is named for.
  unfoldable pub status_of : (String → List ℕ) → DeviceStatus Float float64_of
  status_of value = record {
    power = float64_of (value "DCGM_FI_DEV_POWER_USAGE");
    temperature = int64 (value "DCGM_FI_DEV_GPU_TEMP");
    utilization = record {
      gpu = int64 (value "DCGM_FI_DEV_GPU_UTIL");
      memory = int64 (value "DCGM_FI_DEV_MEM_COPY_UTIL");
      encoder = int64 (value "DCGM_FI_DEV_ENC_UTIL");
      decoder = int64 (value "DCGM_FI_DEV_DEC_UTIL");
    };
    memory = record {
      global_used = pos 0;
      ecc_errors = record {
        single_bit = int64 (value "DCGM_FI_DEV_ECC_SBE_AGG_TOTAL");
        double_bit = int64 (value "DCGM_FI_DEV_ECC_DBE_AGG_TOTAL");
      };
    };
    clocks = record {
      cores = int64 (value "DCGM_FI_DEV_SM_CLOCK");
      memory = int64 (value "DCGM_FI_DEV_MEM_CLOCK");
    };
    pci = record {
      bar1_used = int64 (value "DCGM_FI_DEV_BAR1_USED");
      throughput = record {
        rx = int64 (value "DCGM_FI_DEV_PCIE_RX_THROUGHPUT");
        tx = int64 (value "DCGM_FI_DEV_PCIE_TX_THROUGHPUT");
        replays = int64 (value "DCGM_FI_DEV_PCIE_REPLAY_COUNTER");
      };
      fb_used = int64 (value "DCGM_FI_DEV_FB_USED");
    };
    performance = to_unsigned 64 (int64 (value "DCGM_FI_DEV_PSTATE"));
    fan_speed = int64 (value "DCGM_FI_DEV_FAN_SPEED");
  }

  pub device_status-status_of :
      (held : ℕ → FieldValueV1)
      → device_status Float float64_of (map held device_fields) ≡ ok (status_of (value_of held))
  unfolding device_status status_of map_read
  device_status-status_of held = refl

-- The bandwidth of the widest and fastest link of the device.
unfoldable pub bandwidth_of : (String → List ℕ) → ℤ
bandwidth_of value =
    times64 (gen_map (int64 (value "DCGM_FI_DEV_PCIE_MAX_LINK_GEN")))
      (int64 (value "DCGM_FI_DEV_PCIE_MAX_LINK_WIDTH"))

pub pci_bandwidth-bandwidth_of :
    (held : ℕ → FieldValueV1)
    → pci_bandwidth (map held pci_fields) ≡ ok (bandwidth_of (value_of held))
unfolding pci_bandwidth bandwidth_of map_read
pci_bandwidth-bandwidth_of held = refl
