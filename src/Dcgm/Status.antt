-- ===== src/Dcgm/Status.antt =====
-- What `latestValuesForDevice` of pkg/dcgm/device_status.go and `getPciBandwidth` of
-- pkg/dcgm/device_info.go make of the values of their fields. A float64 is a parameter, with the bits
-- that it is read from.
use gpu_metric_collector.Base.{ℕ, List, [], ◌∷◌, Outcome, ok, ◌>>=◌, index, ◌==◌, if◌then◌else◌}
use gpu_metric_collector.Base.Int.{ℤ, pos, negsuc, ◌*ℤ◌}
use gpu_metric_collector.Server.{to_unsigned}
use gpu_metric_collector.Dcgm.Values.{FieldValueV1, int64, signed64}
pub mod Named

pub record UtilizationInfo : Type 0 where
  pub gpu : ℤ
  pub memory : ℤ
  pub encoder : ℤ
  pub decoder : ℤ

pub record EccErrorsInfo : Type 0 where
  pub single_bit : ℤ
  pub double_bit : ℤ

pub record MemoryInfo : Type 0 where
  pub global_used : ℤ
  pub ecc_errors : EccErrorsInfo

pub record ClockInfo : Type 0 where
  pub cores : ℤ
  pub memory : ℤ

pub record PciThroughputInfo : Type 0 where
  pub rx : ℤ
  pub tx : ℤ
  pub replays : ℤ

pub record PciStatusInfo : Type 0 where
  pub bar1_used : ℤ
  pub throughput : PciThroughputInfo
  pub fb_used : ℤ

-- The fields that are asked for, in the order of their indices.
abbrev pub device_fields : List ℕ
device_fields =
    155 ∷ 150 ∷ 203 ∷ 204 ∷ 206 ∷ 207 ∷ 100 ∷ 101 ∷ 92 ∷ 201 ∷ 200 ∷ 202 ∷ 252 ∷ 312 ∷ 313 ∷ 190
    ∷ 191 ∷ []

abbrev pub pci_fields : List ℕ
pci_fields = 235 ∷ 236 ∷ []

-- The bandwidth of a lane in MB/s; a generation that the map does not have is read as 0.
unfoldable pub gen_map : ℤ → ℤ
gen_map (pos n) = pos (
    if n == 1
    then 250
    else if n == 2
    then 500
    else if n == 3
    then 985
    else if n == 4
    then 1969
    else 0)
gen_map (negsuc n) = pos 0

-- `a * b` on int64.
unfoldable pub times64 : ℤ → ℤ → ℤ
times64 a b = signed64 (to_unsigned 64 (a *ℤ b))

module _ (Float : Type 0) (float64_of : List ℕ → Float) where
  pub record DeviceStatus : Type 0 where
    pub power : Float
    pub temperature : ℤ
    pub utilization : UtilizationInfo
    pub memory : MemoryInfo
    pub clocks : ClockInfo
    pub pci : PciStatusInfo
    pub performance : ℕ
    pub fan_speed : ℤ

  unfoldable pub device_status : List FieldValueV1 → Outcome DeviceStatus
  device_status values = do
    pwr ← index values 0
    temp ← index values 1
    sm ← index values 2
    mem ← index values 3
    enc ← index values 4
    dec ← index values 5
    sm_clock ← index values 6
    mem_clock ← index values 7
    bar1 ← index values 8
    pcie_rx ← index values 9
    pcie_tx ← index values 10
    pcie_replay ← index values 11
    fb ← index values 12
    sbe ← index values 13
    dbe ← index values 14
    pstate ← index values 15
    fan ← index values 16
    ok (record {
      power = float64_of pwr.value;
      temperature = int64 temp.value;
      utilization = record {
        gpu = int64 sm.value;
        memory = int64 mem.value;
        encoder = int64 enc.value;
        decoder = int64 dec.value;
      };
      memory = record {
        global_used = pos 0;
        ecc_errors = record { single_bit = int64 sbe.value; double_bit = int64 dbe.value };
      };
      clocks = record { cores = int64 sm_clock.value; memory = int64 mem_clock.value };
      pci = record {
        bar1_used = int64 bar1.value;
        throughput = record {
          rx = int64 pcie_rx.value;
          tx = int64 pcie_tx.value;
          replays = int64 pcie_replay.value;
        };
        fb_used = int64 fb.value;
      };
      performance = to_unsigned 64 (int64 pstate.value);
      fan_speed = int64 fan.value;
    })

unfoldable pub pci_bandwidth : List FieldValueV1 → Outcome ℤ
unfolding gen_map times64
pci_bandwidth values = do
  gen ← index values 0
  width ← index values 1
  ok (times64 (gen_map (int64 gen.value)) (int64 width.value))
