-- ===== src/Dcgm/Queries/Processes.antt =====
-- `getProcessInfo` of pkg/dcgm/process_info.go: the statistics of a process on each of its GPUs. Floats
-- are a parameter with `round`, which is math.Round, and the file of the process's name is what the
-- kernel says.
use gpu_metric_collector.Base.{
  ℕ, ◌/◌, ◌≤◌, ◌≡◌, refl, ap, Bool, true, false, Option, none, some, List, [], ◌∷◌, map, Outcome,
  ok, panic, length_out_of_range, ◌>>=◌, length, take, collect, collect-take, collect_each,
  collect_each-take, All, if◌then◌else◌, arith,
}
use gpu_metric_collector.Base.Int.{ℤ, pos, negsuc, pos_part}
use gpu_metric_collector.Base.Text.{Text}
use gpu_metric_collector.Dcgm.Returns.{DcgmReturn, error_string}
use gpu_metric_collector.Dcgm.Queries.Readings.{is_int64_blank, to_uint64, CommFile, process_name}

module _ (Float : Type 0) (round : Float → Float) where
  -- The members of dcgmPidSingleInfo_t that are read.
  pub record CpidSingleInfo : Type 0 where
    pub gpu_id : ℕ
    pub energy_consumed : ℤ
    pub pcie_rx_average : ℤ
    pub pcie_tx_average : ℤ
    pub pcie_replays : ℤ
    pub start_time : ℤ
    pub end_time : ℤ
    pub sm_util : Float
    pub mem_util : Float
    pub sm_utilization_average : ℤ
    pub memory_utilization_average : ℤ
    pub ecc_single_bit : ℕ
    pub ecc_double_bit : ℕ
    pub memory_clock_average : ℤ
    pub sm_clock_average : ℤ
    pub num_xid_critical_errors : ℤ
    pub xid_critical_errors_ts : List ℤ
    pub max_gpu_memory_used : ℤ
    pub power_violation_time : ℤ
    pub thermal_violation_time : ℤ
    pub reliability_violation_time : ℤ
    pub board_limit_violation_time : ℤ
    pub low_utilization_time : ℤ
    pub sync_boost_time : ℤ

  -- dcgmPidInfo_v2.
  pub record CpidInfo : Type 0 where
    pub pid : ℕ
    pub num_gpus : ℤ
    pub summary : CpidSingleInfo
    pub gpus : List CpidSingleInfo

  -- ProcessUtilInfo; the times are in seconds.
  pub record ProcessUtilInfo : Type 0 where
    pub start_time : ℕ
    pub end_time : ℕ
    pub energy_consumed : ℕ
    pub sm_util : Float
    pub mem_util : Float

  pub record ViolationTime : Type 0 where
    pub power : ℕ
    pub thermal : ℕ
    pub reliability : ℕ
    pub board_limit : ℕ
    pub low_utilization : ℕ
    pub sync_boost : ℕ

  -- ProcessInfo with the fields that are filled in of its PCIStatusInfo, MemoryInfo, UtilizationInfo,
  -- ClockInfo and XIDErrorInfo.
  pub record GpuProcessInfo : Type 0 where
    pub gpu : ℕ
    pub pid : ℕ
    pub name : Text
    pub process_utilization : ProcessUtilInfo
    pub rx : ℤ
    pub tx : ℤ
    pub replays : ℤ
    pub global_used : ℤ
    pub single_bit : ℤ
    pub double_bit : ℤ
    pub gpu_utilization : ℤ
    pub memory_utilization : ℤ
    pub cores : ℤ
    pub memory_clock : ℤ
    pub violations : ViolationTime
    pub num_errors : ℤ
    pub timestamps : List ℕ

  -- Joules; a blank reading counts as 0.
  unfoldable pub energy_of : ℤ → ℕ
  unfolding is_int64_blank
  energy_of e = if is_int64_blank e then 0 else to_uint64 e / 1000

  unfoldable pub process_util : CpidSingleInfo → ProcessUtilInfo
  process_util g = record {
    start_time = to_uint64 g.start_time / 1000000;
    end_time = to_uint64 g.end_time / 1000000;
    energy_consumed = energy_of g.energy_consumed;
    sm_util = round g.sm_util;
    mem_util = round g.mem_util;
  }

  unfoldable pub violations_of : CpidSingleInfo → ViolationTime
  violations_of g = record {
    power = to_uint64 g.power_violation_time;
    thermal = to_uint64 g.thermal_violation_time;
    reliability = to_uint64 g.reliability_violation_time;
    board_limit = to_uint64 g.board_limit_violation_time;
    low_utilization = to_uint64 g.low_utilization_time;
    sync_boost = to_uint64 g.sync_boost_time;
  }

  -- `make([]uint64, numErrs)` and the loop that fills it.
  unfoldable pub xid_timestamps : ℤ → List ℤ → Outcome (List ℕ)
  xid_timestamps (pos n) ts = collect to_uint64 ts 0 n
  xid_timestamps (negsuc n) ts = panic length_out_of_range

  unfoldable pub process_info_with : CpidInfo → Text → CpidSingleInfo → List ℕ → GpuProcessInfo
  process_info_with c name g timestamps = record {
    gpu = c.summary.gpu_id;
    pid = c.pid;
    name = name;
    process_utilization = process_util g;
    rx = g.pcie_rx_average;
    tx = g.pcie_tx_average;
    replays = g.pcie_replays;
    global_used = g.max_gpu_memory_used;
    single_bit = pos g.ecc_single_bit;
    double_bit = pos g.ecc_double_bit;
    gpu_utilization = g.sm_utilization_average;
    memory_utilization = g.memory_utilization_average;
    cores = g.sm_clock_average;
    memory_clock = g.memory_clock_average;
    violations = violations_of g;
    num_errors = g.num_xid_critical_errors;
    timestamps = timestamps;
  }

  -- The body of the loop over the GPUs.
  unfoldable pub process_info : CpidInfo → Text → CpidSingleInfo → Outcome GpuProcessInfo
  process_info c name g = do
    timestamps ← xid_timestamps g.num_xid_critical_errors g.xid_critical_errors_ts
    ok (process_info_with c name g timestamps)

  -- What a call returns, and whether it has destroyed the group.
  pub data ProcessAnswer : Type 0 where
    no_info : DcgmReturn → ProcessAnswer
    no_name : ProcessAnswer
    infos : List GpuProcessInfo → ProcessAnswer

  abbrev pub named_infos : CpidInfo → Option Text → Outcome (ProcessAnswer × Bool)
  named_infos c none = ok (no_name, false)
  named_infos c (some name) = do
    found ← collect_each (process_info c name) c.gpus 0 (pos_part c.num_gpus)
    ok (infos found, true)

  abbrev pub infos_of : Option DcgmReturn → CpidInfo → Option Text → Outcome (ProcessAnswer × Bool)
  infos_of (some err) c name = ok (no_info err, false)
  infos_of none c name = named_infos c name

  -- `result` and `c` are what dcgmGetPidInfo answers, `comm` the file that `processName` reads.
  unfoldable pub get_process_info :
      DcgmReturn → CpidInfo → CommFile → Outcome (ProcessAnswer × Bool)
  get_process_info result c comm = infos_of (error_string result) c (process_name comm)

  -- The valid entries of a GPU's timestamps are in their array.
  pub record IsReadable (g : CpidSingleInfo) : Type 0 where
    pub count : ℕ
    pub counted : g.num_xid_critical_errors ≡ pos count
    pub fits : count ≤ length g.xid_critical_errors_ts

  -- The copy of one GPU's statistics.
  abbrev pub copy_of : CpidInfo → Text → CpidSingleInfo → GpuProcessInfo
  copy_of c name g =
      process_info_with c name g
        (map to_uint64 (take (pos_part g.num_xid_critical_errors) g.xid_critical_errors_ts))

  -- Joules of a reading in thousandths, 0 of a blank one.
  abbrev EnergyIs : ℤ → ℕ → Type 0
  EnergyIs e joules =
      (is_int64_blank e ≡ true → joules ≡ 0)
      × (is_int64_blank e ≡ false → joules ≡ to_uint64 e / 1000)

  -- Where each field comes from: the GPU id from the summary, and the statistics from the GPU.
  pub record IsCopy (c : CpidInfo) (name : Text) (g : CpidSingleInfo) (info : GpuProcessInfo)
      : Type 0 where
    pub gpu : info.gpu ≡ c.summary.gpu_id
    pub pid : info.pid ≡ c.pid
    pub name_of : info.name ≡ name
    pub start_time : info.process_utilization.start_time ≡ to_uint64 g.start_time / 1000000
    pub end_time : info.process_utilization.end_time ≡ to_uint64 g.end_time / 1000000
    pub energy : EnergyIs g.energy_consumed info.process_utilization.energy_consumed
    pub sm_util : info.process_utilization.sm_util ≡ round g.sm_util
    pub mem_util : info.process_utilization.mem_util ≡ round g.mem_util
    pub rx : info.rx ≡ g.pcie_rx_average
    pub tx : info.tx ≡ g.pcie_tx_average
    pub replays : info.replays ≡ g.pcie_replays
    pub global_used : info.global_used ≡ g.max_gpu_memory_used
    pub single_bit : info.single_bit ≡ pos g.ecc_single_bit
    pub double_bit : info.double_bit ≡ pos g.ecc_double_bit
    pub gpu_utilization : info.gpu_utilization ≡ g.sm_utilization_average
    pub memory_utilization : info.memory_utilization ≡ g.memory_utilization_average
    pub cores : info.cores ≡ g.sm_clock_average
    pub memory_clock : info.memory_clock ≡ g.memory_clock_average
    pub power : info.violations.power ≡ to_uint64 g.power_violation_time
    pub thermal : info.violations.thermal ≡ to_uint64 g.thermal_violation_time
    pub reliability : info.violations.reliability ≡ to_uint64 g.reliability_violation_time
    pub board_limit : info.violations.board_limit ≡ to_uint64 g.board_limit_violation_time
    pub low_utilization : info.violations.low_utilization ≡ to_uint64 g.low_utilization_time
    pub sync_boost : info.violations.sync_boost ≡ to_uint64 g.sync_boost_time
    pub num_errors : info.num_errors ≡ g.num_xid_critical_errors
    pub timestamps :
        info.timestamps
        ≡ map to_uint64 (take (pos_part g.num_xid_critical_errors) g.xid_critical_errors_ts)

  energy_of-EnergyIs : (e : ℤ) → EnergyIs e (energy_of e)
  unfolding energy_of
  energy_of-EnergyIs e = (λ blank. rw blank refl, λ given. rw given refl)

  copy_of-IsCopy :
      (c : CpidInfo) (name : Text) (g : CpidSingleInfo) → IsCopy c name g (copy_of c name g)
  unfolding process_info_with process_util violations_of
  copy_of-IsCopy c name g = record {
    gpu = refl;
    pid = refl;
    name_of = refl;
    start_time = refl;
    end_time = refl;
    energy = energy_of-EnergyIs g.energy_consumed;
    sm_util = refl;
    mem_util = refl;
    rx = refl;
    tx = refl;
    replays = refl;
    global_used = refl;
    single_bit = refl;
    double_bit = refl;
    gpu_utilization = refl;
    memory_utilization = refl;
    cores = refl;
    memory_clock = refl;
    power = refl;
    thermal = refl;
    reliability = refl;
    board_limit = refl;
    low_utilization = refl;
    sync_boost = refl;
    num_errors = refl;
    timestamps = refl;
  }

  xid_timestamps-take :
      (z : ℤ) (ts : List ℤ) (n : ℕ)
      → z ≡ pos n
      → n ≤ length ts
      → xid_timestamps z ts ≡ ok (map to_uint64 (take (pos_part z) ts))
  unfolding xid_timestamps
  xid_timestamps-take (pos k) ts n h fits =
      let same : k ≡ n = ap pos_part h in collect-take to_uint64 ts k (omega (arith, same))
  xid_timestamps-take (negsuc k) ts n h fits = cc

  process_info-copy_of :
      (c : CpidInfo) (name : Text) (g : CpidSingleInfo)
      → IsReadable g
      → process_info c name g ≡ ok (copy_of c name g)
  unfolding process_info
  process_info-copy_of c name g readable =
      ap (λ o. o >>= λ ts. ok (process_info_with c name g ts))
        (xid_timestamps-take g.num_xid_critical_errors g.xid_critical_errors_ts readable.count
          readable.counted readable.fits)

  abbrev pub IsOfSummary : CpidInfo → GpuProcessInfo → Type 0
  IsOfSummary c info = info.gpu ≡ c.summary.gpu_id

  copies-IsOfSummary :
      (c : CpidInfo) (name : Text) (gs : List CpidSingleInfo)
      → All (IsOfSummary c) (map (copy_of c name) gs)
  unfolding process_info_with
  copies-IsOfSummary c name [] = tt
  copies-IsOfSummary c name (g ∷ gs) = (refl, copies-IsOfSummary c name gs)

  -- An answered call, a file of the process's name that is read or does not exist, a count of GPUs that
  -- the array holds, and for each of them a count of XID errors that its timestamps hold: `getProcessInfo`
  -- returns the copies of the first GPUs in order and destroys the group. Every copy has each of the
  -- statistics of its GPU, and the GPU id of the summary, whatever the id of its GPU is.
  pub get_process_info-copied :
      (result : DcgmReturn) (c : CpidInfo) (comm : CommFile) (name : Text) (count : ℕ)
      → error_string result ≡ none
      → process_name comm ≡ some name
      → c.num_gpus ≡ pos count
      → count ≤ length c.gpus
      → All IsReadable (take count c.gpus)
      → (get_process_info result c comm
          ≡ ok (infos (map (copy_of c name) (take count c.gpus)), true))
        × All (IsOfSummary c) (map (copy_of c name) (take count c.gpus))
        × ((g : CpidSingleInfo) → IsCopy c name g (copy_of c name g))
  unfolding get_process_info
  get_process_info-copied result c comm name count answered named counted fits readable =
      let pos_count : pos_part c.num_gpus ≡ count = ap pos_part counted in
      (
        rw
            (
              answered,
              named,
              pos_count,
              collect_each-take (process_info c name) IsReadable (copy_of c name)
                  (process_info-copy_of c name) c.gpus count fits readable,
            )
            refl,
        copies-IsOfSummary c name (take count c.gpus),
        copy_of-IsCopy c name,
      )
