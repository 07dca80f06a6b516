-- ===== src/Stats.antt =====
-- stats/types.go: what the kubelet's /stats/summary endpoint reports.
-- A pointer field is an `Option`. An instant is the number of seconds since Go's zero time, so that
-- `IsZero` is a test against 0. Fields that no code of the repository reads are left out.
use gpu_metric_collector.Base.{ℕ, String, Option, List}

pub record CpuStats : Type 0 where
  pub time : ℕ
  pub usage_nano_cores : Option ℕ
  pub usage_core_nano_seconds : Option ℕ

pub record MemoryStats : Type 0 where
  pub time : ℕ
  pub available_bytes : Option ℕ
  pub usage_bytes : Option ℕ
  pub working_set_bytes : Option ℕ
  pub rss_bytes : Option ℕ
  pub page_faults : Option ℕ
  pub major_page_faults : Option ℕ

pub record InterfaceStats : Type 0 where
  pub name : String
  pub rx_bytes : Option ℕ
  pub rx_errors : Option ℕ
  pub tx_bytes : Option ℕ
  pub tx_errors : Option ℕ

pub record NetworkStats : Type 0 where
  pub time : ℕ
  pub interfaces : List InterfaceStats

pub record FsStats : Type 0 where
  pub time : ℕ
  pub available_bytes : Option ℕ
  pub capacity_bytes : Option ℕ
  pub used_bytes : Option ℕ
  pub inodes_free : Option ℕ
  pub inodes : Option ℕ
  pub inodes_used : Option ℕ

pub record PodReference : Type 0 where
  pub name : String
  pub namespace : String
  pub uid : String

pub record NodeStats : Type 0 where
  pub node_name : String
  pub cpu : Option CpuStats
  pub memory : Option MemoryStats
  pub network : Option NetworkStats
  pub fs : Option FsStats

pub record PodStats : Type 0 where
  pub pod_ref : PodReference
  pub cpu : Option CpuStats
  pub memory : Option MemoryStats
  pub network : Option NetworkStats
  pub ephemeral_storage : Option FsStats

pub record Summary : Type 0 where
  pub node : NodeStats
  pub pods : List PodStats
  pub ip : String
