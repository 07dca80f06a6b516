-- ===== src/Storage.antt =====
-- storage/types.go: the metrics that the collector keeps, over the quantities of
-- k8s.io/apimachinery/pkg/api/resource, which are a parameter.
use gpu_metric_collector.Base.{ℕ, ◌+◌, ◌-◌, ◌*◌, ◌/◌, ◌^◌, ◌≡◌, String, List}
use gpu_metric_collector.Base.Int.{ℤ, sub_ℕ}

-- resource.Format: the unit suffixes that a quantity is printed with.
pub data Format : Type 0 where
  decimal_si binary_si : Format

-- resource.Quantity as its documentation states it. `nano q` is the amount in units of 10⁻⁹, the
-- smallest that a quantity holds, and `new_scaled_quantity v s` stands for v * 10 ^ s.
-- `value` and `milli_value` round up.
pub record Quantities : Type 1 where
  pub Quantity : Type 0
  pub empty : Quantity
  pub new_scaled_quantity : ℕ → ℤ → Quantity
  pub with_format : Format → Quantity → Quantity
  pub nano : Quantity → ℕ
  pub value : Quantity → ℕ
  pub milli_value : Quantity → ℕ
  pub nano-empty : nano empty ≡ 0
  pub nano-with_format : (f : Format) (q : Quantity) → nano (with_format f q) ≡ nano q
  pub nano-new_scaled_quantity : (v e : ℕ) → nano (new_scaled_quantity v (sub_ℕ e 9)) ≡ v * 10 ^ e
  pub value-nano : (q : Quantity) → value q ≡ (nano q + (10 ^ 9 - 1)) / 10 ^ 9
  pub milli_value-nano : (q : Quantity) → milli_value q ≡ (nano q + (10 ^ 6 - 1)) / 10 ^ 6

pub record MetricsPoint (Quantity : Type 0) : Type 0 where
  pub timestamp : ℕ
  pub cpu_usage_nano_cores : Quantity
  pub memory_usage_bytes : Quantity
  pub memory_available_bytes : Quantity
  pub memory_working_set_bytes : Quantity
  pub network_rx_bytes : Quantity
  pub network_tx_bytes : Quantity
  pub fs_available_bytes : Quantity
  pub fs_capacity_bytes : Quantity
  pub fs_used_bytes : Quantity

pub record NodeMetricsPoint (Quantity : Type 0) : Type 0 where
  pub name : String
  pub metrics_point : MetricsPoint Quantity

-- The containers of a pod are never filled in, and are left out.
pub record PodMetricsPoint (Quantity : Type 0) : Type 0 where
  pub name : String
  pub namespace : String
  pub metrics_point : MetricsPoint Quantity

pub record MetricsBatch (Quantity : Type 0) : Type 0 where
  pub ip : String
  pub node : NodeMetricsPoint Quantity
  pub pods : List (PodMetricsPoint Quantity)

pub record Collection (Quantity : Type 0) : Type 0 where
  pub metricsbatchs : List (MetricsBatch Quantity)
  pub cluster_name : String

-- A metrics point as Go makes it with only the timestamp given.
unfoldable pub point_at : (Q : Quantities) → ℕ → MetricsPoint Q.Quantity
point_at Q t = record {
  timestamp = t;
  cpu_usage_nano_cores = Q.empty;
  memory_usage_bytes = Q.empty;
  memory_available_bytes = Q.empty;
  memory_working_set_bytes = Q.empty;
  network_rx_bytes = Q.empty;
  network_tx_bytes = Q.empty;
  fs_available_bytes = Q.empty;
  fs_capacity_bytes = Q.empty;
  fs_used_bytes = Q.empty;
}
