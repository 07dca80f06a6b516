-- ===== src/CustomMetrics.antt =====
-- customMetrics/customMetrics.go: `AddToPodCustomMetricServer`, which the collector calls with what
-- `Scrap` has collected. The texts of /proc/cpuinfo and /proc/meminfo are arguments, empty where the
-- file cannot be read.
use gpu_metric_collector.Base.{
  ℕ, zero, suc, ◌+◌, ◌-◌, ◌*◌, ◌^◌, ◌≡◌, refl, Bool, true, false, ◌&&◌, ◌||◌, List, [], ◌∷◌, Option,
  none, some, ltb, leb, ◌==◌, if◌then◌else◌, Outcome, ok, panic, index, index_out_of_range, ◌>>=◌,
}
use gpu_metric_collector.Base.Int.{ℤ, pos, negsuc, ◌*ℤ◌}
use gpu_metric_collector.Base.Text.{Text, text_eq, bytes_of, split}
use gpu_metric_collector.Storage.{Quantities, MetricsBatch}
use gpu_metric_collector.Scrap.{Scrape}
pub mod Failures
mod Tests

abbrev pub is_space : ℕ → Bool
is_space c = (leb 9 c && leb c 13) || c == 32

abbrev pub goes_on : Text → Bool
goes_on [] = false
goes_on (c ∷ s) = if is_space c then false else true

abbrev pub extend : ℕ → List Text → List Text
extend c [] = (c ∷ []) ∷ []
extend c (word ∷ words) = (c ∷ word) ∷ words

-- `strings.Fields` of an ASCII text.
unfoldable pub fields : Text → List Text
fields [] = []
fields (c ∷ s) =
    let words = fields s in
    if is_space c then words else if goes_on s then extend c words else (c ∷ []) ∷ words

abbrev pub is_processor : List Text → Bool
is_processor [] = false
is_processor (word ∷ words) = text_eq word (bytes_of "processor")

-- The loop over the lines of /proc/cpuinfo.
unfoldable pub cpu_cores : List Text → ℕ
cpu_cores [] = 0
cpu_cores (line ∷ lines) =
    let rest = cpu_cores lines in if is_processor (fields line) then suc rest else rest

unfoldable pub number : ℕ → Text → Option ℕ
number acc [] = some acc
number acc (c ∷ s) =
    let rest = number (acc * 10 + (c - 48)) s in if leb 48 c && leb c 57 then rest else none

abbrev pub digits : Text → Option ℕ
digits [] = none
digits (c ∷ s) = number 0 (c ∷ s)

abbrev pub positive : Option ℕ → ℤ
positive none = pos 0
positive (some n) = if ltb n (2 ^ 63) then pos n else pos (2 ^ 63 - 1)

abbrev pub negative : Option ℕ → ℤ
negative none = pos 0
negative (some zero) = pos 0
negative (some (suc n)) = if ltb n (2 ^ 63) then negsuc n else negsuc (2 ^ 63 - 1)

-- The first result of `strconv.Atoi`: 0 where the text is no number, and the nearest int64 where the
-- number does not fit.
unfoldable pub atoi : Text → ℤ
atoi [] = pos 0
atoi (c ∷ s) =
    if c == b'-'
    then negative (digits s)
    else if c == b'+'
    then positive (digits s)
    else positive (digits (c ∷ s))

abbrev pub memory_line : List Text → ℤ → Outcome ℤ
memory_line [] total = ok total
memory_line (word ∷ words) total =
    if text_eq word (bytes_of "MemTotal:")
    then (index (word ∷ words) 1 >>= λ amount. ok (atoi amount))
    else ok total

-- The loop over the lines of /proc/meminfo.
unfoldable pub total_memory : List Text → ℤ → Outcome ℤ
total_memory [] total = ok total
total_memory (line ∷ lines) total = memory_line (fields line) total >>= total_memory lines

pub record NodeAmounts : Type 0 where
  pub total_cpu : ℕ
  pub nano_cpu : ℕ
  pub total_memory : ℤ
  pub node_memory : ℕ
  pub node_total_storage : ℕ
  pub node_storage : ℕ

module _ (Q : Quantities) where
  abbrev pub node_amounts : ℕ → ℤ → MetricsBatch Q.Quantity → NodeAmounts
  node_amounts cores memory batch = record {
    total_cpu = cores * 1000;
    nano_cpu = Q.milli_value (batch.node).metrics_point.cpu_usage_nano_cores;
    total_memory = memory *ℤ pos 1000;
    node_memory = Q.value (batch.node).metrics_point.memory_usage_bytes;
    node_total_storage = Q.value (batch.node).metrics_point.fs_capacity_bytes;
    node_storage = Q.value (batch.node).metrics_point.fs_used_bytes;
  }

  unfoldable pub add_to_pod_custom_metric_server :
      Text → Text → List (MetricsBatch Q.Quantity) → Outcome NodeAmounts
  add_to_pod_custom_metric_server cpuinfo meminfo metricsbatchs =
      total_memory (split 10 meminfo) (pos 0) >>= λ memory. index metricsbatchs 0 >>= λ batch.
      ok (node_amounts (cpu_cores (split 10 cpuinfo)) memory batch)

  -- `MemberMetricCollector` of cmd/main.go, when the loop of `Scrap` over its one node is over: an error
  -- of `Scrap` is printed, and the call goes on.
  unfoldable pub member_metric_collector :
      {E : Type 0} → Text → Text → Scrape (MetricsBatch Q.Quantity) E → Outcome NodeAmounts
  member_metric_collector cpuinfo meminfo s =
      add_to_pod_custom_metric_server cpuinfo meminfo s.metricsbatchs
