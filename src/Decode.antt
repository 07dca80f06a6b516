-- ===== src/Decode.antt =====
-- decode/decode.go: a kubelet summary becomes a batch of metrics points.
-- A function that writes through a pointer takes the old target and returns the new one; a list of
-- Go errors is a list of `DecodeError`, a nil error is `none`.
pub mod Quantity
pub mod Times
pub mod Spec
pub mod Pods
pub mod Batch
mod Tests
use gpu_metric_collector.Base.{
  ℕ, ◌+◌, ◌/◌, ◌%◌, ◌^◌, ◌-◌, suc, String, Bool, true, false, Option, none, some, List, [], ◌∷◌,
  ◌++◌, Outcome, ok, ◌>>=◌, deref, index, set, take, length, replicate, is_empty, ltb, leb, ◌==◌,
  if◌then◌else◌, ◌&&◌, not,
}
use mathlib.Core.Option
use mathlib.Core.Option.{get_or}
use gpu_metric_collector.Base.Int.{ℤ, pos, negsuc, ◌+ℤ◌}
use gpu_metric_collector.Stats.{
  CpuStats, MemoryStats, InterfaceStats, NetworkStats, FsStats, NodeStats, PodStats, Summary,
}
use gpu_metric_collector.Storage.{
  Quantities, binary_si, MetricsPoint, NodeMetricsPoint, PodMetricsPoint, MetricsBatch, point_at,
}

pub data Reason : Type 0 where
  missing_cpu missing_memory missing_network missing_fs no_timestamp : Reason

-- What is wrong, with the node or the pod that the message names.
pub data DecodeError : Type 0 where
  of_node of_pod : String → Reason → DecodeError

abbrev pub max_int64 : ℕ
max_int64 = 2 ^ 63 - 1

-- `if x != nil && !x.Time.IsZero() && (earliest == nil || earliest.After(x.Time.Time))`, given the
-- time of `x` if `x` is not nil.
unfoldable pub earlier : Option ℕ → Option ℕ → Option ℕ
earlier earliest none = earliest
earlier none (some t) = if not (t == 0) then some t else none
earlier (some e) (some t) = if not (t == 0) && ltb t e then some t else some e

unfoldable pub get_scrape_time_pod : Option CpuStats → Option MemoryStats → Option ℕ
unfolding earlier
get_scrape_time_pod cpu memory =
    let e = earlier none (Option.map (λ c. c.time) cpu) in
    earlier e (Option.map (λ m. m.time) memory)

unfoldable pub get_scrape_time_node :
    Option CpuStats → Option MemoryStats → Option NetworkStats → Option FsStats → Option ℕ
unfolding earlier
get_scrape_time_node cpu memory network fs =
    let e = earlier none (Option.map (λ c. c.time) cpu) in
    let e₁ = earlier e (Option.map (λ m. m.time) memory) in
    let e₂ = earlier e₁ (Option.map (λ n. n.time) network) in
    earlier e₂ (Option.map (λ f. f.time) fs)

sum_interfaces : List InterfaceStats → ℕ → ℕ → Outcome (ℕ × ℕ)
sum_interfaces [] rx_usage tx_usage = ok (rx_usage, tx_usage)
sum_interfaces (i ∷ interfaces) rx_usage tx_usage = do
  rx ← deref i.rx_bytes
  tx ← deref i.tx_bytes
  sum_interfaces interfaces ((rx_usage + rx) % 2 ^ 64) ((tx_usage + tx) % 2 ^ 64)

-- `len(netStats.Interfaces) != 0 && netStats.Interfaces[0].RxBytes == nil`.
abbrev lacks_rx : List InterfaceStats → Bool
lacks_rx [] = false
lacks_rx (i ∷ interfaces) = elim i.rx_bytes [ none ↦ true | some rx ↦ false ]

module _ (Q : Quantities) where
  open Q use {Quantity, empty, new_scaled_quantity, with_format}

  -- A uint64 that an int64 does not hold gives up its last decimal digit.
  unfoldable pub uint64_quantity : ℕ → ℤ → Quantity
  uint64_quantity val scale =
      if leb val max_int64
      then new_scaled_quantity val scale
      else new_scaled_quantity (val / 10) (pos 1 +ℤ scale)

  -- `*uint64Quantity(val, 0)`, with its format set to BinarySI.
  abbrev binary_bytes : ℕ → Quantity
  binary_bytes val = with_format binary_si (uint64_quantity val (pos 0))

  unfoldable pub decode_cpu :
      MetricsPoint Quantity → Option CpuStats → MetricsPoint Quantity × Option Reason
  decode_cpu target none = (target, some missing_cpu)
  decode_cpu target (some cpu) = elim cpu.usage_nano_cores [
    | none ↦ (target, some missing_cpu)
    | some usage ↦ (record target { cpu_usage_nano_cores = uint64_quantity usage (negsuc 8) }, none)
  ]

  -- UsageBytes is read without a test, so that a summary without it ends the process.
  unfoldable pub decode_memory :
      MetricsPoint Quantity → Option MemoryStats → Outcome (MetricsPoint Quantity × Option Reason)
  decode_memory target none = ok (target, some missing_memory)
  decode_memory target (some mem) = elim mem.working_set_bytes [
    | none ↦ ok (target, some missing_memory)
    | some working_set ↦ do
      let available =
          get_or (Option.map binary_bytes mem.available_bytes) target.memory_available_bytes
      usage ← deref mem.usage_bytes
      ok (
        record target {
          memory_available_bytes = available;
          memory_usage_bytes = binary_bytes usage;
          memory_working_set_bytes = binary_bytes working_set;
        },
        none,
      )
  ]

  -- No code calls it: both calls are commented out.
  unfoldable pub decode_network :
      MetricsPoint Quantity → Option NetworkStats → Outcome (MetricsPoint Quantity × Option Reason)
  unfolding sum_interfaces
  decode_network target none = ok (target, some missing_network)
  decode_network target (some net) =
      if lacks_rx net.interfaces then ok (target, some missing_network) else (do
        (rx, tx) ← sum_interfaces net.interfaces 0 0
        ok (
          record target { network_rx_bytes = binary_bytes rx; network_tx_bytes = binary_bytes tx },
          none,
        ))

  unfoldable pub decode_fs :
      MetricsPoint Quantity → Option FsStats → Outcome (MetricsPoint Quantity × Option Reason)
  decode_fs target none = ok (target, some missing_fs)
  decode_fs target (some fs) = do
    available ← deref fs.available_bytes
    capacity ← deref fs.capacity_bytes
    ok (
      record target {
        fs_available_bytes = binary_bytes available;
        fs_capacity_bytes = binary_bytes capacity;
        fs_used_bytes = binary_bytes (get_or fs.used_bytes 0);
      },
      none,
    )

  -- `if err := …; err != nil { errs = append(errs, …) }`.
  abbrev report : (Reason → DecodeError) → Option Reason → List DecodeError → List DecodeError
  report wrap none errs = errs
  report wrap (some reason) errs = errs ++ wrap reason ∷ []

  -- The three decoders of a metrics point, one after the other.
  abbrev decode_point :
      (Reason → DecodeError)
      → MetricsPoint Quantity
      → Option CpuStats
      → Option MemoryStats
      → Option FsStats
      → Outcome (MetricsPoint Quantity × List DecodeError)
  decode_point wrap point cpu memory fs = do
    let (p₁, cpu_err) = decode_cpu point cpu
    (p₂, memory_err) ← decode_memory p₁ memory
    (p₃, fs_err) ← decode_fs p₂ fs
    ok (p₃, report wrap fs_err (report wrap memory_err (report wrap cpu_err [])))

  unfoldable pub decode_node_stats :
      NodeStats → NodeMetricsPoint Quantity → Outcome (NodeMetricsPoint Quantity × List DecodeError)
  unfolding get_scrape_time_node point_at
  decode_node_stats stats target =
      elim (get_scrape_time_node stats.cpu stats.memory stats.network stats.fs) [
        | none ↦ ok (target, of_node stats.node_name no_timestamp ∷ [])
        | some timestamp ↦ do
          (point, errs) ←
              decode_point (of_node stats.node_name) (point_at Q timestamp) stats.cpu stats.memory
                stats.fs
          ok (record { name = stats.node_name; metrics_point = point }, errs)
      ]

  unfoldable pub decode_pod_stats :
      PodStats → PodMetricsPoint Quantity → Outcome (PodMetricsPoint Quantity × List DecodeError)
  unfolding get_scrape_time_pod point_at
  decode_pod_stats stats target = elim (get_scrape_time_pod stats.cpu stats.memory) [
    | none ↦ ok (target, of_pod stats.pod_ref.name no_timestamp ∷ [])
    | some timestamp ↦ do
      (point, errs) ←
          decode_point (of_pod stats.pod_ref.name) (point_at Q timestamp) stats.cpu stats.memory
            stats.ephemeral_storage
      ok (
        record {
          name = stats.pod_ref.name;
          namespace = stats.pod_ref.namespace;
          metrics_point = point;
        },
        errs,
      )
  ]

  unfoldable pub empty_pod : PodMetricsPoint Quantity
  empty_pod = record { name = ""; namespace = ""; metrics_point = point_at Q 0 }

  unfoldable pub empty_node : NodeMetricsPoint Quantity
  empty_node = record { name = ""; metrics_point = point_at Q 0 }

  -- The loop over the pods. `num` is the next free slot: a pod with errors leaves it as it is, so
  -- that the next pod is written over it.
  unfoldable pub decode_pods :
      List PodStats
      → List (PodMetricsPoint Quantity)
      → ℕ
      → List DecodeError
      → Outcome (List (PodMetricsPoint Quantity) × ℕ × List DecodeError)
  decode_pods [] slots num errs = ok (slots, num, errs)
  decode_pods (pod ∷ pods) slots num errs = do
    target ← index slots num
    (target', pod_errs) ← decode_pod_stats pod target
    decode_pods pods (set slots num target') (if is_empty pod_errs then suc num else num)
        (errs ++ pod_errs)

  unfoldable pub decode_batch : Summary → Outcome (MetricsBatch Quantity × List DecodeError)
  unfolding empty_node empty_pod
  decode_batch summary = do
    (node, node_errs) ← decode_node_stats summary.node empty_node
    (slots, num, errs) ←
        decode_pods summary.pods (replicate (length summary.pods) empty_pod) 0 node_errs
    ok (record { ip = summary.ip; node = node; pods = take num slots }, errs)
