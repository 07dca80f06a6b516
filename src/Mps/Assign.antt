-- ===== src/Mps/Assign.antt =====
-- `Gpumpsmetric` of gpumpsmetric/gpumpsmetric.go: each pod of the table is given the process that runs
-- in its container, and its metrics are written to the database.
use gpu_metric_collector.Base.{
  ℕ, zero, suc, Option, none, some, List, [], ◌∷◌, ◌++◌, Outcome, ok, ◌>>=◌, index, set, is_empty,
  if◌then◌else◌, ◌%◌, ◌^◌,
}
use gpu_metric_collector.Base.Int.{ℤ, pos}
use gpu_metric_collector.Base.Text.{Text, bytes_of, text_eq, split}
use gpu_metric_collector.Dcgm.Values.{signed64}
use gpu_metric_collector.Storage.{Quantities, Collection, PodMetricsPoint}
use gpu_metric_collector.Grpcs.{PodMetric}
use gpu_metric_collector.Mps.Processes.{ProcessInfo}
use gpu_metric_collector.Mps.Pods.{GpuMpsMap}

-- `int64(n)` of an unsigned integer.
unfoldable pub to_int64 : ℕ → ℤ
unfolding signed64
to_int64 n = signed64 (n % 2 ^ 64)

-- `strings.Split(containerID, "/")[2]`: the id behind "docker://".
unfoldable pub bare_id : GpuMpsMap → Outcome Text
bare_id entry = index (split b'/' entry.container_id) 2

-- The loop over `k`: the first process with a container id that is the pod's.
unfoldable pub find_process : GpuMpsMap → List Text → ℕ → Outcome (Option (ℕ × Text))
find_process entry [] k = ok none
find_process entry (id ∷ ids) k =
    let rest = find_process entry ids (suc k) in
    if is_empty id then rest else (do
      containerid ← bare_id entry
      if text_eq id containerid then ok (some (k, containerid)) else rest)

unfoldable pub empty_metric : PodMetric
empty_metric = record {
  pod_uid = [];
  pod_name = [];
  process_name = [];
  pod_pid = 0;
  pod_gpu_memory = pos 0;
  pod_memory = pos 0;
  pod_cpu = pos 0;
  pod_network_rx = pos 0;
  pod_network_tx = pos 0;
  pod_storage = pos 0;
  container_id = [];
}

module _ (Q : Quantities) where
  open Q use {Quantity, value, milli_value}

  -- The usage that the kubelet reports for a pod.
  unfoldable pub with_usage : PodMetricsPoint Quantity → PodMetric → PodMetric
  with_usage p metric = record metric {
    pod_cpu = pos (milli_value p.metrics_point.cpu_usage_nano_cores);
    pod_storage = pos (value p.metrics_point.fs_used_bytes);
    pod_network_tx = pos (value p.metrics_point.network_tx_bytes);
    pod_network_rx = pos (value p.metrics_point.network_rx_bytes);
    pod_memory = pos (value p.metrics_point.memory_usage_bytes);
  }

  -- The loop over the kubelet's pods. It does not stop at the first of the name.
  unfoldable pub add_usage : List (PodMetricsPoint Quantity) → PodMetric → PodMetric
  unfolding with_usage
  add_usage [] metric = metric
  add_usage (p ∷ ps) metric =
      add_usage ps
        (if text_eq metric.pod_name (bytes_of p.name) then with_usage p metric else metric)

  -- The body of the match: a new metric is appended, and the one at `i` is written.
  unfoldable pub assign_process :
      ProcessInfo
      → Collection Quantity
      → ℕ
      → GpuMpsMap
      → ℕ
      → Text
      → List PodMetric
      → Outcome (List PodMetric)
  unfolding empty_metric to_int64
  assign_process mps collected i entry k containerid gpu_pod = do
    let appended = gpu_pod ++ empty_metric ∷ []
    metric ← index appended i
    process ← index mps.nvmlprocess k
    name ← index mps.name k
    batch ← index collected.metricsbatchs 0
    let named = record metric {
      pod_gpu_memory = to_int64 process.used_gpu_memory;
      pod_pid = process.pid;
      pod_name = entry.pod;
      process_name = name;
      pod_uid = entry.uid;
      container_id = containerid;
    }
    ok (set appended i (add_usage batch.pods named))

  -- The loop over `i`: an entry that no process belongs to is passed over.
  unfoldable pub assign_pods :
      ProcessInfo
      → Collection Quantity
      → ℕ
      → List GpuMpsMap
      → List PodMetric
      → Outcome (List PodMetric)
  assign_pods mps collected i [] gpu_pod = ok gpu_pod
  assign_pods mps collected i (entry ∷ entries) gpu_pod = do
    process ← find_process entry mps.container_id 0
    gpu_pod' ← elim process as (λ o. Outcome (List PodMetric)) [
      | none ↦ ok gpu_pod
      | some (k, containerid) ↦ assign_process mps collected i entry k containerid gpu_pod
    ]
    assign_pods mps collected (suc i) entries gpu_pod'

-- The last loop: a point for each of the `podnum` entries, made of `GPUPod[i]`.
unfoldable pub write_points : ℕ → ℕ → List PodMetric → Outcome (List PodMetric)
write_points zero i gpu_pod = ok []
write_points (suc left) i gpu_pod = do
  point ← index gpu_pod i
  points ← write_points left (suc i) gpu_pod
  ok (point ∷ points)
