-- ===== src/Mps/Tests.antt =====
-- gpumpsmetric/gpumpsmetric.go on a node with one GPU.
use gpu_metric_collector.Base.{
  ℕ, zero, suc, ◌≡◌, refl, ◌⊎◌, ◌<◌, ◌≤◌, some, List, [], ◌∷◌, ◌++◌, ok, length, arith,
}
use gpu_metric_collector.Base.Int.{pos, ◌+ℤ◌}
use gpu_metric_collector.Base.Text.{Text, bytes_of, text_eq, split}
use gpu_metric_collector.Storage.{Collection, MetricsBatch, point_at}
use gpu_metric_collector.Grpcs.{PodMetric, GrpcGpu}
use gpu_metric_collector.Mps.Processes.{
  Host, NvmlProcess, ProcessInfo, is_kubepods, container_of, line_verdict, scan_cgroup,
  scan_processes, get_gpu_process,
}
use gpu_metric_collector.Mps.Pods.{
  Pod, GpuMpsMap, Observation, count_uuid, pod_uses, count_pods, get_pod_list, wait_for_pods,
  entry_of, max_mps, put_entries, fill_mps_map,
}
use gpu_metric_collector.Mps.Assign.{bare_id, find_process, empty_metric, assign_pods, write_points}
use gpu_metric_collector.Mps.Podmap.{PodGpu, update_podmap, new_pod}
use gpu_metric_collector.Mps.Matching.{AllMatched, write_points-AllMatched}
use gpu_metric_collector.Mps.Alignment.{Aligned, write_points-Aligned}
use gpu_metric_collector.Mps.Counters.{ids, new_ids, update_podmap-new_ids}
use gpu_metric_collector.Mps.Table.{Agreed, wait_for_pods-fill_mps_map}
use gpu_metric_collector.Samples.{nanos}

abbrev server : NvmlProcess
server = record { pid = 1; used_gpu_memory = 30 }

abbrev train : NvmlProcess
train = record { pid = 2; used_gpu_memory = 4000 }

abbrev system_line : Text
system_line = bytes_of "0::/system.slice/nvidia-mps.service"

abbrev pod_line : Text
pod_line = bytes_of "0::/kubepods.slice/kubepods-pod1.slice/x/cri-abc.scope"

abbrev lines_of : ℕ → List Text
lines_of zero = []
lines_of (suc zero) = system_line ∷ []
lines_of (suc (suc n)) = pod_line ∷ []

abbrev host : Host
host = record { cgroup = lines_of; process_name = λ n. bytes_of "python" }

abbrev entry : GpuMpsMap
entry = record {
  uid = bytes_of "u1";
  container = bytes_of "main";
  container_id = bytes_of "cri://abc";
  pod = bytes_of "train";
  start_time = 5;
}

abbrev batch : MetricsBatch ℕ
batch = record {
  ip = "10.0.0.1";
  node = record { name = "worker"; metrics_point = point_at nanos 9 };
  pods = record { name = "train"; namespace = "userpod"; metrics_point = point_at nanos 9 } ∷ [];
}

abbrev collected : Collection ℕ
collected = record { metricsbatchs = batch ∷ []; cluster_name = "cluster" }

abbrev table : ProcessInfo
table = record {
  nvmlprocess = train ∷ [];
  name = bytes_of "python" ∷ [];
  container_id = bytes_of "abc" ∷ [];
}

matched : find_process entry table.container_id 0 ≡ ok (some (0, bytes_of "abc"))
unfolding find_process bare_id split text_eq
matched = refl

all_matched : AllMatched table (entry ∷ [])
all_matched = ((0, bytes_of "abc", matched), tt)

aligned :
    (gpu_pod : List PodMetric) × (assign_pods nanos table collected 0 (entry ∷ []) [] ≡ ok gpu_pod)
    × (write_points 1 0 gpu_pod ≡ ok gpu_pod)
    × Aligned nanos table collected batch refl (entry ∷ []) gpu_pod
aligned =
    write_points-Aligned nanos table collected batch refl (entry ∷ []) (omega arith) (omega arith)
      all_matched

write_points-AllMatched_example : AllMatched table (entry ∷ [])
write_points-AllMatched_example =
    write_points-AllMatched nanos table collected (entry ∷ []) aligned.0 aligned.0 aligned.1
      aligned.2

abbrev metric_of : Text → PodMetric
metric_of id = record empty_metric { container_id = id }

abbrev gpu : GrpcGpu
gpu = record {
  uuid = bytes_of "GPU-1";
  total = pos 0;
  free = pos 0;
  used = pos 0;
  name = [];
  index = pos 0;
  temp = record { current = pos 40; threshold = pos 90; shutdown = pos 95; max_operating = pos 85 };
  power = pos 0;
  mps_count = pos 0;
  total_power = pos 0;
  flops = pos 0;
  arch = pos 0;
  util = pos 0;
  fan_speed = pos 0;
  gpu_pod = metric_of (bytes_of "a") ∷ metric_of (bytes_of "b") ∷ metric_of (bytes_of "b") ∷ [];
  gpu_rx = pos 0;
  gpu_tx = pos 0;
  gpu_assingment = pos 1;
  gpu_return = pos 0;
}

abbrev known : List PodGpu
known = new_pod (bytes_of "a") ∷ []

update_podmap-new_ids_example :
    (ids (update_podmap known gpu).0 ≡ ids known ++ new_ids (ids known) gpu.gpu_pod)
    × ((update_podmap known gpu).1.gpu_assingment
        ≡ pos 1 +ℤ pos (length (new_ids (ids known) gpu.gpu_pod)))
update_podmap-new_ids_example = update_podmap-new_ids known gpu

abbrev train_pod : Pod
train_pod = record {
  uid = bytes_of "u1";
  name = bytes_of "train";
  annotation_uuid = bytes_of "GPU-1,GPU-2";
  containers = bytes_of "main" ∷ [];
  container_statuses = record { container_id = bytes_of "cri://abc"; running = some 5 } ∷ [];
}

abbrev observe : ℕ → Observation
observe n = record { processes = train ∷ []; list_pods = λ i. some (train_pod ∷ []) }

abbrev no_processes : ProcessInfo
no_processes = record { nvmlprocess = []; name = []; container_id = [] }

waited :
    wait_for_pods host (bytes_of "GPU-2") observe 20 0 no_processes ≡ ok (table, train_pod ∷ [])
unfolding wait_for_pods get_gpu_process scan_processes scan_cgroup line_verdict split text_eq
    is_kubepods container_of get_pod_list count_pods pod_uses count_uuid
waited = refl

filled : fill_mps_map (bytes_of "GPU-2") (train_pod ∷ []) [] ≡ ok (entry ∷ [])
unfolding fill_mps_map put_entries entry_of pod_uses count_uuid split text_eq
filled = refl

wait_for_pods-fill_mps_map_example :
    (1 ≡ count_pods (bytes_of "GPU-2") (train_pod ∷ []))
    × (1 ≤ max_mps)
    × ((train_pod ∷ [] ≡ [])
        ⊎ ((n : ℕ) × (n < 20) × Agreed host (bytes_of "GPU-2") observe table (train_pod ∷ []) n))
wait_for_pods-fill_mps_map_example =
    wait_for_pods-fill_mps_map host (bytes_of "GPU-2") observe no_processes table (train_pod ∷ [])
      (entry ∷ []) waited filled
