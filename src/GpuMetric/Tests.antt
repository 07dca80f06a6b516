-- ===== src/GpuMetric/Tests.antt =====
-- A round of gpumetric/gpumetric.go on a node with two GPUs that no pod uses.
use gpu_metric_collector.Base.{
  ℕ, ◌≤◌, ◌<◌, ◌≡◌, refl, subst, ◌⊎◌, true, some, List, [], ◌∷◌, map, Outcome, ok, panic,
  index_out_of_range, length, take, arith,
}
use Prim.Native.Nat.{max}
use mathlib.Core.Option.{some-injective}
use gpu_metric_collector.Base.Int.{pos}
use gpu_metric_collector.Base.Text.{bytes_of}
use gpu_metric_collector.Storage.{Collection}
use gpu_metric_collector.Samples.{nanos}
use gpu_metric_collector.Grpcs.{GrpcGpu, GrpcNode}
use gpu_metric_collector.Mps.Processes.{Host, get_gpu_process}
use gpu_metric_collector.Mps.Pods.{
  Observation, get_pod_list, wait_for_pods, fill_mps_map, count_pods,
}
use gpu_metric_collector.Mps.Assign.{assign_pods, write_points}
use gpu_metric_collector.Mps.Podmap.{
  PodGpu, Collected, gpumpsmetric, update_podmap, note_pods, count_returned, reset_running,
}
use gpu_metric_collector.Mps.Assign.{to_int64}
use gpu_metric_collector.GpuMetric.{
  Device, Nvml, Round, gpu_round, gpu_rounds, measured, pods_of, finish, with_driver, gpumetric,
}
use gpu_metric_collector.GpuMetric.Rounds.{point_of, AllRead}
use gpu_metric_collector.GpuMetric.Events.{gpu_points, analyzed}
use gpu_metric_collector.GpuMetric.Reports.{
  gpumetric-reported, gpumetric-analyzed, gpumetric-analyzer_panic,
}
use gpu_metric_collector.GpuMetric.Ends.{Answers, gpumetric-ends}
use gpu_metric_collector.Analyzer.Nodes.{analyzer}

abbrev idle : ℕ → Observation
idle n = record { processes = []; list_pods = λ i. some [] }

abbrev device : ℕ → Device
device i = record {
  uuid = i ∷ [];
  name = bytes_of "T4";
  observe = idle;
  utilization = 7;
  memory_total = 16000;
  memory_free = 15000;
  memory_used = 1000;
  power_limit = 70;
  power_usage = 30;
  temperature = 41;
  fan_speed = 0;
}

abbrev two_devices : Nvml
two_devices = record { initialized = true; device_count = some 2; device = λ i. some (device i) }

abbrev host : Host
host = record { cgroup = λ pid. []; process_name = λ pid. [] }

abbrev collected : Collection ℕ
collected = record { metricsbatchs = []; cluster_name = "cluster" }

abbrev gpu : GrpcGpu
gpu = record {
  uuid = [];
  total = pos 0;
  free = pos 0;
  used = pos 0;
  name = [];
  index = pos 0;
  temp = record { current = pos 0; threshold = pos 90; shutdown = pos 95; max_operating = pos 85 };
  power = pos 0;
  mps_count = pos 0;
  total_power = pos 0;
  flops = pos 0;
  arch = pos 0;
  util = pos 0;
  fan_speed = pos 0;
  gpu_pod = [];
  gpu_rx = pos 0;
  gpu_tx = pos 0;
  gpu_assingment = pos 0;
  gpu_return = pos 0;
}

abbrev node_with : List GrpcGpu → GrpcNode
node_with gpus = record {
  node_name = bytes_of "worker";
  total_cpu = pos 0;
  cpu = pos 0;
  count = pos 2;
  total_memory = pos 0;
  memory = pos 0;
  total_storage = pos 0;
  storage = pos 0;
  network_rx = pos 0;
  network_tx = pos 0;
  total_podnum = pos 5;
  node_uuid = [];
  node_gpu = gpus;
  nv_link_info = [];
}

-- What a call leaves behind on an idle GPU.
nothing : (podmap : List PodGpu) → GrpcGpu → Collected
nothing podmap g =
    let emptied = record g { gpu_pod = [] } in
    record {
      podmap = (update_podmap podmap emptied).0;
      gpu = (update_podmap podmap emptied).1;
      points = [];
      podnum = 0;
    }

abbrev Collects : Device → List PodGpu → GrpcGpu → Type 0
Collects d podmap g =
    (mps : Collected) × (gpumpsmetric nanos host d.observe d.uuid collected podmap
        (record g { gpu_pod = [] })
      ≡ ok mps)

idle_pods : (i : ℕ) (podmap : List PodGpu) (g : GrpcGpu) → Collects (device i) podmap g
unfolding nothing gpumpsmetric wait_for_pods get_gpu_process get_pod_list count_pods fill_mps_map
    assign_pods write_points
idle_pods i podmap g = (nothing podmap g, refl)

idle_answers : Answers nanos host two_devices collected 2
idle_answers = record {
  device = λ i h. (device i, refl);
  pods = λ i d podmap g e.
      subst (λ k. Collects k podmap g) (some-injective _ _ e) (idle_pods i podmap g);
}

gpumetric-ends_example :
    ((2 ≤ 1)
      × ((r : Round) × (gpumetric nanos host two_devices collected
              (pos 0)
              (pos 0)
              []
              []
              (node_with (gpu ∷ []))
            ≡ ok r)))
    ⊎ ((1 < 2)
        × (gpumetric nanos host two_devices collected (pos 0) (pos 0) [] [] (node_with (gpu ∷ []))
            ≡ panic index_out_of_range))
gpumetric-ends_example =
    gpumetric-ends nanos host two_devices collected 2 (pos 0) (pos 0) [] [] (node_with (gpu ∷ []))
      idle_answers refl refl

abbrev two_gpus : GrpcNode
two_gpus = node_with (gpu ∷ gpu ∷ [])

abbrev measured_gpu : ℕ → GrpcGpu
measured_gpu i = record gpu {
  uuid = i ∷ [];
  total = pos 16000;
  free = pos 15000;
  used = pos 1000;
  name = bytes_of "T4";
  index = pos i;
  temp = record (gpu.temp) { current = pos 41 };
  power = pos 30;
  total_power = pos 70;
  util = pos 7;
}

abbrev no_round : Round
no_round = record { podmap = []; node = two_gpus; events = [] }

abbrev round_of : Outcome Round → Round
round_of (ok r) = r
round_of (panic fault) = no_round

abbrev first_round : Outcome Round
first_round = gpumetric nanos host two_devices collected (pos 0) (pos 0) [] [] two_gpus

went : first_round ≡ ok (round_of first_round)
unfolding gpumetric with_driver gpu_rounds gpu_round gpumpsmetric wait_for_pods get_gpu_process
    get_pod_list count_pods fill_mps_map assign_pods write_points
went = refl

gpus_after : (round_of first_round).node.node_gpu ≡ measured_gpu 0 ∷ measured_gpu 1 ∷ []
unfolding gpumetric with_driver gpu_rounds gpu_round gpumpsmetric wait_for_pods get_gpu_process
    get_pod_list count_pods fill_mps_map assign_pods write_points finish measured to_int64 note_pods
    count_returned reset_running
gpus_after = refl

gpumetric-reported_example :
    (2 ≤ 2)
    × AllRead two_devices 0 (take 2 (round_of first_round).node.node_gpu)
    × (gpu_points (round_of first_round).events
        ≡ map point_of (take 2 (round_of first_round).node.node_gpu))
    × (length (round_of first_round).node.node_gpu ≡ 2)
    × ((round_of first_round).node.total_podnum
        ≡ pos (pods_of (round_of first_round).node.node_gpu))
    × (length (round_of first_round).podmap ≡ max 0 2)
gpumetric-reported_example =
    gpumetric-reported nanos host two_devices collected (pos 0) (pos 0) [] 2 [] two_gpus
      (round_of first_round) refl refl went

gpumetric-analyzed_example :
    analyzed (round_of first_round).events
    ≡ record ((round_of first_round).node) { total_podnum = pos 5 } ∷ []
gpumetric-analyzed_example =
    gpumetric-analyzed nanos host two_devices collected (pos 0) (pos 0) [] 2 [] two_gpus
      (round_of first_round) refl refl went

gpumetric-analyzer_panic_example :
    (seen : GrpcNode) × (analyzed (round_of first_round).events ≡ seen ∷ [])
    × (analyzer (λ g d. ok d) (λ node found. ok 0) seen ≡ panic index_out_of_range)
gpumetric-analyzer_panic_example =
    gpumetric-analyzer_panic nanos host two_devices collected (pos 0) (pos 0) [] (λ g d. ok d)
      (λ node found. ok 0) 2 [] two_gpus (round_of first_round) refl refl (omega arith) went
