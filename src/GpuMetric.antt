-- ===== src/GpuMetric.antt =====
-- gpumetric/gpumetric.go: the round in which the collector measures each GPU of the node, writes its
-- metrics and those of its pods, starts the analyzer and writes the metrics of the node. cmd/main.go
-- passes one slice as `GPU` and as `Node.NodeGPU`, so that both are the one list `node.node_gpu`.
use gpu_metric_collector.Base.{
  ℕ, zero, suc, ◌+◌, ◌%◌, ◌^◌, Bool, true, false, Option, none, some, List, [], ◌∷◌, ◌++◌, Outcome,
  ok, panic, fatal, ◌>>=◌, index, length, set, ltb, String, if◌then◌else◌,
}
use gpu_metric_collector.Base.Int.{ℤ, pos}
use gpu_metric_collector.Base.Text.{Text}
use gpu_metric_collector.Storage.{Quantities, Collection}
use gpu_metric_collector.Grpcs.{PodMetric, GpuTemperature, GrpcGpu, GrpcNode}
use gpu_metric_collector.Mps.Processes.{Host}
use gpu_metric_collector.Mps.Pods.{Observation}
use gpu_metric_collector.Mps.Podmap.{PodGpu, gpumpsmetric}
use gpu_metric_collector.Mps.Assign.{to_int64}
pub mod Events
pub mod Rounds
pub mod Reports
pub mod Ends
mod Tests

-- storage.GPUMAP.
pub record GpuMap : Type 0 where
  pub gpu_uuid : Text
  pub pod_metric : List PodGpu

-- What the driver answers about one device. A query that fails answers zeros, and its error is
-- discarded. The amounts of memory are uint64, the other numbers uint32.
pub record Device : Type 0 where
  pub uuid : Text
  pub name : Text
  pub observe : ℕ → Observation
  pub utilization : ℕ
  pub memory_total : ℕ
  pub memory_free : ℕ
  pub memory_used : ℕ
  pub power_limit : ℕ
  pub power_usage : ℕ
  pub temperature : ℕ
  pub fan_speed : ℕ

-- `nvml.Init`, `nvml.DeviceGetCount` and `nvml.DeviceGetHandleByIndex`.
pub record Nvml : Type 0 where
  pub initialized : Bool
  pub device_count : Option ℕ
  pub device : ℕ → Option Device

pub record GpuPoint : Type 0 where
  pub uuid : Text
  pub index : ℤ
  pub gpu_name : Text
  pub memory_total : ℤ
  pub memory_free : ℤ
  pub memory_used : ℤ
  pub utilization : ℤ
  pub power : ℤ
  pub temperature : GpuTemperature
  pub podnum : ℕ
  pub fan_speed : ℤ

-- The tag and the fields of the point; the client of the database adds the time.
abbrev pub gpu_point_names : List String
gpu_point_names =
    "UUID" ∷ "Index" ∷ "GPUName" ∷ "memory(total)" ∷ "memory(free)" ∷ "memory(used)" ∷ "utilization"
    ∷ "Power" ∷ "temperature" ∷ "Podnum" ∷ "FanSpeed" ∷ []

-- The fields that are only written where the driver is there.
pub record NodeUsage : Type 0 where
  pub node_storage : ℤ
  pub node_network_rx : ℤ
  pub node_network_tx : ℤ
  pub total_pod : ℤ

pub record NodePoint : Type 0 where
  pub node_cpu : ℤ
  pub node_memory : ℤ
  pub uuid : List Text
  pub count : ℕ
  pub node_name : Text
  pub usage : Option NodeUsage

-- What a round does besides its changes of the node: it writes to the database, and it starts a
-- goroutine of the analyzer with a copy of the node.
pub data Event : Type 0 where
  write_pods : List PodMetric → Event
  write_gpu : GpuPoint → Event
  start_analyzer : GrpcNode → Event
  write_node : NodePoint → Event

-- The variables of the loop over the GPUs.
pub record Loop : Type 0 where
  pub podmap : List GpuMap
  pub gpus : List GrpcGpu
  pub gpuuuid : List Text
  pub events : List Event

-- `log.Fatalf` on an index that the driver has no device for.
abbrev pub device_at : Option Device → Outcome Device
device_at none = panic fatal
device_at (some d) = ok d

-- `podmap` grows by one entry in each turn until it has one for each GPU.
abbrev pub grown : ℕ → List GpuMap → List GpuMap
grown count podmap =
    if ltb (length podmap) count
    then podmap ++ record { gpu_uuid = []; pod_metric = [] } ∷ []
    else podmap

unfoldable pub measured : ℕ → Device → ℕ → GrpcGpu → GrpcGpu
measured i device podnum gpu = record gpu {
  used = to_int64 device.memory_used;
  free = to_int64 device.memory_free;
  uuid = device.uuid;
  name = device.name;
  index = pos i;
  total = to_int64 device.memory_total;
  temp = record (gpu.temp) { current = pos device.temperature };
  power = pos device.power_usage;
  mps_count = pos podnum;
  total_power = pos device.power_limit;
  util = pos device.utilization;
  fan_speed = pos device.fan_speed;
}

unfoldable pub gpu_point : ℕ → Text → GrpcGpu → GpuPoint
gpu_point i uuid gpu = record {
  uuid = uuid;
  index = pos i;
  gpu_name = gpu.name;
  memory_total = gpu.total;
  memory_free = gpu.free;
  memory_used = gpu.used;
  utilization = gpu.util;
  power = gpu.power;
  temperature = gpu.temp;
  podnum = length gpu.gpu_pod;
  fan_speed = gpu.fan_speed;
}

-- `Node.TotalPodnum += len(Node.NodeGPU[i].GPUPod)`.
unfoldable pub pods_of : List GrpcGpu → ℕ
pods_of [] = 0
pods_of (g ∷ gpus) = length g.gpu_pod + pods_of gpus

-- What a round leaves behind: the package's `podmap`, the node, and what was done on the way.
pub record Round : Type 0 where
  pub podmap : List GpuMap
  pub node : GrpcNode
  pub events : List Event

-- A driver that cannot count its devices is taken to have none.
abbrev pub count_or_zero : Option ℕ → ℕ
count_or_zero none = 0
count_or_zero (some n) = n

module _ (Q : Quantities) (host : Host) (nvml : Nvml) (collected : Collection Q.Quantity) where
  -- One turn of the loop.
  unfoldable pub gpu_round : ℕ → ℕ → Loop → Outcome Loop
  gpu_round count i s = do
    device ← device_at (nvml.device i)
    entry ← index (grown count s.podmap) i
    gpu ← index s.gpus i
    mps ←
        gpumpsmetric Q host device.observe device.uuid collected entry.pod_metric
          (record gpu { gpu_pod = [] })
    let gpu' = measured i device mps.podnum mps.gpu
    ok (record {
      podmap =
          set (grown count s.podmap) i (record { gpu_uuid = device.uuid; pod_metric = mps.podmap });
      gpus = set s.gpus i gpu';
      gpuuuid = s.gpuuuid ++ device.uuid ∷ [];
      events = s.events ++ write_pods mps.points ∷ write_gpu (gpu_point i device.uuid gpu') ∷ [];
    })

  -- The loop, from index `i` with `left` turns to go.
  unfoldable pub gpu_rounds : ℕ → ℕ → ℕ → Loop → Outcome Loop
  gpu_rounds count zero i s = ok s
  gpu_rounds count (suc left) i s = do s' ← gpu_round count i s; gpu_rounds count left (suc i) s'

  module _ (nodecpu nodememory : ℤ) (nodename : Text) where
    -- A node whose driver does not start.
    unfoldable pub without_driver : List GpuMap → GrpcNode → Round
    without_driver podmap node = record {
      podmap = podmap;
      node = node;
      events =
          write_node (record {
            node_cpu = nodecpu;
            node_memory = nodememory;
            uuid = [];
            count = 0;
            node_name = nodename;
            usage = none;
          })
          ∷ [];
    }

    -- What follows the loop. The analyzer gets the node as it stands before the pods are counted.
    unfoldable pub finish : ℕ → GrpcNode → Loop → Round
    finish count node s =
        let seen = record node { node_gpu = s.gpus } in
        let counted = record seen { total_podnum = pos (pods_of s.gpus) } in
        record {
          podmap = s.podmap;
          node = counted;
          events =
              s.events
              ++ start_analyzer seen
                ∷ write_node (record {
                  node_cpu = nodecpu;
                  node_memory = nodememory;
                  uuid = s.gpuuuid;
                  count = count;
                  node_name = nodename;
                  usage = some (record {
                    node_storage = counted.storage;
                    node_network_rx = counted.network_rx;
                    node_network_tx = counted.network_tx;
                    total_pod = counted.total_podnum;
                  });
                })
                ∷ [];
        }

    -- A node with a driver that reports `count` devices.
    unfoldable pub with_driver : ℕ → List GpuMap → GrpcNode → Outcome Round
    with_driver count podmap node = do
      let start : Loop = record { podmap = podmap; gpus = node.node_gpu; gpuuuid = []; events = [] }
      s ← gpu_rounds count count 0 start
      ok (finish count node s)

    unfoldable pub gpumetric : List GpuMap → GrpcNode → Outcome Round
    gpumetric podmap node =
        if nvml.initialized
        then with_driver (count_or_zero nvml.device_count) podmap node
        else ok (without_driver podmap node)
