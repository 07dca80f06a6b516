-- ===== src/Collector.antt =====
-- cmd/main.go: the start of the collector, and the round of its main loop, from the end of `Scrap` to
-- the end of `Gpumetric`, which the loop starts as a goroutine.
use gpu_metric_collector.Base.{
  ℕ, ◌*◌, ◌/◌, ◌%◌, ◌^◌, List, [], ◌∷◌, map, Outcome, ok, ◌>>=◌, index, length,
}
use gpu_metric_collector.Base.Int.{ℤ, pos}
use gpu_metric_collector.Base.Text.{Text}
use gpu_metric_collector.Storage.{Quantities, Collection, MetricsBatch}
use gpu_metric_collector.Grpcs.{GrpcGpu, GrpcNode, NvLink}
use gpu_metric_collector.Scrap.{Scrape}
use gpu_metric_collector.CustomMetrics.{NodeAmounts, member_metric_collector}
use gpu_metric_collector.Mps.Processes.{Host}
use gpu_metric_collector.GpuMetric.{GpuMap, Nvml, Round, gpumetric}
use gpu_metric_collector.Server.{Server}
pub mod Network
mod Tests

-- What the driver answers about one device when the collector starts.
pub record Hardware : Type 0 where
  pub uuid : Text
  pub max_clock : ℕ
  pub cuda_cores : ℕ
  pub architecture : ℕ
  pub max_operating : ℕ
  pub shutdown : ℕ
  pub threshold : ℕ

-- `maxclock * uint32(cudacore) * 2 / 1000` on uint32.
unfoldable pub gpu_flops : ℕ → ℕ → ℕ
gpu_flops max_clock cuda_cores = max_clock * (cuda_cores % 2 ^ 32) % 2 ^ 32 * 2 % 2 ^ 32 / 1000

unfoldable pub start_gpu : Hardware → GrpcGpu
unfolding gpu_flops
start_gpu h = record {
  uuid = [];
  total = pos 0;
  free = pos 0;
  used = pos 0;
  name = [];
  index = pos 0;
  temp = record {
    current = pos 0;
    threshold = pos h.threshold;
    shutdown = pos h.shutdown;
    max_operating = pos h.max_operating;
  };
  power = pos 0;
  mps_count = pos 0;
  total_power = pos 0;
  flops = pos (gpu_flops h.max_clock h.cuda_cores);
  arch = pos h.architecture;
  util = pos 0;
  fan_speed = pos 0;
  gpu_pod = [];
  gpu_rx = pos 0;
  gpu_tx = pos 0;
  gpu_assingment = pos 0;
  gpu_return = pos 0;
}

-- The package's variables when the loop begins; `links` is what `GetNvlinkInfo` has found.
unfoldable pub start : Text → List NvLink → List Hardware → Server
unfolding start_gpu
start node_name links devices =
    let gpus = map start_gpu devices in
    let uuids = map (λ (h : Hardware). h.uuid) devices in
    record {
      node = record {
        node_name = node_name;
        total_cpu = pos 0;
        cpu = pos 0;
        count = pos (length devices);
        total_memory = pos 0;
        memory = pos 0;
        total_storage = pos 0;
        storage = pos 0;
        network_rx = pos 0;
        network_tx = pos 0;
        total_podnum = pos 0;
        node_uuid = uuids;
        node_gpu = gpus;
        nv_link_info = links;
      };
      gpu = gpus;
      gpuuuid = uuids;
      prev_node_storage = pos 0;
    }

module _ (Q : Quantities) where
  unfoldable pub with_amounts : NodeAmounts → MetricsBatch Q.Quantity → GrpcNode → GrpcNode
  with_amounts amounts batch node = record node {
    cpu = pos amounts.nano_cpu;
    memory = pos amounts.node_memory;
    total_cpu = pos amounts.total_cpu;
    total_memory = amounts.total_memory;
    total_storage = pos amounts.node_total_storage;
    storage = pos amounts.node_storage;
    network_rx = pos (Q.value batch.node.metrics_point.network_rx_bytes);
    network_tx = pos (Q.value batch.node.metrics_point.network_tx_bytes);
  }

  -- One round, with the loop of `Scrap` at its end.
  unfoldable pub collector_round :
      {E : Type 0}
      → Host
      → Nvml
      → Text
      → Text
      → Scrape (MetricsBatch Q.Quantity) E
      → List GpuMap
      → GrpcNode
      → Outcome Round
  collector_round host nvml cpuinfo meminfo s podmap node = do
    let collected : Collection Q.Quantity = record {
      metricsbatchs = s.metricsbatchs;
      cluster_name = "";
    }
    amounts ← member_metric_collector Q cpuinfo meminfo s
    batch ← index s.metricsbatchs 0
    gpumetric Q host nvml collected (pos amounts.nano_cpu) (pos amounts.node_memory) node.node_name
        podmap (with_amounts amounts batch node)
