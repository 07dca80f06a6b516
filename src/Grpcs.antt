-- ===== src/Grpcs.antt =====
-- grpcs/types.go: the metrics of a node, its GPUs and their pods, which the collector's goroutines
-- share. Go's signed integers are integers with no bound; a text is the list of its bytes.
use gpu_metric_collector.Base.{ℕ, List}
use gpu_metric_collector.Base.Int.{ℤ}
use gpu_metric_collector.Base.Text.{Text}

-- PodCPU is a float64 that only ever gets a whole number.
pub record PodMetric : Type 0 where
  pub pod_uid : Text
  pub pod_name : Text
  pub process_name : Text
  pub pod_pid : ℕ
  pub pod_gpu_memory : ℤ
  pub pod_memory : ℤ
  pub pod_cpu : ℤ
  pub pod_network_rx : ℤ
  pub pod_network_tx : ℤ
  pub pod_storage : ℤ
  pub container_id : Text

pub record NvLink : Type 0 where
  pub gpu1_uuid : Text
  pub gpu2_uuid : Text
  pub count_link : ℤ

pub record GpuTemperature : Type 0 where
  pub current : ℤ
  pub threshold : ℤ
  pub shutdown : ℤ
  pub max_operating : ℤ

pub record GrpcGpu : Type 0 where
  pub uuid : Text
  pub total : ℤ
  pub free : ℤ
  pub used : ℤ
  pub name : Text
  pub index : ℤ
  pub temp : GpuTemperature
  pub power : ℤ
  pub mps_count : ℤ
  pub total_power : ℤ
  pub flops : ℤ
  pub arch : ℤ
  pub util : ℤ
  pub fan_speed : ℤ
  pub gpu_pod : List PodMetric
  pub gpu_rx : ℤ
  pub gpu_tx : ℤ
  pub gpu_assingment : ℤ
  pub gpu_return : ℤ

pub record GrpcNode : Type 0 where
  pub node_name : Text
  pub total_cpu : ℤ
  pub cpu : ℤ
  pub count : ℤ
  pub total_memory : ℤ
  pub memory : ℤ
  pub total_storage : ℤ
  pub storage : ℤ
  pub network_rx : ℤ
  pub network_tx : ℤ
  pub total_podnum : ℤ
  pub node_uuid : List Text
  pub node_gpu : List GrpcGpu
  pub nv_link_info : List NvLink
