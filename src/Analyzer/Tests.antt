-- ===== src/Analyzer/Tests.antt =====
-- analyzer/analysis.go on a warm GPU and a busy pod.
use gpu_metric_collector.Base.{ℕ, ◌+◌, ◌-◌, ◌*◌, ◌/◌, ◌^◌, ◌≡◌, refl, [], ◌∷◌, ok, ltb, arith}
use gpu_metric_collector.Base.Int.{pos, pos_part, ◌*ℤ◌, ◌+ℤ◌, ◌-ℤ◌}
use gpu_metric_collector.Grpcs.{GrpcGpu, GrpcNode, GpuTemperature}
use gpu_metric_collector.Analyzer.{
  quotient, exceeds, degraded, Floats, pod_threshold, error_response, answered,
}
use gpu_metric_collector.Base.Text.{bytes_of}
use gpu_metric_collector.CustomMetrics.{atoi, number}
use gpu_metric_collector.Analyzer.Columns.{Row, json_number, text, int, same_pods, xor2}
use gpu_metric_collector.Analyzer.Trends.{
  get_trands, deviations, both_deviations, sum_indices, slope, backwards,
}
use gpu_metric_collector.Analyzer.Averages.{
  get_node_metric, node_verdict, read_rows, node_row, node_metric, st_dev, mean, trend,
  node_threshold, get_gpu_metrics,
}
use gpu_metric_collector.Analyzer.Undecided.{
  Undecided, get_node_metric-Undecided, get_gpu_metrics-Undecided_columns,
}
use gpu_metric_collector.Base.{zero, suc, false}
use gpu_metric_collector.Analyzer.{
  above_low, below_high, margin, later_metrics, pattern_result, get_pod_pattern, pod_result,
}
use gpu_metric_collector.Analyzer.Columns.{Cell, null, parse_int}
use gpu_metric_collector.Analyzer.Nodes.{DegradationGpu}
use gpu_metric_collector.Analyzer.PodAverages.{
  pod_row, float_sum, float_deviations, aver_cpu, cpu_sample, sample, pod_verdict, rows_verdict,
  get_pod_metric,
}
use gpu_metric_collector.Analyzer.Degradations.{
  no_pod, Counts, PodAnswers, pod_degradation, degrade_pods, gpu_degradation, named_from,
  gpu_degradation-pods,
}
use gpu_metric_collector.Grpcs.{PodMetric}

abbrev warm : GpuTemperature
warm = record { current = pos 40; threshold = pos 90; shutdown = pos 95; max_operating = pos 85 }

abbrev gpu : GrpcGpu
gpu = record {
  uuid = [];
  total = pos 0;
  free = pos 0;
  used = pos 0;
  name = [];
  index = pos 0;
  temp = warm;
  power = pos 0;
  mps_count = pos 0;
  total_power = pos 0;
  flops = pos 0;
  arch = pos 0;
  util = pos 0;
  fan_speed = pos 0;
  gpu_pod = [];
  gpu_rx = pos 0;
  gpu_tx = pos 0;
  gpu_assingment = pos 0;
  gpu_return = pos 0;
}

abbrev whole_numbers : Floats
whole_numbers = record {
  Float = ℕ;
  of_int = pos_part;
  plus = λ a b. a + b;
  minus = λ a b. a - b;
  times = λ a b. a * b;
  over = λ a b. a / b;
  sqrt = λ a. a;
  less = ltb;
  pow = λ a b. a ^ b;
  truncate = pos;
}

abbrev one_gpu : GrpcNode
one_gpu = record {
  node_name = [];
  total_cpu = pos 8;
  cpu = pos 1;
  count = pos 1;
  total_memory = pos 1;
  memory = pos 1;
  total_storage = pos 1;
  storage = pos 1;
  network_rx = pos 0;
  network_tx = pos 0;
  total_podnum = pos 0;
  node_uuid = [] ∷ [];
  node_gpu = gpu ∷ [];
  nv_link_info = [];
}

abbrev node_cells : Row
node_cells =
    text (bytes_of "2022-06-21T00:00:00Z")
    ∷ json_number (bytes_of "1")
    ∷ json_number (bytes_of "250")
    ∷ json_number (bytes_of "900")
    ∷ text (bytes_of "worker")
    ∷ json_number (bytes_of "0")
    ∷ json_number (bytes_of "0")
    ∷ json_number (bytes_of "70")
    ∷ json_number (bytes_of "0")
    ∷ text (bytes_of "[]")
    ∷ []

-- With the number of pods as an int the averages would be looked at.
abbrev cells_with_int : Row
cells_with_int =
    text (bytes_of "2022-06-21T00:00:00Z")
    ∷ json_number (bytes_of "1")
    ∷ json_number (bytes_of "250")
    ∷ json_number (bytes_of "900")
    ∷ text (bytes_of "worker")
    ∷ json_number (bytes_of "0")
    ∷ json_number (bytes_of "0")
    ∷ json_number (bytes_of "70")
    ∷ int (pos 0)
    ∷ []

with_int :
    get_node_metric whole_numbers 1 (answered (((cells_with_int ∷ []) ∷ []) ∷ [])) one_gpu ≡ ok 1
unfolding get_node_metric same_pods node_verdict read_rows node_row atoi number node_metric st_dev
    mean trend get_trands deviations both_deviations sum_indices slope backwards node_threshold
    exceeds quotient degraded xor2 ◌*ℤ◌ ◌+ℤ◌ ◌-ℤ◌
with_int = refl

get_node_metric-Undecided_example :
    Undecided
      (answered (((node_cells ∷ []) ∷ []) ∷ []))
      (get_node_metric whole_numbers 1 (answered (((node_cells ∷ []) ∷ []) ∷ [])) one_gpu)
get_node_metric-Undecided_example =
    get_node_metric-Undecided whole_numbers 0 (answered (((node_cells ∷ []) ∷ []) ∷ [])) one_gpu
      (omega arith)

abbrev gpu_cells : Row
gpu_cells =
    text (bytes_of "2022-06-21T00:00:00Z")
    ∷ json_number (bytes_of "40")
    ∷ text (bytes_of "T4")
    ∷ json_number (bytes_of "0")
    ∷ json_number (bytes_of "2")
    ∷ json_number (bytes_of "30")
    ∷ int (pos 0)
    ∷ json_number (bytes_of "15000")
    ∷ json_number (bytes_of "16000")
    ∷ json_number (bytes_of "1000")
    ∷ text (bytes_of "{41 90 95 85}")
    ∷ json_number (bytes_of "7")
    ∷ []

get_gpu_metrics-Undecided_columns_example :
    Undecided
      (answered (((gpu_cells ∷ []) ∷ []) ∷ []))
      (get_gpu_metrics whole_numbers 1 (answered (((gpu_cells ∷ []) ∷ []) ∷ [])) gpu)
get_gpu_metrics-Undecided_columns_example =
    get_gpu_metrics-Undecided_columns whole_numbers 0 (answered (((gpu_cells ∷ []) ∷ []) ∷ [])) gpu
      (omega arith)

abbrev train_pod : PodMetric
train_pod = record {
  pod_uid = bytes_of "u1";
  pod_name = bytes_of "train";
  process_name = bytes_of "python";
  pod_pid = 7;
  pod_gpu_memory = pos 9;
  pod_memory = pos 9;
  pod_cpu = pos 9;
  pod_network_rx = pos 0;
  pod_network_tx = pos 0;
  pod_storage = pos 1;
  container_id = bytes_of "abc";
}

-- Eleven columns, of which six are read.
abbrev pod_cells : Row
pod_cells =
    text (bytes_of "2022-06-21T00:00:00Z")
    ∷ text (bytes_of "GPU-1")
    ∷ json_number (bytes_of "3")
    ∷ json_number (bytes_of "4")
    ∷ json_number (bytes_of "0")
    ∷ json_number (bytes_of "0")
    ∷ json_number (bytes_of "5")
    ∷ null
    ∷ null
    ∷ null
    ∷ json_number (bytes_of "1")
    ∷ []

abbrev cell_value : Cell → ℕ
cell_value cell = pos_part (parse_int cell)

-- The query about the first pod answers with a row, and those about the second bring an error.
abbrev first_answers : PodAnswers
first_answers zero = (answered (((pod_cells ∷ []) ∷ []) ∷ []), answered (([] ∷ []) ∷ []))
first_answers (suc n) = (error_response, error_response)

abbrev busy_gpu : GrpcGpu
busy_gpu = record gpu { gpu_pod = train_pod ∷ train_pod ∷ [] }

abbrev fresh_gpu : DegradationGpu
fresh_gpu = record { gpu_uuid = []; is_degradation = false; is_increase = false; pod = [] }

abbrev two_degraded : Counts
two_degraded = record { gpu = 2; node = 0 }

abbrev left_behind : DegradationGpu
left_behind = record fresh_gpu { pod = record no_pod { pod_uid = bytes_of "u1" } ∷ no_pod ∷ [] }

first_named :
    gpu_degradation whole_numbers cell_value 1 2 first_answers error_response busy_gpu fresh_gpu
      two_degraded
    ≡ ok (left_behind, two_degraded)
unfolding gpu_degradation degrade_pods pod_degradation get_pod_metric rows_verdict pod_verdict
    read_rows pod_row cpu_sample aver_cpu sample float_sum float_deviations deviations mean
    pod_threshold above_low below_high margin later_metrics pattern_result get_pod_pattern
    pod_result get_trands sum_indices slope backwards atoi number get_gpu_metrics quotient xor2 ◌*ℤ◌
    ◌+ℤ◌ ◌-ℤ◌
first_named = refl

gpu_degradation-pods_example :
    (left_behind.pod
      ≡ named_from whole_numbers cell_value 1 2 first_answers 0 (train_pod ∷ train_pod ∷ []))
    × (two_degraded.gpu ≡ 2)
gpu_degradation-pods_example =
    gpu_degradation-pods whole_numbers cell_value 1 2 first_answers error_response busy_gpu
      fresh_gpu two_degraded refl first_named
