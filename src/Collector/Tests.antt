-- ===== src/Collector/Tests.antt =====
-- A round of the main loop of cmd/main.go on a node with an idle driver, from the kubelet's summary on.
use gpu_metric_collector.Base.{
  ℕ, ◌≡◌, refl, true, Option, none, some, List, [], ◌∷◌, Outcome, ok, panic, arith,
}
use gpu_metric_collector.Base.Text.{bytes_of, split, text_eq}
use gpu_metric_collector.Stats.{Summary, InterfaceStats}
use gpu_metric_collector.Storage.{MetricsBatch, point_at}
use gpu_metric_collector.Samples.{nanos}
use gpu_metric_collector.Decode.{
  DecodeError, decode_batch, decode_node_stats, decode_memory, decode_fs, decode_pods,
}
use gpu_metric_collector.Scrap.{
  Scrape, send_response, send_err, receive_err, receive_response, scrap, Reach, start as begin,
  next,
}
use gpu_metric_collector.CustomMetrics.{
  fields, number, atoi, total_memory, add_to_pod_custom_metric_server, member_metric_collector,
}
use gpu_metric_collector.Mps.Processes.{Host}
use gpu_metric_collector.GpuMetric.{Nvml, Round, gpumetric, with_driver, gpu_rounds}
use gpu_metric_collector.Server.{Server}
use gpu_metric_collector.Collector.{Hardware, gpu_flops, start, collector_round}
use gpu_metric_collector.Collector.Network.{Silent, collector_round-Silent}

abbrev t4 : Hardware
t4 = record {
  uuid = bytes_of "GPU-1";
  max_clock = 1590;
  cuda_cores = 2560;
  architecture = 6;
  max_operating = 85;
  shutdown = 96;
  threshold = 93;
}

t4_flops : gpu_flops t4.max_clock t4.cuda_cores ≡ 8140
unfolding gpu_flops
t4_flops = refl

abbrev begun : Server
begun = start (bytes_of "worker") [] (t4 ∷ [])

abbrev eth0 : InterfaceStats
eth0 = record {
  name = "eth0";
  rx_bytes = some 5000;
  rx_errors = some 0;
  tx_bytes = some 700;
  tx_errors = some 0;
}

abbrev busy_node : Summary
busy_node = record {
  node = record {
    node_name = "worker";
    cpu = some (record { time = 9; usage_nano_cores = some 250; usage_core_nano_seconds = none });
    memory = none;
    network = some (record { time = 9; interfaces = eth0 ∷ [] });
    fs = none;
  };
  pods = [];
  ip = "10.0.0.1";
}

-- The memory and the file system are not reported, so that the node's only amount is the CPU's.
abbrev decoded : Outcome (MetricsBatch ℕ × List DecodeError)
decoded = decode_batch nanos busy_node

abbrev batch_of : Outcome (MetricsBatch ℕ × List DecodeError) → MetricsBatch ℕ
batch_of (ok (b, errs)) = b
batch_of (panic fault) = record {
  ip = "";
  node = record { name = ""; metrics_point = point_at nanos 0 };
  pods = [];
}

abbrev errors_of : Outcome (MetricsBatch ℕ × List DecodeError) → List DecodeError
errors_of (ok (b, errs)) = errs
errors_of (panic fault) = []

abbrev batch : MetricsBatch ℕ
batch = batch_of decoded

decodes : decoded ≡ ok (batch, errors_of decoded)
unfolding decode_batch decode_node_stats decode_memory decode_fs decode_pods
decodes = refl

abbrev answered : List (Option (MetricsBatch ℕ) × Option ℕ)
answered = (some batch, none) ∷ []

abbrev stage :
    List (Option ℕ)
    → List (Option (MetricsBatch ℕ))
    → List (Option ℕ)
    → Option (Option ℕ)
    → Scrape (MetricsBatch ℕ) ℕ
stage half responses errors holding = record {
  working = [];
  half = half;
  response_channel = responses;
  err_channel = errors;
  left = 1;
  holding = holding;
  metricsbatchs = [];
  errs = [];
}

abbrev over : Scrape (MetricsBatch ℕ) ℕ
over = record (stage [] [] [] none) { left = 0; metricsbatchs = batch ∷ [] }

whole_run : Reach answered over
whole_run =
    next (stage [] (some batch ∷ []) [] (some none)) over
      (next (stage [] (some batch ∷ []) (none ∷ []) none) _
        (next (stage (none ∷ []) (some batch ∷ []) [] none) _
          (next (scrap answered) _ begin
            (send_response [] [] (some batch) none (scrap answered) refl (omega arith)))
          (send_err [] [] none (stage (none ∷ []) (some batch ∷ []) [] none) refl (omega arith)))
        (receive_err none [] 0 (stage [] (some batch ∷ []) (none ∷ []) none) refl refl refl))
      (receive_response (some batch) [] none 0 (stage [] (some batch ∷ []) [] (some none)) refl refl
        refl)

abbrev idle_driver : Nvml
idle_driver = record { initialized = true; device_count = some 0; device = λ i. none }

abbrev host : Host
host = record { cgroup = λ pid. []; process_name = λ pid. [] }

abbrev one_round : Outcome Round
one_round =
    collector_round nanos host idle_driver (bytes_of "processor : 0") (bytes_of "MemTotal: 8 kB")
      over [] begun.node

abbrev round_of : Outcome Round → Round
round_of (ok r) = r
round_of (panic fault) = record { podmap = []; node = begun.node; events = [] }

went : one_round ≡ ok (round_of one_round)
unfolding collector_round gpumetric with_driver gpu_rounds member_metric_collector
    add_to_pod_custom_metric_server total_memory fields split text_eq atoi number
went = refl

collector_round-Silent_example : Silent (round_of one_round)
collector_round-Silent_example =
    collector_round-Silent nanos host idle_driver (bytes_of "processor : 0")
      (bytes_of "MemTotal: 8 kB") busy_node batch (errors_of decoded) none over [] begun.node
      (round_of one_round) decodes whole_run refl went
