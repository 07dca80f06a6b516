-- ===== src/Decode/Tests.antt =====
-- decode/decode.go on concrete summaries.
use gpu_metric_collector.Base.{ℕ, ◌+◌, ◌*◌, ◌^◌, ◌≤◌, ◌≡◌, refl, inr, some, none, [], ◌∷◌, ◌++◌, ok}
use gpu_metric_collector.Base.Int.{sub_ℕ}
use gpu_metric_collector.Stats.{CpuStats, MemoryStats, FsStats, NodeStats, PodStats, Summary}
use gpu_metric_collector.Storage.{NodeMetricsPoint}
use gpu_metric_collector.Samples.{nanos}
use gpu_metric_collector.Decode.{
  max_int64, uint64_quantity, get_scrape_time_pod, get_scrape_time_node, decode_node_stats,
  decode_batch, empty_node, of_pod, missing_fs,
}
use gpu_metric_collector.Decode.Quantity.{nano-uint64_quantity}
use gpu_metric_collector.Decode.Times.{get_scrape_time_node-IsEarliest, IsEarliest}
use gpu_metric_collector.Decode.Spec.{
  NodeReadable, PodsReadable, node_errors, pod_errors, pods_errors, complete_pods,
}
use gpu_metric_collector.Decode.Batch.{decode_batch-complete_pods}

abbrev cpu_at : ℕ → CpuStats
cpu_at t = record { time = t; usage_nano_cores = some 250; usage_core_nano_seconds = none }

abbrev memory_at : ℕ → MemoryStats
memory_at t = record {
  time = t;
  available_bytes = none;
  usage_bytes = some 4096;
  working_set_bytes = some 2048;
  rss_bytes = none;
  page_faults = none;
  major_page_faults = none;
}

abbrev disk : FsStats
disk = record {
  time = 0;
  available_bytes = some 10;
  capacity_bytes = some 30;
  used_bytes = some 20;
  inodes_free = none;
  inodes = none;
  inodes_used = none;
}

abbrev worker : NodeStats
worker = record {
  node_name = "worker";
  cpu = some (cpu_at 9);
  memory = some (memory_at 7);
  network = none;
  fs = some disk;
}

abbrev whole_pod : PodStats
whole_pod = record {
  pod_ref = record { name = "train"; namespace = "userpod"; uid = "u1" };
  cpu = some (cpu_at 5);
  memory = some (memory_at 6);
  network = none;
  ephemeral_storage = some disk;
}

-- It has no file system statistics, so that its slot goes to the next pod.
abbrev partial_pod : PodStats
partial_pod = record whole_pod { ephemeral_storage = none }

abbrev two_pods : Summary
two_pods = record { node = worker; pods = partial_pod ∷ whole_pod ∷ []; ip = "10.0.0.1" }

two_pods_errors : pods_errors two_pods.pods ≡ of_pod "train" missing_fs ∷ []
unfolding pods_errors pod_errors get_scrape_time_pod
two_pods_errors = refl

nano-uint64_quantity_example :
    (2 ^ 63 ≤ max_int64 → uint64_quantity nanos (2 ^ 63) (sub_ℕ 9 9) ≡ 2 ^ 63 * 10 ^ 9)
    × (uint64_quantity nanos (2 ^ 63) (sub_ℕ 9 9) ≤ 2 ^ 63 * 10 ^ 9)
    × (2 ^ 63 * 10 ^ 9 ≤ uint64_quantity nanos (2 ^ 63) (sub_ℕ 9 9) + 9 * 10 ^ 9)
nano-uint64_quantity_example = nano-uint64_quantity nanos (2 ^ 63) 9

get_scrape_time_node-IsEarliest_example :
    IsEarliest
      (get_scrape_time_node (some (cpu_at 9)) (some (memory_at 7)) none (some disk))
      (some 0 ∷ none ∷ some 7 ∷ some 9 ∷ [])
get_scrape_time_node-IsEarliest_example =
    get_scrape_time_node-IsEarliest (some (cpu_at 9)) (some (memory_at 7)) none (some disk)

readable_worker : NodeReadable worker
readable_worker = inr (inr tt, (tt, tt))

readable_pods : PodsReadable two_pods.pods
readable_pods = (inr (inr tt, tt), (inr (inr tt, (tt, tt)), tt))

two_pods_decoded :
    (node : NodeMetricsPoint ℕ) × (decode_node_stats nanos worker (empty_node nanos)
      ≡ ok (node, node_errors worker))
    × (decode_batch nanos two_pods
        ≡ ok (
          record { ip = "10.0.0.1"; node = node; pods = complete_pods nanos two_pods.pods },
          node_errors worker ++ pods_errors two_pods.pods,
        ))
two_pods_decoded = decode_batch-complete_pods nanos two_pods readable_worker readable_pods

decode_batch-complete_pods_example :
    (node : NodeMetricsPoint ℕ) × (decode_node_stats nanos worker (empty_node nanos)
      ≡ ok (node, node_errors worker))
    × (decode_batch nanos two_pods
        ≡ ok (
          record { ip = "10.0.0.1"; node = node; pods = complete_pods nanos two_pods.pods },
          node_errors worker ++ pods_errors two_pods.pods,
        ))
decode_batch-complete_pods_example =
    decode_batch-complete_pods nanos two_pods readable_worker readable_pods
