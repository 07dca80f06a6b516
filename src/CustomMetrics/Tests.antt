-- ===== src/CustomMetrics/Tests.antt =====
-- customMetrics/customMetrics.go on a small machine, and after a malformed URL, of which no request can be made.
use gpu_metric_collector.Base.{
  String, ◌≡◌, refl, Option, none, some, List, [], ◌∷◌, ok, panic, index_out_of_range, arith,
}
use gpu_metric_collector.Base.Int.{pos}
use gpu_metric_collector.Base.Text.{bytes_of, text_eq}
use gpu_metric_collector.Storage.{MetricsBatch}
use gpu_metric_collector.Samples.{nanos}
use gpu_metric_collector.Scrap.{
  Scrape, send_response, send_err, receive_err, receive_response, scrap, Reach, start, next,
}
use gpu_metric_collector.CustomMetrics.{
  fields, cpu_cores, number, atoi, total_memory, member_metric_collector,
}
use gpu_metric_collector.CustomMetrics.Failures.{member_metric_collector-panic}

two_cores :
    cpu_cores (bytes_of "processor : 0" ∷ bytes_of "model : x" ∷ bytes_of "processor : 1" ∷ []) ≡ 2
unfolding cpu_cores fields text_eq
two_cores = refl

memory_kib :
    total_memory (bytes_of "MemTotal:   1024 kB" ∷ bytes_of "MemFree: 10 kB" ∷ []) (pos 0)
    ≡ ok (pos 1024)
unfolding total_memory fields text_eq atoi number
memory_kib = refl

-- The error of `http.NewRequest`, with which `CollectNode` returns before it has asked the kubelet.
abbrev malformed : String
malformed = "invalid character in host name"

abbrev refused : List (Option (MetricsBatch nanos.Quantity) × Option String)
refused = (none, some malformed) ∷ []

abbrev stage :
    List (Option String)
    → List (Option (MetricsBatch nanos.Quantity))
    → List (Option String)
    → Option (Option String)
    → Scrape (MetricsBatch nanos.Quantity) String
stage half responses errors holding = record {
  working = [];
  half = half;
  response_channel = responses;
  err_channel = errors;
  left = 1;
  holding = holding;
  metricsbatchs = [];
  errs = [];
}

abbrev over : Scrape (MetricsBatch nanos.Quantity) String
over = record (stage [] [] [] none) { left = 0; errs = malformed ∷ [] }

whole_run : Reach refused over
whole_run =
    next (stage [] (none ∷ []) [] (some (some malformed))) over
      (next (stage [] (none ∷ []) (some malformed ∷ []) none) _
        (next (stage (some malformed ∷ []) (none ∷ []) [] none) _
          (next (scrap refused) _ start
            (send_response [] [] none (some malformed) (scrap refused) refl (omega arith)))
          (send_err [] [] (some malformed) (stage (some malformed ∷ []) (none ∷ []) [] none) refl
            (omega arith)))
        (receive_err (some malformed) [] 0 (stage [] (none ∷ []) (some malformed ∷ []) none) refl
          refl refl))
      (receive_response none [] (some malformed) 0 (stage [] (none ∷ []) [] (some (some malformed)))
        refl refl refl)

member_metric_collector-panic_example :
    member_metric_collector nanos (bytes_of "processor : 0") (bytes_of "MemTotal: 8 kB") over
    ≡ panic index_out_of_range
member_metric_collector-panic_example =
    member_metric_collector-panic nanos (bytes_of "processor : 0") (bytes_of "MemTotal: 8 kB")
      (some malformed) over whole_run refl
