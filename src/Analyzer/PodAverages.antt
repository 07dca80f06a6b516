-- ===== src/Analyzer/PodAverages.antt =====
-- analyzer/analysis.go: `GetPodMetric`, which compares a pod's current metrics with the averages and
-- deviations of the rows of the database.
use gpu_metric_collector.Base.{
  ℕ, Bool, List, [], ◌∷◌, map, Outcome, ok, panic, nil_dereference, ◌>>=◌, index, length, ltb,
  if◌then◌else◌,
}
use gpu_metric_collector.Base.Int.{ℤ, pos}
use gpu_metric_collector.Grpcs.{PodMetric}
use gpu_metric_collector.Analyzer.{
  Floats, query_failed, error_response, answered, Response, Sample, pod_threshold,
}
use gpu_metric_collector.Analyzer.Columns.{Cell, Row, Answer, column}
use gpu_metric_collector.Analyzer.Trends.{get_trands, deviations}
use gpu_metric_collector.Analyzer.Averages.{read_rows, mean}
use gpu_metric_collector.Analyzer.Nodes.{DegradationPod}

-- `parse_float` is strconv.ParseFloat of a printed cell, without its error.
module _ (Fl : Floats) (parse_float : Cell → Fl.Float) where
  open Fl use {Float, of_int, plus, minus, over, pow}

  abbrev pub ratio : ℕ → ℕ → Float
  ratio m n = over (of_int (pos m)) (of_int (pos n))

  -- The bound that `Analyzer` chooses for `*ConfidenceInterval`; `equal` is Go's == on float64.
  unfoldable pub confidence : (Float → Float → Bool) → Float → Float
  confidence equal interval =
      if equal interval (of_int (pos 90))
      then ratio 1645 1000
      else if equal interval (of_int (pos 95))
      then ratio 196 100
      else if equal interval (of_int (pos 99))
      then ratio 258 100
      else if equal interval (ratio 999 10)
      then ratio 33 10
      else ratio 196 100

  -- The columns of a row that `GetPodMetric` reads.
  pub record PodRow : Type 0 where
    pub cpu : Float
    pub gpu_memory : ℤ
    pub network_rx : ℤ
    pub network_tx : ℤ
    pub memory : ℤ
    pub storage : ℤ

  unfoldable pub pod_row : Row → Outcome PodRow
  pod_row row = do
    cpu ← index row 2
    gpu_memory ← column row 3
    network_rx ← column row 4
    network_tx ← column row 5
    memory ← column row 6
    storage ← column row 10
    ok (record {
      cpu = parse_float cpu;
      gpu_memory = gpu_memory;
      network_rx = network_rx;
      network_tx = network_tx;
      memory = memory;
      storage = storage;
    })

  unfoldable pub float_sum : List Float → Float → Float
  float_sum [] total = total
  float_sum (x ∷ xs) total = float_sum xs (plus x total)

  unfoldable pub float_deviations : Float → List Float → Float → Float
  float_deviations aver [] total = total
  float_deviations aver (x ∷ xs) total =
      float_deviations aver xs (plus total (pow (minus x aver) (of_int (pos 2))))

  -- `*CountNumber` and the bound that `Analyzer` chooses for the confidence interval.
  module _ (count_number : ℕ) (confidencenum : Float) where
    abbrev pub degrees : Float
    degrees = minus (of_int (pos count_number)) (of_int (pos 1))

    unfoldable pub aver_cpu : List Float → Float
    aver_cpu xs = over (float_sum xs (of_int (pos 0))) (of_int (pos count_number))

    unfoldable pub cpu_sample : List Float → ℤ → Sample Fl
    unfolding aver_cpu
    cpu_sample xs current = record {
      aver = aver_cpu xs;
      st_dev = over (float_deviations (aver_cpu xs) xs (of_int (pos 0))) degrees;
      current = of_int current;
    }

    unfoldable pub sample : List ℤ → ℤ → Outcome (Sample Fl)
    sample xs current = do
      aver ← mean Fl count_number xs
      ok (record {
        aver = of_int aver;
        st_dev = over (deviations Fl aver xs (of_int (pos 0))) degrees;
        current = of_int current;
      })

    -- `response` is what the query of `GetPodPattern` gets.
    unfoldable pub pod_verdict : Response → PodMetric → List PodRow → Outcome ℕ
    unfolding cpu_sample aver_cpu sample
    pod_verdict response pod rows = do
      let cpu = map (λ (r : PodRow). r.cpu) rows
      gpu_memory ← sample (map (λ (r : PodRow). r.gpu_memory) rows) pod.pod_gpu_memory
      network_rx ← sample (map (λ (r : PodRow). r.network_rx) rows) pod.pod_network_rx
      network_tx ← sample (map (λ (r : PodRow). r.network_tx) rows) pod.pod_network_tx
      memory ← sample (map (λ (r : PodRow). r.memory) rows) pod.pod_memory
      storage ← sample (map (λ (r : PodRow). r.storage) rows) pod.pod_storage
      pod_threshold Fl confidencenum (pos count_number) (get_trands Fl cpu (aver_cpu cpu)) response
          (cpu_sample cpu pod.pod_cpu) gpu_memory memory network_rx network_tx storage

    -- The verdict on the rows: 2 is that there are too few.
    unfoldable pub rows_verdict : Response → PodMetric → List Row → Outcome ℕ
    unfolding pod_verdict
    rows_verdict response pod values =
        let decide = read_rows pod_row values >>= pod_verdict response pod in
        if ltb (length values) count_number then ok 2 else decide

    -- The message on an error calls `response.Error()`, which ends the process where there is no
    -- response.
    abbrev pub answer_verdict : Answer → Response → PodMetric → Outcome ℕ
    answer_verdict query_failed response pod = panic nil_dereference
    answer_verdict error_response response pod = ok 2
    answer_verdict (answered []) response pod = ok 2
    answer_verdict (answered ([] ∷ results)) response pod = ok 2
    answer_verdict (answered ((values ∷ series) ∷ results)) response pod =
        rows_verdict response pod values

    -- A query that brings no results leaves the degradation data as it is.
    abbrev pub named_pod : Answer → PodMetric → DegradationPod → DegradationPod
    named_pod query_failed pod d = d
    named_pod error_response pod d = d
    named_pod (answered results) pod d = record d { pod_uid = pod.pod_uid }

    unfoldable pub get_pod_metric :
        Answer → Response → PodMetric → DegradationPod → Outcome (ℕ × DegradationPod)
    get_pod_metric answer response pod d = do
      verdict ← answer_verdict answer response pod
      ok (verdict, named_pod answer pod d)
