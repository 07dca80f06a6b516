-- ===== src/Analyzer/Degradations.antt =====
-- analyzer/analysis.go: `PodDegradation` and `GPUDegradation`, the loop over the pods of a GPU and the
-- counters of what is degraded.
use gpu_metric_collector.Base.{
  ℕ, suc, ◌≡◌, ◌≢◌, refl, sym, ap, ◌∙◌, false, List, [], ◌∷◌, ◌++◌, set, length, Outcome, ok, ◌>>=◌,
  index, bind-eq-ok, ok-injective, ltb, ◌==◌, if◌then◌else◌, arith, Bool-cases, inl, inr,
  append-nil, append_assoc, ==_iff, at_index, get_elem?-append_middle, set-append_length,
  length-append,
}
use gpu_metric_collector.Base.Int.{pos}
use gpu_metric_collector.Grpcs.{PodMetric, GrpcGpu}
use gpu_metric_collector.Analyzer.{Floats, query_failed, error_response, answered, Response}
use gpu_metric_collector.Analyzer.Columns.{Cell, Row, Answer}
use gpu_metric_collector.Analyzer.Averages.{get_gpu_metrics, read_rows}
use gpu_metric_collector.Analyzer.Nodes.{DegradationPod, DegradationGpu}
use gpu_metric_collector.Analyzer.Pods.{pod_threshold-ok}
use gpu_metric_collector.Analyzer.PodAverages.{
  PodRow, pod_row, sample, pod_verdict, rows_verdict, answer_verdict, named_pod, get_pod_metric,
}

abbrev pub no_pod : DegradationPod
no_pod = record { pod_uid = []; is_degradation = false; is_increase = false }

-- GPUDegradationCount and NodeDegradationCount.
pub record Counts : Type 0 where
  pub gpu : ℕ
  pub node : ℕ

abbrev pub name_gpu : Answer → GrpcGpu → DegradationGpu → DegradationGpu
name_gpu query_failed gpu d = d
name_gpu error_response gpu d = d
name_gpu (answered []) gpu d = d
name_gpu (answered (series ∷ results)) gpu d = record d { gpu_uuid = gpu.uuid }

-- What the queries about the pod with an index get.
abbrev pub PodAnswers : Type 0
PodAnswers = ℕ → Answer × Response

module _ (Fl : Floats) (parse_float : Cell → Fl.Float) (count_number : ℕ)
    (confidencenum : Fl.Float) where
  abbrev pub count_pod : ℕ → Counts → Counts
  count_pod verdict counts = if verdict == 0 then record counts { gpu = suc counts.gpu } else counts

  unfoldable pub pod_degradation :
      Answer × Response → PodMetric → DegradationPod → Counts → Outcome (DegradationPod × Counts)
  pod_degradation answers pod d counts =
      get_pod_metric Fl parse_float count_number confidencenum answers.0 answers.1 pod d
      >>= λ found. ok (found.1, count_pod found.0 counts)

  -- The loop of `GPUDegradation`, from the pod with index `i` on.
  unfoldable pub degrade_pods :
      PodAnswers → ℕ → List PodMetric → DegradationGpu → Counts → Outcome (DegradationGpu × Counts)
  degrade_pods answers i [] d counts = ok (d, counts)
  degrade_pods answers i (pod ∷ pods) d counts =
      let grown = d.pod ++ no_pod ∷ [] in
      index grown i >>= λ target. pod_degradation (answers i) pod target counts >>= λ found.
      degrade_pods answers (suc i) pods (record d { pod = set grown i found.0 }) found.1

  abbrev pub count_gpu : ℕ → Counts → Counts
  count_gpu verdict counts =
      if verdict == 0 then record counts { node = suc counts.node } else counts

  unfoldable pub gpu_degradation :
      PodAnswers → Answer → GrpcGpu → DegradationGpu → Counts → Outcome (DegradationGpu × Counts)
  gpu_degradation answers gpu_answer gpu d counts =
      degrade_pods answers 0 gpu.gpu_pod d counts >>= λ found.
      get_gpu_metrics Fl count_number gpu_answer gpu >>= λ verdict.
      ok (name_gpu gpu_answer gpu found.0, count_gpu verdict found.1)

  pod_verdict-ok :
      (response : Response) (pod : PodMetric) (rows : List (PodRow Fl parse_float))
      → pod_verdict Fl parse_float count_number confidencenum response pod rows ≢ ok 0
  unfolding pod_verdict
  pod_verdict-ok response pod rows e =
      let (gpu_memory, _, after_memory) =
        bind-eq-ok (sample Fl parse_float count_number confidencenum _ pod.pod_gpu_memory) _ e in
      let (network_rx, _, after_rx) =
        bind-eq-ok (sample Fl parse_float count_number confidencenum _ pod.pod_network_rx) _
          after_memory in
      let (network_tx, _, after_tx) =
        bind-eq-ok (sample Fl parse_float count_number confidencenum _ pod.pod_network_tx) _
          after_rx in
      let (memory, _, after_all) =
        bind-eq-ok (sample Fl parse_float count_number confidencenum _ pod.pod_memory) _ after_tx in
      let (storage, _, h) =
        bind-eq-ok (sample Fl parse_float count_number confidencenum _ pod.pod_storage) _
          after_all in
      pod_threshold-ok Fl confidencenum (pos count_number) _ response _ _ _ _ _ _ h

  rows_verdict-ok :
      (response : Response) (pod : PodMetric) (values : List Row)
      → rows_verdict Fl parse_float count_number confidencenum response pod values ≢ ok 0
  unfolding rows_verdict
  rows_verdict-ok response pod values e =
      let decide =
        read_rows (pod_row Fl parse_float) values
        >>= pod_verdict Fl parse_float count_number confidencenum response pod in
      elim (Bool-cases (ltb (length values) count_number)) [
        | inl few ↦
            let few_rows : (if ltb (length values) count_number then ok 2 else decide) ≡ ok 2 =
              rw few refl in
            absurd (omega (arith, ok-injective (sym few_rows ∙ e)))
        | inr enough ↦
            let decided : (if ltb (length values) count_number then ok 2 else decide) ≡ decide =
              rw enough refl in
            let (rows, _, h) =
              bind-eq-ok (read_rows (pod_row Fl parse_float) values)
                (pod_verdict Fl parse_float count_number confidencenum response pod)
                (sym decided ∙ e) in
            pod_verdict-ok response pod rows h
      ]

  answer_verdict-ok :
      (answer : Answer) (response : Response) (pod : PodMetric)
      → answer_verdict Fl parse_float count_number confidencenum answer response pod ≢ ok 0
  answer_verdict-ok query_failed response pod e = ground arith
  answer_verdict-ok error_response response pod e = ground arith
  answer_verdict-ok (answered []) response pod e = ground arith
  answer_verdict-ok (answered ([] ∷ results)) response pod e = ground arith
  answer_verdict-ok (answered ((values ∷ series) ∷ results)) response pod e =
      rows_verdict-ok response pod values e

  count_pod-not_degraded :
      (verdict : ℕ) (counts : Counts) → verdict ≢ 0 → count_pod verdict counts ≡ counts
  count_pod-not_degraded verdict counts h =
      let not_zero : (verdict == 0) ≡ false = ground (arith, ==_iff verdict 0) in rw not_zero refl

  pod_degradation-eq-ok :
      (answers : Answer × Response) (pod : PodMetric) (d : DegradationPod) (counts : Counts)
      {found : DegradationPod × Counts}
      → pod_degradation answers pod d counts ≡ ok found
      → found ≡ (named_pod Fl parse_float count_number confidencenum answers.0 pod d, counts)
  unfolding pod_degradation get_pod_metric
  pod_degradation-eq-ok answers pod d counts h =
      let named = named_pod Fl parse_float count_number confidencenum answers.0 pod d in
      let (r, got, rest) =
        bind-eq-ok
          (get_pod_metric Fl parse_float count_number confidencenum answers.0 answers.1 pod d)
          (λ (found : ℕ × DegradationPod). ok (found.1, count_pod found.0 counts)) h in
      let (verdict, decided, pair) =
        bind-eq-ok
          (answer_verdict Fl parse_float count_number confidencenum answers.0 answers.1 pod)
          (λ (verdict : ℕ). ok (verdict, named)) got in
      let not_degraded : verdict ≢ 0 =
        λ z. answer_verdict-ok answers.0 answers.1 pod (decided ∙ ap ok z) in
      sym (ok-injective rest)
      ∙ ap (λ (found : ℕ × DegradationPod). (found.1, count_pod found.0 counts))
          (sym (ok-injective pair))
      ∙ ap (λ (c : Counts). (named, c)) (count_pod-not_degraded verdict counts not_degraded)

  -- What the loop leaves for the pods from index `i` on.
  unfoldable pub named_from : PodAnswers → ℕ → List PodMetric → List DegradationPod
  named_from answers i [] = []
  named_from answers i (pod ∷ pods) =
      named_pod Fl parse_float count_number confidencenum (answers i).0 pod no_pod
      ∷ named_from answers (suc i) pods

  degrade_pods-eq-ok :
      (answers : PodAnswers) (pods : List PodMetric) (d : DegradationGpu) (counts : Counts)
      {found : DegradationGpu × Counts}
      → degrade_pods answers (length d.pod) pods d counts ≡ ok found
      → found ≡ (record d { pod = d.pod ++ named_from answers (length d.pod) pods }, counts)
  unfolding degrade_pods named_from
  degrade_pods-eq-ok answers [] d counts h =
      sym (ok-injective h)
      ∙ ap (λ (pods : List DegradationPod). (record d { pod = pods }, counts))
          (sym (append-nil d.pod))
  degrade_pods-eq-ok answers (pod ∷ pods) d counts h =
      let i = length d.pod in
      let named = named_pod Fl parse_float count_number confidencenum (answers i).0 pod no_pod in
      let grown = d.pod ++ no_pod ∷ [] in
      let next = λ (found : DegradationPod × Counts).
        degrade_pods answers (suc i) pods (record d { pod = set grown i found.0 }) found.1 in
      let (target, at, h') =
        bind-eq-ok (index grown i)
          (λ target. pod_degradation (answers i) pod target counts >>= next) h in
      let fresh : target ≡ no_pod =
        ok-injective (sym at ∙ ap at_index (get_elem?-append_middle d.pod [] no_pod)) in
      let (found', got, rest) =
        bind-eq-ok (pod_degradation (answers i) pod target counts) next h' in
      let e : found' ≡ (named, counts) =
        pod_degradation-eq-ok (answers i) pod no_pod counts
          (ap (λ t. pod_degradation (answers i) pod t counts) (sym fresh) ∙ got) in
      let after = d.pod ++ named ∷ [] in
      let stored = ap (λ pods. record d { pod = pods }) (set-append_length d.pod no_pod named) in
      let len : length after ≡ suc i = omega (arith, length-append d.pod (named ∷ [])) in
      let step : degrade_pods answers (length after) pods (record d { pod = after }) counts ≡ ok _ =
        ap (λ k. degrade_pods answers k pods (record d { pod = after }) counts) len
        ∙ sym (ap (λ t. degrade_pods answers (suc i) pods t counts) stored)
        ∙ sym (ap next e)
        ∙ rest in
      degrade_pods-eq-ok answers pods (record d { pod = after }) counts step
      ∙ ap (λ (pods : List DegradationPod). (record d { pod = pods }, counts))
          (append_assoc d.pod (named ∷ []) (named_from answers (length after) pods)
            ∙ ap (λ k. d.pod ++ named ∷ named_from answers k pods) len)

  name_gpu-pod :
      (answer : Answer) (gpu : GrpcGpu) (d : DegradationGpu) → (name_gpu answer gpu d).pod ≡ d.pod
  name_gpu-pod query_failed gpu d = refl
  name_gpu-pod error_response gpu d = refl
  name_gpu-pod (answered []) gpu d = refl
  name_gpu-pod (answered (series ∷ results)) gpu d = refl

  count_gpu-gpu : (verdict : ℕ) (counts : Counts) → (count_gpu verdict counts).gpu ≡ counts.gpu
  count_gpu-gpu verdict counts = elim (Bool-cases (verdict == 0)) [
    | inl zero_verdict ↦ rw zero_verdict refl
    | inr other ↦ rw other refl
  ]

  -- `GPUDegradation` on fresh degradation data: a call that returns has one element for each pod in
  -- order, named after the pod where the query about it brought results, and leaves the count of degraded pods
  -- as it was, whatever the floats and the answers of the database are.
  pub gpu_degradation-pods :
      (answers : PodAnswers) (gpu_answer : Answer) (gpu : GrpcGpu) (d : DegradationGpu)
      (counts : Counts) {found : DegradationGpu × Counts}
      → d.pod ≡ []
      → gpu_degradation answers gpu_answer gpu d counts ≡ ok found
      → (found.0.pod ≡ named_from answers 0 gpu.gpu_pod) × (found.1.gpu ≡ counts.gpu)
  unfolding gpu_degradation
  gpu_degradation-pods answers gpu_answer gpu d counts fresh h =
      let analyzed = λ (found : DegradationGpu × Counts).
        get_gpu_metrics Fl count_number gpu_answer gpu >>= λ verdict.
        ok (name_gpu gpu_answer gpu found.0, count_gpu verdict found.1) in
      let (looped, went, h') =
        bind-eq-ok (degrade_pods answers 0 gpu.gpu_pod d counts) analyzed h in
      let (verdict, _, last) =
        bind-eq-ok (get_gpu_metrics Fl count_number gpu_answer gpu)
          (λ (verdict : ℕ). ok (name_gpu gpu_answer gpu looped.0, count_gpu verdict looped.1)) h' in
      let first : length d.pod ≡ 0 = ap length fresh in
      let left =
        degrade_pods-eq-ok answers gpu.gpu_pod d counts
          (ap (λ i. degrade_pods answers i gpu.gpu_pod d counts) first ∙ went) in
      (
        ap (λ (f : DegradationGpu × Counts). f.0.pod) (sym (ok-injective last))
            ∙ name_gpu-pod gpu_answer gpu looped.0
            ∙ ap (λ (f : DegradationGpu × Counts). f.0.pod) left
            ∙ ap (λ xs. xs ++ named_from answers (length xs) gpu.gpu_pod) fresh,
        ap (λ (f : DegradationGpu × Counts). f.1.gpu) (sym (ok-injective last))
            ∙ count_gpu-gpu verdict looped.1
            ∙ ap (λ (f : DegradationGpu × Counts). f.1.gpu) left,
      )
