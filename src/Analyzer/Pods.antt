-- ===== src/Analyzer/Pods.antt =====
-- Why no pod is ever reported by analyzer/analysis.go.
use gpu_metric_collector.Base.{◌≢◌, Bool, List, [], ◌∷◌, ok, arith}
use gpu_metric_collector.Base.Int.{ℤ}
use gpu_metric_collector.Analyzer.{
  Floats, query_failed, error_response, answered, Response, get_pod_pattern, Sample, pattern_result,
  later_metrics, pod_threshold,
}

pattern_result-ok : (Fl : Floats) (response : Response) → pattern_result Fl response ≢ ok 0
unfolding pattern_result get_pod_pattern
pattern_result-ok Fl query_failed e = ground arith
pattern_result-ok Fl error_response e = ground arith
pattern_result-ok Fl (answered []) e = ground arith
pattern_result-ok Fl (answered ([] ∷ results)) e = ground arith
pattern_result-ok Fl (answered ((values ∷ series) ∷ results)) e = ground arith

later_metrics-ok :
    (Fl : Floats) (confidencenum : Fl.Float) (count : ℤ) (response : Response)
    (samples : List (Sample Fl))
    → later_metrics Fl confidencenum count response samples ≢ ok 0
unfolding later_metrics
later_metrics-ok Fl confidencenum count response [] e = ground arith
later_metrics-ok Fl confidencenum count response (s ∷ samples) e =
    ground (
      arith,
      pattern_result-ok Fl response,
      later_metrics-ok Fl confidencenum count response samples,
    )

-- `PodThreshold` never reports a pod as degraded (0), whatever the floats, the pod's metrics and the
-- database's answer are.
pub pod_threshold-ok :
    (Fl : Floats) (confidencenum : Fl.Float) (count : ℤ) (trend_cpu : Bool) (response : Response)
    (cpu gpu_memory memory network_rx network_tx storage : Sample Fl)
    → pod_threshold Fl confidencenum count trend_cpu response cpu gpu_memory memory network_rx
        network_tx storage
      ≢ ok 0
unfolding pod_threshold
pod_threshold-ok Fl confidencenum count trend_cpu response cpu gpu_memory memory network_rx
      network_tx storage e =
    ground (
      arith,
      pattern_result-ok Fl response,
      later_metrics-ok Fl confidencenum count response
          (gpu_memory ∷ memory ∷ network_rx ∷ network_tx ∷ storage ∷ []),
    )
