-- ===== src/Decode/Pods.antt =====
-- What decode/decode.go makes of one pod and of the node.
use gpu_metric_collector.Base.{
  ◌≡◌, none, some, List, ◌∷◌, ok, panic, Fault, is_empty, arith, if◌then◌else◌,
}
use gpu_metric_collector.Stats.{NodeStats, PodStats}
use gpu_metric_collector.Storage.{point_at, Quantities, PodMetricsPoint, NodeMetricsPoint}
use gpu_metric_collector.Decode.{
  DecodeError, decode_cpu, decode_memory, decode_fs, decode_node_stats, decode_pod_stats,
}
use gpu_metric_collector.Decode.Spec.{
  NodeReadable, PodReadable, node_errors, pod_errors, pod_point, complete_pods,
}

module _ (Q : Quantities) where
  open Q use {Quantity}

  -- A readable pod is decoded, whatever its slot held.
  pub decode_pod_returns :
      (p : PodStats) (target : PodMetricsPoint Quantity) (x : Fault)
      → PodReadable p
      → decode_pod_stats Q p target ≡ panic x
      → ⊥
  unfolding decode_pod_stats decode_cpu decode_memory decode_fs
  decode_pod_returns p target x h e = ground arith

  pub decode_pod_errors :
      (p : PodStats) (target target' : PodMetricsPoint Quantity) (errs : List DecodeError)
      → decode_pod_stats Q p target ≡ ok (target', errs)
      → errs ≡ pod_errors p
  unfolding decode_pod_stats decode_cpu decode_memory decode_fs pod_errors
  decode_pod_errors p target target' errs e = ground arith

  pub decode_pod_point :
      (p : PodStats) (target target' : PodMetricsPoint Quantity) (errs : List DecodeError)
      → decode_pod_stats Q p target ≡ ok (target', errs)
      → pod_point Q p ≡ (if is_empty errs then some target' else none)
  unfolding decode_pod_stats decode_cpu decode_memory decode_fs point_at pod_point
  decode_pod_point p target target' errs e = ground arith

  pub decode_node_returns :
      (n : NodeStats) (target : NodeMetricsPoint Quantity) (x : Fault)
      → NodeReadable n
      → decode_node_stats Q n target ≡ panic x
      → ⊥
  unfolding decode_node_stats decode_cpu decode_memory decode_fs
  decode_node_returns n target x h e = ground arith

  pub decode_node_errors :
      (n : NodeStats) (target target' : NodeMetricsPoint Quantity) (errs : List DecodeError)
      → decode_node_stats Q n target ≡ ok (target', errs)
      → errs ≡ node_errors n
  unfolding decode_node_stats decode_cpu decode_memory decode_fs node_errors
  decode_node_errors n target target' errs e = ground arith

  pub complete_pods-none :
      (p : PodStats) (ps : List PodStats)
      → pod_point Q p ≡ none
      → complete_pods Q (p ∷ ps) ≡ complete_pods Q ps
  unfolding complete_pods
  complete_pods-none p ps e = ground arith

  pub complete_pods-some :
      (p : PodStats) (ps : List PodStats) (t : PodMetricsPoint Quantity)
      → pod_point Q p ≡ some t
      → complete_pods Q (p ∷ ps) ≡ t ∷ complete_pods Q ps
  unfolding complete_pods
  complete_pods-some p ps t e = ground arith
