-- ===== src/GpuMetric/Events.antt =====
-- What is among the effects of a round of `Gpumetric`.
use gpu_metric_collector.Base.{◌≡◌, refl, ap, List, [], ◌∷◌, ◌++◌}
use gpu_metric_collector.Grpcs.{GrpcNode}
use gpu_metric_collector.GpuMetric.{
  GpuPoint, NodePoint, Event, write_pods, write_gpu, start_analyzer, write_node,
}

-- The GPU metrics among the events.
unfoldable pub gpu_points : List Event → List GpuPoint
gpu_points [] = []
gpu_points (write_pods pods ∷ events) = gpu_points events
gpu_points (write_gpu point ∷ events) = point ∷ gpu_points events
gpu_points (start_analyzer node ∷ events) = gpu_points events
gpu_points (write_node point ∷ events) = gpu_points events

-- The nodes that a goroutine of the analyzer was started with.
unfoldable pub analyzed : List Event → List GrpcNode
analyzed [] = []
analyzed (write_pods pods ∷ events) = analyzed events
analyzed (write_gpu point ∷ events) = analyzed events
analyzed (start_analyzer node ∷ events) = node ∷ analyzed events
analyzed (write_node point ∷ events) = analyzed events

-- The node's metrics among the events.
unfoldable pub node_points : List Event → List NodePoint
node_points [] = []
node_points (write_pods pods ∷ events) = node_points events
node_points (write_gpu point ∷ events) = node_points events
node_points (start_analyzer node ∷ events) = node_points events
node_points (write_node point ∷ events) = point ∷ node_points events

pub node_points-append :
    (xs ys : List Event) → node_points (xs ++ ys) ≡ node_points xs ++ node_points ys
unfolding node_points
node_points-append [] ys = refl
node_points-append (write_pods pods ∷ xs) ys = node_points-append xs ys
node_points-append (write_gpu point ∷ xs) ys = node_points-append xs ys
node_points-append (start_analyzer node ∷ xs) ys = node_points-append xs ys
node_points-append (write_node point ∷ xs) ys = ap (◌∷◌ point) (node_points-append xs ys)

pub gpu_points-append :
    (xs ys : List Event) → gpu_points (xs ++ ys) ≡ gpu_points xs ++ gpu_points ys
unfolding gpu_points
gpu_points-append [] ys = refl
gpu_points-append (write_pods pods ∷ xs) ys = gpu_points-append xs ys
gpu_points-append (write_gpu point ∷ xs) ys = ap (◌∷◌ point) (gpu_points-append xs ys)
gpu_points-append (start_analyzer node ∷ xs) ys = gpu_points-append xs ys
gpu_points-append (write_node point ∷ xs) ys = gpu_points-append xs ys

pub analyzed-append : (xs ys : List Event) → analyzed (xs ++ ys) ≡ analyzed xs ++ analyzed ys
unfolding analyzed
analyzed-append [] ys = refl
analyzed-append (write_pods pods ∷ xs) ys = analyzed-append xs ys
analyzed-append (write_gpu point ∷ xs) ys = analyzed-append xs ys
analyzed-append (start_analyzer node ∷ xs) ys = ap (◌∷◌ node) (analyzed-append xs ys)
analyzed-append (write_node point ∷ xs) ys = analyzed-append xs ys
