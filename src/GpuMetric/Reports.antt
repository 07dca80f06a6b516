-- ===== src/GpuMetric/Reports.antt =====
-- What a round of `Gpumetric` that goes through leaves in the node and in the database.
use gpu_metric_collector.Base.{
  ℕ, ◌≤◌, ◌<◌, ◌≡◌, refl, ◌∙◌, sym, subst, true, some, List, [], ◌∷◌, map, Outcome, ok, panic,
  index_out_of_range, length, take, arith, bind-eq-ok, ok-injective, append-nil,
}
use Prim.Native.Nat.{max}
use gpu_metric_collector.Base.Int.{ℤ, pos}
use gpu_metric_collector.Base.Text.{Text}
use gpu_metric_collector.Storage.{Quantities, Collection}
use gpu_metric_collector.Grpcs.{GrpcGpu, GrpcNode}
use gpu_metric_collector.Mps.Processes.{Host}
use gpu_metric_collector.GpuMetric.{
  GpuMap, Nvml, Loop, Round, pods_of, gpu_rounds, finish, with_driver, gpumetric,
}
use gpu_metric_collector.GpuMetric.Events.{
  gpu_points, analyzed, node_points, gpu_points-append, analyzed-append,
}
use gpu_metric_collector.GpuMetric.Rounds.{point_of, AllRead, Inv, gpu_rounds-Inv}
use gpu_metric_collector.Analyzer.Nodes.{DegradationGpu, Degradation, analyzer, analyzer-panic}

list_of_pos : {A : Type 0} (xs : List A) → 0 < length xs → (y : A) × (ys : List A) × (xs ≡ y ∷ ys)
list_of_pos [] h = elim h [ ]
list_of_pos (x ∷ xs) h = (x, xs, refl)

module _ (Q : Quantities) (host : Host) (nvml : Nvml) (collected : Collection Q.Quantity)
    (nodecpu nodememory : ℤ) (nodename : Text) where
  abbrev pub start : List GpuMap → GrpcNode → Loop
  start podmap node = record { podmap = podmap; gpus = node.node_gpu; gpuuuid = []; events = [] }

  pub start-Inv :
      (count : ℕ) (podmap : List GpuMap) (node : GrpcNode)
      → Inv nvml count (length podmap) (length node.node_gpu) 0 (start podmap node)
  unfolding gpu_points analyzed node_points
  start-Inv count podmap node = record {
    same_size = refl;
    in_range = omega arith;
    maps = omega arith;
    points = refl;
    reads = tt;
    not_analyzed = refl;
    not_written = refl;
  }

  pub gpumetric-with_driver :
      (count : ℕ) (podmap : List GpuMap) (node : GrpcNode)
      → nvml.initialized ≡ true
      → nvml.device_count ≡ some count
      → gpumetric Q host nvml collected nodecpu nodememory nodename podmap node
        ≡ with_driver Q host nvml collected nodecpu nodememory nodename count podmap node
  unfolding gpumetric
  gpumetric-with_driver count podmap node up counted = ground arith

  pub with_driver-finish :
      (count : ℕ) (podmap : List GpuMap) (node : GrpcNode) (r : Round)
      → with_driver Q host nvml collected nodecpu nodememory nodename count podmap node ≡ ok r
      → (s : Loop) × (r ≡ finish Q host nvml collected nodecpu nodememory nodename count node s)
        × Inv nvml count (length podmap) (length node.node_gpu) count s
  unfolding with_driver
  with_driver-finish count podmap node r went =
      let (s, loop, rest) =
        bind-eq-ok (gpu_rounds Q host nvml collected count count 0 (start podmap node)) _ went in
      (
        s,
        sym (ok-injective rest),
        subst (λ k. Inv nvml count (length podmap) (length node.node_gpu) k s) (omega arith)
            (gpu_rounds-Inv nvml Q host collected count (length podmap) (length node.node_gpu) count
              0 (start podmap node) s (omega arith) (start-Inv count podmap node) loop),
      )

  gpumetric-finish :
      (count : ℕ) (podmap : List GpuMap) (node : GrpcNode) (r : Round)
      → nvml.initialized ≡ true
      → nvml.device_count ≡ some count
      → gpumetric Q host nvml collected nodecpu nodememory nodename podmap node ≡ ok r
      → (s : Loop) × (r ≡ finish Q host nvml collected nodecpu nodememory nodename count node s)
        × Inv nvml count (length podmap) (length node.node_gpu) count s
  gpumetric-finish count podmap node r up counted e =
      with_driver-finish count podmap node r
        (sym (gpumetric-with_driver count podmap node up counted) ∙ e)

  -- A round that returns, on a node whose driver has `count` devices: the driver has no more devices than
  -- the node has GPUs, the first `count` GPUs hold what the driver answered about the device of their
  -- index, the GPU metrics written are those of these GPUs in order, the node has as many GPUs as
  -- before and counts all their pods, and `podmap` has an entry for each device.
  pub gpumetric-reported :
      (count : ℕ) (podmap : List GpuMap) (node : GrpcNode) (r : Round)
      → nvml.initialized ≡ true
      → nvml.device_count ≡ some count
      → gpumetric Q host nvml collected nodecpu nodememory nodename podmap node ≡ ok r
      → (count ≤ length node.node_gpu)
        × AllRead nvml 0 (take count r.node.node_gpu)
        × (gpu_points r.events ≡ map point_of (take count r.node.node_gpu))
        × (length r.node.node_gpu ≡ length node.node_gpu)
        × (r.node.total_podnum ≡ pos (pods_of r.node.node_gpu))
        × (length r.podmap ≡ max (length podmap) count)
  unfolding finish gpu_points
  gpumetric-reported count podmap node r up counted e =
      let (s, eq, inv) = gpumetric-finish count podmap node r up counted e in
      rw eq (
        inv.in_range,
        inv.reads,
        gpu_points-append s.events _ ∙ append-nil (gpu_points s.events) ∙ inv.points,
        inv.same_size,
        refl,
        omega (arith, inv.maps),
      )

  -- Each such round starts the analyzer once, with a node that has the round's GPUs but the number of
  -- pods that the round before had counted.
  pub gpumetric-analyzed :
      (count : ℕ) (podmap : List GpuMap) (node : GrpcNode) (r : Round)
      → nvml.initialized ≡ true
      → nvml.device_count ≡ some count
      → gpumetric Q host nvml collected nodecpu nodememory nodename podmap node ≡ ok r
      → analyzed r.events ≡ record (r.node) { total_podnum = node.total_podnum } ∷ []
  unfolding finish analyzed
  gpumetric-analyzed count podmap node r up counted e =
      let (s, eq, inv) = gpumetric-finish count podmap node r up counted e in
      rw eq (analyzed-append s.events _ ∙ rw inv.not_analyzed refl)

  -- On a node with a GPU that goroutine ends the process by an index out of range, whatever the
  -- database and the analysis of a GPU answer.
  pub gpumetric-analyzer_panic :
      (gpu_degradation : GrpcGpu → DegradationGpu → Outcome DegradationGpu)
      (get_node_metric : GrpcNode → Degradation → Outcome ℕ) (count : ℕ) (podmap : List GpuMap)
      (node : GrpcNode) (r : Round)
      → nvml.initialized ≡ true
      → nvml.device_count ≡ some count
      → 0 < length node.node_gpu
      → gpumetric Q host nvml collected nodecpu nodememory nodename podmap node ≡ ok r
      → (seen : GrpcNode) × (analyzed r.events ≡ seen ∷ [])
        × (analyzer gpu_degradation get_node_metric seen ≡ panic index_out_of_range)
  gpumetric-analyzer_panic gpu_degradation get_node_metric count podmap node r up counted some_gpu
        e =
      let size = (gpumetric-reported count podmap node r up counted e).3 in
      let (g, gpus, split) = list_of_pos r.node.node_gpu (omega (arith, size)) in
      (
        record (r.node) { total_podnum = node.total_podnum },
        gpumetric-analyzed count podmap node r up counted e,
        analyzer-panic gpu_degradation get_node_metric
            (record (r.node) { total_podnum = node.total_podnum }) g gpus split,
      )
