-- ===== src/GpuMetric/Ends.antt =====
-- How a round of `Gpumetric` ends: it returns, or the driver has more devices than at the start of the
-- collector and the round ends the process.
use gpu_metric_collector.Base.{
  ℕ, zero, suc, ◌+◌, ◌≤◌, ◌<◌, ◌≡◌, refl, ◌∙◌, ◌⊎◌, inl, inr, true, some, List, [], ok, panic,
  index_out_of_range, length, arith, get_elem?, get_elem?-lt, get_elem?-le, leb, Bool-cases, leb→le,
}
use gpu_metric_collector.Base.Int.{ℤ}
use gpu_metric_collector.Base.Text.{Text}
use gpu_metric_collector.Storage.{Quantities, Collection}
use gpu_metric_collector.Grpcs.{GrpcGpu, GrpcNode}
use gpu_metric_collector.Mps.Processes.{Host}
use gpu_metric_collector.Mps.Podmap.{PodGpu, Collected, gpumpsmetric}
use gpu_metric_collector.GpuMetric.{
  GpuMap, Device, Nvml, Loop, Round, grown, gpu_round, gpu_rounds, finish, with_driver, gpumetric,
}
use gpu_metric_collector.GpuMetric.Rounds.{Inv, length-grown, after, after-Inv}
use gpu_metric_collector.GpuMetric.Reports.{start, start-Inv, gpumetric-with_driver}

module _ (Q : Quantities) (host : Host) (nvml : Nvml) (collected : Collection Q.Quantity)
    (count : ℕ) where
  -- The driver has a device for each index below its count, and the pods of each device are collected.
  pub record Answers : Type 0 where
    pub device : (i : ℕ) → i < count → (d : Device) × (nvml.device i ≡ some d)
    pub pods :
        (i : ℕ) (d : Device) (podmap : List PodGpu) (gpu : GrpcGpu)
        → nvml.device i ≡ some d
        → (mps : Collected) × (gpumpsmetric Q host d.observe d.uuid collected podmap
              (record gpu { gpu_pod = [] })
            ≡ ok mps)

  module _ (answers : Answers) (known size : ℕ) where
    grown-at :
        (i : ℕ) (s : Loop)
        → i < count
        → Inv nvml count known size i s
        → (entry : GpuMap) × (get_elem? (grown count s.podmap) i ≡ some entry)
    grown-at i s below inv =
        get_elem?-lt (grown count s.podmap) i (omega (arith, length-grown count s.podmap, inv.maps))

    gpu_round-returns :
        (i : ℕ) (s : Loop)
        → i < count
        → i < size
        → Inv nvml count known size i s
        → (s' : Loop) × (gpu_round Q host nvml collected count i s ≡ ok s')
          × Inv nvml count known size (suc i) s'
    unfolding gpu_round after
    gpu_round-returns i s below lt inv =
        let (d, at) = answers.device i below in
        let (entry, found) = grown-at i s below inv in
        let in_gpus : i < length s.gpus = omega (arith, inv.same_size) in
        let (gpu, held) = get_elem?-lt s.gpus i in_gpus in
        let (mps, went) = answers.pods i d entry.pod_metric gpu at in
        (
          after nvml Q host collected count i s d mps,
          rw (at, found, held, went) refl,
          after-Inv nvml Q host collected count known size i s d mps at in_gpus below inv,
        )

    gpu_round-beyond :
        (i : ℕ) (s : Loop)
        → i < count
        → size ≤ i
        → Inv nvml count known size i s
        → gpu_round Q host nvml collected count i s ≡ panic index_out_of_range
    unfolding gpu_round
    gpu_round-beyond i s below beyond inv =
        let (d, at) = answers.device i below in
        let (entry, found) = grown-at i s below inv in
        rw (at, found, get_elem?-le s.gpus i (omega (arith, inv.same_size))) refl

    gpu_rounds-returns :
        (left i : ℕ) (s : Loop)
        → i + left ≡ count
        → count ≤ size
        → Inv nvml count known size i s
        → (s' : Loop) × (gpu_rounds Q host nvml collected count left i s ≡ ok s')
    unfolding gpu_rounds
    gpu_rounds-returns zero i s e fits inv = (s, refl)
    gpu_rounds-returns (suc left) i s e fits inv =
        let (s1, first, inv1) = gpu_round-returns i s (omega (arith, e)) (omega (arith, e)) inv in
        let (s', rest) = gpu_rounds-returns left (suc i) s1 (omega (arith, e)) fits inv1 in
        (s', rw first rest)

    gpu_rounds-beyond :
        (left i : ℕ) (s : Loop)
        → i + left ≡ count
        → size < count
        → Inv nvml count known size i s
        → gpu_rounds Q host nvml collected count left i s ≡ panic index_out_of_range
    unfolding gpu_rounds
    gpu_rounds-beyond zero i s e beyond inv = absurd (omega (arith, inv.in_range))
    gpu_rounds-beyond (suc left) i s e beyond inv = elim (Bool-cases (leb size i)) [
      | inl h ↦ rw (gpu_round-beyond i s (omega (arith, e)) (leb→le size i h) inv) refl
      | inr h ↦
          let (s1, first, inv1) =
            gpu_round-returns i s (omega (arith, e)) (ground (arith, h)) inv in
          rw first (gpu_rounds-beyond left (suc i) s1 (omega (arith, e)) beyond inv1)
    ]

  -- Where the driver answers for every device that it counts and the pods of each device are collected,
  -- the round returns if the driver counts no more devices than the node has GPUs, and else it ends the
  -- process by an index out of range.
  pub gpumetric-ends :
      (nodecpu nodememory : ℤ) (nodename : Text) (podmap : List GpuMap) (node : GrpcNode)
      → Answers
      → nvml.initialized ≡ true
      → nvml.device_count ≡ some count
      → ((count ≤ length node.node_gpu)
          × ((r : Round) × (gpumetric Q host nvml collected nodecpu nodememory nodename podmap node
                ≡ ok r)))
        ⊎ ((length node.node_gpu < count)
            × (gpumetric Q host nvml collected nodecpu nodememory nodename podmap node
                ≡ panic index_out_of_range))
  unfolding with_driver
  gpumetric-ends nodecpu nodememory nodename podmap node answers up counted =
      let begun = start-Inv Q host nvml collected nodecpu nodememory nodename count podmap node in
      let s0 = start Q host nvml collected nodecpu nodememory nodename podmap node in
      let run =
        gpumetric-with_driver Q host nvml collected nodecpu nodememory nodename count podmap node up
          counted in
      elim (Bool-cases (leb count (length node.node_gpu))) [
        | inl h ↦
            let (s, went) =
              gpu_rounds-returns answers (length podmap) (length node.node_gpu) count 0 s0
                (omega arith) (leb→le count _ h) begun in
            inl (
              leb→le count _ h,
              (
                finish Q host nvml collected nodecpu nodememory nodename count node s,
                run ∙ rw went refl,
              ),
            )
        | inr h ↦ inr (
          ground (arith, h),
          run
              ∙ rw
                  (gpu_rounds-beyond answers (length podmap) (length node.node_gpu) count 0 s0
                    (omega arith) (ground (arith, h)) begun)
                  refl,
        )
      ]
