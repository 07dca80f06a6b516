-- ===== src/Mps/Alignment.antt =====
-- With a process for every pod, the loops of `Gpumpsmetric` over `GPUPod[i]` give each pod its own.
use gpu_metric_collector.Base.{
  ℕ, suc, ◌+◌, ◌≤◌, ◌<◌, ◌≡◌, refl, sym, ap, ◌∙◌, Option, none, some, List, [], ◌∷◌, ◌++◌, Outcome,
  ok, length, arith, get_elem?, append-nil, append_assoc, length-append, get_elem?-lt,
  get_elem?-append_middle, set-append_length, if◌then◌else◌, inl, inr, Bool-cases, bind-eq-ok,
  is_empty,
}
use gpu_metric_collector.Base.Int.{pos}
use gpu_metric_collector.Base.Text.{Text, bytes_of, text_eq, text_eq→eq}
use gpu_metric_collector.Storage.{Quantities, Collection, MetricsBatch, PodMetricsPoint}
use gpu_metric_collector.Grpcs.{PodMetric}
use gpu_metric_collector.Mps.Processes.{ProcessInfo, NvmlProcess}
use gpu_metric_collector.Mps.Pods.{GpuMpsMap}
use gpu_metric_collector.Mps.Assign.{
  bare_id, find_process, assign_process, assign_pods, write_points, add_usage, with_usage,
  empty_metric, to_int64,
}
use gpu_metric_collector.Mps.Matching.{AllMatched, assign_pods-match}

abbrev Found : GpuMpsMap → ℕ → ℕ → ℕ → Text → Type 0
Found entry start k len id = (start ≤ k) × (k < start + len) × (bare_id entry ≡ ok id)

find_process-Found :
    (entry : GpuMpsMap) (ids : List Text) (start k : ℕ) (id : Text)
    → find_process entry ids start ≡ ok (some (k, id))
    → Found entry start k (length ids) id
unfolding find_process
find_process-Found entry [] start k id e = ground arith
find_process-Found entry (x ∷ xs) start k id e =
    ground (arith, find_process-Found entry xs (suc start) k id)

abbrev Place : List Text → ℕ → ℕ → Text → Type 0
Place ids start k id = (j : ℕ) × (k ≡ start + j) × (get_elem? ids j ≡ some id)

Place-suc :
    (x id : Text) (xs : List Text) (start k : ℕ)
    → Place xs (suc start) k id
    → Place (x ∷ xs) start k id
Place-suc x id xs start k (j, far, at) = (suc j, omega (arith, far), at)

-- The process that is found has the id of the entry's container.
find_process-at :
    (entry : GpuMpsMap) (ids : List Text) (start k : ℕ) (id : Text)
    → find_process entry ids start ≡ ok (some (k, id))
    → Place ids start k id
unfolding find_process
find_process-at entry [] start k id e = ground arith
find_process-at entry (x ∷ xs) start k id e =
    let later = λ (h : find_process entry xs (suc start) ≡ ok (some (k, id))).
      Place-suc x id xs start k (find_process-at entry xs (suc start) k id h) in
    elim (Bool-cases (is_empty x)) [
      | inl h ↦ later (rw h at e)
      | inr h ↦
          let (c, bare, rest) = bind-eq-ok (bare_id entry) _ (rw h at e) in
          elim (Bool-cases (text_eq x c)) [
            | inr n ↦ later (rw n at rest)
            | inl same ↦ (0, ground arith, ground (arith, text_eq→eq x c same))
          ]
    ]

write_points-suffix :
    (before points gpu_pod : List PodMetric) (i : ℕ)
    → gpu_pod ≡ before ++ points
    → i ≡ length before
    → write_points (length points) i gpu_pod ≡ ok points
unfolding write_points
write_points-suffix before [] gpu_pod i e h = refl
write_points-suffix before (p ∷ ps) gpu_pod i e h = ground (
  arith,
  get_elem?-append_middle before ps p,
  write_points-suffix (before ++ p ∷ []) ps gpu_pod (suc i)
      (e ∙ sym (append_assoc before (p ∷ []) ps)) (omega (arith, h, length-append before (p ∷ []))),
)

module _ (Q : Quantities) where
  abbrev Point : Type 0
  Point = PodMetricsPoint Q.Quantity

  abbrev later_or : Option Point → Option Point → Option Point
  later_or (some p) first = some p
  later_or none first = first

  -- The last of the kubelet's pods with the name.
  abbrev pub last_named : Text → List Point → Option Point
  last_named name [] = none
  last_named name (p ∷ ps) =
      later_or (last_named name ps) (if text_eq name (bytes_of p.name) then some p else none)

  -- The usage is that of the pod, or 0 where there is none.
  abbrev pub HasUsage : Option Point → PodMetric → Type 0
  HasUsage none m =
      (m.pod_cpu ≡ pos 0)
      × (m.pod_memory ≡ pos 0)
      × (m.pod_storage ≡ pos 0)
      × (m.pod_network_rx ≡ pos 0)
      × (m.pod_network_tx ≡ pos 0)
  HasUsage (some p) m =
      (m.pod_cpu ≡ pos (Q.milli_value p.metrics_point.cpu_usage_nano_cores))
      × (m.pod_memory ≡ pos (Q.value p.metrics_point.memory_usage_bytes))
      × (m.pod_storage ≡ pos (Q.value p.metrics_point.fs_used_bytes))
      × (m.pod_network_rx ≡ pos (Q.value p.metrics_point.network_rx_bytes))
      × (m.pod_network_tx ≡ pos (Q.value p.metrics_point.network_tx_bytes))

  abbrev with_usage_of : Option Point → PodMetric → PodMetric
  with_usage_of none m = m
  with_usage_of (some p) m = with_usage Q p m

  over_first :
      (o : Option Point) (p : Point) (m : PodMetric)
      → with_usage_of o (with_usage Q p m) ≡ with_usage_of (later_or o (some p)) m
  unfolding with_usage
  over_first none p m = refl
  over_first (some q) p m = refl

  or_none : (o : Option Point) → later_or o none ≡ o
  or_none none = refl
  or_none (some p) = refl

  add_usage-last_named :
      (ps : List Point) (m : PodMetric)
      → add_usage Q ps m ≡ with_usage_of (last_named m.pod_name ps) m
  unfolding add_usage with_usage
  add_usage-last_named [] m = refl
  add_usage-last_named (p ∷ ps) m = elim (Bool-cases (text_eq m.pod_name (bytes_of p.name))) [
    | inl h ↦
        rw h
          (add_usage-last_named ps (with_usage Q p m) ∙ over_first (last_named m.pod_name ps) p m)
    | inr h ↦ rw h (
        add_usage-last_named ps m
        ∙ ap (λ o. with_usage_of o m) (sym (or_none (last_named m.pod_name ps))))
  ]

  with_usage_of-HasUsage :
      (o : Option Point) (m : PodMetric) → HasUsage none m → HasUsage o (with_usage_of o m)
  unfolding with_usage
  with_usage_of-HasUsage none m h = h
  with_usage_of-HasUsage (some p) m h = (refl, refl, refl, refl, refl)

  abbrev SameProcess : PodMetric → PodMetric → Type 0
  SameProcess m n =
      (m.pod_name ≡ n.pod_name)
      × (m.pod_uid ≡ n.pod_uid)
      × (m.container_id ≡ n.container_id)
      × (m.pod_pid ≡ n.pod_pid)
      × (m.pod_gpu_memory ≡ n.pod_gpu_memory)
      × (m.process_name ≡ n.process_name)

  with_usage_of-SameProcess : (o : Option Point) (m : PodMetric) → SameProcess (with_usage_of o m) m
  unfolding with_usage
  with_usage_of-SameProcess none m = (refl, refl, refl, refl, refl, refl)
  with_usage_of-SameProcess (some p) m = (refl, refl, refl, refl, refl, refl)

  module _ (mps : ProcessInfo) (collected : Collection Q.Quantity) (batch : MetricsBatch Q.Quantity)
      (first : get_elem? collected.metricsbatchs 0 ≡ some batch) where
    -- The metric is about the entry's pod: about the process whose container id is the entry's, with
    -- the usage that the kubelet reports.
    pub record IsMetricOf (entry : GpuMpsMap) (m : PodMetric) : Type 0 where
      pub k : ℕ
      pub process : NvmlProcess
      pub bare : bare_id entry ≡ ok m.container_id
      pub id_at : get_elem? mps.container_id k ≡ some m.container_id
      pub process_at : get_elem? mps.nvmlprocess k ≡ some process
      pub name_at : get_elem? mps.name k ≡ some m.process_name
      pub pod_pid : m.pod_pid ≡ process.pid
      pub pod_gpu_memory : m.pod_gpu_memory ≡ to_int64 process.used_gpu_memory
      pub pod_name : m.pod_name ≡ entry.pod
      pub pod_uid : m.pod_uid ≡ entry.uid
      pub usage : HasUsage (last_named entry.pod batch.pods) m

    -- The metrics are those of the entries, one for one.
    abbrev pub Aligned : List GpuMpsMap → List PodMetric → Type 0
    Aligned [] [] = Unit {0}
    Aligned [] (m ∷ ms) = ⊥
    Aligned (e ∷ es) [] = ⊥
    Aligned (e ∷ es) (m ∷ ms) = IsMetricOf e m × Aligned es ms

    abbrev OneMore : GpuMpsMap → List PodMetric → Outcome (List PodMetric) → Type 0
    OneMore entry gpu_pod o = (m : PodMetric) × (o ≡ ok (gpu_pod ++ m ∷ [])) × IsMetricOf entry m

    assign_process-OneMore :
        (i k : ℕ) (entry : GpuMpsMap) (id : Text) (gpu_pod : List PodMetric) (process : NvmlProcess)
        (name : Text)
        → i ≡ length gpu_pod
        → bare_id entry ≡ ok id
        → get_elem? mps.container_id k ≡ some id
        → get_elem? mps.nvmlprocess k ≡ some process
        → get_elem? mps.name k ≡ some name
        → OneMore entry gpu_pod (assign_process Q mps collected i entry k id gpu_pod)
    unfolding assign_process
    assign_process-OneMore i k entry id gpu_pod process name h bare at p n =
        let o = last_named entry.pod batch.pods in
        let m = with_usage_of o named in
        let (same_name, same_uid, same_id, same_pid, same_memory, same_process) =
          with_usage_of-SameProcess o named in
        (
          m,
          rw
              (
                h,
                get_elem?-append_middle gpu_pod [] empty_metric,
                p,
                n,
                first,
                set-append_length gpu_pod empty_metric (add_usage Q batch.pods named),
              )
              (ap (λ x. ok (gpu_pod ++ x ∷ [])) (add_usage-last_named batch.pods named)),
          record {
            k = k;
            process = process;
            bare = bare ∙ ap ok (sym same_id);
            id_at = at ∙ ap some (sym same_id);
            process_at = p;
            name_at = n ∙ ap some (sym same_process);
            pod_pid = same_pid;
            pod_gpu_memory = same_memory;
            pod_name = same_name;
            pod_uid = same_uid;
            usage = with_usage_of-HasUsage o named (refl, refl, refl, refl, refl);
          },
        )
      where
        named : PodMetric
        named = record empty_metric {
          pod_gpu_memory = to_int64 process.used_gpu_memory;
          pod_pid = process.pid;
          pod_name = entry.pod;
          process_name = name;
          pod_uid = entry.uid;
          container_id = id;
        }

    abbrev AllAligned : ℕ → List GpuMpsMap → List PodMetric → Type 0
    AllAligned i entries gpu_pod =
        (out : List PodMetric) × (assign_pods Q mps collected i entries gpu_pod
          ≡ ok (gpu_pod ++ out))
        × (length out ≡ length entries)
        × Aligned entries out

    assign_pods-AllAligned :
        (i : ℕ) (entries : List GpuMpsMap) (gpu_pod : List PodMetric)
        → length mps.container_id ≤ length mps.nvmlprocess
        → length mps.container_id ≤ length mps.name
        → i ≡ length gpu_pod
        → AllMatched mps entries
        → AllAligned i entries gpu_pod
    assign_pods-AllAligned i [] gpu_pod hp hn h all =
        ([], unfold assign_pods in rw append-nil, refl, tt)
    assign_pods-AllAligned i (entry ∷ entries) gpu_pod hp hn h ((k, id, e), all) =
        let at = find_process-Found entry mps.container_id 0 k id e in
        let (process, p) = get_elem?-lt mps.nvmlprocess k (omega (arith, at.1)) in
        let (name, n) = get_elem?-lt mps.name k (omega (arith, at.1)) in
        let (j, k_is_j, at_j) = find_process-at entry mps.container_id 0 k id e in
        let id_at : get_elem? mps.container_id k ≡ some id =
          ap (get_elem? mps.container_id) (omega (arith, k_is_j)) ∙ at_j in
        let (m, assigned, of_entry) =
          assign_process-OneMore i k entry id gpu_pod process name h at.2 id_at p n in
        let (out, rest, len, aligned) =
          assign_pods-AllAligned (suc i) entries (gpu_pod ++ m ∷ []) hp hn
            (omega (arith, h, length-append gpu_pod (m ∷ []))) all in
        (
          m ∷ out,
          assign_pods-match Q mps collected i entry entries gpu_pod (gpu_pod ++ m ∷ []) k id e
                assigned
              ∙ rest
              ∙ ap ok (append_assoc gpu_pod (m ∷ []) out),
          ap suc len,
          (of_entry, aligned),
        )

    pub write_points-Aligned :
        (entries : List GpuMpsMap)
        → length mps.container_id ≤ length mps.nvmlprocess
        → length mps.container_id ≤ length mps.name
        → AllMatched mps entries
        → (gpu_pod : List PodMetric) × (assign_pods Q mps collected 0 entries [] ≡ ok gpu_pod)
          × (write_points (length entries) 0 gpu_pod ≡ ok gpu_pod)
          × Aligned entries gpu_pod
    write_points-Aligned entries hp hn all =
        let (out, assigned, len, aligned) = assign_pods-AllAligned 0 entries [] hp hn refl all in
        (out, assigned, rw (← len) (write_points-suffix [] out out 0 refl refl), aligned)
