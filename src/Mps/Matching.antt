-- ===== src/Mps/Matching.antt =====
-- When every pod of a GPU gets its own metrics: the loops of `Gpumpsmetric` over `GPUPod[i]`.
use gpu_metric_collector.Base.{
  ℕ, zero, suc, ◌+◌, ◌≤◌, ◌≡◌, sym, ◌∙◌, inl, inr, some, none, List, [], ◌∷◌, ok, length, arith,
  get_elem?, length-append, length-set, lt_of_get_elem?, Outcome-cases, Option-cases,
}
use gpu_metric_collector.Base.Text.{Text}
use gpu_metric_collector.Storage.{Quantities, Collection}
use gpu_metric_collector.Grpcs.{PodMetric}
use gpu_metric_collector.Mps.Processes.{ProcessInfo}
use gpu_metric_collector.Mps.Pods.{GpuMpsMap}
use gpu_metric_collector.Mps.Assign.{find_process, assign_process, assign_pods, write_points}

-- Some process runs in the container of the entry.
abbrev pub IsMatched : ProcessInfo → GpuMpsMap → Type 0
IsMatched mps entry =
    (k : ℕ) × (id : Text) × (find_process entry mps.container_id 0 ≡ ok (some (k, id)))

abbrev pub AllMatched : ProcessInfo → List GpuMpsMap → Type 0
AllMatched mps [] = Unit {0}
AllMatched mps (e ∷ es) = IsMatched mps e × AllMatched mps es

-- `write_points` reads the metrics one after the other, and all that it asks for have to be there.
write_points-le :
    (n i : ℕ) (gpu_pod points : List PodMetric)
    → write_points n i gpu_pod ≡ ok points
    → i ≤ length gpu_pod
    → i + n ≤ length gpu_pod
unfolding write_points
write_points-le zero i gpu_pod points e h = omega arith
write_points-le (suc n) i gpu_pod points e h = elim (Option-cases (get_elem? gpu_pod i)) [
  | inl missing ↦ ground (arith, missing)
  | inr (x, at) ↦ elim (Outcome-cases (write_points n (suc i) gpu_pod)) [
    | inl (ps, rest) ↦
        omega (arith, write_points-le n (suc i) gpu_pod ps rest (lt_of_get_elem? gpu_pod i at))
    | inr (f, rest) ↦ ground arith
  ]
]

module _ (Q : Quantities) (mps : ProcessInfo) (collected : Collection Q.Quantity) where
  assign_process-length :
      (i k : ℕ) (entry : GpuMpsMap) (id : Text) (gpu_pod gpu_pod' : List PodMetric)
      → assign_process Q mps collected i entry k id gpu_pod ≡ ok gpu_pod'
      → length gpu_pod' ≡ length gpu_pod + 1
  unfolding assign_process
  assign_process-length i k entry id gpu_pod gpu_pod' e = grind (arith, length-set, length-append)

  -- One round of the loop, for each way that the search for a process ends.
  assign_pods-skip :
      (i : ℕ) (entry : GpuMpsMap) (entries : List GpuMpsMap) (gpu_pod : List PodMetric)
      → find_process entry mps.container_id 0 ≡ ok none
      → assign_pods Q mps collected i (entry ∷ entries) gpu_pod
        ≡ assign_pods Q mps collected (suc i) entries gpu_pod
  unfolding assign_pods
  assign_pods-skip i entry entries gpu_pod e = rw e

  pub assign_pods-match :
      (i : ℕ) (entry : GpuMpsMap) (entries : List GpuMpsMap) (gpu_pod gpu_pod' : List PodMetric)
      (k : ℕ) (id : Text)
      → find_process entry mps.container_id 0 ≡ ok (some (k, id))
      → assign_process Q mps collected i entry k id gpu_pod ≡ ok gpu_pod'
      → assign_pods Q mps collected i (entry ∷ entries) gpu_pod
        ≡ assign_pods Q mps collected (suc i) entries gpu_pod'
  unfolding assign_pods
  assign_pods-match i entry entries gpu_pod gpu_pod' k id e a = rw (e, a)

  abbrev Grown : List GpuMpsMap → List PodMetric → List PodMetric → Type 0
  Grown entries gpu_pod gpu_pod' =
      (length gpu_pod' ≤ length gpu_pod + length entries)
      × (length gpu_pod + length entries ≤ length gpu_pod' → AllMatched mps entries)

  assign_pods-Grown :
      (i : ℕ) (entries : List GpuMpsMap) (gpu_pod gpu_pod' : List PodMetric)
      → assign_pods Q mps collected i entries gpu_pod ≡ ok gpu_pod'
      → Grown entries gpu_pod gpu_pod'
  unfolding assign_pods
  assign_pods-Grown i [] gpu_pod gpu_pod' e = ground arith
  assign_pods-Grown i (entry ∷ entries) gpu_pod gpu_pod' e =
      elim (Outcome-cases (find_process entry mps.container_id 0)) [
        | inr (f, x) ↦ ground arith
        | inl (none, x) ↦
            let rest =
              assign_pods-Grown (suc i) entries gpu_pod gpu_pod'
                (sym (assign_pods-skip i entry entries gpu_pod x) ∙ e) in
            (omega (arith, rest.0), λ le. absurd (omega (arith, rest.0)))
        | inl (some (k, id), x) ↦
            elim (Outcome-cases (assign_process Q mps collected i entry k id gpu_pod)) [
              | inr (f, y) ↦ ground arith
              | inl (one, y) ↦
                  let grown = assign_process-length i k entry id gpu_pod one y in
                  let rest =
                    assign_pods-Grown (suc i) entries one gpu_pod'
                      (sym (assign_pods-match i entry entries gpu_pod one k id x y) ∙ e) in
                  (omega (arith, rest.0, grown), λ le. ((k, id, x), rest.1 (omega (arith, grown))))
            ]
      ]

  -- A call that returns had a process for every pod of the table: where a pod has none, the loops
  -- that read `GPUPod[i]` leave the slice, and the collector ends.
  pub write_points-AllMatched :
      (entries : List GpuMpsMap) (gpu_pod points : List PodMetric)
      → assign_pods Q mps collected 0 entries [] ≡ ok gpu_pod
      → write_points (length entries) 0 gpu_pod ≡ ok points
      → AllMatched mps entries
  write_points-AllMatched entries gpu_pod points a w =
      (assign_pods-Grown 0 entries [] gpu_pod a).1
        (omega (arith, write_points-le (length entries) 0 gpu_pod points w))
