-- ===== src/Mps/Table.antt =====
-- What the waiting loop and the table of pods of gpumpsmetric/gpumpsmetric.go agree on.
use gpu_metric_collector.Base.{
  ℕ, zero, suc, ◌+◌, ◌≤◌, ◌<◌, ◌≡◌, ◌≢◌, refl, ◌⊎◌, inl, inr, some, List, [], ◌∷◌, ◌++◌, ok, length,
  arith, length-append, Outcome-cases, Option-cases, Bool-cases, ◌==◌, ◌&&◌, not,
}
use gpu_metric_collector.Base.Text.{Text, split}
use gpu_metric_collector.Mps.Processes.{ProcessInfo, Host, get_gpu_process}
use gpu_metric_collector.Mps.Pods.{
  Pod, GpuMpsMap, Observation, count_uuid, pod_uses, count_pods, get_pod_list, wait_for_pods,
  entry_of, max_mps, put_entries, fill_mps_map,
}

split-nonempty : (sep : ℕ) (s : Text) → 0 < length (split sep s)
unfolding split
split-nonempty sep [] = omega arith
split-nonempty sep (c ∷ s) = ground (arith, split-nonempty sep s)

-- A text with one piece is that piece.
split_single : (sep : ℕ) (s : Text) → length (split sep s) ≤ 1 → split sep s ≡ s ∷ []
unfolding split
split_single sep [] h = refl
split_single sep (c ∷ s) h = ground (arith, split-nonempty sep s, split_single sep s)

put_entries-length :
    (n : ℕ) (pod : Pod) (entries entries' : List GpuMpsMap)
    → put_entries n pod entries ≡ ok entries'
    → length entries ≤ max_mps
    → (length entries' ≡ length entries + n) × (length entries' ≤ max_mps)
unfolding put_entries
put_entries-length zero pod entries entries' e h = ground arith
put_entries-length (suc n) pod entries entries' e h = elim (Outcome-cases (entry_of pod)) [
  | inr (f, x) ↦ ground arith
  | inl (entry, x) ↦ ground (
    arith,
    length-append entries (entry ∷ []),
    put_entries-length n pod (entries ++ entry ∷ []) entries',
  )
]

fill_mps_map-length :
    (uuid : Text) (pods : List Pod) (entries entries' : List GpuMpsMap)
    → fill_mps_map uuid pods entries ≡ ok entries'
    → length entries ≤ max_mps
    → (length entries' ≡ length entries + count_pods uuid pods) × (length entries' ≤ max_mps)
unfolding fill_mps_map count_pods
fill_mps_map-length uuid [] entries entries' e h = ground arith
fill_mps_map-length uuid (pod ∷ pods) entries entries' e h =
    elim (Outcome-cases (put_entries (pod_uses uuid pod) pod entries)) [
      | inr (f, x) ↦ ground arith
      | inl (more, x) ↦ ground (
        arith,
        put_entries-length (pod_uses uuid pod) pod entries more x h,
        fill_mps_map-length uuid pods more entries',
      )
    ]

-- The loop has taken pods in some round: then it saw as many uses of the GPU as processes in
-- containers, at least one, and the process table is that of the same round.
abbrev pub Agreed : Host → Text → (ℕ → Observation) → ProcessInfo → List Pod → ℕ → Type 0
Agreed host uuid observe mps pods round =
    (get_gpu_process host (observe round).processes ≡ ok (mps, count_pods uuid pods))
    × (get_pod_list (observe round).list_pods ≡ some pods)
    × (count_pods uuid pods ≢ 0)

abbrev Taken : Host → Text → (ℕ → Observation) → ℕ → ℕ → ProcessInfo → List Pod → Type 0
Taken host uuid observe left round mps pods =
    (pods ≡ []) ⊎ ((n : ℕ) × (round ≤ n) × (n < round + left) × Agreed host uuid observe mps pods n)

Taken-later :
    (host : Host) (uuid : Text) (observe : ℕ → Observation) (left round : ℕ) (mps : ProcessInfo)
    (pods : List Pod)
    → Taken host uuid observe left (suc round) mps pods
    → Taken host uuid observe (suc left) round mps pods
Taken-later host uuid observe left round mps pods (inl e) = inl e
Taken-later host uuid observe left round mps pods (inr (n, lo, hi, agreed)) =
    inr (n, omega arith, omega arith, agreed)

wait_for_pods-Taken :
    (host : Host) (uuid : Text) (observe : ℕ → Observation) (left round : ℕ)
    (mps mps' : ProcessInfo) (pods : List Pod)
    → wait_for_pods host uuid observe left round mps ≡ ok (mps', pods)
    → Taken host uuid observe left round mps' pods
unfolding wait_for_pods
wait_for_pods-Taken host uuid observe zero round mps mps' pods e = inl (ground arith)
wait_for_pods-Taken host uuid observe (suc left) round mps mps' pods e =
    elim (Outcome-cases (get_gpu_process host (observe round).processes)) [
      | inr (f, x) ↦ ground arith
      | inl ((seen, mpscount), x) ↦ elim (Option-cases (get_pod_list (observe round).list_pods)) [
        | inl y ↦ ground arith
        | inr (podlist, y) ↦
            let podnum = count_pods uuid podlist in
            elim (Bool-cases (podnum == mpscount && not (podnum == 0))) [
              | inl t ↦
                  inr (round, omega arith, omega arith, (ground arith, ground arith, ground arith))
              | inr f ↦ elim (Bool-cases (podnum == 0 && mpscount == 0)) [
                | inl t ↦ inl (ground arith)
                | inr g ↦ Taken-later host uuid observe left round mps' pods (
                    wait_for_pods-Taken host uuid observe left (suc round) seen mps' pods
                      (ground arith))
              ]
            ]
      ]
    ]

-- After the loop the table has as many entries as the pods taken name the GPU, at most 48 (a table
-- that would need more ends the collector). Where any pods were taken, it was in one of the 20 rounds,
-- in which the uses of the GPU were as many as its processes in containers, and not none.
pub wait_for_pods-fill_mps_map :
    (host : Host) (uuid : Text) (observe : ℕ → Observation) (none_yet mps : ProcessInfo)
    (pods : List Pod) (entries : List GpuMpsMap)
    → wait_for_pods host uuid observe 20 0 none_yet ≡ ok (mps, pods)
    → fill_mps_map uuid pods [] ≡ ok entries
    → (length entries ≡ count_pods uuid pods)
      × (length entries ≤ max_mps)
      × ((pods ≡ []) ⊎ ((n : ℕ) × (n < 20) × Agreed host uuid observe mps pods n))
wait_for_pods-fill_mps_map host uuid observe none_yet mps pods entries w f =
    let filled = fill_mps_map-length uuid pods [] entries f (omega arith) in
    (
      omega (arith, filled.0),
      filled.1,
      elim (wait_for_pods-Taken host uuid observe 20 0 none_yet mps pods w) [
        | inl e ↦ inl e
        | inr (n, lo, hi, agreed) ↦ inr (n, omega arith, agreed)
      ],
    )

-- How often a pod uses the GPU is how often the GPU's uuid stands among the pieces of its annotation,
-- also where the annotation has no comma and the code compares it whole.
pub pod_uses-count_uuid :
    (uuid : Text) (pod : Pod) → pod_uses uuid pod ≡ count_uuid uuid (split b',' pod.annotation_uuid)
unfolding pod_uses count_uuid
pod_uses-count_uuid uuid pod = ground (arith, split_single b',' pod.annotation_uuid)
