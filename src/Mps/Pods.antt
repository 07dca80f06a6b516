-- ===== src/Mps/Pods.antt =====
-- The pods of a GPU: `getpodlist` of gpumpsmetric/gpumpsmetric.go, the loop that waits until as many
-- pods as processes are seen, and the table of pods that follows it.
use gpu_metric_collector.Base.{
  ℕ, zero, suc, ◌+◌, true, false, ◌&&◌, not, Option, none, some, List, [], ◌∷◌, ◌++◌, Outcome, ok,
  panic, index_out_of_range, fatal, ◌>>=◌, index, deref, length, ltb, ◌==◌, if◌then◌else◌,
}
use gpu_metric_collector.Base.Text.{Text, text_eq, split}
use gpu_metric_collector.Mps.Processes.{Host, NvmlProcess, ProcessInfo, get_gpu_process}

-- The parts of a Kubernetes pod that are read. `running` is the start time in State.Running.
pub record ContainerStatus : Type 0 where
  pub container_id : Text
  pub running : Option ℕ

pub record Pod : Type 0 where
  pub uid : Text
  pub name : Text
  pub annotation_uuid : Text
  pub containers : List Text
  pub container_statuses : List ContainerStatus

-- Up to three more tries; `attempt i` is what the API server answers to the i-th request.
retry : (ℕ → Option (List Pod)) → ℕ → ℕ → Option (List Pod) → Option (List Pod)
retry attempt zero i answer = answer
retry attempt (suc left) i (some pods) = some pods
retry attempt (suc left) i none = retry attempt left (suc i) (attempt i)

unfoldable pub get_pod_list : (ℕ → Option (List Pod)) → Option (List Pod)
unfolding retry
get_pod_list attempt = retry attempt 3 1 (attempt 0)

unfoldable pub count_uuid : Text → List Text → ℕ
count_uuid uuid [] = 0
count_uuid uuid (a ∷ as') = let n = count_uuid uuid as' in if text_eq a uuid then suc n else n

-- How often a pod's annotation names the GPU.
unfoldable pub pod_uses : Text → Pod → ℕ
unfolding count_uuid
pod_uses uuid pod =
    let annotation_uuid = split b',' pod.annotation_uuid in
    if ltb 1 (length annotation_uuid)
    then count_uuid uuid annotation_uuid
    else if text_eq pod.annotation_uuid uuid
    then 1
    else 0

unfoldable pub count_pods : Text → List Pod → ℕ
count_pods uuid [] = 0
count_pods uuid (pod ∷ pods) = pod_uses uuid pod + count_pods uuid pods

-- What one round of the loop sees.
pub record Observation : Type 0 where
  pub processes : List NvmlProcess
  pub list_pods : ℕ → Option (List Pod)

or_fatal {ℓ} : {A : Type ℓ} → Option A → Outcome A
or_fatal none = panic fatal
or_fatal (some a) = ok a

-- The loop over `loopnum`. It stops when as many pods as processes are seen; after the last round,
-- or when there are neither, no pod is taken.
unfoldable pub wait_for_pods :
    Host → Text → (ℕ → Observation) → ℕ → ℕ → ProcessInfo → Outcome (ProcessInfo × List Pod)
unfolding or_fatal
wait_for_pods host uuid observe zero loopnum mps = ok (mps, [])
wait_for_pods host uuid observe (suc left) loopnum mps = do
  let seen = observe loopnum
  (mps', mpscount) ← get_gpu_process host seen.processes
  podlist ← or_fatal (get_pod_list seen.list_pods)
  let podnum = count_pods uuid podlist
  let rest = wait_for_pods host uuid observe left (suc loopnum) mps'
  if podnum == mpscount && not (podnum == 0)
      then ok (mps', podlist)
      else if podnum == 0 && mpscount == 0
      then ok (mps', [])
      else rest

pub record GpuMpsMap : Type 0 where
  pub uid : Text
  pub container : Text
  pub container_id : Text
  pub pod : Text
  pub start_time : ℕ

abbrev pub max_mps : ℕ
max_mps = 48

-- The entry that a pod makes. It panics on a pod with no container, or one that is not running.
unfoldable pub entry_of : Pod → Outcome GpuMpsMap
entry_of pod = do
  container ← index pod.containers 0
  status ← index pod.container_statuses 0
  start ← deref status.running
  ok (record {
    uid = pod.uid;
    container = container;
    container_id = status.container_id;
    pod = pod.name;
    start_time = start;
  })

-- `gpumpsmap[podnum] = …; podnum++`, as often as the pod names the GPU, in an array of 48.
unfoldable pub put_entries : ℕ → Pod → List GpuMpsMap → Outcome (List GpuMpsMap)
put_entries zero pod entries = ok entries
put_entries (suc n) pod entries = elim (ltb (length entries) max_mps) [
  | true ↦ do entry ← entry_of pod; put_entries n pod (entries ++ entry ∷ [])
  | false ↦ panic index_out_of_range
]

unfoldable pub fill_mps_map : Text → List Pod → List GpuMpsMap → Outcome (List GpuMpsMap)
fill_mps_map uuid [] entries = ok entries
fill_mps_map uuid (pod ∷ pods) entries = do
  entries' ← put_entries (pod_uses uuid pod) pod entries
  fill_mps_map uuid pods entries'
