-- ===== src/Mps/Podmap.antt =====
-- The table of the containers that a GPU ever ran, and the counters of assigned and returned pods:
-- the end of `Gpumpsmetric` of gpumpsmetric/gpumpsmetric.go, and the whole of it.
use gpu_metric_collector.Base.{
  ℕ, Bool, true, false, not, List, [], ◌∷◌, ◌++◌, Outcome, ok, ◌>>=◌, length, if◌then◌else◌,
}
use gpu_metric_collector.Base.Int.{ℤ, pos, ◌+ℤ◌}
use gpu_metric_collector.Base.Text.{Text, text_eq}
use gpu_metric_collector.Storage.{Quantities, Collection}
use gpu_metric_collector.Grpcs.{PodMetric, GrpcGpu}
use gpu_metric_collector.Mps.Processes.{Host, ProcessInfo}
use gpu_metric_collector.Mps.Pods.{Observation, wait_for_pods, fill_mps_map}
use gpu_metric_collector.Mps.Assign.{assign_pods, write_points}

-- storage.PodGPU: the fields that some code reads.
pub record PodGpu : Type 0 where
  pub container_id : Text
  pub running_check : Bool
  pub health_check : Bool

unfoldable pub reset_running : List PodGpu → List PodGpu
reset_running [] = []
reset_running (p ∷ ps) = record p { running_check = false } ∷ reset_running ps

unfoldable pub is_known : Text → List PodGpu → Bool
is_known id [] = false
is_known id (p ∷ ps) = if text_eq id p.container_id then true else is_known id ps

-- Marks the first entry of the container.
unfoldable pub mark_running : Text → List PodGpu → List PodGpu
mark_running id [] = []
mark_running id (p ∷ ps) =
    if text_eq id p.container_id
    then record p { running_check = true } ∷ ps
    else p ∷ mark_running id ps

abbrev pub new_pod : Text → PodGpu
new_pod id = record { container_id = id; running_check = false; health_check = false }

-- A new container is counted as assigned, and enters the table with both flags unset.
unfoldable pub note_pod : PodMetric → List PodGpu → ℤ → List PodGpu × ℤ
note_pod m podmap assigned =
    if is_known m.container_id podmap
    then (mark_running m.container_id podmap, assigned)
    else (podmap ++ new_pod m.container_id ∷ [], assigned +ℤ pos 1)

-- The loop over the pods of the GPU.
unfoldable pub note_pods : List PodMetric → List PodGpu → ℤ → List PodGpu × ℤ
note_pods [] podmap assigned = (podmap, assigned)
note_pods (m ∷ ms) podmap assigned =
    let (podmap', assigned') = note_pod m podmap assigned in note_pods ms podmap' assigned'

-- The loop that counts the pods that are gone. No entry is removed.
unfoldable pub count_returned : List PodGpu → ℤ → ℤ
count_returned [] returned = returned
count_returned (p ∷ ps) returned = count_returned ps (
    if not p.running_check
    then if p.health_check then returned +ℤ pos 1 else returned
    else returned)

unfoldable pub update_podmap : List PodGpu → GrpcGpu → List PodGpu × GrpcGpu
update_podmap podmap gpu =
    let (podmap', assigned) = note_pods gpu.gpu_pod (reset_running podmap) gpu.gpu_assingment in
    (
      podmap',
      record gpu { gpu_assingment = assigned; gpu_return = count_returned podmap' gpu.gpu_return },
    )

-- What one call leaves behind: the table, the GPU, the points written, and the number of pods.
pub record Collected : Type 0 where
  pub podmap : List PodGpu
  pub gpu : GrpcGpu
  pub points : List PodMetric
  pub podnum : ℕ

unfoldable pub gpumpsmetric :
    (Q : Quantities)
    → Host
    → (ℕ → Observation)
    → Text
    → Collection Q.Quantity
    → List PodGpu
    → GrpcGpu
    → Outcome Collected
unfolding update_podmap
gpumpsmetric Q host observe uuid collected podmap gpu = do
  (mps, runpodlist) ← wait_for_pods host uuid observe 20 0 no_processes
  entries ← fill_mps_map uuid runpodlist []
  gpu_pod ← assign_pods Q mps collected 0 entries gpu.gpu_pod
  let (podmap', gpu') = update_podmap podmap (record gpu { gpu_pod = gpu_pod })
  points ← write_points (length entries) 0 gpu_pod
  ok (record { podmap = podmap'; gpu = gpu'; points = points; podnum = length entries })
  where
    no_processes : ProcessInfo
    no_processes = record { nvmlprocess = []; name = []; container_id = [] }
