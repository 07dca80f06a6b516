-- ===== src/Mps/Shift.antt =====
-- The process table of gpumpsmetric/gpumpsmetric.go when a process runs in no container.
use gpu_metric_collector.Base.{
  ℕ, ◌+◌, ◌≡◌, refl, false, some, List, [], ◌∷◌, ◌++◌, ok, get_elem?, is_empty,
}
use gpu_metric_collector.Base.Text.{Text, text_eq_refl, split}
use gpu_metric_collector.Mps.Processes.{
  Host, NvmlProcess, ProcessInfo, skip, found, line_verdict, scan_cgroup, scan_processes,
  get_gpu_process,
}
use gpu_metric_collector.Mps.Pods.{GpuMpsMap}
use gpu_metric_collector.Mps.Assign.{bare_id, find_process}

-- No line of the file names a pod.
abbrev pub OutsidePods : List Text → Type 0
OutsidePods [] = Unit {0}
OutsidePods (line ∷ lines) = (line_verdict (split b'/' line) ≡ ok skip) × OutsidePods lines

scan_cgroup-skip :
    (lines ids : List Text) (n : ℕ) → OutsidePods lines → scan_cgroup lines ids n ≡ ok (ids, n)
unfolding scan_cgroup
scan_cgroup-skip [] ids n h = refl
scan_cgroup-skip (line ∷ lines) ids n (h, hs) = rw h (scan_cgroup-skip lines ids n hs)

scan_cgroup-found :
    (line : Text) (lines ids : List Text) (n : ℕ) (id : Text)
    → line_verdict (split b'/' line) ≡ ok (found id)
    → scan_cgroup (line ∷ lines) ids n ≡ ok (ids ++ id ∷ [], n + 1)
unfolding scan_cgroup
scan_cgroup-found line lines ids n id h = rw h

find_process-first :
    (entry : GpuMpsMap) (id : Text) (ids : List Text)
    → is_empty id ≡ false
    → bare_id entry ≡ ok id
    → find_process entry (id ∷ ids) 0 ≡ ok (some (0, id))
unfolding find_process
find_process-first entry id ids h e = rw (h, e, text_eq_refl id)

-- Where the first process of a GPU runs in no container and the second in that of a pod, one process
-- in a container is counted, and the pod is matched with index 0 of the process list: its metrics
-- get the pid and the memory of the first process.
pub get_gpu_process-shift :
    (host : Host) (p q : NvmlProcess) (line : Text) (lines : List Text) (id : Text)
    (entry : GpuMpsMap)
    → OutsidePods (host.cgroup p.pid)
    → host.cgroup q.pid ≡ line ∷ lines
    → line_verdict (split b'/' line) ≡ ok (found id)
    → is_empty id ≡ false
    → bare_id entry ≡ ok id
    → (mps : ProcessInfo) × (get_gpu_process host (p ∷ q ∷ []) ≡ ok (mps, 1))
      × (find_process entry mps.container_id 0 ≡ ok (some (0, id)))
      × (get_elem? mps.nvmlprocess 0 ≡ some p)
unfolding get_gpu_process scan_processes
get_gpu_process-shift host p q line lines id entry outside e v h b = (
  record {
    nvmlprocess = p ∷ q ∷ [];
    name = host.process_name p.pid ∷ host.process_name q.pid ∷ [];
    container_id = id ∷ [];
  },
  rw (scan_cgroup-skip (host.cgroup p.pid) [] 0 outside, e, scan_cgroup-found line lines [] 0 id v),
  find_process-first entry id [] h b,
  refl,
)
