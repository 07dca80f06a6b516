-- ===== src/Mps/Processes.antt =====
-- `getgpuprocess` of gpumpsmetric/gpumpsmetric.go: the container of each GPU process.
use gpu_metric_collector.Base.{
  ℕ, ◌+◌, Bool, true, false, ◌&&◌, ◌||◌, List, [], ◌∷◌, ◌++◌, Outcome, ok, ◌>>=◌, index, length,
  ltb, if◌then◌else◌,
}
use gpu_metric_collector.Base.Text.{Text, bytes_of, text_eq, split}

pub record NvmlProcess : Type 0 where
  pub pid : ℕ
  pub used_gpu_memory : ℕ

-- The three slices are filled side by side.
pub record ProcessInfo : Type 0 where
  pub nvmlprocess : List NvmlProcess
  pub name : List Text
  pub container_id : List Text

-- What the operating system and the driver tell of a process: the lines of /proc/PID/cgroup (none
-- where the file cannot be opened) and `nvml.SystemGetProcessName`.
pub record Host : Type 0 where
  pub cgroup : ℕ → List Text
  pub process_name : ℕ → Text

-- What the loop over the lines does at one line: go on, note a container with no name and go on, or
-- note a container and stop.
pub data Verdict : Type 0 where
  skip unnamed : Verdict
  found : Text → Verdict

unfoldable pub is_kubepods : Text → Bool
is_kubepods root = text_eq root (bytes_of "kubepods") || text_eq root (bytes_of "kubepods.slice")

-- `cgroups[4]`, or what stands in it between the first dash and the dot behind that.
unfoldable pub container_of : Text → Outcome Text
container_of part =
    let tmpslice = split b'-' part in
    if ltb 1 (length tmpslice)
    then (do second ← index tmpslice 1; index (split b'.' second) 0)
    else ok part

unfoldable pub line_verdict : List Text → Outcome Verdict
unfolding is_kubepods container_of
line_verdict cgroups = do
  root ← index cgroups 1
  elim (is_kubepods root && ltb 3 (length cgroups)) [
    | true ↦ do part ← index cgroups 4; id ← container_of part; ok (found id)
    | false ↦ ok (if is_kubepods root then unnamed else skip)
  ]

unfoldable pub scan_cgroup : List Text → List Text → ℕ → Outcome (List Text × ℕ)
scan_cgroup [] ids mpscount = ok (ids, mpscount)
scan_cgroup (line ∷ lines) ids mpscount = do
  verdict ← line_verdict (split b'/' line)
  elim verdict [
    | skip ↦ scan_cgroup lines ids mpscount
    | unnamed ↦ scan_cgroup lines (ids ++ [] ∷ []) mpscount
    | found id ↦ ok (ids ++ id ∷ [], mpscount + 1)
  ]

unfoldable pub scan_processes :
    Host → List NvmlProcess → List Text → List Text → ℕ → Outcome (List Text × List Text × ℕ)
scan_processes host [] names ids mpscount = ok (names, ids, mpscount)
scan_processes host (p ∷ ps) names ids mpscount = do
  (ids', mpscount') ← scan_cgroup (host.cgroup p.pid) ids mpscount
  scan_processes host ps (names ++ host.process_name p.pid ∷ []) ids' mpscount'

-- The processes of a GPU, and how many of them run in a container.
unfoldable pub get_gpu_process : Host → List NvmlProcess → Outcome (ProcessInfo × ℕ)
unfolding scan_processes
get_gpu_process host processes = do
  (names, ids, mpscount) ← scan_processes host processes [] [] 0
  ok (record { nvmlprocess = processes; name = names; container_id = ids }, mpscount)
