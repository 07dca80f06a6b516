-- ===== src/Analyzer.antt =====
-- analyzer/analysis.go: when a GPU or a pod is taken to be degraded. Floats, the database and the
-- trends that `GetTrands` finds are parameters.
use gpu_metric_collector.Base.{
  ℕ, zero, suc, ◌+◌, ◌*◌, ◌/◌, Bool, true, false, ◌&&◌, not, Option, none, some, List, [], ◌∷◌,
  Outcome, ok, panic, nil_dereference, index_out_of_range, ◌>>=◌, if◌then◌else◌,
}
use gpu_metric_collector.Base.Int.{ℤ, pos, negsuc, ◌-ℤ◌, ◌*ℤ◌, ltb_ℤ}
use gpu_metric_collector.Grpcs.{GrpcGpu, GpuTemperature, PodMetric}
pub mod Temperature
pub mod Pods
pub mod Nodes
pub mod Columns
pub mod Trends
pub mod Averages
pub mod Undecided
pub mod PodAverages
pub mod Degradations
mod Tests

-- 0 is normal, 1 is high and 2 is very high.
unfoldable pub gpu_temperature_analysis : GpuTemperature → ℕ
gpu_temperature_analysis t =
    if ltb_ℤ t.current t.max_operating
    then 0
    else if not (ltb_ℤ t.current t.max_operating) && ltb_ℤ t.current t.threshold
    then 1
    else 2

-- analyzer.GPUMetric with the standard deviations cut to integers, and what `GetTrands` says of each
-- list of values.
pub record GpuMetric : Type 0 where
  pub aver_fan_speed : ℤ
  pub aver_memory : ℤ
  pub aver_rx : ℤ
  pub aver_tx : ℤ
  pub aver_power : ℤ
  pub aver_temp : ℤ
  pub aver_util : ℤ
  pub st_dev_fan_speed : ℤ
  pub st_dev_memory : ℤ
  pub st_dev_rx : ℤ
  pub st_dev_tx : ℤ
  pub st_dev_power : ℤ
  pub st_dev_temp : ℤ
  pub st_dev_util : ℤ
  pub trend_fan_speed : Bool
  pub trend_memory : Bool
  pub trend_rx : Bool
  pub trend_tx : Bool
  pub trend_power : Bool
  pub trend_util : Bool

-- Go's integer division drops the fraction; `root` is `int(math.Sqrt(float64(*CountNumber)))`.
unfoldable pub quotient : ℤ → ℕ → ℤ
quotient (pos n) root = pos (n / root)
quotient (negsuc n) root = pos 0 -ℤ pos ((n + 1) / root)

unfoldable pub exceeds : ℕ → ℤ → ℤ → ℤ → Bool
unfolding quotient
exceeds root aver st_dev current = ltb_ℤ (quotient (aver *ℤ st_dev) root) current

-- 0 is degraded.
unfoldable pub degraded : Bool → ℕ
degraded b = if b then 0 else 1

unfoldable pub gpu_threshold : ℕ → GpuMetric → GrpcGpu → ℕ
gpu_threshold root aver curr =
    if exceeds root aver.aver_fan_speed aver.st_dev_fan_speed curr.fan_speed
    then degraded aver.trend_fan_speed
    else if exceeds root aver.aver_memory aver.st_dev_memory curr.used
    then degraded aver.trend_memory
    else if exceeds root aver.aver_rx aver.st_dev_rx curr.gpu_rx
    then degraded aver.trend_rx
    else if exceeds root aver.aver_tx aver.st_dev_tx curr.gpu_tx
    then degraded aver.trend_tx
    else if exceeds root aver.aver_power aver.st_dev_power curr.power
    then degraded aver.trend_power
    else if exceeds root aver.aver_temp aver.st_dev_temp curr.temp.current
    then gpu_temperature_result curr.temp
    else if exceeds root aver.aver_util aver.st_dev_util curr.util
    then degraded aver.trend_util
    else 1
  where
    gpu_temperature_result : GpuTemperature → ℕ
    gpu_temperature_result t = elim (gpu_temperature_analysis t) [ zero ↦ 0 | suc n ↦ 1 ]

-- float64 as far as the analyzer uses it; `truncate` is the conversion to an integer.
pub record Floats : Type 1 where
  pub Float : Type 0
  pub of_int : ℤ → Float
  pub plus : Float → Float → Float
  pub minus : Float → Float → Float
  pub times : Float → Float → Float
  pub over : Float → Float → Float
  pub sqrt : Float → Float
  pub less : Float → Float → Bool
  pub pow : Float → Float → Float
  pub truncate : Float → ℤ

-- What `client.Query` gives: no response and an error, as for a server that cannot be reached; a
-- response with an error in it or beside it; or the results.
pub data Reply (R : Type 0) : Type 0 where
  query_failed error_response : Reply R
  answered : R → Reply R

-- A result is its series, and a series its rows, of which `GetPodPattern` reads none.
abbrev pub Response : Type 0
Response = Reply (List (List (List (List ℤ))))

-- `GetPodPattern`: the loop over the rows starts at the last one and runs while the index is
-- negative, so that it reads none. The message on an error calls `response.Error()`, which ends the
-- process where there is no response.
unfoldable pub get_pod_pattern : Response → Outcome Bool
get_pod_pattern query_failed = panic nil_dereference
get_pod_pattern error_response = ok false
get_pod_pattern (answered []) = panic index_out_of_range
get_pod_pattern (answered ([] ∷ results)) = panic index_out_of_range
get_pod_pattern (answered ((values ∷ series) ∷ results)) = ok false

module _ (Fl : Floats) where
  open Fl use {Float, of_int, plus, minus, times, over, sqrt, less}

  -- One metric: its mean, its deviation and the pod's value.
  pub record Sample : Type 0 where
    pub aver : Float
    pub st_dev : Float
    pub current : Float

  unfoldable pub margin : Float → ℤ → Sample → Float
  margin confidencenum count s = over (times confidencenum s.st_dev) (sqrt (of_int count))

  unfoldable pub above_low : Float → ℤ → Sample → Bool
  unfolding margin
  above_low confidencenum count s = less (minus s.aver (margin confidencenum count s)) s.current

  unfoldable pub below_high : Float → ℤ → Sample → Bool
  unfolding margin
  below_high confidencenum count s = less s.current (plus s.aver (margin confidencenum count s))

  unfoldable pub pod_result : Bool → ℕ
  pod_result pattern = if pattern then 0 else 1

  unfoldable pub pattern_result : Response → Outcome ℕ
  unfolding get_pod_pattern pod_result
  pattern_result response = do pattern ← get_pod_pattern response; ok (pod_result pattern)

  -- `PodThreshold` from the second metric on: memory of the GPU, memory, received and sent bytes,
  -- and storage.
  unfoldable pub later_metrics : Float → ℤ → Response → List Sample → Outcome ℕ
  unfolding pattern_result above_low below_high
  later_metrics confidencenum count response [] = ok 1
  later_metrics confidencenum count response (s ∷ samples) =
      let rest = later_metrics confidencenum count response samples in
      if above_low confidencenum count s
      then pattern_result response
      else if below_high confidencenum count s
      then ok 1
      else rest

  -- The first metric is the CPU, whose trend is asked first.
  unfoldable pub pod_threshold :
      Float
      → ℤ
      → Bool
      → Response
      → (cpu gpu_memory memory network_rx network_tx storage : Sample) → Outcome ℕ
  unfolding pattern_result above_low below_high later_metrics
  pod_threshold confidencenum count trend_cpu response cpu gpu_memory memory network_rx network_tx
        storage =
      if above_low confidencenum count cpu
      then if trend_cpu then pattern_result response else ok 1
      else if below_high confidencenum count cpu
      then ok 1
      else later_metrics confidencenum count response
          (gpu_memory ∷ memory ∷ network_rx ∷ network_tx ∷ storage ∷ [])
