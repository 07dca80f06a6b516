-- ===== src/Analyzer/Temperature.antt =====
-- The temperature in analyzer/analysis.go.
use gpu_metric_collector.Base.{ℕ, zero, suc, ◌+◌, ◌<◌, ◌≡◌, ◌↔◌, refl, true, false, arith}
use gpu_metric_collector.Base.Int.{◌≤ℤ◌, pos_part, neg_part}
use gpu_metric_collector.Grpcs.{GrpcGpu, GpuTemperature}
use gpu_metric_collector.Analyzer.{gpu_temperature_analysis, GpuMetric, exceeds, gpu_threshold}

-- The three answers, by the limits that the driver reports, whichever order these are in.
pub gpu_temperature_analysis_lem :
    (t : GpuTemperature)
    → ((gpu_temperature_analysis t ≡ 0) ↔ (
        pos_part t.current + neg_part t.max_operating
        < pos_part t.max_operating + neg_part t.current))
      × ((gpu_temperature_analysis t ≡ 1) ↔ (
          (t.max_operating ≤ℤ t.current)
          × (pos_part t.current + neg_part t.threshold
              < pos_part t.threshold + neg_part t.current)))
      × ((gpu_temperature_analysis t ≡ 2)
          ↔ ((t.max_operating ≤ℤ t.current) × (t.threshold ≤ℤ t.current)))
unfolding gpu_temperature_analysis
gpu_temperature_analysis_lem t = ground arith

-- No test before that of the temperature holds.
abbrev pub Quiet : ℕ → GpuMetric → GrpcGpu → Type 0
Quiet root aver curr =
    (exceeds root aver.aver_fan_speed aver.st_dev_fan_speed curr.fan_speed ≡ false)
    × (exceeds root aver.aver_memory aver.st_dev_memory curr.used ≡ false)
    × (exceeds root aver.aver_rx aver.st_dev_rx curr.gpu_rx ≡ false)
    × (exceeds root aver.aver_tx aver.st_dev_tx curr.gpu_tx ≡ false)
    × (exceeds root aver.aver_power aver.st_dev_power curr.power ≡ false)

-- Where the temperature is the first metric that stands out, the GPU is reported as degraded exactly
-- if its temperature is normal: one that is high or very high is not reported.
pub gpu_threshold-gpu_temperature_analysis :
    (root : ℕ) (aver : GpuMetric) (curr : GrpcGpu)
    → Quiet root aver curr
    → exceeds root aver.aver_temp aver.st_dev_temp curr.temp.current ≡ true
    → (gpu_threshold root aver curr ≡ 0) ↔ (gpu_temperature_analysis curr.temp ≡ 0)
unfolding gpu_threshold
gpu_threshold-gpu_temperature_analysis root aver curr (fan, memory, rx, tx, power) temp =
    rw (fan, memory, rx, tx, power, temp) (zero_result (gpu_temperature_analysis curr.temp))
  where
    zero_result : (n : ℕ) → ((elim n as (λ x. ℕ) [ zero ↦ 0 | suc m ↦ 1 ]) ≡ 0) ↔ (n ≡ 0)
    zero_result zero = (λ e. refl, λ e. refl)
    zero_result (suc m) = (λ e. absurd (omega (arith, e)), λ e. absurd (omega (arith, e)))
