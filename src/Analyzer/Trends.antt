-- ===== src/Analyzer/Trends.antt =====
-- analyzer/analysis.go: `GetTrands`, the slope of a list of values, and the sums of deviations.
use gpu_metric_collector.Base.{ℕ, zero, suc, Bool, List, [], ◌∷◌, length}
use gpu_metric_collector.Base.Int.{ℤ, pos, ◌-ℤ◌}
use gpu_metric_collector.Analyzer.{Floats}
use gpu_metric_collector.Analyzer.Columns.{xor2}

module _ (Fl : Floats) where
  open Fl use {Float, of_int, plus, minus, times, over, less, pow}

  -- `float64(i)` summed over the indices below `n`, from `i` on.
  unfoldable pub sum_indices : ℕ → ℕ → Float → Float
  sum_indices i zero total = total
  sum_indices i (suc n) total = sum_indices (suc i) n (plus total (of_int (pos i)))

  -- The second loop of `GetTrands`, over the values from the last one on.
  unfoldable pub slope : Float → Float → ℕ → List Float → Float → Float → Float × Float
  slope average middle i [] numerator denominator = (numerator, denominator)
  slope average middle i (x ∷ xs) numerator denominator =
      let offset = minus (of_int (pos i)) middle in
      slope average middle (suc i) xs (plus numerator (times (minus x average) offset))
        (plus denominator (pow offset (of_int (pos 2))))

  unfoldable pub backwards : List Float → List Float → List Float
  backwards [] done = done
  backwards (x ∷ xs) done = backwards xs (x ∷ done)

  unfoldable pub get_trands : List Float → Float → Bool
  get_trands values average =
      let zero_float = of_int (pos 0) in
      let middle = over (sum_indices 0 (length values) zero_float) (of_int (pos (length values))) in
      let (numerator, denominator) =
        slope average middle 0 (backwards values []) zero_float zero_float in
      less zero_float (over numerator denominator)

  -- The sum of `float64((x - aver) ^ 2)`.
  unfoldable pub deviations : ℤ → List ℤ → Float → Float
  deviations aver [] total = total
  deviations aver (x ∷ xs) total = deviations aver xs (plus total (of_int (xor2 (x -ℤ aver))))

  -- The two sums that `GetNodeMetric` keeps in one variable.
  unfoldable pub both_deviations : ℤ → ℤ → List ℤ → List ℤ → Float → Float
  both_deviations aver_tx aver_storage [] storage total = total
  both_deviations aver_tx aver_storage (x ∷ tx) [] total = total
  both_deviations aver_tx aver_storage (x ∷ tx) (y ∷ storage) total =
      both_deviations aver_tx aver_storage tx storage
        (plus (plus total (of_int (xor2 (x -ℤ aver_tx)))) (of_int (xor2 (y -ℤ aver_storage))))
