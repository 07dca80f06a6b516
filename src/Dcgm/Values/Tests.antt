-- ===== src/Dcgm/Values/Tests.antt =====
-- pkg/dcgm/fields.go on some values.
use gpu_metric_collector.Base.{◌≡◌, refl, ◌∷◌, ◌++◌, replicate}
use gpu_metric_collector.Base.Int.{negsuc}
use gpu_metric_collector.Base.Text.{bytes_of}
use gpu_metric_collector.Dcgm.Values.{
  int64, little_endian, signed64, go_string, find_first_non_ascii_index,
}

minus_two : int64 (254 ∷ replicate 7 255) ≡ negsuc 1
unfolding int64 little_endian signed64
minus_two = refl

text_before_zero : go_string (bytes_of "GPU" ++ 0 ∷ bytes_of "old") ≡ bytes_of "GPU"
unfolding go_string
text_before_zero = refl

blank_found : find_first_non_ascii_index (bytes_of "Tesla V100") ≡ 5
unfolding find_first_non_ascii_index
blank_found = refl
