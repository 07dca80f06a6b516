-- ===== src/Dcgm/Queries/Readings.antt =====
-- Blank readings and signed numbers of pkg/dcgm/utils.go, and the name of a process as
-- pkg/dcgm/process_info.go reads it.
use gpu_metric_collector.Base.{
  ℕ, Bool, false, Option, none, some, [], ◌∷◌, leb, ◌==◌, if◌then◌else◌,
}
use gpu_metric_collector.Base.Int.{ℤ, pos, negsuc}
use gpu_metric_collector.Base.Text.{Text}
use gpu_metric_collector.Server.{to_unsigned}

abbrev pub dcgm_int64_blank : ℕ
dcgm_int64_blank = 0x7ffffffffffffff0

unfoldable pub is_int64_blank : ℤ → Bool
is_int64_blank (pos n) = leb dcgm_int64_blank n
is_int64_blank (negsuc n) = false

-- `uint64(c)`.
abbrev pub to_uint64 : ℤ → ℕ
to_uint64 c = to_unsigned 64 c

-- What reading /proc/<pid>/comm gives.
pub data CommFile : Type 0 where
  contents : Text → CommFile
  not_exist unreadable : CommFile

-- `strings.TrimSuffix(s, "\n")`.
unfoldable pub trim_newline : Text → Text
trim_newline [] = []
trim_newline (b ∷ []) = if b == 10 then [] else b ∷ []
trim_newline (b ∷ c ∷ s) = b ∷ trim_newline (c ∷ s)

-- A process that has ended has the empty name.
unfoldable pub process_name : CommFile → Option Text
process_name (contents s) = some (trim_newline s)
process_name not_exist = some []
process_name unreadable = none
