-- ===== src/Dcgm/Enums/Enumerators.antt =====
-- The enumerators of a C enum and their values.
use gpu_metric_collector.Base.{String, List, [], ◌∷◌, Option, none, some}
use gpu_metric_collector.Base.Int.{ℤ, pos, ◌+ℤ◌}

-- The names in order, some with a value.
abbrev pub Enum : Type 0
Enum = List (String × Option ℤ)

-- An enumerator without a value is one more than the one before it; the first is 0.
unfoldable pub enum_values : ℤ → Enum → List (String × ℤ)
enum_values next [] = []
enum_values next ((name, none) ∷ rest) = (name, next) ∷ enum_values (next +ℤ pos 1) rest
enum_values next ((name, some v) ∷ rest) = (name, v) ∷ enum_values (v +ℤ pos 1) rest
