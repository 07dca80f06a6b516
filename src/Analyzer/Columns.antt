-- ===== src/Analyzer/Columns.antt =====
-- analyzer/analysis.go: the rows that the database answers, as `GetNodeMetric` and `GetGPUMetrics` read
-- them. A cell is a Go value of any type; the client of the database decodes numbers as json.Number.
use gpu_metric_collector.Base.{
  ℕ, zero, suc, Bool, true, false, List, [], ◌∷◌, Outcome, ok, ◌>>=◌, index, if◌then◌else◌, bit_xor,
}
use gpu_metric_collector.Base.Int.{ℤ, pos, negsuc, ◌+ℤ◌, ltb_ℤ}
use gpu_metric_collector.Base.Text.{Text}
use gpu_metric_collector.Analyzer.{Reply}
use gpu_metric_collector.CustomMetrics.{atoi}

pub data Cell : Type 0 where
  json_number : Text → Cell
  text : Text → Cell
  boolean : Bool → Cell
  null : Cell
  int : ℤ → Cell

abbrev pub Row : Type 0
Row = List Cell

-- A result is its series, and a series its rows.
abbrev pub Answer : Type 0
Answer = Reply (List (List (List Row)))

abbrev pub equal_ℤ : ℤ → ℤ → Bool
equal_ℤ a b = if ltb_ℤ a b then false else if ltb_ℤ b a then false else true

-- Go's `==` between an interface and an int: the types are compared first.
abbrev pub equals_int : Cell → ℤ → Bool
equals_int (json_number t) n = false
equals_int (text t) n = false
equals_int (boolean b) n = false
equals_int null n = false
equals_int (int m) n = equal_ℤ m n

-- `strconv.ParseInt(fmt.Sprintf("%s", cell), 10, 64)` without its error. `%s` prints what is no text
-- as "%!s(…)", which is no number.
abbrev pub parse_int : Cell → ℤ
parse_int (json_number t) = atoi t
parse_int (text t) = atoi t
parse_int (boolean b) = pos 0
parse_int null = pos 0
parse_int (int m) = pos 0

abbrev pub column : Row → ℕ → Outcome ℤ
column row c = index row c >>= λ cell. ok (parse_int cell)

-- The loop over the first `left` rows from `i` on: whether column `c` of each is the int `n`.
unfoldable pub same_pods : List Row → ℕ → ℤ → ℕ → ℕ → Outcome Bool
same_pods values c n i zero = ok true
same_pods values c n i (suc left) = do
  row ← index values i
  cell ← index row c
  elim (equals_int cell n) [ true ↦ same_pods values c n (suc i) left | false ↦ ok false ]

abbrev pub sum : List ℤ → ℤ
sum [] = pos 0
sum (x ∷ xs) = x +ℤ sum xs

-- `x ^ 2` on an int64: exclusive or, on the two's complement.
unfoldable pub xor2 : ℤ → ℤ
xor2 (pos n) = pos (bit_xor n 2)
xor2 (negsuc n) = negsuc (bit_xor n 2)
