-- ===== src/Analyzer/Undecided.antt =====
-- Why no node and no GPU is ever reported by analyzer/analysis.go: `GetNodeMetric` and `GetGPUMetrics`
-- compare cells of the database with an int by `!=`, and no cell is an int.
use gpu_metric_collector.Base.{
  ℕ, zero, suc, ◌≡◌, refl, Bool, true, false, List, [], ◌∷◌, Outcome, ok, panic, index_out_of_range,
  nil_dereference, ◌⊎◌, ◌>>=◌, index, length, ltb, Bool-cases, inl, inr, arith, All, InRange,
  bind-InRange, index-InRange, then_out_of_range, get_elem?-le,
}
use gpu_metric_collector.Base.Int.{ℤ, pos}
use gpu_metric_collector.Grpcs.{GrpcGpu, GrpcNode}
use gpu_metric_collector.GpuMetric.{gpu_point_names}
use gpu_metric_collector.Analyzer.{Floats, query_failed, error_response, answered}
use gpu_metric_collector.Analyzer.Columns.{
  Cell, json_number, text, boolean, null, int, Row, Answer, equals_int, same_pods, column,
}
use gpu_metric_collector.Analyzer.Averages.{
  node_verdict, get_node_metric, gpu_verdict, get_gpu_metrics, read_rows, gpu_row,
}

-- What the client of the database decodes: any value but an int.
abbrev pub IsDecoded : Cell → Type 0
IsDecoded (json_number t) = Unit
IsDecoded (text t) = Unit
IsDecoded (boolean b) = Unit
IsDecoded null = Unit
IsDecoded (int n) = ⊥

abbrev pub AllDecoded : Answer → Type 0
AllDecoded query_failed = Unit
AllDecoded error_response = Unit
AllDecoded (answered results) = All (All (All (All IsDecoded))) results

-- The verdict 2, or an index out of range; or, where the query failed, a nil dereference.
abbrev pub Undecided : Answer → Outcome ℕ → Type 0
Undecided answer (ok n) = n ≡ 2
Undecided answer (panic x) =
    (x ≡ index_out_of_range) ⊎ ((x ≡ nil_dereference) × (answer ≡ query_failed))

abbrev Refused : Outcome Bool → Type 0
Refused (ok b) = b ≡ false
Refused (panic x) = x ≡ index_out_of_range

-- What follows from every element that the list has at an index, where there is none the process ends.
index-Refused :
    {A : Type 0} (P : A → Type 0) (xs : List A) (i : ℕ) (f : A → Outcome Bool)
    → All P xs
    → ((x : A) → P x → Refused (f x))
    → Refused (index xs i >>= f)
index-Refused P [] i f h g = refl
index-Refused P (x ∷ xs) zero f h g = g x h.0
index-Refused P (x ∷ xs) (suc i) f h g = index-Refused P xs i f h.1 g

same_pods-Refused :
    (values : List Row) (c : ℕ) (n : ℤ) (i left : ℕ)
    → All (All IsDecoded) values
    → Refused (same_pods values c n i (suc left))
unfolding same_pods
same_pods-Refused values c n i left h =
    index-Refused (All IsDecoded) values i _ h
      (λ row hr. index-Refused IsDecoded row c _ hr (λ cell hc. differs cell hc))
  where
    differs :
        (cell : Cell)
        → IsDecoded cell
        → Refused (elim (equals_int cell n) [
          | true ↦ same_pods values c n (suc i) left
          | false ↦ ok false
        ])
    differs (json_number t) hc = refl
    differs (text t) hc = refl
    differs (boolean b) hc = refl
    differs null hc = refl
    differs (int m) hc = elim hc [ ]

then-Undecided :
    (answer : Answer) (o : Outcome Bool) (f : Bool → Outcome ℕ)
    → Refused o
    → f false ≡ ok 2
    → Undecided answer (o >>= f)
then-Undecided answer (ok true) f h e = cc
then-Undecided answer (ok false) f h e = rw e refl
then-Undecided answer (panic x) f h e = inl h

-- A row has a column for each name of the point, and the time.
abbrev pub IsGpuRow : Row → Type 0
IsGpuRow row = length row ≡ suc (length gpu_point_names)

abbrev pub AllGpuRows : Answer → Type 0
AllGpuRows query_failed = Unit
AllGpuRows error_response = Unit
AllGpuRows (answered results) = All (All (All IsGpuRow)) results

column-InRange : (row : Row) (c : ℕ) → InRange (column row c)
column-InRange row c = bind-InRange (index row c) _ (index-InRange row c) (λ cell. tt)

gpu_row-panic : (row : Row) → IsGpuRow row → gpu_row row ≡ panic index_out_of_range
unfolding gpu_row
gpu_row-panic row h = then_out_of_range _ _ (column-InRange row 1) λ fan_speed.
    then_out_of_range _ _ (column-InRange row 4) λ rx.
      then_out_of_range _ _ (column-InRange row 5) λ tx.
        then_out_of_range _ _ (column-InRange row 7) λ power.
          then_out_of_range _ _ (column-InRange row 11)
            λ memory. rw (get_elem?-le row 12 (omega (arith, h))) refl

same_pods-InRange :
    (values : List Row) (c : ℕ) (n : ℤ) (i left : ℕ) → InRange (same_pods values c n i left)
unfolding same_pods
same_pods-InRange values c n i zero = tt
same_pods-InRange values c n i (suc left) =
    bind-InRange (index values i) _ (index-InRange values i) λ row.
      bind-InRange (index row c) _ (index-InRange row c) λ cell.
        elim (Bool-cases (equals_int cell n)) [
          | inl h ↦ rw h (same_pods-InRange values c n (suc i) left)
          | inr h ↦ rw h tt
        ]

either-Undecided :
    (answer : Answer) (o : Outcome Bool) (f : Bool → Outcome ℕ)
    → InRange o
    → f false ≡ ok 2
    → f true ≡ panic index_out_of_range
    → Undecided answer (o >>= f)
either-Undecided answer (ok true) f h e p = rw p (inl refl)
either-Undecided answer (ok false) f h e p = rw e refl
either-Undecided answer (panic x) f h e p = inl h

module _ (Fl : Floats) (left : ℕ) where
  -- With at least one row asked for, and no int among the cells, `GetNodeMetric` gives the verdict 2 or
  -- ends the process, by an index out of range or, only where the query failed, by a nil dereference:
  -- the averages are never looked at, and no node is ever found degraded.
  pub get_node_metric-Undecided :
      (answer : Answer) (node : GrpcNode)
      → AllDecoded answer
      → Undecided answer (get_node_metric Fl (suc left) answer node)
  unfolding get_node_metric node_verdict
  get_node_metric-Undecided query_failed node h = inr (refl, refl)
  get_node_metric-Undecided error_response node h = refl
  get_node_metric-Undecided (answered []) node h = refl
  get_node_metric-Undecided (answered ([] ∷ results)) node h = inl refl
  get_node_metric-Undecided (answered ((values ∷ series) ∷ results)) node h =
      elim (Bool-cases (ltb (length values) (suc left))) [
        | inl few ↦ rw few refl
        | inr enough ↦ rw enough (
            then-Undecided _ _ _ (same_pods-Refused values 8 node.total_podnum 0 left (h.0).0) refl)
      ]

  pub get_gpu_metrics-Undecided :
      (answer : Answer) (gpu : GrpcGpu)
      → AllDecoded answer
      → Undecided answer (get_gpu_metrics Fl (suc left) answer gpu)
  unfolding get_gpu_metrics gpu_verdict
  get_gpu_metrics-Undecided query_failed gpu h = inr (refl, refl)
  get_gpu_metrics-Undecided error_response gpu h = refl
  get_gpu_metrics-Undecided (answered []) gpu h = refl
  get_gpu_metrics-Undecided (answered ([] ∷ results)) gpu h = inl refl
  get_gpu_metrics-Undecided (answered ((values ∷ series) ∷ results)) gpu h =
      then-Undecided _ _ _ (same_pods-Refused values 6 (pos (length gpu.gpu_pod)) 0 left (h.0).0)
        refl

  -- With at least one row asked for, and in every row a column for each name of the point that
  -- `Gpumetric` writes and the time, `GetGPUMetrics` gives the verdict 2 or ends the process, by an index
  -- out of range or, only where the query failed, by a nil dereference, whatever the cells are.
  pub get_gpu_metrics-Undecided_columns :
      (answer : Answer) (gpu : GrpcGpu)
      → AllGpuRows answer
      → Undecided answer (get_gpu_metrics Fl (suc left) answer gpu)
  unfolding get_gpu_metrics gpu_verdict read_rows same_pods
  get_gpu_metrics-Undecided_columns query_failed gpu h = inr (refl, refl)
  get_gpu_metrics-Undecided_columns error_response gpu h = refl
  get_gpu_metrics-Undecided_columns (answered []) gpu h = refl
  get_gpu_metrics-Undecided_columns (answered ([] ∷ results)) gpu h = inl refl
  get_gpu_metrics-Undecided_columns (answered (([] ∷ series) ∷ results)) gpu h = inl refl
  get_gpu_metrics-Undecided_columns (answered (((row ∷ rows) ∷ series) ∷ results)) gpu h =
      either-Undecided _ _ _
        (same_pods-InRange (row ∷ rows) 6 (pos (length gpu.gpu_pod)) 0 (suc left)) refl
        (rw (gpu_row-panic row ((h.0).0).0) refl)
