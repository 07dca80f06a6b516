-- ===== src/CustomMetrics/Failures.antt =====
-- What the collector does when there is no batch of the kubelet's metrics.
use gpu_metric_collector.Base.{
  ◌≡◌, refl, ap, ◌∙◌, true, List, [], ◌∷◌, Option, none, arith, inl, inr, Bool-cases, panic, index,
  index_out_of_range, InRange, bind-InRange, index-InRange, then_out_of_range,
}
use gpu_metric_collector.Base.Int.{ℤ, pos}
use gpu_metric_collector.Base.Text.{Text, text_eq, bytes_of, split}
use gpu_metric_collector.Storage.{Quantities, MetricsBatch}
use gpu_metric_collector.Scrap.{Scrape, Reach}
use gpu_metric_collector.Scrap.Results.{tally, tally_some, Reach-tally}
use gpu_metric_collector.CustomMetrics.{
  memory_line, total_memory, fields, add_to_pod_custom_metric_server, member_metric_collector,
}

memory_line-InRange : (words : List Text) (total : ℤ) → InRange (memory_line words total)
memory_line-InRange [] total = tt
memory_line-InRange (word ∷ words) total = elim (Bool-cases (text_eq word (bytes_of "MemTotal:"))) [
  | inl h ↦
      rw h (bind-InRange (index (word ∷ words) 1) _ (index-InRange (word ∷ words) 1) (λ a. tt))
  | inr h ↦ rw h tt
]

total_memory-InRange : (lines : List Text) (total : ℤ) → InRange (total_memory lines total)
unfolding total_memory
total_memory-InRange [] total = tt
total_memory-InRange (line ∷ lines) total =
    bind-InRange (memory_line (fields line) total) (total_memory lines)
      (memory_line-InRange (fields line) total) (total_memory-InRange lines)

pub add_to_pod_custom_metric_server-empty :
    (Q : Quantities) (cpuinfo meminfo : Text)
    → add_to_pod_custom_metric_server Q cpuinfo meminfo [] ≡ panic index_out_of_range
unfolding add_to_pod_custom_metric_server
add_to_pod_custom_metric_server-empty Q cpuinfo meminfo =
    then_out_of_range _ _ (total_memory-InRange (split 10 meminfo) (pos 0)) (λ memory. refl)

tally-empty : {A : Type 0} (xs : List A) → tally (λ x. true) xs ≡ 0 → xs ≡ []
unfolding tally
tally-empty [] h = refl
tally-empty (x ∷ xs) h = absurd (omega arith)

-- When `CollectNode` returns no batch, as for a URL of which no request can be made, the collector ends
-- the process by an index out of range, in whichever order the goroutines of `Scrap` run.
pub member_metric_collector-panic :
    {E : Type 0} (Q : Quantities) (cpuinfo meminfo : Text) (e : Option E)
    (s : Scrape (MetricsBatch Q.Quantity) E)
    → Reach ((none, e) ∷ []) s
    → s.left ≡ 0
    → member_metric_collector Q cpuinfo meminfo s ≡ panic index_out_of_range
unfolding member_metric_collector tally_some
member_metric_collector-panic Q cpuinfo meminfo e s reach over =
    ap (add_to_pod_custom_metric_server Q cpuinfo meminfo)
      (tally-empty s.metricsbatchs (Reach-tally (λ b. true) ((none, e) ∷ []) s reach over))
    ∙ add_to_pod_custom_metric_server-empty Q cpuinfo meminfo
