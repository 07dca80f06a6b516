-- ===== src/Collector/Network.antt =====
-- Why the collector never reports any network traffic of the node.
use gpu_metric_collector.Base.{
  ◌≡◌, refl, sym, ap, ◌∙◌, Bool, true, false, ◌&&◌, none, some, Option, List, [], ◌∷◌, ok, index,
  arith, inl, inr, bind-eq-ok, ok-injective, ◌==◌, if◌then◌else◌, ◌⊎◌,
}
use gpu_metric_collector.Base.Int.{ℤ, pos}
use gpu_metric_collector.Base.Text.{Text}
use gpu_metric_collector.Storage.{Quantities, MetricsBatch, Collection}
use gpu_metric_collector.Stats.{Summary}
use gpu_metric_collector.Decode.{DecodeError, decode_batch}
use gpu_metric_collector.Decode.Batch.{NetworkEmpty, decode_batch-NetworkEmpty}
use gpu_metric_collector.Grpcs.{GrpcNode}
use gpu_metric_collector.Scrap.{Scrape, Reach}
use gpu_metric_collector.Scrap.Results.{tally, tally_some, Reach-tally}
use gpu_metric_collector.CustomMetrics.{member_metric_collector}
use gpu_metric_collector.Mps.Processes.{Host}
use gpu_metric_collector.GpuMetric.{
  GpuMap, Nvml, NodeUsage, NodePoint, Round, count_or_zero, finish, without_driver, with_driver,
  gpumetric,
}
use gpu_metric_collector.GpuMetric.Events.{node_points, node_points-append}
use gpu_metric_collector.GpuMetric.Reports.{with_driver-finish}
use gpu_metric_collector.Collector.{with_amounts, collector_round}

abbrev SilentUsage : Option NodeUsage → Type 0
SilentUsage none = Unit
SilentUsage (some u) = (u.node_network_rx ≡ pos 0) × (u.node_network_tx ≡ pos 0)

abbrev AllSilent : List NodePoint → Type 0
AllSilent [] = Unit
AllSilent (p ∷ points) = SilentUsage p.usage × AllSilent points

-- Neither the node nor a point of the node has an amount received or sent.
abbrev pub Silent : Round → Type 0
Silent r =
    (r.node.network_rx ≡ pos 0) × (r.node.network_tx ≡ pos 0) × AllSilent (node_points r.events)

if-cases :
    {A : Type 0} (b : Bool) (x y : A) → ((if b then x else y) ≡ x) ⊎ ((if b then x else y) ≡ y)
if-cases true x y = inl refl
if-cases false x y = inr refl

module _ (Q : Quantities) where
  quiet_batch : MetricsBatch Q.Quantity → Bool
  quiet_batch b =
      (Q.value b.node.metrics_point.network_rx_bytes == 0)
      && (Q.value b.node.metrics_point.network_tx_bytes == 0)

  quiet_batch-NetworkEmpty :
      (b : MetricsBatch Q.Quantity) → NetworkEmpty Q b.node.metrics_point → quiet_batch b ≡ true
  unfolding quiet_batch
  quiet_batch-NetworkEmpty b h = ground arith

  NetworkEmpty-quiet_batch :
      (b : MetricsBatch Q.Quantity) → quiet_batch b ≡ true → NetworkEmpty Q b.node.metrics_point
  unfolding quiet_batch
  NetworkEmpty-quiet_batch b h = ground arith

  -- The one batch that a run of `Scrap` collects is as quiet as the one that it was given.
  first-quiet :
      (xs : List (MetricsBatch Q.Quantity)) (b : MetricsBatch Q.Quantity)
      → tally (λ x. true) xs ≡ 1
      → tally quiet_batch xs ≡ 1
      → index xs 0 ≡ ok b
      → quiet_batch b ≡ true
  unfolding tally
  first-quiet [] b one quiet e = cc
  first-quiet (x ∷ []) b one quiet e = ground (arith, ap quiet_batch (ok-injective e))
  first-quiet (x ∷ y ∷ xs) b one quiet e = absurd (omega (arith, one))

  gpumetric-Silent :
      (host : Host) (nvml : Nvml) (collected : Collection Q.Quantity) (nodecpu nodememory : ℤ)
      (nodename : Text) (podmap : List GpuMap) (node : GrpcNode) (r : Round)
      → node.network_rx ≡ pos 0
      → node.network_tx ≡ pos 0
      → gpumetric Q host nvml collected nodecpu nodememory nodename podmap node ≡ ok r
      → Silent r
  unfolding gpumetric without_driver finish node_points
  gpumetric-Silent host nvml collected nodecpu nodememory nodename podmap node r rx tx e =
      let count = count_or_zero nvml.device_count in
      let driven =
        with_driver Q host nvml collected nodecpu nodememory nodename count podmap node in
      let bare = without_driver Q host nvml collected nodecpu nodememory nodename podmap node in
      elim (if-cases nvml.initialized driven (ok bare)) [
        | inl with ↦
            let (s, eq, inv) =
              with_driver-finish Q host nvml collected nodecpu nodememory nodename count podmap node
                r (sym with ∙ e) in
            rw eq (rx, tx, rw (node_points-append s.events _, inv.not_written) ((rx, tx), tt))
        | inr without ↦ rw (← ok-injective (sym without ∙ e)) (rx, tx, (tt, tt))
      ]

  -- The request to the kubelet brings a batch of `DecodeBatch`. Whatever order the goroutines of `Scrap`
  -- run in, and whatever the driver answers, a round of the main loop that returns leaves the node with no
  -- bytes received or sent, and writes none to the database.
  pub collector_round-Silent :
      {E : Type 0} (host : Host) (nvml : Nvml) (cpuinfo meminfo : Text) (summary : Summary)
      (b : MetricsBatch Q.Quantity) (errs : List DecodeError) (err : Option E)
      (s : Scrape (MetricsBatch Q.Quantity) E) (podmap : List GpuMap) (node : GrpcNode) (r : Round)
      → decode_batch Q summary ≡ ok (b, errs)
      → Reach ((some b, err) ∷ []) s
      → s.left ≡ 0
      → collector_round Q host nvml cpuinfo meminfo s podmap node ≡ ok r
      → Silent r
  unfolding collector_round with_amounts tally_some
  collector_round-Silent host nvml cpuinfo meminfo summary b errs err s podmap node r decoded reach
        over e =
      let quiet = quiet_batch-NetworkEmpty b (decode_batch-NetworkEmpty Q summary b errs decoded) in
      let (amounts, _, e1) = bind-eq-ok (member_metric_collector Q cpuinfo meminfo s) _ e in
      let (batch, first, e2) = bind-eq-ok (index s.metricsbatchs 0) _ e1 in
      let seen = NetworkEmpty-quiet_batch batch (
        first-quiet s.metricsbatchs batch
          (Reach-tally (λ x. true) ((some b, err) ∷ []) s reach over)
          (Reach-tally quiet_batch ((some b, err) ∷ []) s reach over ∙ ground (arith, quiet))
          first) in
      gpumetric-Silent host nvml _ _ _ _ podmap (with_amounts Q amounts batch node) r
        (ap pos seen.0) (ap pos seen.1) e2
