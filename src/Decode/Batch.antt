-- ===== src/Decode/Batch.antt =====
-- `DecodeBatch` of decode/decode.go: the loop that writes pods over discarded slots.
use gpu_metric_collector.Base.{
  ℕ, suc, ◌+◌, ◌≤◌, ◌<◌, ◌≡◌, sym, ap, ◌∙◌, inl, inr, none, some, List, [], ◌∷◌, ◌++◌, Outcome, ok,
  set, take, length, replicate, is_empty, arith, if◌then◌else◌, append-nil, append_assoc,
  take-set_le, take-suc-set, length-set, length-replicate, get_elem?-lt, Bool-cases, get_elem?,
  Outcome-cases,
}
use gpu_metric_collector.Stats.{PodStats, Summary}
use gpu_metric_collector.Storage.{
  Quantities, PodMetricsPoint, NodeMetricsPoint, MetricsPoint, MetricsBatch,
}
use gpu_metric_collector.Decode.{
  DecodeError, decode_cpu, decode_memory, decode_fs, decode_node_stats, decode_pod_stats,
  decode_pods, decode_batch, empty_pod, empty_node,
}
use gpu_metric_collector.Decode.Spec.{
  NodeReadable, PodReadable, PodsReadable, node_errors, pod_errors, pods_errors, pod_point,
  complete_pods,
}
use gpu_metric_collector.Decode.Pods.{
  decode_pod_returns, decode_pod_errors, decode_pod_point, decode_node_returns, decode_node_errors,
  complete_pods-none, complete_pods-some,
}

module _ (Q : Quantities) where
  open Q use {Quantity}

  -- What the loop leaves behind the first `num` slots is what it found there, then the complete pods.
  abbrev Decoded :
      List PodStats
      → List (PodMetricsPoint Quantity)
      → ℕ
      → List DecodeError
      → Outcome (List (PodMetricsPoint Quantity) × ℕ × List DecodeError)
      → Type 0
  Decoded ps slots num errs o =
      (slots' : List (PodMetricsPoint Quantity)) × (num' : ℕ) × (o
        ≡ ok (slots', num', errs ++ pods_errors ps))
      × (take num' slots' ≡ take num slots ++ complete_pods Q ps)

  decode_pods_step :
      (p : PodStats) (ps : List PodStats) (slots : List (PodMetricsPoint Quantity)) (num : ℕ)
      (errs : List DecodeError) (target target' : PodMetricsPoint Quantity)
      (pod_errs : List DecodeError)
      → get_elem? slots num ≡ some target
      → decode_pod_stats Q p target ≡ ok (target', pod_errs)
      → decode_pods Q (p ∷ ps) slots num errs
        ≡ decode_pods Q ps
            (set slots num target')
            (if is_empty pod_errs then suc num else num)
            (errs ++ pod_errs)
  unfolding decode_pods
  decode_pods_step p ps slots num errs target target' pod_errs at e = rw (at, e)

  pods_errors_step :
      (p : PodStats) (ps : List PodStats) (errs : List DecodeError)
      → (errs ++ pod_errors p) ++ pods_errors ps ≡ errs ++ pods_errors (p ∷ ps)
  unfolding pods_errors
  pods_errors_step p ps errs = append_assoc errs (pod_errors p) (pods_errors ps)

  Decoded-keep :
      (p : PodStats) (ps : List PodStats) (slots : List (PodMetricsPoint Quantity)) (num : ℕ)
      (errs : List DecodeError) (target : PodMetricsPoint Quantity)
      → num < length slots
      → pod_point Q p ≡ some target
      → Decoded ps
          (set slots num target)
          (suc num)
          (errs ++ pod_errors p)
          (decode_pods Q ps (set slots num target) (suc num) (errs ++ pod_errors p))
      → Decoded
          (p ∷ ps)
          slots
          num
          errs
          (decode_pods Q ps (set slots num target) (suc num) (errs ++ pod_errors p))
  Decoded-keep p ps slots num errs target room e (slots', num', returns, kept) = (
    slots',
    num',
    returns ∙ ap (λ es. ok (slots', num', es)) (pods_errors_step p ps errs),
    rw (complete_pods-some Q p ps target e) (
        kept
        ∙ ap (λ ts. ts ++ complete_pods Q ps) (take-suc-set slots num target room)
        ∙ append_assoc (take num slots) (target ∷ []) (complete_pods Q ps)),
  )

  Decoded-skip :
      (p : PodStats) (ps : List PodStats) (slots : List (PodMetricsPoint Quantity)) (num : ℕ)
      (errs : List DecodeError) (target : PodMetricsPoint Quantity)
      → pod_point Q p ≡ none
      → Decoded ps
          (set slots num target)
          num
          (errs ++ pod_errors p)
          (decode_pods Q ps (set slots num target) num (errs ++ pod_errors p))
      → Decoded
          (p ∷ ps)
          slots
          num
          errs
          (decode_pods Q ps (set slots num target) num (errs ++ pod_errors p))
  Decoded-skip p ps slots num errs target e (slots', num', returns, kept) = (
    slots',
    num',
    returns ∙ ap (λ es. ok (slots', num', es)) (pods_errors_step p ps errs),
    rw (complete_pods-none Q p ps e) (
        kept
        ∙ ap (λ ts. ts ++ complete_pods Q ps) (take-set_le slots num num target (omega arith))),
  )

  -- One round, given that the rest of the loop is right from every slot.
  decode_pods_round :
      (p : PodStats) (ps : List PodStats) (slots : List (PodMetricsPoint Quantity)) (num : ℕ)
      (errs : List DecodeError)
      → num < length slots
      → PodReadable p
      → ((n : ℕ) (t : PodMetricsPoint Quantity)
          → n ≤ suc num
          → Decoded ps
              (set slots num t)
              n
              (errs ++ pod_errors p)
              (decode_pods Q ps (set slots num t) n (errs ++ pod_errors p)))
      → Decoded (p ∷ ps) slots num errs (decode_pods Q (p ∷ ps) slots num errs)
  decode_pods_round p ps slots num errs room readable rest = go (get_elem?-lt slots num room)
    where
      go :
          ((t : PodMetricsPoint Quantity) × (get_elem? slots num ≡ some t))
          → Decoded (p ∷ ps) slots num errs (decode_pods Q (p ∷ ps) slots num errs)
      go (target, at) = elim (Outcome-cases (decode_pod_stats Q p target)) [
        | inr (x, e) ↦ absurd (decode_pod_returns Q p target x readable e)
        | inl ((target', pod_errs), e) ↦
            let es = decode_pod_errors Q p target target' pod_errs e in
            let point = decode_pod_point Q p target target' pod_errs e in
            rw (decode_pods_step p ps slots num errs target target' pod_errs at e)
              (elim (Bool-cases (is_empty pod_errs)) [
                | inl complete ↦
                    rw (complete, es)
                      (Decoded-keep p ps slots num errs target' room (ground arith)
                        (rest (suc num) target' (omega arith)))
                | inr partial ↦
                    rw (partial, es)
                      (Decoded-skip p ps slots num errs target' (ground arith)
                        (rest num target' (omega arith)))
              ])
      ]

  decode_pods_lem :
      (ps : List PodStats) (slots : List (PodMetricsPoint Quantity)) (num : ℕ)
      (errs : List DecodeError)
      → num + length ps ≤ length slots
      → PodsReadable ps
      → Decoded ps slots num errs (decode_pods Q ps slots num errs)
  decode_pods_lem [] slots num errs room readable = (
    slots,
    num,
    unfold decode_pods pods_errors in rw append-nil,
    unfold complete_pods in sym (append-nil (take num slots)),
  )
  decode_pods_lem (p ∷ ps) slots num errs room (readable, others) =
      decode_pods_round p ps slots num errs (omega arith) readable λ n t le.
        decode_pods_lem ps (set slots num t) n (errs ++ pod_errors p)
          (omega (arith, length-set slots num t)) others

  abbrev slots_for : List PodStats → List (PodMetricsPoint Quantity)
  slots_for ps = replicate (length ps) (empty_pod Q)

  decode_batch_of :
      (s : Summary) (node : NodeMetricsPoint Quantity) (errs : List DecodeError)
      → decode_node_stats Q s.node (empty_node Q) ≡ ok (node, errs)
      → Decoded s.pods (slots_for s.pods) 0 errs (decode_pods Q s.pods (slots_for s.pods) 0 errs)
      → decode_batch Q s
        ≡ ok (
          record { ip = s.ip; node = node; pods = complete_pods Q s.pods },
          errs ++ pods_errors s.pods,
        )
  unfolding decode_batch
  decode_batch_of s node errs e (slots', num', returns, kept) = rw (e, returns, kept)

  -- A summary in which the pointers that the decoder reads without a test are there is decoded to
  -- the end. The batch has the summary's address, the node's point, and exactly the pods that report
  -- all of their metrics, in the summary's order and with the amounts reported, whatever was in the
  -- slots that the loop reuses; the errors are those of the node and then those of each pod in turn.
  pub decode_batch-complete_pods :
      (s : Summary)
      → NodeReadable s.node
      → PodsReadable s.pods
      → (node : NodeMetricsPoint Quantity) × (decode_node_stats Q s.node (empty_node Q)
          ≡ ok (node, node_errors s.node))
        × (decode_batch Q s
            ≡ ok (
              record { ip = s.ip; node = node; pods = complete_pods Q s.pods },
              node_errors s.node ++ pods_errors s.pods,
            ))
  decode_batch-complete_pods s hn hp =
      elim (Outcome-cases (decode_node_stats Q s.node (empty_node Q))) [
        | inr (x, e) ↦ absurd (decode_node_returns Q s.node (empty_node Q) x hn e)
        | inl ((node, errs), e) ↦
            let es = decode_node_errors Q s.node (empty_node Q) node errs e in
            let e' = rw es at e in
            (
              node,
              e',
              decode_batch_of s node (node_errors s.node) e' (
                  decode_pods_lem s.pods (slots_for s.pods) 0 (node_errors s.node)
                    (omega (arith, length-replicate (length s.pods) (empty_pod Q))) hp),
            )
      ]

  -- No metrics point has an amount received or sent over the network.
  abbrev pub NetworkEmpty : MetricsPoint Quantity → Type 0
  NetworkEmpty p = (Q.value p.network_rx_bytes ≡ 0) × (Q.value p.network_tx_bytes ≡ 0)

  value_empty : Q.value Q.empty ≡ 0
  value_empty = omega (arith, Q.value-nano Q.empty, Q.nano-empty)

  -- The network amounts of the node are zero in every batch that `DecodeBatch` returns, whatever
  -- network statistics the kubelet reported.
  pub decode_batch-NetworkEmpty :
      (s : Summary) (b : MetricsBatch Quantity) (errs : List DecodeError)
      → decode_batch Q s ≡ ok (b, errs)
      → NetworkEmpty b.node.metrics_point
  unfolding decode_batch decode_node_stats decode_cpu decode_memory decode_fs
  decode_batch-NetworkEmpty s b errs e = ground (arith, value_empty)
