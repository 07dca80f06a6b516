-- ===== src/Mps/Counters.antt =====
-- The table of containers and the counters of assigned and returned pods over the collector's rounds.
use gpu_metric_collector.Base.{
  ℕ, suc, ◌≡◌, refl, sym, ap, ◌∙◌, Bool, true, false, inl, inr, List, [], ◌∷◌, ◌++◌, map, length,
  arith, append-nil, append_assoc, Bool-cases, if◌then◌else◌,
}
use gpu_metric_collector.Base.Int.{ℤ, pos, ◌+ℤ◌, int_laws}
use gpu_metric_collector.Base.Text.{Text, text_eq}
use gpu_metric_collector.Grpcs.{PodMetric, GrpcGpu}
use gpu_metric_collector.Mps.Podmap.{
  PodGpu, new_pod, reset_running, is_known, mark_running, note_pod, note_pods, count_returned,
  update_podmap,
}

abbrev pub ids : List PodGpu → List Text
ids = map (λ p. p.container_id)

-- The containers of a round that a list of known ones lacks, in order and each once.
has : Text → List Text → Bool
has id [] = false
has id (x ∷ xs) = if text_eq id x then true else has id xs

unfoldable pub new_ids : List Text → List PodMetric → List Text
unfolding has
new_ids known [] = []
new_ids known (m ∷ ms) =
    if has m.container_id known
    then new_ids known ms
    else m.container_id ∷ new_ids (known ++ m.container_id ∷ []) ms

ids-reset : (ps : List PodGpu) → ids (reset_running ps) ≡ ids ps
unfolding reset_running
ids-reset [] = refl
ids-reset (p ∷ ps) = ap (◌∷◌ p.container_id) (ids-reset ps)

ids-mark : (id : Text) (ps : List PodGpu) → ids (mark_running id ps) ≡ ids ps
unfolding mark_running
ids-mark id [] = refl
ids-mark id (p ∷ ps) = ground (arith, ids-mark id ps)

is_known-has : (id : Text) (ps : List PodGpu) → is_known id ps ≡ has id (ids ps)
unfolding is_known has
is_known-has id [] = refl
is_known-has id (p ∷ ps) = ground (arith, is_known-has id ps)

ids-append : (ps : List PodGpu) (p : PodGpu) → ids (ps ++ p ∷ []) ≡ ids ps ++ p.container_id ∷ []
ids-append [] p = refl
ids-append (q ∷ ps) p = ap (◌∷◌ q.container_id) (ids-append ps p)

abbrev Noted : List PodMetric → List PodGpu → ℤ → List PodGpu × ℤ → Type 0
Noted ms ps assigned r =
    (ids (r.0) ≡ ids ps ++ new_ids (ids ps) ms)
    × (r.1 ≡ assigned +ℤ pos (length (new_ids (ids ps) ms)))

note_pod-old :
    (m : PodMetric) (ps : List PodGpu) (assigned : ℤ)
    → has m.container_id (ids ps) ≡ true
    → note_pod m ps assigned ≡ (mark_running m.container_id ps, assigned)
unfolding note_pod
note_pod-old m ps assigned h = rw (is_known-has m.container_id ps, h)

note_pod-new :
    (m : PodMetric) (ps : List PodGpu) (assigned : ℤ)
    → has m.container_id (ids ps) ≡ false
    → note_pod m ps assigned ≡ (ps ++ new_pod m.container_id ∷ [], assigned +ℤ pos 1)
unfolding note_pod
note_pod-new m ps assigned h = rw (is_known-has m.container_id ps, h)

note_pods_step :
    (m : PodMetric) (ms : List PodMetric) (ps : List PodGpu) (assigned : ℤ) (r : List PodGpu × ℤ)
    → note_pod m ps assigned ≡ r
    → note_pods (m ∷ ms) ps assigned ≡ note_pods ms r.0 r.1
unfolding note_pods
note_pods_step m ms ps assigned r e = ap (λ (s : List PodGpu × ℤ). note_pods ms s.0 s.1) e

next_count : (a : ℤ) (n : ℕ) → a +ℤ pos 1 +ℤ pos n ≡ a +ℤ pos (suc n)
next_count a n = omega int_laws

note_pods-Noted :
    (ms : List PodMetric) (ps : List PodGpu) (assigned : ℤ)
    → Noted ms ps assigned (note_pods ms ps assigned)
unfolding new_ids
note_pods-Noted [] ps assigned = unfold note_pods in (sym (append-nil (ids ps)), omega int_laws)
note_pods-Noted (m ∷ ms) ps assigned = elim (Bool-cases (has m.container_id (ids ps))) [
  | inl old ↦
      rw (old, note_pods_step m ms ps assigned _ (note_pod-old m ps assigned old))
        (rw (ids-mark m.container_id ps) at
          (note_pods-Noted ms (mark_running m.container_id ps) assigned))
  | inr new ↦
      let known = ids ps in
      let rest =
        rw (ids-append ps (new_pod m.container_id)) at
          (note_pods-Noted ms (ps ++ new_pod m.container_id ∷ []) (assigned +ℤ pos 1)) in
      rw (new, note_pods_step m ms ps assigned _ (note_pod-new m ps assigned new))
        (
          rest.0
              ∙ append_assoc known (m.container_id ∷ [])
                  (new_ids (known ++ m.container_id ∷ []) ms),
          rest.1 ∙ next_count assigned (length (new_ids (known ++ m.container_id ∷ []) ms)),
        )
]

-- A round of the collector keeps every container that it has seen and adds the new ones of the round,
-- each once and in order, and it counts exactly those as assigned.
pub update_podmap-new_ids :
    (podmap : List PodGpu) (gpu : GrpcGpu)
    → (ids (update_podmap podmap gpu).0 ≡ ids podmap ++ new_ids (ids podmap) gpu.gpu_pod)
      × ((update_podmap podmap gpu).1.gpu_assingment
          ≡ gpu.gpu_assingment +ℤ pos (length (new_ids (ids podmap) gpu.gpu_pod)))
unfolding update_podmap
update_podmap-new_ids podmap gpu =
    rw (ids-reset podmap) at (note_pods-Noted gpu.gpu_pod (reset_running podmap) gpu.gpu_assingment)

-- No entry has its health flag set.
abbrev pub NoHealth : List PodGpu → Type 0
NoHealth [] = Unit {0}
NoHealth (p ∷ ps) = (p.health_check ≡ false) × NoHealth ps

reset-NoHealth : (ps : List PodGpu) → NoHealth ps → NoHealth (reset_running ps)
unfolding reset_running
reset-NoHealth [] h = tt
reset-NoHealth (p ∷ ps) h = (h.0, reset-NoHealth ps h.1)

mark-NoHealth : (id : Text) (ps : List PodGpu) → NoHealth ps → NoHealth (mark_running id ps)
unfolding mark_running
mark-NoHealth id [] h = tt
mark-NoHealth id (p ∷ ps) h = ground (arith, mark-NoHealth id ps)

append-NoHealth : (ps : List PodGpu) (id : Text) → NoHealth ps → NoHealth (ps ++ new_pod id ∷ [])
append-NoHealth [] id h = (refl, tt)
append-NoHealth (p ∷ ps) id h = (h.0, append-NoHealth ps id h.1)

note_pod-NoHealth :
    (m : PodMetric) (ps : List PodGpu) (assigned : ℤ)
    → NoHealth ps
    → NoHealth (note_pod m ps assigned).0
unfolding note_pod
note_pod-NoHealth m ps assigned h =
    ground (arith, mark-NoHealth m.container_id ps, append-NoHealth ps m.container_id)

note_pods-NoHealth :
    (ms : List PodMetric) (ps : List PodGpu) (assigned : ℤ)
    → NoHealth ps
    → NoHealth (note_pods ms ps assigned).0
unfolding note_pods
note_pods-NoHealth [] ps assigned h = h
note_pods-NoHealth (m ∷ ms) ps assigned h =
    note_pods-NoHealth ms (note_pod m ps assigned).0 (note_pod m ps assigned).1
      (note_pod-NoHealth m ps assigned h)

count_returned-NoHealth :
    (ps : List PodGpu) (returned : ℤ) → NoHealth ps → count_returned ps returned ≡ returned
unfolding count_returned
count_returned-NoHealth [] returned h = refl
count_returned-NoHealth (p ∷ ps) returned (h, hs) =
    ground (arith, count_returned-NoHealth ps returned hs)

-- A history of rounds, each with the pods that it found on the GPU.
unfoldable pub run_rounds : List (List PodMetric) → List PodGpu → GrpcGpu → List PodGpu × GrpcGpu
run_rounds [] podmap gpu = (podmap, gpu)
run_rounds (pods ∷ rounds) podmap gpu =
    let (podmap', gpu') = update_podmap podmap (record gpu { gpu_pod = pods }) in
    run_rounds rounds podmap' gpu'

-- The collector starts with an empty table and never sets a health flag: over any rounds the count
-- of returned pods stays what it was, whichever pods end.
pub run_rounds-gpu_return :
    (rounds : List (List PodMetric)) (podmap : List PodGpu) (gpu : GrpcGpu)
    → NoHealth podmap
    → (run_rounds rounds podmap gpu).1.gpu_return ≡ gpu.gpu_return
unfolding run_rounds update_podmap
run_rounds-gpu_return [] podmap gpu h = refl
run_rounds-gpu_return (pods ∷ rounds) podmap gpu h =
    let noted =
      note_pods-NoHealth pods (reset_running podmap) gpu.gpu_assingment (reset-NoHealth podmap h) in
    run_rounds-gpu_return rounds _ _ noted ∙ count_returned-NoHealth _ gpu.gpu_return noted
