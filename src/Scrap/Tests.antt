-- ===== src/Scrap/Tests.antt =====
-- scrap/scrap.go for two nodes, of which one has no batch.
use gpu_metric_collector.Base.{ℕ, ◌<◌, ◌≡◌, refl, Option, none, some, List, [], ◌∷◌, leb, arith}
use gpu_metric_collector.Scrap.{
  Scrape, Step, send_response, send_err, receive_err, receive_response, scrap, Reach, start, next,
}
use gpu_metric_collector.Scrap.Results.{tally, tally_some, Reach-tally}
use gpu_metric_collector.Scrap.Progress.{Reach-progress, remaining, Step-remaining}

abbrev two_nodes : List (Option ℕ × Option ℕ)
two_nodes = (some 7, none) ∷ (none, some 404) ∷ []

Reach-progress_example : (t : Scrape ℕ ℕ) × Step 2 (scrap two_nodes) t
Reach-progress_example = Reach-progress two_nodes (scrap two_nodes) 1 start refl

abbrev sent : Scrape ℕ ℕ
sent = record {
  working = (some 7, none) ∷ [];
  half = some 404 ∷ [];
  response_channel = none ∷ [];
  err_channel = [];
  left = 2;
  holding = none;
  metricsbatchs = [];
  errs = [];
}

first-Step : Step 2 (scrap two_nodes) sent
first-Step =
    send_response ((some 7, none) ∷ []) [] none (some 404) (scrap two_nodes) refl (omega arith)

Step-remaining_example : remaining sent < remaining (scrap two_nodes)
Step-remaining_example = Step-remaining 2 (scrap two_nodes) sent first-Step

abbrev one_node : List (Option ℕ × Option ℕ)
one_node = (some 7, none) ∷ []

abbrev stage : List (Option ℕ) → List (Option ℕ) → List (Option ℕ) → Option (Option ℕ) → Scrape ℕ ℕ
stage half responses errors holding = record {
  working = [];
  half = half;
  response_channel = responses;
  err_channel = errors;
  left = 1;
  holding = holding;
  metricsbatchs = [];
  errs = [];
}

abbrev over : Scrape ℕ ℕ
over = record (stage [] [] [] none) { left = 0; metricsbatchs = 7 ∷ [] }

whole_run : Reach one_node over
whole_run =
    next (stage [] (some 7 ∷ []) [] (some none)) over
      (next (stage [] (some 7 ∷ []) (none ∷ []) none) _
        (next (stage (none ∷ []) (some 7 ∷ []) [] none) _
          (next (scrap one_node) _ start
            (send_response [] [] (some 7) none (scrap one_node) refl (omega arith)))
          (send_err [] [] none (stage (none ∷ []) (some 7 ∷ []) [] none) refl (omega arith)))
        (receive_err none [] 0 (stage [] (some 7 ∷ []) (none ∷ []) none) refl refl refl))
      (receive_response (some 7) [] none 0 (stage [] (some 7 ∷ []) [] (some none)) refl refl refl)

Reach-tally_example : tally (leb 5) (7 ∷ []) ≡ tally_some (leb 5) (some 7 ∷ [])
Reach-tally_example = Reach-tally (leb 5) one_node over whole_run refl
