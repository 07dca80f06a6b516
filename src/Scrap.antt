-- ===== src/Scrap.antt =====
-- scrap/scrap.go: `Scrap` starts a goroutine for each node and collects what they find by two channels.
-- What `CollectNode` returns for a node, a batch or none and an error or none, is given.
use gpu_metric_collector.Base.{
  ℕ, zero, suc, ◌+◌, ◌<◌, ◌≡◌, Option, none, some, List, [], ◌∷◌, ◌++◌, length,
}
pub mod Results
pub mod Progress
mod Tests

-- The goroutines that have sent nothing, the errors of those that have sent their batch, the buffers
-- of the two channels, and the loop: the rounds left, the error of the round whose batch it waits for,
-- and what it has collected.
pub record Scrape (B E : Type 0) : Type 0 where
  pub working : List (Option B × Option E)
  pub half : List (Option E)
  pub response_channel : List (Option B)
  pub err_channel : List (Option E)
  pub left : ℕ
  pub holding : Option (Option E)
  pub metricsbatchs : List B
  pub errs : List E

abbrev pub add : {A : Type 0} → Option A → List A → List A
add none xs = xs
add (some x) xs = xs ++ x ∷ []

-- One step of a goroutine or of the loop, with channels that hold `n` values.
pub data Step {B E : Type 0} (n : ℕ) : Scrape B E → Scrape B E → Type 0 where
  send_response :
      (before after : List (Option B × Option E)) (b : Option B) (e : Option E) (s : Scrape B E)
      → s.working ≡ before ++ (b, e) ∷ after
      → length s.response_channel < n
      → Step n s (record s {
        working = before ++ after;
        half = e ∷ s.half;
        response_channel = s.response_channel ++ b ∷ [];
      })
  send_err :
      (before after : List (Option E)) (e : Option E) (s : Scrape B E)
      → s.half ≡ before ++ e ∷ after
      → length s.err_channel < n
      → Step n s (record s { half = before ++ after; err_channel = s.err_channel ++ e ∷ [] })
  receive_err :
      (e : Option E) (rest : List (Option E)) (left : ℕ) (s : Scrape B E)
      → s.err_channel ≡ e ∷ rest
      → s.left ≡ suc left
      → s.holding ≡ none
      → Step n s (record s { err_channel = rest; holding = some e })
  receive_response :
      (b : Option B) (rest : List (Option B)) (e : Option E) (left : ℕ) (s : Scrape B E)
      → s.response_channel ≡ b ∷ rest
      → s.left ≡ suc left
      → s.holding ≡ some e
      → Step n s (record s {
        response_channel = rest;
        left = left;
        holding = none;
        metricsbatchs = add b s.metricsbatchs;
        errs = add e s.errs;
      })

abbrev pub scrap : {B E : Type 0} → List (Option B × Option E) → Scrape B E
scrap nodes = record {
  working = nodes;
  half = [];
  response_channel = [];
  err_channel = [];
  left = length nodes;
  holding = none;
  metricsbatchs = [];
  errs = [];
}

pub data Reach {B E : Type 0} (nodes : List (Option B × Option E)) : Scrape B E → Type 0 where
  start : Reach nodes (scrap nodes)
  next : (s t : Scrape B E) → Reach nodes s → Step (length nodes) s t → Reach nodes t
