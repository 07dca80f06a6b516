-- ===== src/Dcgm/Api/Nesting.antt =====
-- The engine is started and stopped in turn, however `Init` and `Shutdown` of pkg/dcgm/api.go nest.
use gpu_metric_collector.Base.{
  zero, suc, ◌≡◌, refl, ◌∙◌, Bool, true, false, none, some, List, [], ◌∷◌, arith, inl, inr,
  Bool-cases,
}
use gpu_metric_collector.Base.Int.{ℤ, pos, negsuc, ◌+ℤ◌, ◌-ℤ◌}
use gpu_metric_collector.Dcgm.Api.{
  Mode, ApiError, EngineCall, started, stopped, Api, Answer, init_dcgm, shutdown_dcgm, is_zero,
  is_one, count_up, count_down, init, shutdown, Call, init_call, shutdown_call, run,
}

-- The engine runs: the latest start or stop that succeeded is a start.
abbrev pub runs : List EngineCall → Bool
runs [] = false
runs (started m ∷ calls) = true
runs (stopped m ∷ calls) = false

-- A start only follows a stop or nothing, and a stop only a start.
abbrev pub Alternates : List EngineCall → Type 0
Alternates [] = Unit {0}
Alternates (started m ∷ calls) = (runs calls ≡ false) × Alternates calls
Alternates (stopped m ∷ calls) = (runs calls ≡ true) × Alternates calls

unfoldable pub is_positive : ℤ → Bool
is_positive (pos zero) = false
is_positive (pos (suc n)) = true
is_positive (negsuc n) = false

abbrev pub InTurn : Api → Type 0
InTurn api = Alternates api.calls × (runs api.calls ≡ is_positive api.counter)

-- The library is found and the engine does as it is told, whenever a call asks for it.
abbrev pub Obeyed : List Call → Type 0
Obeyed [] = Unit {0}
Obeyed (init_call m answer ∷ rest) = (answer.lib_found ≡ true) × (answer.done ≡ true) × Obeyed rest
Obeyed (shutdown_call answer ∷ rest) = (answer.done ≡ true) × Obeyed rest

init-InTurn :
    (m : Mode) (answer : Answer) (counter : ℤ) (mode : Mode) (calls : List EngineCall)
    → answer.lib_found ≡ true
    → answer.done ≡ true
    → InTurn (record { counter = counter; stop_mode = mode; calls = calls })
    → InTurn (init m answer (record { counter = counter; stop_mode = mode; calls = calls })).0
unfolding init init_dcgm is_zero count_up is_positive ◌+ℤ◌
init-InTurn m answer (pos zero) mode calls found done (alt, on) = rw (found, done) ((on, alt), refl)
init-InTurn m answer (pos (suc n)) mode calls found done (alt, on) = (alt, on ∙ ground arith)
init-InTurn m answer (negsuc zero) mode calls found done (alt, on) = (alt, on ∙ ground arith)
init-InTurn m answer (negsuc (suc n)) mode calls found done (alt, on) = (alt, on ∙ ground arith)

shutdown-InTurn :
    (answer : Answer) (counter : ℤ) (mode : Mode) (calls : List EngineCall)
    → answer.done ≡ true
    → InTurn (record { counter = counter; stop_mode = mode; calls = calls })
    → InTurn (shutdown answer (record { counter = counter; stop_mode = mode; calls = calls })).0
unfolding shutdown shutdown_dcgm is_one count_down is_positive ◌-ℤ◌
shutdown-InTurn answer (pos zero) mode calls done (alt, on) = (alt, on ∙ ground arith)
shutdown-InTurn answer (pos (suc zero)) mode calls done (alt, on) = rw done ((on, alt), refl)
shutdown-InTurn answer (pos (suc (suc n))) mode calls done (alt, on) = (alt, on ∙ ground arith)
shutdown-InTurn answer (negsuc n) mode calls done (alt, on) = (alt, on ∙ ground arith)

-- Over any sequence of calls of `Init` and `Shutdown`, too many `Shutdown`s included, the engine is
-- started and stopped in turn, and it runs exactly while the counter is positive; provided that the
-- library is found and that each start and stop of the engine that a call asks for succeeds.
pub run-InTurn :
    (calls : List Call) (api : Api) → Obeyed calls → InTurn api → InTurn (run calls api)
unfolding run
run-InTurn [] api found turn = turn
run-InTurn (init_call m answer ∷ rest) api (found, done, later) turn =
    run-InTurn rest _ later
      (init-InTurn m answer api.counter api.stop_mode api.calls found done turn)
run-InTurn (shutdown_call answer ∷ rest) api (done, later) turn =
    run-InTurn rest _ later (shutdown-InTurn answer api.counter api.stop_mode api.calls done turn)

-- An `Init` that fails is counted all the same: where the first `Init` fails, the next one, whatever
-- it would have met, reports success without a call of the engine.
pub init-after_failure :
    (m n : Mode) (first second : Answer) (api : Api) (e : ApiError)
    → api.counter ≡ pos 0
    → (init m first api).1 ≡ some e
    → ((init n second (init m first api).0).1 ≡ none)
      × ((init n second (init m first api).0).0.calls ≡ (init m first api).0.calls)
unfolding init init_dcgm is_zero count_up ◌+ℤ◌
init-after_failure m n first second api e zero_count failed = elim (Bool-cases first.lib_found) [
  | inl f ↦ rw (zero_count, f) (refl, refl)
  | inr f ↦ rw (zero_count, f) (refl, refl)
]
