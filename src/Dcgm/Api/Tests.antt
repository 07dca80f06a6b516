-- ===== src/Dcgm/Api/Tests.antt =====
-- pkg/dcgm/api.go on a few calls.
use gpu_metric_collector.Base.{◌≡◌, refl, true, false, some, List, [], ◌∷◌}
use gpu_metric_collector.Base.Int.{pos}
use gpu_metric_collector.Dcgm.Api.{
  embedded, standalone, library_not_found, Api, Answer, init_dcgm, is_zero, count_up, init, Call,
  init_call, shutdown_call, run,
}
use gpu_metric_collector.Dcgm.Api.Nesting.{InTurn, is_positive, run-InTurn}

abbrev fresh : Api
fresh = record { counter = pos 0; stop_mode = embedded; calls = [] }

abbrev good : Answer
good = record { lib_found = true; done = true }

abbrev missing : Answer
missing = record { lib_found = false; done = false }

abbrev nested : List Call
nested =
    shutdown_call good
    ∷ init_call embedded good
    ∷ init_call standalone good
    ∷ init_call embedded good
    ∷ shutdown_call good
    ∷ shutdown_call good
    ∷ []

fresh-InTurn : InTurn fresh
unfolding is_positive
fresh-InTurn = (tt, refl)

run-InTurn_example : InTurn (run nested fresh)
run-InTurn_example =
    run-InTurn nested fresh (refl, (refl, refl, (refl, refl, (refl, refl, (refl, (refl, tt))))))
      fresh-InTurn

fails : (init embedded missing fresh).1 ≡ some library_not_found
unfolding init init_dcgm is_zero count_up
fails = refl
