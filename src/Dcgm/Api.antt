-- ===== src/Dcgm/Api.antt =====
-- `Init` and `Shutdown` of pkg/dcgm/api.go, and the parts of pkg/dcgm/admin.go that they call. What
-- libdcgm and the dynamic loader answer is given with each call.
use gpu_metric_collector.Base.{
  ℕ, zero, suc, Bool, true, false, Option, none, some, List, [], ◌∷◌, if◌then◌else◌,
}
use gpu_metric_collector.Base.Int.{ℤ, pos, negsuc, ◌+ℤ◌, ◌-ℤ◌, ltb_ℤ}
pub mod Nesting
mod Tests

pub data Mode : Type 0 where
  embedded standalone start_hostengine : Mode

pub data ApiError : Type 0 where
  library_not_found not_started not_stopped shutdown_before_init init_needed : ApiError

-- A start of DCGM in its mode (an engine in the process, a connection to one, or a host engine), or a
-- stop, that succeeded.
pub data EngineCall : Type 0 where
  started stopped : Mode → EngineCall

-- `dcgmInitCounter` and `stopMode`, and the starts and stops that succeeded, the latest first.
pub record Api : Type 0 where
  pub counter : ℤ
  pub stop_mode : Mode
  pub calls : List EngineCall

-- What one call meets: whether dlopen finds the library, and whether the engine does as it is told.
pub record Answer : Type 0 where
  pub lib_found : Bool
  pub done : Bool

-- `initDCGM`: the mode is stored before the start, which can fail.
unfoldable pub init_dcgm : Mode → Answer → Api → Api × Option ApiError
init_dcgm m answer api =
    if answer.lib_found
    then (
      record api {
        stop_mode = m;
        calls = if answer.done then started m ∷ api.calls else api.calls;
      },
      if answer.done then none else some not_started,
    )
    else (api, some library_not_found)

-- `shutdown` of admin.go
unfoldable pub shutdown_dcgm : Answer → Api → Api × Option ApiError
shutdown_dcgm answer api = (
  record api { calls = if answer.done then stopped api.stop_mode ∷ api.calls else api.calls },
  if answer.done then none else some not_stopped,
)

unfoldable pub is_zero : ℤ → Bool
is_zero (pos zero) = true
is_zero (pos (suc n)) = false
is_zero (negsuc n) = false

unfoldable pub is_one : ℤ → Bool
is_one (pos zero) = false
is_one (pos (suc zero)) = true
is_one (pos (suc (suc n))) = false
is_one (negsuc n) = false

unfoldable pub count_up : Api × Option ApiError → Api × Option ApiError
count_up (api, err) = (record api { counter = api.counter +ℤ pos 1 }, err)

unfoldable pub count_down : Api × Option ApiError → Api × Option ApiError
count_down (api, err) = (record api { counter = api.counter -ℤ pos 1 }, err)

unfoldable pub init : Mode → Answer → Api → Api × Option ApiError
init m answer api = count_up (
    if is_zero api.counter
    then init_dcgm m answer api
    else (api, if ltb_ℤ api.counter (pos 0) then some shutdown_before_init else none))

unfoldable pub shutdown : Answer → Api → Api × Option ApiError
shutdown answer api = count_down (
    if is_one api.counter
    then shutdown_dcgm answer api
    else (api, if ltb_ℤ api.counter (pos 1) then some init_needed else none))

pub data Call : Type 0 where
  init_call : Mode → Answer → Call
  shutdown_call : Answer → Call

-- A sequence of calls, each under the lock.
unfoldable pub run : List Call → Api → Api
run [] api = api
run (init_call m answer ∷ rest) api = run rest (init m answer api).0
run (shutdown_call answer ∷ rest) api = run rest (shutdown answer api).0
