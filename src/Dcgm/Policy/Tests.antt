-- ===== src/Dcgm/Policy/Tests.antt =====
-- pkg/dcgm/policy.go for a caller that asks for the temperature and for XID errors.
use gpu_metric_collector.Base.{
  ◌≡◌, refl, false, none, some, List, [], ◌∷◌, ◌++◌, map, length, get_elem?, if◌then◌else◌,
}
use gpu_metric_collector.Base.Int.{pos}
use gpu_metric_collector.Dcgm.Policy.{
  PolicyCondition, thermal_policy, xid_policy, policy_bit, policy_index, same_condition, gather,
  CallbackResponse, PolicyViolation, Callbacks, violation_notify, ConditionParam, param_map,
  no_params, set_params,
}
use gpu_metric_collector.Dcgm.Policy.Conditions.{has_bit, asked, gather-asked}
use gpu_metric_collector.Dcgm.Policy.Parameters.{set_params-asked}
use gpu_metric_collector.Dcgm.Policy.Delivery.{violation_of, violation_notify-with_buffer}
use gpu_metric_collector.Dcgm.Policy.Merge.{
  Bus, Reach, start, next, notify, merge, merged_from, registered, Reach-in_order, Reach-lost,
}

abbrev wanted : List PolicyCondition
wanted = xid_policy ∷ thermal_policy ∷ []

abbrev too_hot : CallbackResponse
too_hot = record { version = 0; condition = 0x8; timestamp = pos 5000000; word_0 = 101; word_1 = 0 }

abbrev idle : Callbacks
idle c = []

wanted_mask : (gather wanted ([], 0, [])).1 ≡ 0x48
unfolding gather policy_bit
wanted_mask = refl

too_hot_bit : too_hot.condition ≡ policy_bit thermal_policy
unfolding policy_bit
too_hot_bit = refl

gather-asked_example :
    ((gather wanted ([], 0, [])).0 ≡ map policy_index wanted)
    × ((gather wanted ([], 0, [])).2 ≡ wanted)
    × (has_bit thermal_policy (gather wanted ([], 0, [])).1 ≡ asked thermal_policy wanted)
gather-asked_example = gather-asked wanted thermal_policy

set_params-asked_example :
    (parms : List ConditionParam) × (set_params (map policy_index wanted) no_params ≡ some parms)
    × (length parms ≡ 7)
    × ((c : PolicyCondition)
        → get_elem? parms (policy_index c) ≡ (
            if asked c wanted
            then param_map (policy_index c)
            else some (record { tag = 0; value = 0 })))
set_params-asked_example = set_params-asked wanted

violation_notify-with_buffer_example :
    (idle thermal_policy ≡ []
      → (after : Callbacks) × (violation_notify too_hot idle ≡ some (after, pos 0))
        × (after thermal_policy ≡ violation_of thermal_policy too_hot ∷ [])
        × ((d : PolicyCondition) → same_condition thermal_policy d ≡ false → after d ≡ idle d))
    × ((v : PolicyViolation) (vs : List PolicyViolation)
        → idle thermal_policy ≡ v ∷ vs
        → violation_notify too_hot idle ≡ none)
violation_notify-with_buffer_example =
    violation_notify-with_buffer thermal_policy too_hot idle too_hot_bit

abbrev hot_first : List PolicyCondition
hot_first = thermal_policy ∷ xid_policy ∷ []

-- The callback has reported the temperature, and the goroutine has passed it on.
abbrev passed_on : (s : Bus) × Reach hot_first s × (s.waiting ≡ xid_policy ∷ [])
passed_on =
    let (after, run, at, others) =
      (violation_notify-with_buffer thermal_policy too_hot idle too_hot_bit).0 refl in
    let told = record (registered hot_first) { callbacks = after } in
    (
      merged_from thermal_policy (xid_policy ∷ []) (violation_of thermal_policy too_hot) [] told,
      next told _
          (next (registered hot_first) told start (notify too_hot (registered hot_first) after run))
          (merge thermal_policy (xid_policy ∷ []) (violation_of thermal_policy too_hot) [] told refl
            at),
      unfold merged_from in refl,
    )

Reach-in_order_example :
    map (λ v. v.condition) passed_on.0.violation ++ passed_on.0.waiting ≡ hot_first
Reach-in_order_example = Reach-in_order hot_first passed_on.0 passed_on.1

Reach-lost_example :
    (s : Bus) × Reach wanted s
    × (s.published ≡ violation_of thermal_policy too_hot ∷ [])
    × (s.violation ≡ [])
    × ((d : PolicyCondition) → s.callbacks d ≡ [])
Reach-lost_example = Reach-lost wanted thermal_policy too_hot too_hot_bit
