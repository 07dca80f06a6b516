-- ===== src/Dcgm/Policy/Delivery.antt =====
-- How a violation reaches the callers of `registerPolicy` in pkg/dcgm/policy.go: the manager's calls of
-- the callback, and the two goroutines that read the same channels.
use gpu_metric_collector.Base.{
  ◌≡◌, refl, ap, ◌∙◌, true, false, none, some, List, [], ◌∷◌, ==_iff, arith,
}
use gpu_metric_collector.Base.Int.{pos}
use gpu_metric_collector.Dcgm.Policy.{
  PolicyCondition, dbe_policy, pcie_policy, max_rt_pg_policy, thermal_policy, power_policy,
  nvlink_policy, xid_policy, policy_bit, policy_index, same_condition, CallbackResponse,
  PolicyViolation, Callbacks, condition_of, with_buffer, send, violation_registration,
  violation_notify, deliver, create_time_stamp, violation_data,
}

-- What the callback sends for a response about the condition.
abbrev pub violation_of : PolicyCondition → CallbackResponse → PolicyViolation
violation_of c r = record {
  condition = c;
  timestamp = create_time_stamp r.timestamp;
  content = violation_data c r;
}

condition_of-policy_bit : (c : PolicyCondition) → condition_of (policy_bit c) ≡ some c
unfolding condition_of policy_bit
condition_of-policy_bit dbe_policy = refl
condition_of-policy_bit pcie_policy = refl
condition_of-policy_bit max_rt_pg_policy = refl
condition_of-policy_bit thermal_policy = refl
condition_of-policy_bit power_policy = refl
condition_of-policy_bit nvlink_policy = refl
condition_of-policy_bit xid_policy = refl

same_condition_refl : (c : PolicyCondition) → same_condition c c ≡ true
unfolding same_condition
same_condition_refl c = (==_iff (policy_index c) (policy_index c)).1 refl

-- A response about one of the seven conditions is put into that condition's channel, with the data of
-- that condition, where the channel is empty, and makes the manager's thread wait where it is not.
-- No other channel changes.
pub violation_notify-with_buffer :
    (c : PolicyCondition) (r : CallbackResponse) (callbacks : Callbacks)
    → r.condition ≡ policy_bit c
    → (callbacks c ≡ []
        → (after : Callbacks) × (violation_notify r callbacks ≡ some (after, pos 0))
          × (after c ≡ violation_of c r ∷ [])
          × ((d : PolicyCondition) → same_condition c d ≡ false → after d ≡ callbacks d))
      × ((v : PolicyViolation) (vs : List PolicyViolation)
          → callbacks c ≡ v ∷ vs
          → violation_notify r callbacks ≡ none)
unfolding violation_notify violation_registration deliver send with_buffer
violation_notify-with_buffer c r callbacks e =
    let known = ap condition_of e ∙ condition_of-policy_bit c in
    (
      λ empty. (
        with_buffer c (violation_of c r ∷ []) callbacks,
        rw (known) (ground (arith, empty)),
        rw (same_condition_refl c) refl,
        λ d n. rw n refl,
      ),
      λ v vs full. rw (known) (ground (arith, full)),
    )
