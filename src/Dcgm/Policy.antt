-- ===== src/Dcgm/Policy.antt =====
-- pkg/dcgm/policy.go and pkg/dcgm/callback.c: the conditions that a caller asks to be told of, and the
-- callback by which the manager tells. The structs are those of internal/include/dcgm_structs.h.
use gpu_metric_collector.Base.{
  ℕ, zero, suc, ◌+◌, ◌/◌, ◌%◌, ◌^◌, ◌<◌, Bool, true, false, String, Option, none, some, List, [],
  ◌∷◌, ◌++◌, bit_or, length, ltb, ◌==◌, if◌then◌else◌, set, replicate,
}
use gpu_metric_collector.Base.Int.{ℤ, pos, negsuc, ◌-ℤ◌}
pub mod Conditions
pub mod Parameters
pub mod Delivery
pub mod Merge
mod Tests

-- `policyCondition`, without the empty text that stands for none of them.
pub data PolicyCondition : Type 0 where
  dbe_policy pcie_policy max_rt_pg_policy thermal_policy power_policy nvlink_policy xid_policy :
      PolicyCondition

-- dcgmPolicyCondition_t
unfoldable pub policy_bit : PolicyCondition → ℕ
policy_bit dbe_policy = 0x1
policy_bit pcie_policy = 0x2
policy_bit max_rt_pg_policy = 0x4
policy_bit thermal_policy = 0x8
policy_bit power_policy = 0x10
policy_bit nvlink_policy = 0x20
policy_bit xid_policy = 0x40

-- `policyIndex`
unfoldable pub policy_index : PolicyCondition → ℕ
policy_index dbe_policy = 0
policy_index pcie_policy = 1
policy_index max_rt_pg_policy = 2
policy_index thermal_policy = 3
policy_index power_policy = 4
policy_index nvlink_policy = 5
policy_index xid_policy = 6

-- dcgmPolicyCallbackResponse_v1 as it lies in memory: each member of the union begins with a
-- timestamp of 64 bits, and two words of 32 bits follow it.
pub record CallbackResponse : Type 0 where
  pub version : ℕ
  pub condition : ℕ
  pub timestamp : ℤ
  pub word_0 : ℕ
  pub word_1 : ℕ

pub data ViolationData : Type 0 where
  dbe_condition : String → ℕ → ViolationData
  pci_condition : ℕ → ViolationData
  retired_pages_condition : ℕ → ℕ → ViolationData
  thermal_condition : ℕ → ViolationData
  power_condition : ℕ → ViolationData
  nvlink_condition : ℕ → ℕ → ViolationData
  xid_condition : ℕ → ViolationData

pub record PolicyViolation : Type 0 where
  pub condition : PolicyCondition
  pub timestamp : ℤ
  pub content : ViolationData

-- Microseconds to seconds; Go's division drops the fraction.
unfoldable pub create_time_stamp : ℤ → ℤ
create_time_stamp (pos t) = pos (t / 1000000)
create_time_stamp (negsuc t) = pos 0 -ℤ pos ((t + 1) / 1000000)

unfoldable pub dbe_location : ℕ → String
dbe_location location =
    if location == 0
    then "L1"
    else if location == 1
    then "L2"
    else if location == 2
    then "Device"
    else if location == 3
    then "Register"
    else if location == 4
    then "Texture"
    else "N/A"

-- The member of the union that a condition stands for.
unfoldable pub violation_data : PolicyCondition → CallbackResponse → ViolationData
violation_data dbe_policy r = dbe_condition (dbe_location r.word_0) r.word_1
violation_data pcie_policy r = pci_condition r.word_0
violation_data max_rt_pg_policy r = retired_pages_condition r.word_0 r.word_1
violation_data thermal_policy r = thermal_condition r.word_0
violation_data power_policy r = power_condition r.word_0
violation_data nvlink_policy r = nvlink_condition (r.word_0 % 2 ^ 16) r.word_1
violation_data xid_policy r = xid_condition r.word_0

-- The first switch of `ViolationRegistration`.
unfoldable pub condition_of : ℕ → Option PolicyCondition
condition_of bits =
    if bits == 0x1
    then some dbe_policy
    else if bits == 0x2
    then some pcie_policy
    else if bits == 0x4
    then some max_rt_pg_policy
    else if bits == 0x8
    then some thermal_policy
    else if bits == 0x10
    then some power_policy
    else if bits == 0x20
    then some nvlink_policy
    else if bits == 0x40
    then some xid_policy
    else none

-- The buffers of the channels in `callbacks`.
abbrev pub Callbacks : Type 0
Callbacks = PolicyCondition → List PolicyViolation

unfoldable pub same_condition : PolicyCondition → PolicyCondition → Bool
unfolding policy_index
same_condition c d = policy_index c == policy_index d

unfoldable pub with_buffer : PolicyCondition → List PolicyViolation → Callbacks → Callbacks
with_buffer c buffer callbacks d = if same_condition c d then buffer else callbacks d

-- A send on a channel with room for one; `none` where the sender has to wait.
unfoldable pub send : PolicyViolation → Callbacks → Option Callbacks
send v callbacks =
    if ltb (length (callbacks v.condition)) 1
    then some (with_buffer v.condition (callbacks v.condition ++ v ∷ []) callbacks)
    else none

answered : Option Callbacks → Option (Callbacks × ℤ)
answered none = none
answered (some callbacks) = some (callbacks, pos 0)

-- `response` about a condition, or about none that is known.
unfoldable pub deliver :
    Option PolicyCondition → CallbackResponse → Callbacks → Option (Callbacks × ℤ)
unfolding answered
deliver none r callbacks = some (callbacks, pos 0)
deliver (some c) r callbacks = answered (
    send
      (record {
        condition = c;
        timestamp = create_time_stamp r.timestamp;
        content = violation_data c r;
      })
      callbacks)

-- The callback: an unknown condition is dropped. It answers 0.
unfoldable pub violation_registration : CallbackResponse → Callbacks → Option (Callbacks × ℤ)
violation_registration r callbacks = deliver (condition_of r.condition) r callbacks

-- callback.c: the C function that the manager calls.
unfoldable pub violation_notify : CallbackResponse → Callbacks → Option (Callbacks × ℤ)
violation_notify p callbacks = violation_registration p callbacks

-- The loop of `registerPolicy` over the conditions asked for: the keys for `setPolicy`, the bits, and
-- the channels that the caller's channel is fed from.
unfoldable pub gather :
    List PolicyCondition → List ℕ × ℕ × List PolicyCondition → List ℕ × ℕ × List PolicyCondition
gather [] acc = acc
gather (t ∷ typ) (param_keys, condition, channels) =
    gather typ
      (param_keys ++ policy_index t ∷ [], bit_or condition (policy_bit t), channels ++ t ∷ [])

-- dcgmPolicyConditionParams_t; `tag` is 0 for a boolean and 1 for a long.
pub record ConditionParam : Type 0 where
  pub tag : ℕ
  pub value : ℕ

-- `paramMap`
unfoldable pub param_map : ℕ → Option ConditionParam
param_map key =
    if key == 0
    then some (record { tag = 0; value = 1 })
    else if key == 1
    then some (record { tag = 0; value = 1 })
    else if key == 2
    then some (record { tag = 1; value = 10 })
    else if key == 3
    then some (record { tag = 1; value = 100 })
    else if key == 4
    then some (record { tag = 1; value = 250 })
    else if key == 5
    then some (record { tag = 0; value = 1 })
    else if key == 6
    then some (record { tag = 0; value = 1 })
    else none

-- The array `policy.parms`, which starts as zeros.
abbrev pub no_params : List ConditionParam
no_params = replicate 7 (record { tag = 0; value = 0 })

-- The loop of `setPolicy`; `none` is its error.
unfoldable pub set_params : List ℕ → List ConditionParam → Option (List ConditionParam)
set_params [] parms = some parms
set_params (key ∷ keys) parms = elim (param_map key) [
  | none ↦ none
  | some p ↦ set_params keys (set parms key p)
]
