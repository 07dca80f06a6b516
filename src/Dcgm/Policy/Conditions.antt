-- ===== src/Dcgm/Policy/Conditions.antt =====
-- The condition bits that pkg/dcgm/policy.go asks for, and those that its callback answers.
use gpu_metric_collector.Base.{
  ℕ, zero, suc, ◌<◌, ◌≡◌, refl, sym, ◌∙◌, Bool, true, false, not, ◌&&◌, ◌||◌, List, [], ◌∷◌, ◌++◌,
  map, append-nil, append_assoc, bit_or, bit_and, ltb, ltb→lt, ◌==◌, arith,
}
use gpu_metric_collector.Dcgm.Policy.{
  PolicyCondition, dbe_policy, pcie_policy, max_rt_pg_policy, thermal_policy, power_policy,
  nvlink_policy, xid_policy, policy_bit, policy_index, same_condition, gather,
}

-- A mask has the bit of a condition.
unfoldable pub has_bit : PolicyCondition → ℕ → Bool
unfolding policy_bit
has_bit c mask = bit_and mask (policy_bit c) == policy_bit c

unfoldable pub asked : PolicyCondition → List PolicyCondition → Bool
unfolding same_condition
asked c [] = false
asked c (t ∷ typ) = same_condition t c || asked c typ

same_bool : Bool → Bool → Bool
same_bool true b = b
same_bool false b = not b

same_bool→eq : (a b : Bool) → same_bool a b ≡ true → a ≡ b
unfolding same_bool
same_bool→eq true b h = sym h
same_bool→eq false true h = h
same_bool→eq false false h = refl

-- What one `condition |= …` does to the bits, for a mask below 128.
step_ok : ℕ → PolicyCondition → PolicyCondition → Bool
unfolding has_bit same_condition policy_bit same_bool
step_ok mask t c =
    ltb (bit_or mask (policy_bit t)) 128
    && same_bool (has_bit c (bit_or mask (policy_bit t))) (same_condition t c || has_bit c mask)

all_conditions : (PolicyCondition → Bool) → Bool
all_conditions p =
    p dbe_policy
    && p pcie_policy
    && p max_rt_pg_policy
    && p thermal_policy
    && p power_policy
    && p nvlink_policy
    && p xid_policy

all_conditions_sound :
    (p : PolicyCondition → Bool) (c : PolicyCondition) → all_conditions p ≡ true → p c ≡ true
unfolding all_conditions
all_conditions_sound p dbe_policy h = ground arith
all_conditions_sound p pcie_policy h = ground arith
all_conditions_sound p max_rt_pg_policy h = ground arith
all_conditions_sound p thermal_policy h = ground arith
all_conditions_sound p power_policy h = ground arith
all_conditions_sound p nvlink_policy h = ground arith
all_conditions_sound p xid_policy h = ground arith

-- Every mask under a bound passes a test.
masks_pass : (ℕ → Bool) → ℕ → Bool
masks_pass test zero = true
masks_pass test (suc bound) = test bound && masks_pass test bound

masks_pass_at :
    (test : ℕ → Bool) (bound mask : ℕ)
    → mask < bound
    → masks_pass test bound ≡ true
    → test mask ≡ true
unfolding masks_pass
masks_pass_at test zero mask under passed = ground arith
masks_pass_at test (suc bound) mask under passed = ground (arith, masks_pass_at test bound mask)

every_step : masks_pass (λ m. all_conditions (λ t. all_conditions (step_ok m t))) 128 ≡ true
unfolding masks_pass all_conditions step_ok has_bit same_condition policy_bit policy_index same_bool
every_step = refl

step_ok_lem : (mask : ℕ) (t c : PolicyCondition) → mask < 128 → step_ok mask t c ≡ true
step_ok_lem mask t c h = all_conditions_sound (step_ok mask t) c (
    all_conditions_sound (λ s. all_conditions (step_ok mask s)) t
      (masks_pass_at _ 128 mask h every_step))

after_step :
    (mask : ℕ) (t c : PolicyCondition)
    → step_ok mask t c ≡ true
    → (bit_or mask (policy_bit t) < 128)
      × (has_bit c (bit_or mask (policy_bit t)) ≡ (same_condition t c || has_bit c mask))
unfolding step_ok
after_step mask t c h =
    (ltb→lt (bit_or mask (policy_bit t)) 128 (ground arith), same_bool→eq _ _ (ground arith))

abbrev Gathered :
    List PolicyCondition
    → List ℕ × ℕ × List PolicyCondition
    → PolicyCondition
    → List ℕ × ℕ × List PolicyCondition
    → Type 0
Gathered typ acc c out =
    (out.0 ≡ acc.0 ++ map policy_index typ)
    × (has_bit c out.1 ≡ (asked c typ || has_bit c acc.1))
    × (out.2 ≡ acc.2 ++ typ)

gather-Gathered :
    (typ : List PolicyCondition) (keys : List ℕ) (mask : ℕ) (channels : List PolicyCondition)
    (c : PolicyCondition)
    → mask < 128
    → Gathered typ (keys, mask, channels) c (gather typ (keys, mask, channels))
unfolding gather asked
gather-Gathered [] keys mask channels c h = (sym (append-nil keys), refl, sym (append-nil channels))
gather-Gathered (t ∷ typ) keys mask channels c h =
    let (small, step) = after_step mask t c (step_ok_lem mask t c h) in
    let (ks, bits, cs) =
      gather-Gathered typ (keys ++ policy_index t ∷ []) (bit_or mask (policy_bit t))
        (channels ++ t ∷ []) c small in
    (
      ks ∙ append_assoc keys (policy_index t ∷ []) (map policy_index typ),
      bits ∙ ground (arith, step),
      cs ∙ append_assoc channels (t ∷ []) typ,
    )

no_bit : (c : PolicyCondition) → has_bit c 0 ≡ false
unfolding has_bit policy_bit
no_bit dbe_policy = refl
no_bit pcie_policy = refl
no_bit max_rt_pg_policy = refl
no_bit thermal_policy = refl
no_bit power_policy = refl
no_bit nvlink_policy = refl
no_bit xid_policy = refl

-- For any list of conditions, repeated ones included, the parameter keys and the channels are those of
-- the list in its order, and the mask that the manager gets has the bit of a condition exactly if the
-- list has the condition.
pub gather-asked :
    (typ : List PolicyCondition) (c : PolicyCondition)
    → ((gather typ ([], 0, [])).0 ≡ map policy_index typ)
      × ((gather typ ([], 0, [])).2 ≡ typ)
      × (has_bit c (gather typ ([], 0, [])).1 ≡ asked c typ)
gather-asked typ c =
    let (keys, bits, channels) = gather-Gathered typ [] 0 [] c (omega arith) in
    (keys, channels, bits ∙ ground (arith, no_bit c))
