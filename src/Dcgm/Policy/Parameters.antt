-- ===== src/Dcgm/Policy/Parameters.antt =====
-- The parameters that `setPolicy` of pkg/dcgm/policy.go hands to the manager.
use gpu_metric_collector.Base.{
  ℕ, zero, suc, ◌<◌, ◌≡◌, refl, sym, ap, ◌∙◌, false, ◌||◌, some, List, [], ◌∷◌, map, ◌==◌, ==_iff,
  length, length-set, get_elem?, set, replicate, if◌then◌else◌, arith, inl, inr, Bool-cases,
}
use gpu_metric_collector.Dcgm.Policy.{
  PolicyCondition, dbe_policy, pcie_policy, max_rt_pg_policy, thermal_policy, power_policy,
  nvlink_policy, xid_policy, policy_index, same_condition, ConditionParam, param_map, no_params,
  set_params,
}
use gpu_metric_collector.Dcgm.Policy.Conditions.{asked}

get_elem?-set_self :
    {A : Type 0} (xs : List A) (i : ℕ) (a : A) → i < length xs → get_elem? (set xs i a) i ≡ some a
get_elem?-set_self [] i a h = absurd (omega arith)
get_elem?-set_self (x ∷ xs) zero a h = refl
get_elem?-set_self (x ∷ xs) (suc i) a h = get_elem?-set_self xs i a (omega arith)

get_elem?-set_other :
    {A : Type 0} (xs : List A) (i j : ℕ) (a : A)
    → (i == j) ≡ false
    → get_elem? (set xs i a) j ≡ get_elem? xs j
get_elem?-set_other [] i j a h = refl
get_elem?-set_other (x ∷ xs) zero zero a h = ground arith
get_elem?-set_other (x ∷ xs) zero (suc j) a h = refl
get_elem?-set_other (x ∷ xs) (suc i) zero a h = refl
get_elem?-set_other (x ∷ xs) (suc i) (suc j) a h = get_elem?-set_other xs i j a (ground arith)

get_elem?-replicate : {A : Type 0} (n i : ℕ) (a : A) → i < n → get_elem? (replicate n a) i ≡ some a
get_elem?-replicate zero i a h = absurd (omega arith)
get_elem?-replicate (suc n) zero a h = refl
get_elem?-replicate (suc n) (suc i) a h = get_elem?-replicate n i a (omega arith)

has_param :
    (c : PolicyCondition)
    → (p : ConditionParam) × (param_map (policy_index c) ≡ some p) × (policy_index c < 7)
unfolding param_map policy_index
has_param dbe_policy = (_, refl, omega arith)
has_param pcie_policy = (_, refl, omega arith)
has_param max_rt_pg_policy = (_, refl, omega arith)
has_param thermal_policy = (_, refl, omega arith)
has_param power_policy = (_, refl, omega arith)
has_param nvlink_policy = (_, refl, omega arith)
has_param xid_policy = (_, refl, omega arith)

-- What stands at a condition's place: its limit if it is asked for, and what stood there if not.
abbrev Parameters : List PolicyCondition → List ConditionParam → List ConditionParam → Type 0
Parameters typ before after =
    (length after ≡ length before)
    × ((c : PolicyCondition)
        → get_elem? after (policy_index c)
          ≡ (if asked c typ then param_map (policy_index c) else get_elem? before (policy_index c)))

set_params-step :
    (t : PolicyCondition) (keys : List ℕ) (parms : List ConditionParam) (p : ConditionParam)
    → param_map (policy_index t) ≡ some p
    → set_params (policy_index t ∷ keys) parms ≡ set_params keys (set parms (policy_index t) p)
unfolding set_params
set_params-step t keys parms p e = rw (e, set_params) refl

pick :
    (t c : PolicyCondition) (typ : List PolicyCondition) (parms : List ConditionParam)
    (p : ConditionParam)
    → param_map (policy_index t) ≡ some p
    → policy_index t < length parms
    → (if asked c typ
        then param_map (policy_index c)
        else get_elem? (set parms (policy_index t) p) (policy_index c))
      ≡ (if same_condition t c || asked c typ
          then param_map (policy_index c)
          else get_elem? parms (policy_index c))
unfolding same_condition
pick t c typ parms p known small = elim (Bool-cases (asked c typ)) [
  | inl a ↦ ground (arith, a)
  | inr a ↦ elim (Bool-cases (policy_index t == policy_index c)) [
    | inr b ↦ rw (a, b) (get_elem?-set_other parms (policy_index t) (policy_index c) p b)
    | inl b ↦
        rw (a, b, ← (==_iff (policy_index t) (policy_index c)).0 b)
          (get_elem?-set_self parms (policy_index t) p small ∙ sym known)
  ]
]

set_params-Parameters :
    (typ : List PolicyCondition) (parms : List ConditionParam)
    → length parms ≡ 7
    → (after : List ConditionParam) × (set_params (map policy_index typ) parms ≡ some after)
      × Parameters typ parms after
unfolding asked
set_params-Parameters [] parms h = (parms, unfold set_params in refl, (refl, λ c. refl))
set_params-Parameters (t ∷ typ) parms h =
    let (p, known, small) = has_param t in
    let (after, run, (len, at)) =
      set_params-Parameters typ (set parms (policy_index t) p)
        (length-set parms (policy_index t) p ∙ h) in
    (
      after,
      set_params-step t (map policy_index typ) parms p known ∙ run,
      (
        len ∙ length-set parms (policy_index t) p,
        λ c. at c ∙ pick t c typ parms p known (omega (arith, small, h)),
      ),
    )

-- For any list of conditions `setPolicy` finds every parameter and stays within its array of seven.
-- A condition of the list gets the limit of `paramMap`, and every other place stays zero.
pub set_params-asked :
    (typ : List PolicyCondition)
    → (parms : List ConditionParam) × (set_params (map policy_index typ) no_params ≡ some parms)
      × (length parms ≡ 7)
      × ((c : PolicyCondition)
          → get_elem? parms (policy_index c) ≡ (
              if asked c typ
              then param_map (policy_index c)
              else some (record { tag = 0; value = 0 })))
set_params-asked typ =
    let (parms, run, (len, at)) = set_params-Parameters typ no_params refl in
    (
      parms,
      run,
      len,
      λ c. at c ∙ ap (λ o. if asked c typ then param_map (policy_index c) else o) (zeros c),
    )
  where
    zeros :
        (c : PolicyCondition)
        → get_elem? no_params (policy_index c) ≡ some (record { tag = 0; value = 0 })
    zeros c = let (p, known, small) = has_param c in get_elem?-replicate 7 (policy_index c) _ small
