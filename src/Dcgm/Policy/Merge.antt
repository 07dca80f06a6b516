-- ===== src/Dcgm/Policy/Merge.antt =====
-- The goroutines that `registerPolicy` of pkg/dcgm/policy.go starts: one passes violations on to a
-- publisher, one to the channel that the caller gets, and both read the channels of the callback.
use gpu_metric_collector.Base.{
  ℕ, ◌≡◌, refl, sym, ap, ◌∙◌, subst, true, false, Option, none, some, List, [], ◌∷◌, ◌++◌, map, ltb,
  ◌==◌, ==_iff, length, if◌then◌else◌, inl, inr, Bool-cases,
}
use gpu_metric_collector.Base.Int.{ℤ, pos}
use gpu_metric_collector.Dcgm.Policy.{
  PolicyCondition, dbe_policy, pcie_policy, max_rt_pg_policy, thermal_policy, power_policy,
  nvlink_policy, xid_policy, policy_bit, policy_index, same_condition, CallbackResponse,
  PolicyViolation, Callbacks, condition_of, with_buffer, send, deliver, violation_registration,
  violation_notify,
}
use gpu_metric_collector.Dcgm.Policy.Delivery.{violation_of, violation_notify-with_buffer}

-- `waiting` are the channels that the second goroutine has still to read, one after the other, and
-- `violation` what it has put into the caller's channel, which has room for one value of each.
pub record Bus : Type 0 where
  pub callbacks : Callbacks
  pub published : List PolicyViolation
  pub waiting : List PolicyCondition
  pub violation : List PolicyViolation

unfoldable pub published_from : PolicyCondition → PolicyViolation → List PolicyViolation → Bus → Bus
published_from c v vs s = record s {
  callbacks = with_buffer c vs s.callbacks;
  published = s.published ++ v ∷ [];
}

unfoldable pub merged_from :
    PolicyCondition → List PolicyCondition → PolicyViolation → List PolicyViolation → Bus → Bus
merged_from c rest v vs s = record s {
  callbacks = with_buffer c vs s.callbacks;
  waiting = rest;
  violation = s.violation ++ v ∷ [];
}

pub data Step : Bus → Bus → Type 0 where
  notify :
      (r : CallbackResponse) (s : Bus) (after : Callbacks)
      → violation_notify r s.callbacks ≡ some (after, pos 0)
      → Step s (record s { callbacks = after })
  publish :
      (c : PolicyCondition) (v : PolicyViolation) (vs : List PolicyViolation) (s : Bus)
      → s.callbacks c ≡ v ∷ vs
      → Step s (published_from c v vs s)
  merge :
      (c : PolicyCondition) (rest : List PolicyCondition) (v : PolicyViolation)
      (vs : List PolicyViolation) (s : Bus)
      → s.waiting ≡ c ∷ rest
      → s.callbacks c ≡ v ∷ vs
      → Step s (merged_from c rest v vs s)

abbrev pub registered : List PolicyCondition → Bus
registered typ = record { callbacks = λ c. []; published = []; waiting = typ; violation = [] }

pub data Reach (typ : List PolicyCondition) : Bus → Type 0 where
  start : Reach typ (registered typ)
  next : (s t : Bus) → Reach typ s → Step s t → Reach typ t

of_index : ℕ → PolicyCondition
of_index i =
    if i == 0
    then dbe_policy
    else if i == 1
    then pcie_policy
    else if i == 2
    then max_rt_pg_policy
    else if i == 3
    then thermal_policy
    else if i == 4
    then power_policy
    else if i == 5
    then nvlink_policy
    else xid_policy

of_index-policy_index : (c : PolicyCondition) → of_index (policy_index c) ≡ c
unfolding of_index policy_index
of_index-policy_index dbe_policy = refl
of_index-policy_index pcie_policy = refl
of_index-policy_index max_rt_pg_policy = refl
of_index-policy_index thermal_policy = refl
of_index-policy_index power_policy = refl
of_index-policy_index nvlink_policy = refl
of_index-policy_index xid_policy = refl

same_condition→eq : (c d : PolicyCondition) → same_condition c d ≡ true → c ≡ d
unfolding same_condition
same_condition→eq c d h =
    sym (of_index-policy_index c)
    ∙ ap of_index ((==_iff (policy_index c) (policy_index d)).0 h)
    ∙ of_index-policy_index d

abbrev pub About : PolicyCondition → List PolicyViolation → Type 0
About c [] = Unit {0}
About c (v ∷ vs) = (v.condition ≡ c) × About c vs

About-append :
    (c : PolicyCondition) (vs : List PolicyViolation) (v : PolicyViolation)
    → About c vs
    → v.condition ≡ c
    → About c (vs ++ v ∷ [])
About-append c [] v h e = (e, tt)
About-append c (w ∷ vs) v h e = (h.0, About-append c vs v h.1 e)

abbrev Sorted : Callbacks → Type 0
Sorted callbacks = (c : PolicyCondition) → About c (callbacks c)

with_buffer-Sorted :
    (c : PolicyCondition) (buffer : List PolicyViolation) (callbacks : Callbacks)
    → About c buffer
    → Sorted callbacks
    → Sorted (with_buffer c buffer callbacks)
unfolding with_buffer
with_buffer-Sorted c buffer callbacks b h d = elim (Bool-cases (same_condition c d)) [
  | inr n ↦ rw n (h d)
  | inl e ↦ rw e (rw (same_condition→eq c d e) at b)
]

abbrev AnswerSorted : Option (Callbacks × ℤ) → Type 0
AnswerSorted none = Unit {0}
AnswerSorted (some (after, answer)) = Sorted after

deliver-Sorted :
    (o : Option PolicyCondition) (r : CallbackResponse) (callbacks : Callbacks)
    → Sorted callbacks
    → AnswerSorted (deliver o r callbacks)
unfolding deliver send
deliver-Sorted none r callbacks h = h
deliver-Sorted (some c) r callbacks h = elim (Bool-cases (ltb (length (callbacks c)) 1)) [
  | inr full ↦ rw full tt
  | inl room ↦ rw room (
      with_buffer-Sorted c (callbacks c ++ violation_of c r ∷ []) callbacks
        (About-append c (callbacks c) (violation_of c r) (h c) refl) h)
]

violation_notify-Sorted :
    (r : CallbackResponse) (callbacks after : Callbacks)
    → violation_notify r callbacks ≡ some (after, pos 0)
    → Sorted callbacks
    → Sorted after
unfolding violation_notify violation_registration
violation_notify-Sorted r callbacks after e h =
    subst AnswerSorted e (deliver-Sorted (condition_of r.condition) r callbacks h)

abbrev Ordered : List PolicyCondition → Bus → Type 0
Ordered typ s = (map (λ v. v.condition) s.violation ++ s.waiting ≡ typ) × Sorted s.callbacks

map-append :
    (vs : List PolicyViolation) (v : PolicyViolation) (cs : List PolicyCondition)
    → map (λ v. v.condition) (vs ++ v ∷ []) ++ cs ≡ map (λ v. v.condition) vs ++ v.condition ∷ cs
map-append [] v cs = refl
map-append (w ∷ vs) v cs = ap (◌∷◌ w.condition) (map-append vs v cs)

Step-Ordered : (typ : List PolicyCondition) (s t : Bus) → Step s t → Ordered typ s → Ordered typ t
unfolding published_from merged_from
Step-Ordered typ s t (notify r _ after e) (order, sorted) =
    (order, violation_notify-Sorted r s.callbacks after e sorted)
Step-Ordered typ s t (publish c v vs _ e) (order, sorted) =
    (order, with_buffer-Sorted c vs s.callbacks ((rw e at (sorted c)).1) sorted)
Step-Ordered typ s t (merge c rest v vs _ w e) (order, sorted) =
    let about = rw e at (sorted c) in
    (
      map-append s.violation v rest
          ∙ ap (λ d. map (λ v. v.condition) s.violation ++ d ∷ rest) about.0
          ∙ (rw w at order),
      with_buffer-Sorted c vs s.callbacks about.1 sorted,
    )

Reach-Ordered : (typ : List PolicyCondition) (s : Bus) → Reach typ s → Ordered typ s
Reach-Ordered typ s start = (refl, λ c. tt)
Reach-Ordered typ s (next t _ before step) = Step-Ordered typ t s step (Reach-Ordered typ t before)

-- However the callback and the goroutines interleave, the conditions of the violations that the
-- caller's channel has got so far, followed by the conditions that the goroutine still waits for,
-- are the list that the caller asked for. That all of them arrive is not said.
pub Reach-in_order :
    (typ : List PolicyCondition) (s : Bus)
    → Reach typ s
    → map (λ v. v.condition) s.violation ++ s.waiting ≡ typ
Reach-in_order typ s reach = (Reach-Ordered typ s reach).0

emptied :
    (c : PolicyCondition) (after : Callbacks)
    → ((d : PolicyCondition) → same_condition c d ≡ false → after d ≡ [])
    → (d : PolicyCondition) → with_buffer c [] after d ≡ []
unfolding with_buffer
emptied c after others d = elim (Bool-cases (same_condition c d)) [
  | inl e ↦ rw e refl
  | inr n ↦ rw n (others d n)
]

-- Whatever conditions were asked for, there is a run in which the manager reports one and the caller
-- never sees it: the channels are empty again and the caller's channel has got nothing.
pub Reach-lost :
    (typ : List PolicyCondition) (c : PolicyCondition) (r : CallbackResponse)
    → r.condition ≡ policy_bit c
    → (s : Bus) × Reach typ s
      × (s.published ≡ violation_of c r ∷ [])
      × (s.violation ≡ [])
      × ((d : PolicyCondition) → s.callbacks d ≡ [])
Reach-lost typ c r e =
    let (after, run, at, others) = (violation_notify-with_buffer c r (λ d. []) e).0 refl in
    let told = record (registered typ) { callbacks = after } in
    (
      published_from c (violation_of c r) [] told,
      next told _ (next (registered typ) told start (notify r (registered typ) after run))
          (publish c (violation_of c r) [] told at),
      unfold published_from in refl,
      unfold published_from in refl,
      unfold published_from in emptied c after others,
    )
