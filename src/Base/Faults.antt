-- ===== src/Base/Faults.antt =====
-- What a Go call does: it returns a value, or it ends the process by a run-time panic or `log.Fatal`.
use Prim.Native.Nat.{ℕ, zero, suc, ◌≤◌, ◌<◌}
use mathlib.Core.Path.{◌≡◌, refl, ap}
use mathlib.Core.Logic.{◌⊎◌, inl, inr}
use mathlib.Core.Option.{Option, none, some}
use mathlib.Core.List.{List, [], ◌∷◌, map}
use native.Mathlib.Omega.{arith}
use gpu_metric_collector.Base.Lists.{get_elem?, length, take, All}

pub data Fault : Type 0 where
  nil_dereference index_out_of_range length_out_of_range divide_by_zero fatal : Fault

pub data Outcome {ℓ} (A : Type ℓ) : Type ℓ where
  ok : A → Outcome A
  panic : Fault → Outcome A

-- A call that ends the process has no continuation.
infixl 5 ◌>>=◌
abbrev pub ◌>>=◌ {ℓ κ} : {A : Type ℓ} {B : Type κ} → Outcome A → (A → Outcome B) → Outcome B
◌>>=◌ (panic fault) next = panic fault
◌>>=◌ (ok a) next = next a

-- `*p`.
abbrev pub deref {ℓ} : {A : Type ℓ} → Option A → Outcome A
deref none = panic nil_dereference
deref (some a) = ok a

-- What follows an integer division by `n`.
abbrev pub unless_zero {ℓ} : {A : Type ℓ} → ℕ → A → Outcome A
unless_zero zero a = panic divide_by_zero
unless_zero (suc n) a = ok a

-- `xs[i]`.
abbrev pub at_index {ℓ} : {A : Type ℓ} → Option A → Outcome A
at_index none = panic index_out_of_range
at_index (some a) = ok a

abbrev pub index {ℓ} : {A : Type ℓ} → List A → ℕ → Outcome A
index xs i = at_index (get_elem? xs i)

pub Outcome-cases {ℓ} :
    {A : Type ℓ} (o : Outcome A) → ((a : A) × (o ≡ ok a)) ⊎ ((x : Fault) × (o ≡ panic x))
Outcome-cases (ok a) = inl (a, refl)
Outcome-cases (panic x) = inr (x, refl)

abbrev pub value_or {ℓ} : {A : Type ℓ} → A → Outcome A → A
value_or a (ok b) = b
value_or a (panic fault) = a

pub ok-injective {ℓ} : {A : Type ℓ} {a b : A} → ok a ≡ ok b → a ≡ b
ok-injective {a = a} h = ap (value_or a) h

-- Inversion of a call that returns.
pub bind-eq-ok {ℓ κ} :
    {A : Type ℓ} {B : Type κ} (o : Outcome A) (f : A → Outcome B) {b : B}
    → (o >>= f) ≡ ok b
    → (a : A) × (o ≡ ok a) × (f a ≡ ok b)
bind-eq-ok (ok a) f h = (a, refl, h)
bind-eq-ok (panic x) f h = cc

pub index-eq-ok {ℓ} :
    {A : Type ℓ} (xs : List A) (i : ℕ) {a : A} → index xs i ≡ ok a → get_elem? xs i ≡ some a
index-eq-ok [] i h = cc
index-eq-ok (x ∷ xs) zero h = cc
index-eq-ok (x ∷ xs) (suc i) h = index-eq-ok xs i h

-- A call that returns, or that ends the process by an index out of range.
abbrev pub InRange : {A : Type 0} → Outcome A → Type 0
InRange (ok a) = Unit
InRange (panic x) = x ≡ index_out_of_range

pub bind-InRange :
    {A B : Type 0} (o : Outcome A) (f : A → Outcome B)
    → InRange o
    → ((a : A) → InRange (f a))
    → InRange (o >>= f)
bind-InRange (ok a) f h g = g a
bind-InRange (panic x) f h g = h

pub index-InRange : {A : Type 0} (xs : List A) (i : ℕ) → InRange (index xs i)
index-InRange [] i = refl
index-InRange (x ∷ xs) zero = tt
index-InRange (x ∷ xs) (suc i) = index-InRange xs i

-- Whatever was read before it, a step that is out of range ends the process in this way.
pub then_out_of_range :
    {A B : Type 0} (o : Outcome A) (f : A → Outcome B)
    → InRange o
    → ((a : A) → f a ≡ panic index_out_of_range)
    → o >>= f ≡ panic index_out_of_range
then_out_of_range (ok a) f h g = g a
then_out_of_range (panic x) f h g = ap panic h

-- `for i := 0; i < count; i++ { out = append(out, f(xs[i])) }`, from index `i` with `count` to go.
unfoldable pub collect {ℓ κ} :
    {A : Type ℓ} {B : Type κ} → (A → B) → List A → ℕ → ℕ → Outcome (List B)
collect f xs i zero = ok []
collect f xs i (suc count) =
    index xs i >>= λ x. collect f xs (suc i) count >>= λ rest. ok (f x ∷ rest)

module _ {ℓ κ} {A : Type ℓ} {B : Type κ} (f : A → B) where
  collect-cons :
      (x : A) (xs : List A) (i count : ℕ) → collect f (x ∷ xs) (suc i) count ≡ collect f xs i count
  unfolding collect
  collect-cons x xs i zero = refl
  collect-cons x xs i (suc count) = rw (collect-cons x xs (suc i) count) refl

  -- A count that the array holds: the loop maps its first elements.
  pub collect-take :
      (xs : List A) (count : ℕ)
      → count ≤ length xs
      → collect f xs 0 count ≡ ok (map f (take count xs))
  unfolding collect
  collect-take xs zero h = refl
  collect-take [] (suc count) h = absurd (omega arith)
  collect-take (x ∷ xs) (suc count) h =
      rw (collect-cons x xs 0 count, collect-take xs count (omega arith)) refl

  -- A larger count: the loop ends the process.
  pub collect-beyond :
      (xs : List A) (count : ℕ)
      → length xs < count
      → collect f xs 0 count ≡ panic index_out_of_range
  unfolding collect
  collect-beyond xs zero h = absurd (omega arith)
  collect-beyond [] (suc count) h = refl
  collect-beyond (x ∷ xs) (suc count) h =
      rw (collect-cons x xs 0 count, collect-beyond xs count (omega arith)) refl

-- The same loop with a body that can end the process.
unfoldable pub collect_each {ℓ κ} :
    {A : Type ℓ} {B : Type κ} → (A → Outcome B) → List A → ℕ → ℕ → Outcome (List B)
collect_each f xs i zero = ok []
collect_each f xs i (suc count) =
    index xs i >>= λ x. f x >>= λ y. collect_each f xs (suc i) count >>= λ rest. ok (y ∷ rest)

module _ {ℓ κ} {A : Type ℓ} {B : Type κ} (f : A → Outcome B) where
  collect_each-cons :
      (x : A) (xs : List A) (i count : ℕ)
      → collect_each f (x ∷ xs) (suc i) count ≡ collect_each f xs i count
  unfolding collect_each
  collect_each-cons x xs i zero = refl
  collect_each-cons x xs i (suc count) = rw (collect_each-cons x xs (suc i) count) refl

  -- Where the body returns for each of the elements that are read, so does the loop.
  pub collect_each-take {ℓ'} :
      (P : A → Type ℓ') (g : A → B)
      → ((x : A) → P x → f x ≡ ok (g x))
      → (xs : List A) (count : ℕ) → count ≤ length xs
      → All P (take count xs)
      → collect_each f xs 0 count ≡ ok (map g (take count xs))
  unfolding collect_each
  collect_each-take P g body xs zero h all = refl
  collect_each-take P g body [] (suc count) h all = absurd (omega arith)
  collect_each-take P g body (x ∷ xs) (suc count) h all =
      rw
        (
          body x all.0,
          collect_each-cons x xs 0 count,
          collect_each-take P g body xs count (omega arith) all.1,
        )
        refl
