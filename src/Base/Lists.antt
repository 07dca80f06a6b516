-- ===== src/Base/Lists.antt =====
-- Lists measured and indexed by native numbers, under the library's names.
use Prim.Native.Nat.{ℕ, zero, suc, ◌+◌, ◌≤◌, ◌<◌}
use mathlib.Core.Path.{◌≡◌, refl, ap}
use mathlib.Core.Bool.{Bool, true, false, ◌&&◌}
use mathlib.Core.List.{List, [], ◌∷◌, ◌++◌, map}
use mathlib.Core.List.{Memᴰ}
use mathlib.Core.List.Memᴰ
use mathlib.Core.Logic.{◌⊎◌, inl, inr}
use mathlib.Core.Option.{Option, none, some}
use native.Mathlib.Omega.{arith}

module _ {ℓ} {A : Type ℓ} where
  abbrev pub length : List A → ℕ
  length [] = 0
  length (x ∷ xs) = suc (length xs)

  abbrev pub get_elem? : List A → ℕ → Option A
  get_elem? [] i = none
  get_elem? (x ∷ xs) zero = some x
  get_elem? (x ∷ xs) (suc i) = get_elem? xs i

  -- A write out of bounds changes nothing.
  abbrev pub set : List A → ℕ → A → List A
  set [] i v = []
  set (x ∷ xs) zero v = v ∷ xs
  set (x ∷ xs) (suc i) v = x ∷ set xs i v

  abbrev pub take : ℕ → List A → List A
  take zero xs = []
  take (suc n) [] = []
  take (suc n) (x ∷ xs) = x ∷ take n xs

  abbrev pub drop : ℕ → List A → List A
  drop zero xs = xs
  drop (suc n) [] = []
  drop (suc n) (x ∷ xs) = drop n xs

  abbrev pub replicate : ℕ → A → List A
  replicate zero a = []
  replicate (suc n) a = a ∷ replicate n a

  abbrev pub All {κ} : (A → Type κ) → List A → Type κ
  All P [] = Unit
  All P (x ∷ xs) = P x × All P xs

  unfoldable pub all : List A → (A → Bool) → Bool
  all [] p = true
  all (x ∷ xs) p = p x && all xs p

  abbrev pub is_empty : List A → Bool
  is_empty [] = true
  is_empty (x ∷ xs) = false

-- A test at each number below a bound.
unfoldable pub all_below : (ℕ → Bool) → ℕ → Bool
all_below p zero = true
all_below p (suc n) = p n && all_below p n

pub all_below-lt : (p : ℕ → Bool) (n i : ℕ) → all_below p n ≡ true → i < n → p i ≡ true
unfolding all_below
all_below-lt p zero i h lt = absurd (omega arith)
all_below-lt p (suc n) i h lt =
    let cases : (i < n) ⊎ (i ≡ n) = ground arith in
    elim cases [
      | inl below ↦ all_below-lt p n i (ground arith) below
      | inr same ↦ rw same (ground arith)
    ]

module _ {ℓ} {A : Type ℓ} where
  pub all-Memᴰ : (xs : List A) (p : A → Bool) {x : A} → all xs p ≡ true → Memᴰ x xs → p x ≡ true
  unfolding all
  all-Memᴰ [] p h m = absurd (Memᴰ.not-nil m)
  all-Memᴰ (y ∷ ys) p h (Memᴰ.head e) = rw e (ground arith)
  all-Memᴰ (y ∷ ys) p h (Memᴰ.tail m) = all-Memᴰ ys p (ground arith) m

  pub length-append : (xs ys : List A) → length (xs ++ ys) ≡ length xs + length ys
  length-append [] ys = omega arith
  length-append (x ∷ xs) ys = omega (arith, length-append xs ys)

  pub length-set : (xs : List A) (i : ℕ) (v : A) → length (set xs i v) ≡ length xs
  length-set [] i v = refl
  length-set (x ∷ xs) zero v = refl
  length-set (x ∷ xs) (suc i) v = ap suc (length-set xs i v)

  pub length-replicate : (n : ℕ) (a : A) → length (replicate n a) ≡ n
  length-replicate zero a = refl
  length-replicate (suc n) a = ap suc (length-replicate n a)

  pub length-map {κ} : {B : Type κ} (xs : List A) (f : A → B) → length (map f xs) ≡ length xs
  length-map [] f = refl
  length-map (x ∷ xs) f = ap suc (length-map xs f)

  pub length-take : (n : ℕ) (xs : List A) → n ≤ length xs → length (take n xs) ≡ n
  length-take zero xs h = refl
  length-take (suc n) [] h = elim h [ ]
  length-take (suc n) (x ∷ xs) h = ap suc (length-take n xs (omega arith))

  pub get_elem?-lt : (xs : List A) (i : ℕ) → i < length xs → (x : A) × (get_elem? xs i ≡ some x)
  get_elem?-lt [] i h = elim h [ ]
  get_elem?-lt (x ∷ xs) zero h = (x, refl)
  get_elem?-lt (x ∷ xs) (suc i) h = get_elem?-lt xs i (omega arith)

  pub get_elem?-le : (xs : List A) (i : ℕ) → length xs ≤ i → get_elem? xs i ≡ none
  get_elem?-le [] i h = refl
  get_elem?-le (x ∷ xs) zero h = elim h [ ]
  get_elem?-le (x ∷ xs) (suc i) h = get_elem?-le xs i (omega arith)

  pub lt_of_get_elem? : (xs : List A) (i : ℕ) {x : A} → get_elem? xs i ≡ some x → i < length xs
  lt_of_get_elem? [] i h = cc
  lt_of_get_elem? (x ∷ xs) zero h = omega arith
  lt_of_get_elem? (x ∷ xs) (suc i) h = omega (arith, lt_of_get_elem? xs i h)

  -- The entry behind a prefix.
  pub get_elem?-append_middle :
      (xs ys : List A) (x : A) → get_elem? (xs ++ x ∷ ys) (length xs) ≡ some x
  get_elem?-append_middle [] ys x = refl
  get_elem?-append_middle (y ∷ xs) ys x = get_elem?-append_middle xs ys x

  pub set-append_length : (xs : List A) (x v : A) → set (xs ++ x ∷ []) (length xs) v ≡ xs ++ v ∷ []
  set-append_length [] x v = refl
  set-append_length (y ∷ xs) x v = ap (◌∷◌ y) (set-append_length xs x v)

  -- What a prefix holds is not touched by a write behind it, and grows by what is written there.
  pub take-set_le : (xs : List A) (n i : ℕ) (v : A) → n ≤ i → take n (set xs i v) ≡ take n xs
  take-set_le [] n i v h = refl
  take-set_le (x ∷ xs) zero i v h = refl
  take-set_le (x ∷ xs) (suc n) zero v h = elim h [ ]
  take-set_le (x ∷ xs) (suc n) (suc i) v h = ap (◌∷◌ x) (take-set_le xs n i v (omega arith))

  pub take-suc-set :
      (xs : List A) (i : ℕ) (v : A)
      → i < length xs
      → take (suc i) (set xs i v) ≡ take i xs ++ v ∷ []
  take-suc-set [] i v h = elim h [ ]
  take-suc-set (x ∷ xs) zero v h = refl
  take-suc-set (x ∷ xs) (suc i) v h = ap (◌∷◌ x) (take-suc-set xs i v (omega arith))

  pub take-suc-get_elem? :
      (xs : List A) (i : ℕ) {x : A}
      → get_elem? xs i ≡ some x
      → take (suc i) xs ≡ take i xs ++ x ∷ []
  take-suc-get_elem? [] i h = cc
  take-suc-get_elem? (y ∷ xs) zero h = cc
  take-suc-get_elem? (y ∷ xs) (suc i) h = ap (◌∷◌ y) (take-suc-get_elem? xs i h)

  pub drop-set_lt : (xs : List A) (n i : ℕ) (v : A) → i < n → drop n (set xs i v) ≡ drop n xs
  drop-set_lt [] n i v h = refl
  drop-set_lt (x ∷ xs) zero i v h = elim h [ ]
  drop-set_lt (x ∷ xs) (suc n) zero v h = refl
  drop-set_lt (x ∷ xs) (suc n) (suc i) v h = drop-set_lt xs n i v (omega arith)

  pub map-append_one {κ} :
      {B : Type κ} (f : A → B) (xs : List A) (x : A) → map f (xs ++ x ∷ []) ≡ map f xs ++ f x ∷ []
  map-append_one f [] x = refl
  map-append_one f (y ∷ xs) x = ap (◌∷◌ (f y)) (map-append_one f xs x)
