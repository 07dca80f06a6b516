-- ===== src/Dcgm/Enums/Distinct.antt =====
-- A switch over an enum of internal/include/dcgm_structs.h tells its enumerators apart.
use mathlib.Core.List.{Memᴰ}
use gpu_metric_collector.Base.{
  String, Bool, true, false, ◌&&◌, not, ◌≡◌, refl, sym, ap, ◌∙◌, ◌⊎◌, inl, inr, List, [], ◌∷◌, ◌==◌,
  ==_iff, arith, all, all-Memᴰ,
}
use gpu_metric_collector.Base.Int.{ℤ, pos, negsuc, ◌+ℤ◌}
use gpu_metric_collector.Dcgm.Enums.{header_enums}
use gpu_metric_collector.Dcgm.Enums.Enumerators.{Enum, enum_values}

same_value : ℤ → ℤ → Bool
same_value (pos m) (pos n) = m == n
same_value (pos m) (negsuc n) = false
same_value (negsuc m) (pos n) = false
same_value (negsuc m) (negsuc n) = m == n

same_value_refl : (a : ℤ) → same_value a a ≡ true
unfolding same_value
same_value_refl (pos n) = ground (arith, ==_iff n n)
same_value_refl (negsuc n) = ground (arith, ==_iff n n)

differs_from : ℤ → List (String × ℤ) → Bool
unfolding same_value
differs_from a [] = true
differs_from a ((name, b) ∷ rest) = not (same_value b a) && differs_from a rest

distinct : List (String × ℤ) → Bool
unfolding differs_from
distinct [] = true
distinct ((name, a) ∷ rest) = differs_from a rest && distinct rest

-- An enumerator with its value.
abbrev pub HasValue : String → ℤ → List (String × ℤ) → Type 0
HasValue name a [] = ⊥
HasValue name a ((key, b) ∷ rest) = ((key ≡ name) × (b ≡ a)) ⊎ HasValue name a rest

differs_from→¬HasValue :
    (a : ℤ) (table : List (String × ℤ)) (name : String)
    → differs_from a table ≡ true
    → ¬ HasValue name a table
unfolding differs_from
differs_from→¬HasValue a [] name h t = t
differs_from→¬HasValue a ((key, b) ∷ rest) name h (inl (k, e)) =
    let same : same_value b a ≡ true = ap (λ c. same_value b c) (sym e) ∙ same_value_refl b in
    ground (arith)
differs_from→¬HasValue a ((key, b) ∷ rest) name h (inr t) =
    differs_from→¬HasValue a rest name (ground arith) t

distinct→same_name :
    (table : List (String × ℤ)) (m n : String) (a : ℤ)
    → distinct table ≡ true
    → HasValue m a table
    → HasValue n a table
    → m ≡ n
unfolding distinct
distinct→same_name [] m n a h t u = absurd t
distinct→same_name ((key, b) ∷ rest) m n a h (inl (k, e)) (inl (l, f)) = sym k ∙ l
distinct→same_name ((key, b) ∷ rest) m n a h (inl (k, e)) (inr u) =
    absurd (differs_from→¬HasValue a rest n (rw (← e) (ground arith)) u)
distinct→same_name ((key, b) ∷ rest) m n a h (inr t) (inl (l, f)) =
    absurd (differs_from→¬HasValue a rest m (rw (← f) (ground arith)) t)
distinct→same_name ((key, b) ∷ rest) m n a h (inr t) (inr u) =
    distinct→same_name rest m n a (ground arith) t u

enums_distinct : all header_enums (λ e. distinct (enum_values (pos 0) e)) ≡ true
unfolding all distinct differs_from same_value enum_values ◌+ℤ◌
enums_distinct = refl

-- Two enumerators of an enum of the header that have the same value are the same.
pub header_enums-distinct :
    (e : Enum) (m n : String) (a : ℤ)
    → Memᴰ e header_enums
    → HasValue m a (enum_values (pos 0) e)
    → HasValue n a (enum_values (pos 0) e)
    → m ≡ n
header_enums-distinct e m n a in_header =
    distinct→same_name (enum_values (pos 0) e) m n a
      (all-Memᴰ header_enums (λ e. distinct (enum_values (pos 0) e)) enums_distinct in_header)
