-- ===== src/Dcgm/Fields/Distinct.antt =====
-- The field identifiers of internal/include/dcgm_fields.h are distinct.
use gpu_metric_collector.Base.{
  ℕ, String, Bool, true, ◌&&◌, ◌||◌, not, ◌≡◌, refl, sym, ◌∙◌, ◌⊎◌, inl, inr, List, [], ◌∷◌, ◌==◌,
  ==_iff, arith,
}
use gpu_metric_collector.Dcgm.Fields.{header_fields}
use gpu_metric_collector.Dcgm.Fields.Agreement.{InTable}

-- The numbers that mark the ends of a range of fields, and so have a second name.
abbrev is_mark : ℕ → Bool
is_mark id = id == 520 || id == 700

absent : ℕ → List (String × ℕ) → Bool
absent id [] = true
absent id ((key, v) ∷ rest) = (not (v == id) || is_mark id) && absent id rest

distinct : List (String × ℕ) → Bool
unfolding absent
distinct [] = true
distinct ((name, id) ∷ rest) = absent id rest && distinct rest

abbrev IsMark : ℕ → Type 0
IsMark id = (id ≡ 520) ⊎ (id ≡ 700)

absent→IsMark :
    (id : ℕ) (table : List (String × ℕ)) (name : String)
    → absent id table ≡ true
    → InTable name id table
    → IsMark id
unfolding absent
absent→IsMark id [] name h t = absurd t
absent→IsMark id ((key, v) ∷ rest) name h (inl (k, e)) =
    ground (arith, ==_iff v id, ==_iff id 520, ==_iff id 700)
absent→IsMark id ((key, v) ∷ rest) name h (inr t) = absent→IsMark id rest name (ground arith) t

distinct→IsMark :
    (table : List (String × ℕ)) (m n : String) (id : ℕ)
    → distinct table ≡ true
    → InTable m id table
    → InTable n id table
    → (m ≡ n) ⊎ IsMark id
unfolding distinct
distinct→IsMark [] m n id h t u = absurd t
distinct→IsMark ((key, v) ∷ rest) m n id h (inl (k, e)) (inl (l, f)) = inl (sym k ∙ l)
distinct→IsMark ((key, v) ∷ rest) m n id h (inl (k, e)) (inr u) =
    inr (absent→IsMark id rest n (rw (← e) (ground arith)) u)
distinct→IsMark ((key, v) ∷ rest) m n id h (inr t) (inl (l, f)) =
    inr (absent→IsMark id rest m (rw (← f) (ground arith)) t)
distinct→IsMark ((key, v) ∷ rest) m n id h (inr t) (inr u) =
    distinct→IsMark rest m n id (ground arith) t u

header_distinct : distinct header_fields ≡ true
unfolding distinct absent
header_distinct = refl

-- Two fields of the header with the same number are the same field, but for the numbers 520 and 700,
-- which also name the first field of a range.
pub header_fields-distinct :
    (m n : String) (id : ℕ)
    → InTable m id header_fields
    → InTable n id header_fields
    → (m ≡ n) ⊎ ((id ≡ 520) ⊎ (id ≡ 700))
header_fields-distinct m n id = distinct→IsMark header_fields m n id header_distinct
