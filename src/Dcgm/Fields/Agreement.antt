-- ===== src/Dcgm/Fields/Agreement.antt =====
-- The identifiers of pkg/dcgm/const.go against those of internal/include/dcgm_fields.h.
use gpu_metric_collector.Base.{
  ℕ, String, Bool, true, false, ◌&&◌, ◌||◌, ◌≡◌, ◌≢◌, refl, ◌⊎◌, inl, inr, List, [], ◌∷◌, str_eq,
  eq_iff, ◌==◌, ==_iff, arith, Bool-cases,
}
use gpu_metric_collector.Dcgm.Fields.{header_fields, field_constants, field_keys, map_read}
use gpu_metric_collector.Dcgm.Fields.Old.{old_keys}

-- A table has the entry.
abbrev pub InTable : String → ℕ → List (String × ℕ) → Type 0
InTable name id [] = ⊥
InTable name id ((key, v) ∷ rest) = ((key ≡ name) × (v ≡ id)) ⊎ InTable name id rest

has : String → ℕ → List (String × ℕ) → Bool
has name id [] = false
has name id ((key, v) ∷ rest) = str_eq key name && v == id || has name id rest

has→InTable :
    (name : String) (id : ℕ) (table : List (String × ℕ))
    → has name id table ≡ true
    → InTable name id table
unfolding has
has→InTable name id [] h = cc
has→InTable name id ((key, v) ∷ rest) h =
    ground (arith, eq_iff key name, ==_iff v id, has→InTable name id rest)

all_in : List (String × ℕ) → List (String × ℕ) → Bool
unfolding has
all_in [] header = true
all_in ((name, id) ∷ rest) header = has name id header && all_in rest header

all_in→InTable :
    (table header : List (String × ℕ)) (name : String) (id : ℕ)
    → all_in table header ≡ true
    → InTable name id table
    → InTable name id header
unfolding all_in
all_in→InTable [] header name id h t = absurd t
all_in→InTable ((key, v) ∷ rest) header name id h (inl (k, e)) =
    has→InTable name id header (rw (← k, ← e) (ground arith))
all_in→InTable ((key, v) ∷ rest) header name id h (inr t) =
    all_in→InTable rest header name id (ground arith) t

constants_in_header : all_in field_constants header_fields ≡ true
unfolding all_in has
constants_in_header = refl

-- Every field constant of the binding has the header's name and the header's number.
pub field_constants-header :
    (name : String) (id : ℕ) → InTable name id field_constants → InTable name id header_fields
field_constants-header name id =
    all_in→InTable field_constants header_fields name id constants_in_header

-- The tables have the same keys in the same order, with the same numbers but for one key.
same_but : String → List (String × ℕ) → List (String × ℕ) → Bool
same_but but [] [] = true
same_but but [] (b ∷ bs) = false
same_but but (a ∷ as') [] = false
same_but but ((k, v) ∷ as') ((l, w) ∷ bs) =
    str_eq k l && (v == w || str_eq k but) && same_but but as' bs

same_but-map_read :
    (but name : String) (a b : List (String × ℕ))
    → name ≢ but
    → same_but but a b ≡ true
    → map_read name a ≡ map_read name b
unfolding same_but map_read
same_but-map_read but name [] [] n h = refl
same_but-map_read but name [] (b ∷ bs) n h = cc
same_but-map_read but name (a ∷ as') [] n h = cc
same_but-map_read but name ((k, v) ∷ as') ((l, w) ∷ bs) n h = ground (
  arith,
  eq_iff k l,
  eq_iff k but,
  eq_iff k name,
  eq_iff l name,
  ==_iff v w,
  same_but-map_read but name as' bs n,
)

keys_match : same_but "DCGM_FI_DEV_CUDA_COMPUTE_CAPABILITY" field_keys field_constants ≡ true
unfolding same_but
keys_match = refl

key_number : map_read "DCGM_FI_DEV_CUDA_COMPUTE_CAPABILITY" field_keys ≡ 6
unfolding map_read
key_number = refl

constant_number : map_read "DCGM_FI_DEV_CUDA_COMPUTE_CAPABILITY" field_constants ≡ 63
unfolding map_read
constant_number = refl

-- Reading the map of names gives what the constant of that name is (0 where there is none), for every
-- name but DCGM_FI_DEV_CUDA_COMPUTE_CAPABILITY, to which the map gives 6 and the constants 63.
pub map_read-field_constants :
    (name : String)
    → ((name ≢ "DCGM_FI_DEV_CUDA_COMPUTE_CAPABILITY")
        → map_read name field_keys ≡ map_read name field_constants)
      × ((name ≡ "DCGM_FI_DEV_CUDA_COMPUTE_CAPABILITY")
          → (map_read name field_keys ≡ 6) × (map_read name field_constants ≡ 63))
map_read-field_constants name = (
  λ n.
      same_but-map_read "DCGM_FI_DEV_CUDA_COMPUTE_CAPABILITY" name field_keys field_constants n
        keys_match,
  λ e. rw e (key_number, constant_number),
)

has_id : ℕ → List (String × ℕ) → Bool
has_id id [] = false
has_id id ((key, v) ∷ rest) = v == id || has_id id rest

abbrev pub Numbered : ℕ → List (String × ℕ) → Type 0
Numbered id table = (name : String) × InTable name id table

has_id→Numbered : (id : ℕ) (table : List (String × ℕ)) → has_id id table ≡ true → Numbered id table
unfolding has_id
has_id→Numbered id [] h = cc
has_id→Numbered id ((key, v) ∷ rest) h = elim (Bool-cases (v == id)) [
  | inl e ↦ (key, inl (refl, ground (arith, ==_iff v id)))
  | inr e ↦ let (name, t) = has_id→Numbered id rest (ground arith) in (name, inr t)
]

all_numbered : List (String × ℕ) → List (String × ℕ) → Bool
unfolding has_id
all_numbered [] header = true
all_numbered ((name, id) ∷ rest) header = has_id id header && all_numbered rest header

all_numbered→Numbered :
    (table header : List (String × ℕ)) (name : String) (id : ℕ)
    → all_numbered table header ≡ true
    → InTable name id table
    → Numbered id header
unfolding all_numbered
all_numbered→Numbered [] header name id h t = absurd t
all_numbered→Numbered ((key, v) ∷ rest) header name id h (inl (k, e)) =
    has_id→Numbered id header (rw (← e) (ground arith))
all_numbered→Numbered ((key, v) ∷ rest) header name id h (inr t) =
    all_numbered→Numbered rest header name id (ground arith) t

old_numbered : all_numbered old_keys header_fields ≡ true
unfolding all_numbered has_id
old_numbered = refl

-- Each of the names that older exporters use stands for a field of the header.
pub old_keys-header :
    (name : String) (id : ℕ) → InTable name id old_keys → Numbered id header_fields
old_keys-header name id = all_numbered→Numbered old_keys header_fields name id old_numbered
