-- ===== src/Dcgm/Values/Strings.antt =====
-- The texts among the field values.
use gpu_metric_collector.Base.{
  ℕ, zero, suc, ◌≤◌, ◌≡◌, refl, List, [], ◌∷◌, ltb, ◌==◌, ok, if◌then◌else◌, arith, Bool-cases,
  ◌||◌, inl, inr, true, false,
}
use gpu_metric_collector.Dcgm.Values.{
  CfieldValueV2, to_field_value_v2, fv2_string, go_string, dcgm_ft_string,
  find_first_non_ascii_index,
}

-- A copy is never without the text that its type promises: `Fv2_String` returns it, and the whole
-- array for another type.
pub fv2_string-to_field_value_v2 :
    (f : CfieldValueV2)
    → fv2_string (to_field_value_v2 f)
      ≡ ok (if f.field_type == dcgm_ft_string then go_string f.value else f.value)
unfolding fv2_string to_field_value_v2
fv2_string-to_field_value_v2 f = ground arith

abbrev pub IsPrintable : ℕ → Type 0
IsPrintable c = (33 ≤ c) × (c ≤ 127)

-- `k` is the index of the first byte that is not printable ASCII, or the length.
abbrev pub IsFirst : List ℕ → ℕ → Type 0
IsFirst [] k = k ≡ 0
IsFirst (c ∷ value) zero = ¬ IsPrintable c
IsFirst (c ∷ value) (suc k) = IsPrintable c × IsFirst value k

stops→not-IsPrintable : (c : ℕ) → (ltb 127 c || ltb c 33) ≡ true → ¬ IsPrintable c
stops→not-IsPrintable c h (low, high) = ground arith

goes_on→IsPrintable : (c : ℕ) → (ltb 127 c || ltb c 33) ≡ false → IsPrintable c
goes_on→IsPrintable c h = ground arith

pub find_first_non_ascii_index-IsFirst :
    (value : List ℕ) → IsFirst value (find_first_non_ascii_index value)
unfolding find_first_non_ascii_index
find_first_non_ascii_index-IsFirst [] = refl
find_first_non_ascii_index-IsFirst (c ∷ value) = elim (Bool-cases (ltb 127 c || ltb c 33)) [
  | inl h ↦ rw h (stops→not-IsPrintable c h)
  | inr h ↦ rw h (goes_on→IsPrintable c h, find_first_non_ascii_index-IsFirst value)
]
