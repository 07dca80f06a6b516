-- ===== src/Dcgm/Errors/Agreement.antt =====
-- The codes, messages and suggestions of internal/include/dcgm_errors.h against one another, and the
-- messages against the comments above them.
use mathlib.Core.List.{Memᴰ}
use gpu_metric_collector.Base.{
  ℕ, ◌<◌, ◌≡◌, refl, sym, ◌∙◌, ◌⊎◌, inl, inr, String, List, [], ◌∷◌, ◌++◌, Bool, true, false, ◌&&◌,
  ◌||◌, not, ◌==◌, ==_iff, str_eq, eq_iff, all_below, all_below-lt, Option, none, arith, all,
  all-Memᴰ, get_elem?, length, some, Bool-cases,
}
use gpu_metric_collector.Base.Text.{bytes_of, text_eq, text_eq→eq}
use gpu_metric_collector.Dcgm.Errors.{error_messages}
use gpu_metric_collector.Dcgm.Errors.Codes.{error_codes}
use gpu_metric_collector.Dcgm.Errors.Suggestions.{error_suggestions}
use gpu_metric_collector.Dcgm.Errors.Formats.{
  ErrorMessage, is_as_commented, fits_comment, all_fit, fits, contains_one, contains, is_prefix,
  arguments_of, conversions,
}

-- A macro is named after an error, with a suffix.
abbrev pub IsNamedAfter : String → String → String → Type 0
IsNamedAfter suffix name macro = bytes_of macro ≡ bytes_of name ++ bytes_of suffix

is_named_after : String → String → String → Bool
is_named_after suffix name macro = text_eq (bytes_of macro) (bytes_of name ++ bytes_of suffix)

abbrev pub Suggested : String → List (String × String) → Type 0
Suggested name [] = ⊥
Suggested name ((key, s) ∷ rest) = IsNamedAfter "_NEXT" name key ⊎ Suggested name rest

is_suggested : String → List (String × String) → Bool
unfolding is_named_after
is_suggested name [] = false
is_suggested name ((key, s) ∷ rest) = is_named_after "_NEXT" name key || is_suggested name rest

is_suggested→Suggested :
    (name : String) (table : List (String × String))
    → is_suggested name table ≡ true
    → Suggested name table
unfolding is_suggested is_named_after
is_suggested→Suggested name [] h = cc
is_suggested→Suggested name ((key, s) ∷ rest) h =
    elim (Bool-cases (is_named_after "_NEXT" name key)) [
      | inl e ↦ inl (text_eq→eq _ _ e)
      | inr e ↦ inr (is_suggested→Suggested name rest (ground arith))
    ]

-- The entry of an error at its index: its number, and its texts unless it is the sentinel behind the
-- last message.
abbrev pub HasTexts : ℕ → Option (String × ℕ) → Option ErrorMessage → Type 0
HasTexts i none m = ⊥
HasTexts i (some (name, c)) none =
    (c ≡ i) × (name ≡ "DCGM_FR_ERROR_SENTINEL") × (i ≡ length error_messages)
HasTexts i (some (name, c)) (some m) =
    (c ≡ i) × IsNamedAfter "_MSG" name m.name × Suggested name error_suggestions

has_texts : ℕ → Option (String × ℕ) → Option ErrorMessage → Bool
has_texts i none m = false
has_texts i (some (name, c)) none =
    c == i && (str_eq name "DCGM_FR_ERROR_SENTINEL" && i == length error_messages)
has_texts i (some (name, c)) (some m) =
    c == i && (is_named_after "_MSG" name m.name && is_suggested name error_suggestions)

has_texts→HasTexts :
    (i : ℕ) (code : Option (String × ℕ)) (m : Option ErrorMessage)
    → has_texts i code m ≡ true
    → HasTexts i code m
unfolding has_texts is_named_after
has_texts→HasTexts i none m h = cc
has_texts→HasTexts i (some (name, c)) none h =
    ground
      (arith, ==_iff c i, eq_iff name "DCGM_FR_ERROR_SENTINEL", ==_iff i (length error_messages))
has_texts→HasTexts i (some (name, c)) (some m) h = (
  ground (arith, ==_iff c i),
  text_eq→eq _ _ (ground arith),
  is_suggested→Suggested name error_suggestions (ground arith),
)

entries_have_texts :
    all_below
      (λ i. has_texts i (get_elem? error_codes i) (get_elem? error_messages i))
      (length error_codes)
    ≡ true
unfolding all_below has_texts is_named_after is_suggested text_eq
entries_have_texts = refl

-- The error at each index of the enum has the index as its number. It has the message at that index,
-- which is named after it with _MSG, and a suggestion named after it with _NEXT, but for the last, the
-- sentinel, which is one behind the last message.
pub error_codes-HasTexts :
    (i : ℕ)
    → i < length error_codes
    → HasTexts i (get_elem? error_codes i) (get_elem? error_messages i)
error_codes-HasTexts i below =
    has_texts→HasTexts i (get_elem? error_codes i) (get_elem? error_messages i) (
      all_below-lt (λ j. has_texts j (get_elem? error_codes j) (get_elem? error_messages j))
        (length error_codes) i entries_have_texts below)

-- The messages whose comment lists other arguments.
unfoldable pub is_divergent : String → Bool
is_divergent name =
    str_eq name "DCGM_FR_NVLINK_ERROR_THRESHOLD_MSG"
    || str_eq name "DCGM_FR_NVML_API_MSG"
    || str_eq name "DCGM_FR_HIGH_LATENCY_MSG"
    || str_eq name "DCGM_FR_MEMORY_BANDWIDTH_MSG"

abbrev is_expected : ErrorMessage → Bool
is_expected m =
    is_as_commented m && not (is_divergent m.name) || not (is_as_commented m) && is_divergent m.name

messages_expected : all error_messages is_expected ≡ true
unfolding all is_as_commented is_divergent fits_comment all_fit fits contains_one contains is_prefix
    arguments_of conversions
messages_expected = refl

-- A message of the header that stands under a comment has a fitting conversion for each argument that
-- the comment lists (%s for a text, an integer conversion for an id, and that of a number for any
-- other), in the comment's order and no others, exactly if it is none of the four of
-- NVLINK_ERROR_THRESHOLD, NVML_API, HIGH_LATENCY and MEMORY_BANDWIDTH.
pub error_messages-commented :
    (m : ErrorMessage) (arguments : String)
    → Memᴰ m error_messages
    → m.arguments ≡ some arguments
    → all_fit (arguments_of 0 (bytes_of arguments)) (conversions false (bytes_of m.format))
      ≡ not (is_divergent m.name)
error_messages-commented m arguments in_header commented =
    let h = all-Memᴰ error_messages is_expected messages_expected in_header in
    let same : is_as_commented m
        ≡ all_fit (arguments_of 0 (bytes_of arguments)) (conversions false (bytes_of m.format)) =
      unfold is_as_commented fits_comment in rw commented refl in
    sym same ∙ ground (arith, h)
