-- ===== src/Dcgm/Errors/Formats.antt =====
-- The format strings of internal/include/dcgm_errors.h: their conversions, and the arguments that the
-- comment above a message lists.
use gpu_metric_collector.Base.{
  ℕ, suc, ◌-◌, String, List, [], ◌∷◌, Bool, true, false, ◌&&◌, ◌||◌, not, ◌==◌, if◌then◌else◌,
  Option, none, some,
}
use gpu_metric_collector.Base.Text.{Text, bytes_of}

-- A message, with the comment above it if it has one.
pub record ErrorMessage : Type 0 where
  pub name : String
  pub arguments : Option String
  pub format : String

abbrev pub message : String → Option String → String → ErrorMessage
message name arguments format = record { name = name; arguments = arguments; format = format }

-- The letters of the conversions in use: %d, %f, %s, %u.
abbrev is_conversion : ℕ → Bool
is_conversion c = c == 100 || c == 102 || c == 115 || c == 117

-- The conversions of a format in order, each by its letter, from inside or outside of one; %% is none.
unfoldable pub conversions : Bool → Text → List ℕ
conversions inside [] = []
conversions false (c ∷ s) = conversions (c == 37) s
conversions true (c ∷ s) =
    let rest = conversions (not (is_conversion c || c == 37)) s in
    if is_conversion c then c ∷ rest else rest

abbrev next_depth : ℕ → ℕ → ℕ
next_depth c depth = if c == 40 then suc depth else if c == 41 then depth - 1 else depth

abbrev onto_first : ℕ → List Text → List Text
onto_first c [] = (c ∷ []) ∷ []
onto_first c (piece ∷ pieces) = (c ∷ piece) ∷ pieces

-- The pieces between the commas that stand outside of brackets.
unfoldable pub arguments_of : ℕ → Text → List Text
arguments_of depth [] = [] ∷ []
arguments_of depth (c ∷ s) =
    let rest = arguments_of (next_depth c depth) s in
    if c == 44 && depth == 0 then [] ∷ rest else onto_first c rest

unfoldable pub is_prefix : Text → Text → Bool
is_prefix [] t = true
is_prefix (c ∷ s) [] = false
is_prefix (c ∷ s) (d ∷ t) = c == d && is_prefix s t

unfoldable pub contains : Text → Text → Bool
unfolding is_prefix
contains s [] = is_prefix s []
contains s (c ∷ t) = is_prefix s (c ∷ t) || contains s t

unfoldable pub contains_one : List String → Text → Bool
unfolding contains
contains_one [] argument = false
contains_one (word ∷ words) argument =
    contains (bytes_of word) argument || contains_one words argument

-- The words of the comments for what is a text.
abbrev pub text_words : List String
text_words =
    "name" ∷ "detail" ∷ "string" ∷ "direction" ∷ "purpose" ∷ "file path" ∷ "parameter to control"
    ∷ "error returned" ∷ "error message" ∷ "field tag" ∷ []

-- A text is printed by %s, an id by %d or %u, and any other argument, a number, by %d, %f or %u. A
-- length such as in %ld is no part of the conversion here.
unfoldable pub fits : Text → ℕ → Bool
unfolding contains_one
fits argument conversion =
    if contains_one text_words argument
    then conversion == 115
    else if contains (bytes_of " id") argument
    then conversion == 100 || conversion == 117
    else conversion == 100 || (conversion == 102 || conversion == 117)

unfoldable pub all_fit : List Text → List ℕ → Bool
all_fit [] [] = true
all_fit [] (c ∷ cs) = false
all_fit (a ∷ as') [] = false
all_fit (a ∷ as') (c ∷ cs) = fits a c && all_fit as' cs

-- The format has a fitting conversion for each argument of the comment, in order.
unfoldable pub fits_comment : Option String → Text → Bool
fits_comment none format = true
fits_comment (some arguments) format =
    all_fit (arguments_of 0 (bytes_of arguments)) (conversions false format)

unfoldable pub is_as_commented : ErrorMessage → Bool
is_as_commented m = fits_comment m.arguments (bytes_of m.format)
