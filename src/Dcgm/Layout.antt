-- ===== src/Dcgm/Layout.antt =====
-- The C types of internal/include/dcgm_structs.h, and where the x86-64 ABI, for which the agent is
-- built, puts them in memory: `sizeof`, alignment and the place of each member of a struct. cgo
-- reads the same header, so that Go's `unsafe.Sizeof` of such a struct is `size_of` too.
use gpu_metric_collector.Base.{
  ℕ, ◌+◌, ◌-◌, ◌*◌, ◌/◌, ◌%◌, ◌≡◌, refl, ltb, String, List, [], ◌∷◌, str_eq, Option, none, some,
  if◌then◌else◌,
}
use Prim.Native.Nat.{max}
pub mod Bounds

pub data Scalar : Type 0 where
  char short unsigned_short int unsigned_int enumeration : Scalar
  long unsigned_long long_long unsigned_long_long double pointer : Scalar

mutual
  pub data Ctype : Type 0 where
    scalar : Scalar → Ctype
    array : Ctype → ℕ → Ctype
    struct : Members → Ctype
    union : Members → Ctype

  pub data Members : Type 0 where
    end : Members
    member : String → Ctype → Members → Members

-- The members as a declaration lists them.
abbrev pub members : List (String × Ctype) → Members
members [] = end
members ((name, t) ∷ rest) = member name t (members rest)

pub data Alignment : Type 0 where
  one two four eight : Alignment

abbrev pub bytes : Alignment → ℕ
bytes one = 1
bytes two = 2
bytes four = 4
bytes eight = 8

-- The alignment of a scalar, which is its size too.
abbrev pub scalar_alignment : Scalar → Alignment
scalar_alignment char = one
scalar_alignment short = two
scalar_alignment unsigned_short = two
scalar_alignment int = four
scalar_alignment unsigned_int = four
scalar_alignment enumeration = four
scalar_alignment long = eight
scalar_alignment unsigned_long = eight
scalar_alignment long_long = eight
scalar_alignment unsigned_long_long = eight
scalar_alignment double = eight
scalar_alignment pointer = eight

abbrev pub stricter : Alignment → Alignment → Alignment
stricter a b = if ltb (bytes a) (bytes b) then b else a

-- The first multiple of `a` from `n` on.
unfoldable pub round_up : ℕ → Alignment → ℕ
round_up n a = (n + bytes a - 1) / bytes a * bytes a

unfoldable mutual
  pub align_of : Ctype → Alignment
  align_of (scalar s) = scalar_alignment s
  align_of (array t count) = align_of t
  align_of (struct ms) = align_members ms
  align_of (union ms) = align_members ms

  pub align_members : Members → Alignment
  align_members end = one
  align_members (member name t ms) = stricter (align_of t) (align_members ms)

unfoldable mutual
  pub size_of : Ctype → ℕ
  size_of (scalar s) = bytes (scalar_alignment s)
  size_of (array t count) = count * size_of t
  size_of (struct ms) = round_up (end_after 0 ms) (align_members ms)
  size_of (union ms) = round_up (widest ms) (align_members ms)

  -- Where the last of the members ends, when the first may start at `at`.
  pub end_after : ℕ → Members → ℕ
  end_after at end = at
  end_after at (member name t ms) = end_after (round_up at (align_of t) + size_of t) ms

  pub widest : Members → ℕ
  widest end = 0
  widest (member name t ms) = max (size_of t) (widest ms)

pub record Slot : Type 0 where
  pub name : String
  pub start : ℕ
  pub width : ℕ
  pub alignment : Alignment

-- The places of a struct's members, the first of which may start at `at`.
unfoldable pub slots : ℕ → Members → List Slot
slots at end = []
slots at (member name t ms) =
    let start = round_up at (align_of t) in
    record { name = name; start = start; width = size_of t; alignment = align_of t }
    ∷ slots (start + size_of t) ms

unfoldable pub find_slot : String → List Slot → Option Slot
find_slot name [] = none
find_slot name (s ∷ rest) =
    let later = find_slot name rest in if str_eq s.name name then some s else later

abbrev pub members_of : Ctype → Members
members_of (struct ms) = ms
members_of _ = end

-- `offsetof` for a member of a struct.
abbrev pub slot_of : String → Ctype → Option Slot
slot_of name t = find_slot name (slots 0 (members_of t))

padded :
    size_of (
      struct (
        members (("tag", scalar char) ∷ ("count", scalar long_long) ∷ ("flag", scalar short) ∷ [])))
    ≡ 24
unfolding size_of align_of round_up
padded = refl
