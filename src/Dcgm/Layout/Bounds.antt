-- ===== src/Dcgm/Layout/Bounds.antt =====
-- The places of members: in order, apart, aligned and inside the struct.
use native.Mathlib.Nat.{
  dvd-mul_left_of_dvd, mod-eq-zero_of_dvd, dvd_trans, mod_self, dvd_of_mod-eq-zero,
}
use gpu_metric_collector.Base.{ℕ, ◌+◌, ◌*◌, ◌%◌, ◌≤◌, ◌≡◌, refl, List, [], ◌∷◌, arith}
use gpu_metric_collector.Dcgm.Layout.{
  Alignment, one, two, four, eight, bytes, stricter, Ctype, scalar, array, struct, union, Members,
  end, member, scalar_alignment, round_up, align_of, align_members, size_of, end_after, Slot, slots,
}

abbrev pub Laid : Alignment → ℕ → ℕ → List Slot → Type 0
Laid whole from to [] = from ≤ to
Laid whole from to (s ∷ rest) =
    (from ≤ s.start)
    × (s.start % bytes s.alignment ≡ 0)
    × (bytes whole % bytes s.alignment ≡ 0)
    × Laid whole (s.start + s.width) to rest

pub round_up-le : (n : ℕ) (a : Alignment) → n ≤ round_up n a
unfolding round_up
round_up-le n one = omega arith
round_up-le n two = omega arith
round_up-le n four = omega arith
round_up-le n eight = omega arith

pub round_up-mod : (n : ℕ) (a : Alignment) → round_up n a % bytes a ≡ 0
unfolding round_up
round_up-mod n one = omega arith
round_up-mod n two = omega arith
round_up-mod n four = omega arith
round_up-mod n eight = omega arith

mul-mod : (k n m : ℕ) → n % m ≡ 0 → (k * n) % m ≡ 0
mul-mod k n m h = mod-eq-zero_of_dvd m (dvd-mul_left_of_dvd m (dvd_of_mod-eq-zero m h) k)

-- Of two alignments the larger is a multiple of the smaller.
alignments_nested : (a b : Alignment) → bytes a ≤ bytes b → bytes b % bytes a ≡ 0
alignments_nested one b h = omega arith
alignments_nested two one h = absurd (omega arith)
alignments_nested two two h = refl
alignments_nested two four h = refl
alignments_nested two eight h = refl
alignments_nested four one h = absurd (omega arith)
alignments_nested four two h = absurd (omega arith)
alignments_nested four four h = refl
alignments_nested four eight h = refl
alignments_nested eight eight h = refl
alignments_nested eight _ h = absurd (omega arith)

stricter-mod_left : (a b : Alignment) → bytes (stricter a b) % bytes a ≡ 0
stricter-mod_left a b = ground (arith, mod_self (bytes a), alignments_nested a b)

stricter-mod_right : (a b : Alignment) → bytes (stricter a b) % bytes b ≡ 0
stricter-mod_right a b = ground (arith, mod_self (bytes b), alignments_nested b a)

-- What divides the alignment of the later members divides the alignment of all.
mod_nested : (a b c : Alignment) → bytes b % bytes c ≡ 0 → bytes (stricter a b) % bytes c ≡ 0
mod_nested a b c h =
    mod-eq-zero_of_dvd _
      (dvd_trans _ (dvd_of_mod-eq-zero _ h) (dvd_of_mod-eq-zero _ (stricter-mod_right a b)))

Laid-weaken :
    (a b : Alignment) (from to : ℕ) (ss : List Slot)
    → Laid b from to ss
    → Laid (stricter a b) from to ss
Laid-weaken a b from to [] h = h
Laid-weaken a b from to (s ∷ ss) (h, m, d, rest) =
    (h, m, mod_nested a b s.alignment d, Laid-weaken a b (s.start + s.width) to ss rest)

Laid-widen :
    (a : Alignment) (from to further : ℕ) (ss : List Slot)
    → to ≤ further
    → Laid a from to ss
    → Laid a from further ss
Laid-widen a from to further [] le h = omega arith
Laid-widen a from to further (s ∷ ss) le (h, m, d, rest) =
    (h, m, d, Laid-widen a (s.start + s.width) to further ss le rest)

-- The members from `at` on are laid out up to where the last of them ends.
slots-Laid : (at : ℕ) (ms : Members) → Laid (align_members ms) at (end_after at ms) (slots at ms)
unfolding slots end_after align_members
slots-Laid at end = omega arith
slots-Laid at (member name t ms) = (
  round_up-le at (align_of t),
  round_up-mod at (align_of t),
  stricter-mod_left (align_of t) (align_members ms),
  Laid-weaken (align_of t) (align_members ms) _ _ _
      (slots-Laid (round_up at (align_of t) + size_of t) ms),
)

-- The members of a struct stand in the order of the declaration, apart from one another and inside
-- the struct, each at a multiple of its alignment, which divides the alignment of the struct.
pub struct-Laid : (ms : Members) → Laid (align_of (struct ms)) 0 (size_of (struct ms)) (slots 0 ms)
unfolding size_of align_of
struct-Laid ms = Laid-widen _ _ _ _ _ (round_up-le _ _) (slots-Laid 0 ms)

-- The elements of an array of any type are aligned when the first is.
pub size_of-align_of : (t : Ctype) → size_of t % bytes (align_of t) ≡ 0
unfolding size_of align_of
size_of-align_of (scalar s) = mod_self (bytes (scalar_alignment s))
size_of-align_of (array t count) = mul-mod count (size_of t) _ (size_of-align_of t)
size_of-align_of (struct ms) = round_up-mod _ _
size_of-align_of (union ms) = round_up-mod _ _
