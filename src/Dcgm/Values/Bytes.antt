-- ===== src/Dcgm/Values/Bytes.antt =====
-- A number that the library stores in a value's union is the number that Go reads from its bytes.
use native.Mathlib.Nat.{pow-suc}
use gpu_metric_collector.Base.{
  ℕ, zero, suc, ◌-◌, ◌/◌, ◌%◌, ◌^◌, ◌<◌, ◌≡◌, refl, ap, ◌∙◌, List, [], ◌∷◌, ◌++◌, take, arith,
}
use gpu_metric_collector.Base.Int.{ℤ, pos, negsuc, ◌≤ℤ◌}
use gpu_metric_collector.Dcgm.Values.{little_endian, signed64, int64}

-- The `n` bytes of a word, lowest first.
abbrev pub stored : ℕ → ℕ → List ℕ
stored zero w = []
stored (suc n) w = w % 256 ∷ stored n (w / 256)

-- An int64 as its 64-bit word.
abbrev pub word64 : ℤ → ℕ
word64 (pos n) = n
word64 (negsuc n) = 2 ^ 64 - n - 1

take-stored : (n w : ℕ) (rest : List ℕ) → take n (stored n w ++ rest) ≡ stored n w
take-stored zero w rest = refl
take-stored (suc n) w rest = ap (λ bytes. w % 256 ∷ bytes) (take-stored n (w / 256) rest)

little_endian-stored : (n w : ℕ) → w < 256 ^ n → little_endian (stored n w) ≡ w
unfolding little_endian
little_endian-stored zero w h = omega arith
little_endian-stored (suc n) w h =
    omega (arith, little_endian-stored n (w / 256) (omega (arith, pow-suc 256 n)))

word64-lt : (x : ℤ) → negsuc (2 ^ 63 - 1) ≤ℤ x → x ≤ℤ pos (2 ^ 63 - 1) → word64 x < 2 ^ 64
word64-lt (pos n) lo hi = omega arith
word64-lt (negsuc n) lo hi = omega arith

signed64-word64 :
    (x : ℤ) → negsuc (2 ^ 63 - 1) ≤ℤ x → x ≤ℤ pos (2 ^ 63 - 1) → signed64 (word64 x) ≡ x
unfolding signed64
signed64-word64 (pos n) lo hi = ground arith
signed64-word64 (negsuc n) lo hi = ground arith

-- An int64 stored in the first eight bytes of the union is read back, whatever the other bytes are.
pub int64-stored :
    (x : ℤ) (rest : List ℕ)
    → negsuc (2 ^ 63 - 1) ≤ℤ x
    → x ≤ℤ pos (2 ^ 63 - 1)
    → int64 (stored 8 (word64 x) ++ rest) ≡ x
unfolding int64
int64-stored x rest lo hi =
    ap (λ bytes. signed64 (little_endian bytes)) (take-stored 8 (word64 x) rest)
    ∙ ap signed64 (little_endian-stored 8 (word64 x) (word64-lt x lo hi))
    ∙ signed64-word64 x lo hi
