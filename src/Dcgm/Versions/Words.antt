-- ===== src/Dcgm/Versions/Words.antt =====
-- The version word holds the struct's size in its low 24 bits and the version above them.
use native.Mathlib.Nat.{two-pow-succ}
use Prim.Native.Nat.{digits, max, bit_or-bitwise}
use gpu_metric_collector.Base.{
  ℕ, zero, suc, ◌+◌, ◌*◌, ◌/◌, ◌%◌, ◌^◌, ◌≤◌, ◌<◌, ◌≡◌, refl, arith, bit_or, ◌∙◌, ap,
}
use gpu_metric_collector.Dcgm.Layout.{Ctype, size_of}
use gpu_metric_collector.Dcgm.Versions.{
  make_dcgm_version, make_version_1, make_version_2, make_version_4,
}

double : (v k : ℕ) → v * 2 ^ suc k ≡ (v * 2 ^ k) * 2
double v k = grind arith

-- One step of `digits` against an even number.
digits_of_even :
    (n s x : ℕ)
    → digits (λ b. b) max n (suc s / 2) x ≡ suc s / 2 + x
    → digits (λ b. b) max (suc n) (suc s) (x * 2) ≡ suc s + x * 2
digits_of_even n s x h =
    let half : x * 2 / 2 ≡ x = omega arith in
    omega (arith, h, ap (digits (λ b. b) max n (suc s / 2)) half)

-- A number of at most `k` digits, and one that begins above them, share no digit.
digits-add : (n k s v : ℕ) → s ≤ n → s < 2 ^ k → digits (λ b. b) max n s (v * 2 ^ k) ≡ s + v * 2 ^ k
digits-add zero k zero v h lt = omega arith
digits-add zero k (suc s) v h lt = absurd (omega arith)
digits-add (suc n) k zero v h lt = omega arith
digits-add (suc n) zero (suc s) v h lt = absurd (omega arith)
digits-add (suc n) (suc k) (suc s) v h lt = rw (double v k) (
    digits_of_even n s (v * 2 ^ k)
      (digits-add n k (suc s / 2) v (omega arith) (omega (arith, lt, two-pow-succ k))))

pub bit_or-add : (k s v : ℕ) → s < 2 ^ k → bit_or s (v * 2 ^ k) ≡ s + v * 2 ^ k
bit_or-add k s v lt = bit_or-bitwise s (v * 2 ^ k) ∙ digits-add s k s v (omega arith) lt

pub make_dcgm_version-add :
    (t : Ctype) (ver : ℕ)
    → size_of t < 2 ^ 24
    → ver < 2 ^ 8
    → make_dcgm_version t ver ≡ size_of t + ver * 2 ^ 24
unfolding make_dcgm_version
make_dcgm_version-add t ver small few =
    let low : ver * 2 ^ 24 % 2 ^ 64 ≡ ver * 2 ^ 24 = omega arith in
    omega (arith, ap (bit_or (size_of t)) low, bit_or-add 24 (size_of t) ver small)

-- The version word of a struct of less than 16 MiB gives back its size, in the low 24 bits, and its version, above them.
pub make_dcgm_version-split :
    (t : Ctype) (ver : ℕ)
    → size_of t < 2 ^ 24
    → ver < 2 ^ 8
    → (make_dcgm_version t ver % 2 ^ 24 ≡ size_of t) × (make_dcgm_version t ver / 2 ^ 24 ≡ ver)
make_dcgm_version-split t ver small few = omega (arith, make_dcgm_version-add t ver small few)

-- utils.go's words of a size agree with the header's macro.
pub make_version_1-agrees : (t : Ctype) → make_version_1 (size_of t) ≡ make_dcgm_version t 1
unfolding make_version_1 make_dcgm_version
make_version_1-agrees t = refl

pub make_version_2-agrees : (t : Ctype) → make_version_2 (size_of t) ≡ make_dcgm_version t 2
unfolding make_version_2 make_dcgm_version
make_version_2-agrees t = refl

pub make_version_4-agrees : (t : Ctype) → make_version_4 (size_of t) ≡ make_dcgm_version t 4
unfolding make_version_4 make_dcgm_version
make_version_4-agrees t = refl
