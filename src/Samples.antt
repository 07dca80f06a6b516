-- ===== src/Samples.antt =====
-- resource.Quantity as a number of nanounits: a concrete `Quantities` for the tests.
use gpu_metric_collector.Base.{
  ℕ, ◌+◌, ◌-◌, ◌*◌, ◌/◌, ◌^◌, ◌≡◌, refl, ap, inl, inr, arith, Bool-cases, leb, leb→le,
}
use gpu_metric_collector.Base.Int.{ℤ, pos, negsuc, sub_ℕ}
use gpu_metric_collector.Storage.{Quantities}

-- A quantity as its amount in units of 10⁻⁹.
abbrev pub scaled : ℕ → ℤ → ℕ
scaled v (pos e) = v * 10 ^ (e + 9)
scaled v (negsuc e) = v * 10 ^ (8 - e)

pub scaled_lem : (v e : ℕ) → scaled v (sub_ℕ e 9) ≡ v * 10 ^ e
scaled_lem v e = elim (Bool-cases (leb 9 e)) [
  | inl h ↦ rw h (ap (λ (k : ℕ). v * 10 ^ k) (omega (arith, leb→le 9 e h)))
  | inr h ↦ rw h (ap (λ (k : ℕ). v * 10 ^ k) (ground arith))
]

abbrev pub nanos : Quantities
nanos = record {
  Quantity = ℕ;
  empty = 0;
  new_scaled_quantity = scaled;
  with_format = λ f q. q;
  nano = λ q. q;
  value = λ q. (q + (10 ^ 9 - 1)) / 10 ^ 9;
  milli_value = λ q. (q + (10 ^ 6 - 1)) / 10 ^ 6;
  nano-empty = refl;
  nano-with_format = λ f q. refl;
  nano-new_scaled_quantity = scaled_lem;
  value-nano = λ q. refl;
  milli_value-nano = λ q. refl;
}
