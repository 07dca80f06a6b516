-- ===== src/Decode/Quantity.antt =====
-- What `uint64Quantity` of decode/decode.go loses.
use native.Mathlib.Nat.{pow-suc, mul-le-mul_right, le_trans, le_of_eq, add-mul}
use gpu_metric_collector.Base.{
  ℕ, suc, ◌+◌, ◌*◌, ◌/◌, ◌^◌, ◌≤◌, ◌<◌, ◌≡◌, inl, inr, Bool-cases, arith, leb, leb→le, le→leb,
  false, ap,
}
use gpu_metric_collector.Base.Int.{ℤ, pos, ◌+ℤ◌, sub_ℕ}
use gpu_metric_collector.Storage.{Quantities}
use gpu_metric_collector.Decode.{max_int64, uint64_quantity}

next_scale : (e : ℕ) → pos 1 +ℤ sub_ℕ e 9 ≡ sub_ℕ (suc e) 9
unfolding ◌+ℤ◌
next_scale e = ground arith

cut_le : (val p : ℕ) → val / 10 * 10 * p ≤ val * p
cut_le val p = mul-le-mul_right p (omega arith)

le_cut : (val p : ℕ) → val * p ≤ val / 10 * 10 * p + 9 * p
le_cut val p = le_trans (mul-le-mul_right p (omega arith)) (le_of_eq (add-mul (val / 10 * 10) 9 p))

module _ (Q : Quantities) where
  open Q use {Quantity, new_scaled_quantity, nano, nano-new_scaled_quantity}

  small : (val e : ℕ) → val ≤ max_int64 → nano (uint64_quantity Q val (sub_ℕ e 9)) ≡ val * 10 ^ e
  unfolding uint64_quantity
  small val e h = rw (le→leb val max_int64 h) (nano-new_scaled_quantity val e)

  large :
      (val e : ℕ)
      → leb val max_int64 ≡ false
      → nano (uint64_quantity Q val (sub_ℕ e 9)) ≡ val / 10 * 10 * 10 ^ e
  unfolding uint64_quantity
  large val e h =
      rw (h, next_scale e, nano-new_scaled_quantity (val / 10) (suc e))
        (omega (arith, ap (λ (t : ℕ). val / 10 * t) (pow-suc 10 e)))

  -- The quantity made of a uint64 is never more than the value, exact for every value that an int64
  -- holds, and otherwise less by at most nine units of the scale, at every scale from 10⁻⁹ up.
  pub nano-uint64_quantity :
      (val e : ℕ)
      → (val ≤ max_int64 → nano (uint64_quantity Q val (sub_ℕ e 9)) ≡ val * 10 ^ e)
        × (nano (uint64_quantity Q val (sub_ℕ e 9)) ≤ val * 10 ^ e)
        × (val * 10 ^ e ≤ nano (uint64_quantity Q val (sub_ℕ e 9)) + 9 * 10 ^ e)
  nano-uint64_quantity val e = elim (Bool-cases (leb val max_int64)) [
    | inl h ↦
        let exact = small val e (leb→le val max_int64 h) in
        (λ _. exact, omega (arith, exact), omega (arith, exact))
    | inr h ↦
        let short = large val e h in
        (
          λ le. cc (le→leb val max_int64 le),
          rw short (cut_le val (10 ^ e)),
          rw short (le_cut val (10 ^ e)),
        )
  ]

  -- Whatever holds of every quantity made of an int64 holds of the quantity made of a uint64: the
  -- value that is passed on fits an int64 in both branches.
  pub uint64_quantity_int64 {κ} :
      (P : Quantity → Type κ)
      → ((v : ℕ) (s : ℤ) → v ≤ max_int64 → P (new_scaled_quantity v s))
      → (val : ℕ) (scale : ℤ) → val < 2 ^ 64
      → P (uint64_quantity Q val scale)
  unfolding uint64_quantity
  uint64_quantity_int64 P each val scale h = elim (Bool-cases (leb val max_int64)) [
    | inl e ↦ rw e (each val scale (leb→le val max_int64 e))
    | inr e ↦ rw e (each (val / 10) _ (omega arith))
  ]
