-- ===== src/Dcgm/Bcast/Walks.antt =====
-- Which subscribers a message reaches, with and without a `remove` meanwhile.
use gpu_metric_collector.Base.{
  length-take, ℕ, zero, suc, ◌+◌, ◌≤◌, ◌<◌, ◌≡◌, refl, ap, sym, ◌∙◌, List, [], ◌∷◌, ◌++◌, length,
  take, drop, get_elem?, some, arith, lt→ltb, append_assoc, append-nil,
}
use native.Mathlib.Nat.{add-zero, zero-add, suc-add}
use gpu_metric_collector.Dcgm.Bcast.{
  Publisher, subscribers, remove, subscriber_index, close_gap, less_one, shared, BroadcastRound,
  begin_round, serve_next, deliveries, remove_meanwhile,
}
use gpu_metric_collector.Dcgm.Bcast.Slices.{Fits, erase_at, take-close_gap, length-close_gap}

abbrev round_at : Publisher → ℕ → ℕ → List ℕ → BroadcastRound
round_at p len position sent = record {
  publisher = p;
  source = shared;
  len = len;
  position = position;
  sent = sent;
}

drop-get_elem? :
    (n : ℕ) (xs : List ℕ)
    → n < length xs
    → (x : ℕ) × (get_elem? xs n ≡ some x) × (drop n xs ≡ x ∷ drop (suc n) xs)
drop-get_elem? n [] h = absurd (omega arith)
drop-get_elem? zero (x ∷ xs) h = (x, refl, refl)
drop-get_elem? (suc n) (x ∷ xs) h = drop-get_elem? n xs (omega arith)

ap2 : {A B C : Type 0} (f : A → B → C) {a a' : A} {b b' : B} → a ≡ a' → b ≡ b' → f a b ≡ f a' b'
ap2 f p q = λ i. f (p i) (q i)

-- Turns with no change of the array serve the next elements of it.
deliveries-take :
    (n len position : ℕ) (p : Publisher) (sent : List ℕ)
    → position + n ≤ len
    → len ≤ length p.cells
    → deliveries n (round_at p len position sent)
      ≡ round_at p len (position + n) (sent ++ take n (drop position p.cells))
unfolding deliveries serve_next
deliveries-take zero len position p sent h le = rw (add-zero position, append-nil sent) refl
deliveries-take (suc n) len position p sent h le =
    let (x, e, d) = drop-get_elem? position p.cells (omega arith) in
    rw (lt→ltb position len (omega arith), e, d)
      (deliveries-take n len (suc position) p (sent ++ x ∷ []) (omega arith) le
        ∙ ap2 (round_at p len) (omega arith)
            (append_assoc sent (x ∷ []) (take n (drop (suc position) p.cells))))

take-take_le : (k n : ℕ) (xs : List ℕ) → k ≤ n → take k (take n xs) ≡ take k xs
take-take_le zero n xs h = refl
take-take_le (suc k) zero xs h = absurd (omega arith)
take-take_le (suc k) (suc n) [] h = refl
take-take_le (suc k) (suc n) (x ∷ xs) h = ap (λ t. x ∷ t) (take-take_le k n xs (omega arith))

take-drop_add : (k m : ℕ) (xs : List ℕ) → take m (drop k xs) ≡ drop k (take (k + m) xs)
take-drop_add zero m xs = rw (zero-add m) refl
take-drop_add (suc k) zero [] = rw (suc-add k 0) refl
take-drop_add (suc k) (suc m) [] = rw (suc-add k (suc m)) refl
take-drop_add (suc k) m (x ∷ xs) = rw (suc-add k m) (take-drop_add k m xs)

drop-append_le : (k : ℕ) (xs ys : List ℕ) → k ≤ length xs → drop k (xs ++ ys) ≡ drop k xs ++ ys
drop-append_le zero xs ys h = refl
drop-append_le (suc k) [] ys h = absurd (omega arith)
drop-append_le (suc k) (x ∷ xs) ys h = drop-append_le k xs ys (omega arith)

drop-erase_at :
    (k i : ℕ) (xs ys : List ℕ)
    → i ≤ k
    → k < length xs
    → drop k (erase_at i xs ++ ys) ≡ drop (suc k) xs ++ ys
drop-erase_at k i [] ys h lt = absurd (omega arith)
drop-erase_at k zero (x ∷ xs) ys h lt = drop-append_le k xs ys (omega arith)
drop-erase_at zero (suc i) (x ∷ xs) ys h lt = absurd (omega arith)
drop-erase_at (suc k) (suc i) (x ∷ xs) ys h lt = drop-erase_at k i xs ys (omega arith) (omega arith)

begin-deliveries :
    (n : ℕ) (p : Publisher)
    → Fits p
    → n ≤ p.used
    → deliveries n (begin_round p) ≡ round_at p p.used n (take n (subscribers p))
begin-deliveries n p fits h =
    deliveries-take n p.used 0 p [] (omega arith) fits
    ∙ ap2 (round_at p p.used) (zero-add n) (sym (take-take_le n p.used p.cells h))

-- A round that no `add` or `remove` meets serves each subscriber once, in the order of the list.
pub deliveries-subscribers :
    (p : Publisher) → Fits p → (deliveries p.used (begin_round p)).sent ≡ subscribers p
deliveries-subscribers p fits =
    ap (λ r. r.sent) (begin-deliveries p.used p fits (omega arith))
    ∙ take-take_le p.used p.used p.cells (omega arith)

-- When a subscriber that has been served leaves while at least two are still to be served, the round
-- passes over the subscriber whose turn it was and serves the last one twice.
pub deliveries-remove_meanwhile :
    (p : Publisher) (x i k m : ℕ)
    → Fits p
    → subscriber_index x (subscribers p) ≡ some i
    → i < k
    → k + m ≡ p.used
    → 1 < m
    → (deliveries m (remove_meanwhile x (deliveries k (begin_round p)))).sent
      ≡ take k (subscribers p)
        ++ (drop (suc k) (subscribers p) ++ drop (less_one p.used) (subscribers p))
unfolding remove
deliveries-remove_meanwhile p x i k m fits found served rest more =
    let p' : Publisher = record { cells = close_gap i p.used p.cells; used = less_one p.used } in
    rw (begin-deliveries k p fits (omega arith), found)
      (ap (λ r. r.sent)
          (deliveries-take m p.used k p' (take k (subscribers p)) (omega arith)
            (omega (arith, fits, length-close_gap i p.used p.cells)))
        ∙ ap (λ t. take k (subscribers p) ++ t)
            (take-drop_add k m p'.cells
              ∙ ap (λ n. drop k (take n p'.cells)) rest
              ∙ ap (drop k) (take-close_gap i p.used p.cells (omega arith) fits)
              ∙ drop-erase_at k i (subscribers p) _ (omega arith)
                  (omega (arith, length-take p.used p.cells fits))))
