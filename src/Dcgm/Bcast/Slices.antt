-- ===== src/Dcgm/Bcast/Slices.antt =====
-- The slice of subscribers as the list that it stands for.
use gpu_metric_collector.Base.{
  ℕ, zero, suc, ◌≤◌, ◌<◌, ◌≡◌, refl, ap, ◌∙◌, List, [], ◌∷◌, ◌++◌, length, length-take, take, drop,
  set, replicate, ltb, ◌==◌, if◌then◌else◌, Option, none, some, arith, Bool-cases, inl, inr, ltb→lt,
}
use gpu_metric_collector.Dcgm.Bcast.{
  Publisher, subscribers, add, remove, remove_at, subscriber_index, move_down, close_gap, less_one,
}

abbrev pub Fits : Publisher → Type 0
Fits p = p.used ≤ length p.cells

-- A list without its element at an index.
abbrev pub erase_at : ℕ → List ℕ → List ℕ
erase_at i [] = []
erase_at zero (x ∷ xs) = xs
erase_at (suc i) (x ∷ xs) = x ∷ erase_at i xs

-- The last element that is moved down stays in its old place too.
take-move_down :
    (n x : ℕ) (xs : List ℕ)
    → n ≤ length xs
    → take (suc n) (move_down n (x ∷ xs)) ≡ take n xs ++ drop n (x ∷ take n xs)
unfolding move_down
take-move_down zero x xs h = refl
take-move_down (suc n) x [] h = absurd (omega arith)
take-move_down (suc n) x (y ∷ xs) h = ap (λ t. y ∷ t) (take-move_down n y xs (omega arith))

-- The array after a gap is closed: the elements without the one at the gap, and the last one again.
pub take-close_gap :
    (i n : ℕ) (cells : List ℕ)
    → i < n
    → n ≤ length cells
    → take n (close_gap i n cells) ≡ erase_at i (take n cells) ++ drop (less_one n) (take n cells)
unfolding close_gap
take-close_gap i n [] lt le = absurd (omega arith)
take-close_gap i zero (x ∷ cells) lt le = absurd (omega arith)
take-close_gap zero (suc n) (x ∷ cells) lt le = take-move_down n x cells (omega arith)
take-close_gap (suc i) (suc zero) (x ∷ cells) lt le = absurd (omega arith)
take-close_gap (suc i) (suc (suc n)) (x ∷ cells) lt le =
    ap (λ t. x ∷ t) (take-close_gap i (suc n) cells (omega arith) (omega arith))

take-move_down_short :
    (n x : ℕ) (xs : List ℕ) → n ≤ length xs → take n (move_down n (x ∷ xs)) ≡ take n xs
unfolding move_down
take-move_down_short zero x xs h = refl
take-move_down_short (suc n) x [] h = absurd (omega arith)
take-move_down_short (suc n) x (y ∷ xs) h =
    ap (λ t. y ∷ t) (take-move_down_short n y xs (omega arith))

take-close_gap_short :
    (i n : ℕ) (cells : List ℕ)
    → i < n
    → n ≤ length cells
    → take (less_one n) (close_gap i n cells) ≡ erase_at i (take n cells)
unfolding close_gap
take-close_gap_short i n [] lt le = absurd (omega arith)
take-close_gap_short i zero (x ∷ cells) lt le = absurd (omega arith)
take-close_gap_short zero (suc n) (x ∷ cells) lt le = take-move_down_short n x cells (omega arith)
take-close_gap_short (suc i) (suc zero) (x ∷ cells) lt le = absurd (omega arith)
take-close_gap_short (suc i) (suc (suc n)) (x ∷ cells) lt le =
    ap (λ t. x ∷ t) (take-close_gap_short i (suc n) cells (omega arith) (omega arith))

-- The list of subscribers without the one that leaves; none where it is not there.
unfoldable pub without : ℕ → List ℕ → Option (List ℕ)
without leaving [] = none
without leaving (sub ∷ subs) =
    let rest = without leaving subs in
    if sub == leaving then some subs else elim rest [ none ↦ none | some ys ↦ some (sub ∷ ys) ]

abbrev pub erased : Option ℕ → List ℕ → Option (List ℕ)
erased none subs = none
erased (some i) subs = some (erase_at i subs)

erased-suc :
    (sub : ℕ) (subs : List ℕ) (o : Option ℕ)
    → erased (elim o [ none ↦ none | some i ↦ some (suc i) ]) (sub ∷ subs)
      ≡ elim (erased o subs) [ none ↦ none | some ys ↦ some (sub ∷ ys) ]
erased-suc sub subs none = refl
erased-suc sub subs (some i) = refl

erased-subscriber_index :
    (x : ℕ) (subs : List ℕ) → erased (subscriber_index x subs) subs ≡ without x subs
unfolding subscriber_index without
erased-subscriber_index x [] = refl
erased-subscriber_index x (sub ∷ subs) = elim (Bool-cases (sub == x)) [
  | inl h ↦ rw h refl
  | inr h ↦
      rw (h, erased-suc sub subs (subscriber_index x subs), erased-subscriber_index x subs) refl
]

abbrev Below : ℕ → Option ℕ → Type 0
Below n none = Unit
Below n (some i) = i < n

Below-suc :
    (n : ℕ) (o : Option ℕ)
    → Below n o
    → Below (suc n) (elim o [ none ↦ none | some i ↦ some (suc i) ])
Below-suc n none h = tt
Below-suc n (some i) h = omega arith

subscriber_index-Below : (x : ℕ) (subs : List ℕ) → Below (length subs) (subscriber_index x subs)
unfolding subscriber_index
subscriber_index-Below x [] = tt
subscriber_index-Below x (sub ∷ subs) = elim (Bool-cases (sub == x)) [
  | inl h ↦ rw h (omega arith)
  | inr h ↦ rw h (Below-suc (length subs) (subscriber_index x subs) (subscriber_index-Below x subs))
]

abbrev pub slice_of : Option Publisher → Option (List ℕ)
slice_of none = none
slice_of (some p) = some (subscribers p)

remove_at-erased :
    (p : Publisher) (o : Option ℕ)
    → Fits p
    → Below (length (subscribers p)) o
    → slice_of (remove_at p o) ≡ erased o (subscribers p)
remove_at-erased p none fits b = refl
remove_at-erased p (some i) fits b =
    ap some
      (take-close_gap_short i p.used p.cells (omega (arith, length-take p.used p.cells fits)) fits)

-- `remove` takes the first occurrence of the subscriber out of the list, or fails where it is not in it.
pub remove-without :
    (x : ℕ) (p : Publisher) → Fits p → slice_of (remove x p) ≡ without x (subscribers p)
unfolding remove
remove-without x p fits =
    remove_at-erased p (subscriber_index x (subscribers p)) fits
      (subscriber_index-Below x (subscribers p))
    ∙ erased-subscriber_index x (subscribers p)

take-set : (n x : ℕ) (xs : List ℕ) → n < length xs → take (suc n) (set xs n x) ≡ take n xs ++ x ∷ []
take-set n x [] h = absurd (omega arith)
take-set zero x (y ∷ xs) h = refl
take-set (suc n) x (y ∷ xs) h = ap (λ t. y ∷ t) (take-set n x xs (omega arith))

take-grown :
    (n x : ℕ) (xs rest : List ℕ)
    → n ≤ length xs
    → take (suc n) (take n xs ++ x ∷ rest) ≡ take n xs ++ x ∷ []
take-grown zero x xs rest h = refl
take-grown (suc n) x [] rest h = absurd (omega arith)
take-grown (suc n) x (y ∷ xs) rest h = ap (λ t. y ∷ t) (take-grown n x xs rest (omega arith))

-- `add` puts the subscriber at the end of the list, in place or in a copy.
pub add-append :
    (spare x : ℕ) (p : Publisher) → Fits p → subscribers (add spare x p) ≡ subscribers p ++ x ∷ []
unfolding add
add-append spare x p fits = elim (Bool-cases (ltb p.used (length p.cells))) [
  | inl h ↦ rw h (take-set p.used x p.cells (ltb→lt _ _ h))
  | inr h ↦ rw h (take-grown p.used x p.cells (replicate spare 0) fits)
]

length-move_down : (n : ℕ) (cells : List ℕ) → length (move_down n cells) ≡ length cells
unfolding move_down
length-move_down zero cells = refl
length-move_down (suc n) [] = refl
length-move_down (suc n) (x ∷ []) = refl
length-move_down (suc n) (x ∷ y ∷ rest) = ap suc (length-move_down n (y ∷ rest))

pub length-close_gap : (i n : ℕ) (cells : List ℕ) → length (close_gap i n cells) ≡ length cells
unfolding close_gap
length-close_gap zero n cells = length-move_down (less_one n) cells
length-close_gap (suc i) n [] = refl
length-close_gap (suc i) n (x ∷ cells) = ap suc (length-close_gap i (less_one n) cells)
