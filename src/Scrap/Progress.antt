-- ===== src/Scrap/Progress.antt =====
-- No run of `Scrap` in scrap/scrap.go is stuck before its loop is over.
use gpu_metric_collector.Base.{
  ℕ, suc, ◌+◌, ◌<◌, ◌≤◌, ◌*◌, ◌⊎◌, ◌≡◌, refl, ap, ◌∙◌, Option, none, some, List, [], ◌∷◌, ◌++◌,
  length, length-append, arith, inl, inr, Option-cases,
}
use gpu_metric_collector.Scrap.{
  Scrape, Step, send_response, send_err, receive_err, receive_response, Reach, start, next,
}

abbrev held : {A : Type 0} → Option A → ℕ
held none = 0
held (some a) = 1

-- What is still on its way, on each of the two paths, is what the loop has still to receive.
abbrev pub Pending : {B E : Type 0} → ℕ → Scrape B E → Type 0
Pending n s =
    (length s.working + length s.response_channel ≡ s.left)
    × (length s.working + length s.half + length s.err_channel + held s.holding ≡ s.left)
    × (s.left ≤ n)

length-middle :
    {A : Type 0} (before after : List A) (a : A)
    → length (before ++ a ∷ after) ≡ suc (length (before ++ after))
length-middle [] after a = refl
length-middle (b ∷ before) after a = ap suc (length-middle before after a)

Step-Pending : {B E : Type 0} (n : ℕ) (s t : Scrape B E) → Step n s t → Pending n s → Pending n t
Step-Pending n s t (send_response before after b e _ w room) (one, two, most) =
    let w' = ap length w ∙ length-middle before after (b, e) in
    (
      omega (arith, one, w', length-append s.response_channel (b ∷ [])),
      omega (arith, two, w'),
      most,
    )
Step-Pending n s t (send_err before after e _ h room) (one, two, most) =
    let h' = ap length h ∙ length-middle before after e in
    (one, omega (arith, two, h', length-append s.err_channel (e ∷ [])), most)
Step-Pending n s t (receive_err e rest left _ c l hold) (one, two, most) =
    (one, omega (arith, two, ap length c, ap held hold), most)
Step-Pending n s t (receive_response b rest e left _ c l hold) (one, two, most) = (
  omega (arith, one, ap length c, l),
  omega (arith, two, l, ap held hold),
  omega (arith, most, l),
)

pub Reach-Pending :
    {B E : Type 0} (nodes : List (Option B × Option E)) (s : Scrape B E)
    → Reach nodes s
    → Pending (length nodes) s
Reach-Pending nodes s start = (omega arith, omega arith, omega arith)
Reach-Pending nodes s (next t _ before step) =
    Step-Pending (length nodes) t s step (Reach-Pending nodes t before)

List-cases : {A : Type 0} (xs : List A) → (xs ≡ []) ⊎ ((x : A) × (rest : List A) × (xs ≡ x ∷ rest))
List-cases [] = inl refl
List-cases (x ∷ rest) = inr (x, rest, refl)

-- The loop waits for an error: some goroutine or the channel has one.
err-Step :
    {B E : Type 0} (n left : ℕ) (s : Scrape B E)
    → Pending n s
    → s.left ≡ suc left
    → s.holding ≡ none
    → (t : Scrape B E) × Step n s t
err-Step n left s (one, two, most) l hold = elim (List-cases s.err_channel) [
  | inr (e, rest, c) ↦ (_, receive_err e rest left s c l hold)
  | inl c ↦ elim (List-cases s.half) [
    | inr (e, rest, h) ↦ (_, send_err [] rest e s h (omega (arith, ap length c, most, l)))
    | inl h ↦ elim (List-cases s.working) [
      | inr (w, rest, e) ↦
          (_, send_response [] rest w.0 w.1 s e (omega (arith, one, most, ap length e)))
      | inl w ↦ absurd (omega (arith, two, l, ap length w, ap length h, ap length c, ap held hold))
    ]
  ]
]

-- The loop waits for a batch: its channel has one, since batches are sent before errors.
response-Step :
    {B E : Type 0} (n left : ℕ) (e : Option E) (s : Scrape B E)
    → Pending n s
    → s.left ≡ suc left
    → s.holding ≡ some e
    → (t : Scrape B E) × Step n s t
response-Step n left e s (one, two, most) l hold = elim (List-cases s.response_channel) [
  | inr (b, rest, c) ↦ (_, receive_response b rest e left s c l hold)
  | inl c ↦ absurd (omega (arith, one, two, ap length c, ap held hold))
]

-- Every run of `Scrap` that has rounds left can go on: neither a goroutine nor the loop waits for ever.
pub Reach-progress :
    {B E : Type 0} (nodes : List (Option B × Option E)) (s : Scrape B E) (left : ℕ)
    → Reach nodes s
    → s.left ≡ suc left
    → (t : Scrape B E) × Step (length nodes) s t
Reach-progress nodes s left reach l = elim (Option-cases s.holding) [
  | inl hold ↦ err-Step (length nodes) left s (Reach-Pending nodes s reach) l hold
  | inr (e, hold) ↦ response-Step (length nodes) left e s (Reach-Pending nodes s reach) l hold
]

-- The steps that a run can still take.
unfoldable pub remaining : {B E : Type 0} → Scrape B E → ℕ
remaining s = 3 * length s.working + 2 * length s.half + length s.err_channel + s.left

-- Every step leaves fewer to take, so that every run ends.
pub Step-remaining :
    {B E : Type 0} (n : ℕ) (s t : Scrape B E) → Step n s t → remaining t < remaining s
unfolding remaining
Step-remaining n s t (send_response before after b e _ w room) =
    omega (arith, ap length w ∙ length-middle before after (b, e))
Step-remaining n s t (send_err before after e _ h room) =
    omega (arith, ap length h ∙ length-middle before after e, length-append s.err_channel (e ∷ []))
Step-remaining n s t (receive_err e rest left _ c l hold) = omega (arith, ap length c)
Step-remaining n s t (receive_response b rest e left _ c l hold) = omega (arith, l)
