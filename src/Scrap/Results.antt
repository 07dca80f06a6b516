-- ===== src/Scrap/Results.antt =====
-- What `Scrap` of scrap/scrap.go has collected when its loop is over.
use gpu_metric_collector.Base.{
  ℕ, suc, ◌+◌, ◌≡◌, refl, ap, ◌∙◌, Bool, Option, none, some, List, [], ◌∷◌, ◌++◌, map, length,
  arith, if◌then◌else◌,
}
use gpu_metric_collector.Scrap.{
  Scrape, Step, send_response, send_err, receive_err, receive_response, Reach, start, next, add,
}
use gpu_metric_collector.Scrap.Progress.{Reach-Pending}

-- How many values a test holds for.
unfoldable pub tally : {A : Type 0} → (A → Bool) → List A → ℕ
tally p [] = 0
tally p (a ∷ as') = let n = tally p as' in if p a then suc n else n

unfoldable pub tally_some : {A : Type 0} → (A → Bool) → List (Option A) → ℕ
tally_some p [] = 0
tally_some p (none ∷ as') = tally_some p as'
tally_some p (some a ∷ as') = let n = tally_some p as' in if p a then suc n else n

tally_some-append :
    {A : Type 0} (p : A → Bool) (xs ys : List (Option A))
    → tally_some p (xs ++ ys) ≡ tally_some p xs + tally_some p ys
unfolding tally_some
tally_some-append p [] ys = omega arith
tally_some-append p (none ∷ xs) ys = tally_some-append p xs ys
tally_some-append p (some x ∷ xs) ys = ground (arith, tally_some-append p xs ys)

tally_some-middle :
    {A : Type 0} (p : A → Bool) (before after : List (Option A)) (a : Option A)
    → tally_some p (before ++ a ∷ after) ≡ tally_some p (before ++ after) + tally_some p (a ∷ [])
unfolding tally_some
tally_some-middle p [] after none = omega arith
tally_some-middle p [] after (some a) = ground arith
tally_some-middle p (none ∷ before) after a = tally_some-middle p before after a
tally_some-middle p (some b ∷ before) after a = ground (arith, tally_some-middle p before after a)

tally-snoc :
    {A : Type 0} (p : A → Bool) (xs : List A) (a : A)
    → tally p (xs ++ a ∷ []) ≡ tally p xs + (if p a then 1 else 0)
unfolding tally
tally-snoc p [] a = ground arith
tally-snoc p (x ∷ xs) a = ground (arith, tally-snoc p xs a)

tally-add :
    {A : Type 0} (p : A → Bool) (xs : List A) (a : Option A)
    → tally p (add a xs) ≡ tally p xs + tally_some p (a ∷ [])
unfolding tally_some
tally-add p xs none = omega arith
tally-add p xs (some a) = ground (arith, tally-snoc p xs a)

abbrev batches : {B E : Type 0} → List (Option B × Option E) → List (Option B)
batches = map (λ w. w.0)

batches-middle :
    {B E : Type 0} (before after : List (Option B × Option E)) (w : Option B × Option E)
    → batches (before ++ w ∷ after) ≡ batches before ++ w.0 ∷ batches after
batches-middle [] after w = refl
batches-middle (b ∷ before) after w = ap (◌∷◌ b.0) (batches-middle before after w)

batches-append :
    {B E : Type 0} (before after : List (Option B × Option E))
    → batches (before ++ after) ≡ batches before ++ batches after
batches-append [] after = refl
batches-append (b ∷ before) after = ap (◌∷◌ b.0) (batches-append before after)

-- The batches for which a test holds, wherever they are.
unfoldable pub everywhere : {B E : Type 0} → (B → Bool) → Scrape B E → ℕ
unfolding tally tally_some
everywhere p s =
    tally_some p (batches s.working) + tally_some p s.response_channel + tally p s.metricsbatchs

Step-everywhere :
    {B E : Type 0} (p : B → Bool) (n : ℕ) (s t : Scrape B E)
    → Step n s t
    → everywhere p t ≡ everywhere p s
unfolding everywhere
Step-everywhere p n s t (send_response before after b e _ w room) = omega (
  arith,
  ap (λ x. tally_some p (batches x)) w,
  ap (tally_some p) (batches-middle before after (b, e)),
  ap (tally_some p) (batches-append before after),
  tally_some-middle p (batches before) (batches after) b,
  tally_some-append p s.response_channel (b ∷ []),
)
Step-everywhere p n s t (send_err before after e _ h room) = refl
Step-everywhere p n s t (receive_err e rest left _ c l hold) = refl
Step-everywhere p n s t (receive_response b rest e left _ c l hold) =
    omega
      (arith, ap (tally_some p) c, tally_some-append p (b ∷ []) rest, tally-add p s.metricsbatchs b)

Reach-everywhere :
    {B E : Type 0} (p : B → Bool) (nodes : List (Option B × Option E)) (s : Scrape B E)
    → Reach nodes s
    → everywhere p s ≡ tally_some p (batches nodes)
Reach-everywhere p nodes s start = unfold everywhere tally tally_some in omega arith
Reach-everywhere p nodes s (next t _ before step) =
    Step-everywhere p (length nodes) t s step ∙ Reach-everywhere p nodes t before

none_left : {A : Type 0} (p : A → Bool) (xs : List (Option A)) → length xs ≡ 0 → tally_some p xs ≡ 0
unfolding tally_some
none_left p [] h = refl
none_left p (x ∷ xs) h = absurd (omega arith)

length-batches : {B E : Type 0} (xs : List (Option B × Option E)) → length (batches xs) ≡ length xs
length-batches [] = refl
length-batches (x ∷ xs) = ap suc (length-batches xs)

-- When the loop of `Scrap` is over, in whichever order the goroutines ran, it has collected the
-- batches of the nodes, each as often as the nodes returned it: for every test, as many collected
-- batches pass it as returned ones. A node without a batch adds nothing.
pub Reach-tally :
    {B E : Type 0} (p : B → Bool) (nodes : List (Option B × Option E)) (s : Scrape B E)
    → Reach nodes s
    → s.left ≡ 0
    → tally p s.metricsbatchs ≡ tally_some p (map (λ w. w.0) nodes)
unfolding everywhere
Reach-tally p nodes s reach over =
    let (one, two, most) = Reach-Pending nodes s reach in
    let no_work =
      none_left p (batches s.working) (length-batches s.working ∙ omega (arith, one, over)) in
    let no_response = none_left p s.response_channel (omega (arith, one, over)) in
    omega (arith, no_work, no_response, Reach-everywhere p nodes s reach)
