-- ===== src/Dcgm/Bcast/Changes.antt =====
-- Any run of `add` and `remove` keeps the list of subscribers that it should.
use gpu_metric_collector.Base.{
  length-take, ℕ, zero, suc, ◌≤◌, ◌≡◌, refl, ap, ◌∙◌, List, [], ◌∷◌, ◌++◌, length, take, replicate,
  ltb, Option, none, some, arith, Bool-cases, inl, inr, ltb→lt, length-set, length-append,
}
use gpu_metric_collector.Dcgm.Bcast.{
  Publisher, subscribers, new_publisher, add, remove, remove_at, subscriber_index, less_one,
}
use gpu_metric_collector.Dcgm.Bcast.Slices.{
  Fits, slice_of, without, remove-without, add-append, length-close_gap,
}

-- What the goroutines do with the publisher.
pub data Change : Type 0 where
  joins : ℕ → ℕ → Change
  leaves : ℕ → Change

abbrev after_remove : Publisher → Option Publisher → Publisher
after_remove p none = p
after_remove p (some p') = p'

abbrev pub change : Change → Publisher → Publisher
change (joins spare x) p = add spare x p
change (leaves x) p = after_remove p (remove x p)

unfoldable pub changes : List Change → Publisher → Publisher
changes [] p = p
changes (c ∷ cs) p = changes cs (change c p)

abbrev or_same : List ℕ → Option (List ℕ) → List ℕ
or_same subs none = subs
or_same subs (some rest) = rest

-- The same on the list of subscribers.
abbrev pub list_change : Change → List ℕ → List ℕ
list_change (joins spare x) subs = subs ++ x ∷ []
list_change (leaves x) subs = or_same subs (without x subs)

unfoldable pub list_changes : List Change → List ℕ → List ℕ
list_changes [] subs = subs
list_changes (c ∷ cs) subs = list_changes cs (list_change c subs)

subscribers-after_remove :
    (p : Publisher) (o : Option Publisher)
    → subscribers (after_remove p o) ≡ or_same (subscribers p) (slice_of o)
subscribers-after_remove p none = refl
subscribers-after_remove p (some p') = refl

change-list_change :
    (c : Change) (p : Publisher) → Fits p → subscribers (change c p) ≡ list_change c (subscribers p)
change-list_change (joins spare x) p fits = add-append spare x p fits
change-list_change (leaves x) p fits =
    subscribers-after_remove p (remove x p) ∙ ap (or_same (subscribers p)) (remove-without x p fits)

add-Fits : (spare x : ℕ) (p : Publisher) → Fits p → Fits (add spare x p)
unfolding add
add-Fits spare x p fits = elim (Bool-cases (ltb p.used (length p.cells))) [
  | inl h ↦ rw h (omega (arith, length-set p.cells p.used x, ltb→lt _ _ h))
  | inr h ↦ rw h (
      omega (
        arith,
        length-append (take p.used p.cells) (x ∷ replicate spare 0),
        length-take p.used p.cells fits,
      ))
]

less_one-le : (n m : ℕ) → n ≤ m → less_one n ≤ m
less_one-le zero m h = omega arith
less_one-le (suc n) m h = omega arith

remove_at-Fits : (p : Publisher) (o : Option ℕ) → Fits p → Fits (after_remove p (remove_at p o))
remove_at-Fits p none fits = fits
remove_at-Fits p (some i) fits =
    less_one-le p.used _ (omega (arith, fits, length-close_gap i p.used p.cells))

change-Fits : (c : Change) (p : Publisher) → Fits p → Fits (change c p)
unfolding remove
change-Fits (joins spare x) p fits = add-Fits spare x p fits
change-Fits (leaves x) p fits = remove_at-Fits p (subscriber_index x (subscribers p)) fits

changes-list_changes_from :
    (cs : List Change) (p : Publisher)
    → Fits p
    → subscribers (changes cs p) ≡ list_changes cs (subscribers p)
unfolding changes list_changes
changes-list_changes_from [] p fits = refl
changes-list_changes_from (c ∷ cs) p fits =
    changes-list_changes_from cs (change c p) (change-Fits c p fits)
    ∙ ap (list_changes cs) (change-list_change c p fits)

-- After any changes, from an empty publisher on and with any growth of the array, the slice holds the
-- subscribers that joined and have not left, in the order in which they joined.
pub changes-list_changes :
    (cs : List Change) → subscribers (changes cs new_publisher) ≡ list_changes cs []
changes-list_changes cs = changes-list_changes_from cs new_publisher (omega arith)
