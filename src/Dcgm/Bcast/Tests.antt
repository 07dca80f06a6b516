-- ===== src/Dcgm/Bcast/Tests.antt =====
-- pkg/dcgm/bcast.go with a few subscribers.
use gpu_metric_collector.Base.{◌≡◌, refl, arith, List, [], ◌∷◌, ◌++◌, take, drop, some}
use gpu_metric_collector.Dcgm.Bcast.{
  Publisher, subscribers, new_publisher, add, remove, subscriber_index, less_one, begin_round,
  serve_next, deliveries, remove_meanwhile, close_gap, move_down,
}
use gpu_metric_collector.Dcgm.Bcast.Changes.{
  Change, joins, leaves, changes, list_changes, changes-list_changes,
}
use gpu_metric_collector.Dcgm.Bcast.Walks.{deliveries-remove_meanwhile}

abbrev busy : List Change
busy = joins 2 10 ∷ joins 0 11 ∷ leaves 10 ∷ joins 0 12 ∷ leaves 99 ∷ []

two_left : subscribers (changes busy new_publisher) ≡ 11 ∷ 12 ∷ []
unfolding changes add remove subscriber_index close_gap move_down
two_left = refl

changes-list_changes_example : subscribers (changes busy new_publisher) ≡ list_changes busy []
changes-list_changes_example = changes-list_changes busy

abbrev four : Publisher
four = record { cells = 10 ∷ 11 ∷ 12 ∷ 13 ∷ []; used = 4 }

first_index : subscriber_index 10 (subscribers four) ≡ some 0
unfolding subscriber_index
first_index = refl

-- The first subscriber leaves after its turn: the second is passed over, the fourth served twice.
served :
    (deliveries 3 (remove_meanwhile 10 (deliveries 1 (begin_round four)))).sent
    ≡ 10 ∷ 12 ∷ 13 ∷ 13 ∷ []
unfolding deliveries serve_next remove subscriber_index close_gap move_down
served = refl

deliveries-remove_meanwhile_example :
    (deliveries 3 (remove_meanwhile 10 (deliveries 1 (begin_round four)))).sent
    ≡ take 1 (subscribers four)
      ++ (drop 2 (subscribers four) ++ drop (less_one 4) (subscribers four))
deliveries-remove_meanwhile_example =
    deliveries-remove_meanwhile four 10 0 1 3 (omega arith) first_index (omega arith) refl
      (omega arith)
