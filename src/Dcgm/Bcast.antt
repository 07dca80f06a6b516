-- ===== src/Dcgm/Bcast.antt =====
-- pkg/dcgm/bcast.go: the subscribers of a publisher, as the Go slice that holds them. The loop of
-- `broadcast` walks over a slice that it took under the lock, but reads the elements after it has
-- let the lock go, from the array that `add` and `remove` write to.
use gpu_metric_collector.Base.{
  ℕ, zero, suc, ◌+◌, ◌-◌, ◌*◌, ◌≡◌, List, [], ◌∷◌, ◌++◌, Bool, length, take, drop, set, replicate,
  ltb, ◌==◌, if◌then◌else◌, Option, none, some, get_elem?,
}
pub mod Slices
pub mod Changes
pub mod Walks
mod Tests

-- A subscriber is the number of its object. The array behind the slice, and the slice's length.
pub record Publisher : Type 0 where
  pub cells : List ℕ
  pub used : ℕ

abbrev pub subscribers : Publisher → List ℕ
subscribers p = take p.used p.cells

abbrev pub new_publisher : Publisher
new_publisher = record { cells = []; used = 0 }

-- `append(p.subscribers, newSub)`: in place where the array has room, else in a copy with room for
-- `spare` more, which Go chooses.
unfoldable pub add : ℕ → ℕ → Publisher → Publisher
add spare new_sub p =
    if ltb p.used (length p.cells)
    then record { cells = set p.cells p.used new_sub; used = suc p.used }
    else record { cells = take p.used p.cells ++ new_sub ∷ replicate spare 0; used = suc p.used }

-- The loop of `remove` that looks for the subscriber.
unfoldable pub subscriber_index : ℕ → List ℕ → Option ℕ
subscriber_index leaving [] = none
subscriber_index leaving (sub ∷ subs) =
    let later = subscriber_index leaving subs in
    if sub == leaving then some 0 else elim later [ none ↦ none | some i ↦ some (suc i) ]

-- Copies each of the next `count` elements to the place before it.
unfoldable pub move_down : ℕ → List ℕ → List ℕ
move_down zero cells = cells
move_down (suc count) [] = []
move_down (suc count) (x ∷ []) = x ∷ []
move_down (suc count) (x ∷ y ∷ rest) = y ∷ move_down count (y ∷ rest)

abbrev pub less_one : ℕ → ℕ
less_one zero = zero
less_one (suc n) = n

-- `append(s[:i], s[i+1:]...)` for a slice of `n` elements: it writes to the array in place.
unfoldable pub close_gap : ℕ → ℕ → List ℕ → List ℕ
close_gap zero n cells = move_down (less_one n) cells
close_gap (suc i) n [] = []
close_gap (suc i) n (x ∷ cells) = x ∷ close_gap i (less_one n) cells

-- What `remove` does with the index; none is its error.
abbrev pub remove_at : Publisher → Option ℕ → Option Publisher
remove_at p none = none
remove_at p (some i) = some (record { cells = close_gap i p.used p.cells; used = less_one p.used })

unfoldable pub remove : ℕ → Publisher → Option Publisher
remove leaving p = remove_at p (subscriber_index leaving (subscribers p))

-- The array that the loop of `broadcast` reads: the publisher's, or an older one that `add` has
-- replaced.
pub data Source : Type 0 where
  shared : Source
  kept : List ℕ → Source

-- One message on its way: the publisher, the loop's slice and position, and the subscribers served.
pub record BroadcastRound : Type 0 where
  pub publisher : Publisher
  pub source : Source
  pub len : ℕ
  pub position : ℕ
  pub sent : List ℕ

-- `subscriberList` at the arrival of a message.
abbrev pub begin_round : Publisher → BroadcastRound
begin_round p = record { publisher = p; source = shared; len = p.used; position = 0; sent = [] }

abbrev pub read_cells : BroadcastRound → Source → List ℕ
read_cells r shared = (r.publisher).cells
read_cells r (kept cells) = cells

abbrev pub serve : BroadcastRound → Option ℕ → BroadcastRound
serve r none = r
serve r (some sub) = record r { position = suc r.position; sent = r.sent ++ sub ∷ [] }

-- One turn of the loop.
unfoldable pub serve_next : BroadcastRound → BroadcastRound
serve_next r =
    if ltb r.position r.len then serve r (get_elem? (read_cells r r.source) r.position) else r

-- Some turns of the loop.
unfoldable pub deliveries : ℕ → BroadcastRound → BroadcastRound
deliveries zero r = r
deliveries (suc n) r = deliveries n (serve_next r)

abbrev pub left : BroadcastRound → Option Publisher → BroadcastRound
left r none = r
left r (some p) = record r { publisher = p }

-- A `remove` by another goroutine between two turns.
abbrev pub remove_meanwhile : ℕ → BroadcastRound → BroadcastRound
remove_meanwhile leaving r = left r (remove leaving r.publisher)
