-- ===== src/Server/Nvlink/Counts.antt =====
-- The counts of `GetNvlinkInfo` against the lanes that lead to a bus.
use gpu_metric_collector.Base.{
  ℕ, suc, ◌+◌, ◌≤◌, ◌≡◌, refl, ap, ◌∙◌, false, List, [], ◌∷◌, Option, none, some, ltb,
  if◌then◌else◌, arith, Bool-cases, inl, inr,
}
use native.Mathlib.Nat.{add-zero}
use gpu_metric_collector.Base.Text.{Text, text_eq}
use gpu_metric_collector.Server.Nvlink.{P2pDevice, lanes_of, scan_lanes}
use gpu_metric_collector.Server.Nvlink.Lanes.{started, tally, lanes_of-scan_lanes}

-- The number of lanes to a bus, and the first of them.
unfoldable pub lane_count : Text → List Text → ℕ
lane_count bus [] = 0
lane_count bus (b ∷ buses) =
    let rest = lane_count bus buses in if text_eq b bus then suc rest else rest

abbrev next_lane : Option ℕ → Option ℕ
next_lane none = none
next_lane (some lane) = some (suc lane)

unfoldable pub first_lane : Text → List Text → Option ℕ
first_lane bus [] = none
first_lane bus (b ∷ buses) =
    let rest = first_lane bus buses in if text_eq b bus then some 0 else next_lane rest

-- What should be counted from lane `j` on, given the first lane from there, the device and the number
-- of lanes.
abbrev pub reported : ℕ → Option ℕ → Option P2pDevice → ℕ → Option ℕ
reported j none device count = none
reported j (some lane) none count = none
reported j (some lane) (some d) count = if ltb (j + lane) d.index then some count else none

not_above : (j k index : ℕ) → ltb j index ≡ false → j ≤ k → ltb k index ≡ false
not_above j k index h le = ground arith

reported-next :
    (j : ℕ) (o : Option ℕ) (d : Option P2pDevice) (n : ℕ)
    → reported (suc j) o d n ≡ reported j (next_lane o) d n
reported-next j none d n = refl
reported-next j (some lane) none n = refl
reported-next j (some lane) (some d) n =
    ap (λ k. if ltb k d.index then some n else none) (omega arith)

module _ (device_by_bus : Text → Option P2pDevice) (bus : Text) where
  tally-some :
      (j : ℕ) (buses : List Text) (val : ℕ)
      → tally device_by_bus j bus buses (some val) ≡ some (val + lane_count bus buses)
  unfolding tally lane_count
  tally-some j [] val = ap some (omega arith)
  tally-some j (b ∷ buses) val = elim (Bool-cases (text_eq b bus)) [
    | inl h ↦ rw h (tally-some (suc j) buses (suc val) ∙ ap some (omega arith))
    | inr h ↦ rw h (tally-some (suc j) buses val)
  ]

  -- Where no lane from `j` on can start a count, none is started.
  tally-none :
      (j : ℕ) (buses : List Text)
      → ((k : ℕ) → j ≤ k → started device_by_bus k (device_by_bus bus) ≡ none)
      → tally device_by_bus j bus buses none ≡ none
  unfolding tally
  tally-none j [] low = refl
  tally-none j (b ∷ buses) low =
      let rest = tally-none (suc j) buses (λ k le. low k (omega arith)) in
      elim (Bool-cases (text_eq b bus)) [
        | inl h ↦ rw (h, low j (omega arith)) rest
        | inr h ↦ rw h rest
      ]

  tally-started :
      (j : ℕ) (buses : List Text) (o : Option P2pDevice)
      → device_by_bus bus ≡ o
      → tally device_by_bus (suc j) bus buses (started device_by_bus j o)
        ≡ reported j (some 0) o (suc (lane_count bus buses))
  tally-started j buses none h = tally-none (suc j) buses (λ k le. rw h refl)
  tally-started j buses (some d) h = elim (Bool-cases (ltb j d.index)) [
    | inl e ↦ rw (add-zero j, e) (tally-some (suc j) buses 1 ∙ ap some (omega arith))
    | inr e ↦
        rw (add-zero j, e)
          (tally-none (suc j) buses (λ k le. rw (h, not_above j k d.index e (omega arith)) refl))
  ]

  tally-reported :
      (j : ℕ) (buses : List Text)
      → tally device_by_bus j bus buses none
        ≡ reported j (first_lane bus buses) (device_by_bus bus) (lane_count bus buses)
  unfolding tally first_lane lane_count
  tally-reported j [] = refl
  tally-reported j (b ∷ buses) = elim (Bool-cases (text_eq b bus)) [
    | inl h ↦ rw h (tally-started j buses (device_by_bus bus) refl)
    | inr h ↦ rw h (
        tally-reported (suc j) buses
        ∙ reported-next j (first_lane bus buses) (device_by_bus bus) (lane_count bus buses))
  ]

  -- After the loop over a GPU's lanes a bus has a count exactly if some lane leads to it and its
  -- device's index is above the first such lane; the count is then the number of lanes that lead to it.
  pub scan_lanes-reported :
      (uuid : Text) (buses : List Text)
      → lanes_of bus
          (scan_lanes device_by_bus 0 buses (record { uuid = uuid; p2p = []; lanes = [] })).lanes
        ≡ reported 0 (first_lane bus buses) (device_by_bus bus) (lane_count bus buses)
  unfolding lanes_of
  scan_lanes-reported uuid buses =
      lanes_of-scan_lanes device_by_bus 0 bus buses _ ∙ tally-reported 0 buses
