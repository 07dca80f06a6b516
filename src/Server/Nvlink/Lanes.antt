-- ===== src/Server/Nvlink/Lanes.antt =====
-- How many lanes `GetNvlinkInfo` counts to each bus.
use gpu_metric_collector.Base.{
  ℕ, suc, ◌≡◌, refl, ap, sym, subst, ◌∙◌, false, List, [], ◌∷◌, Option, none, some, ltb,
  if◌then◌else◌, Bool-cases, inl, inr,
}
use gpu_metric_collector.Base.Text.{Text, text_eq, text_eq→eq, text_eq_refl}
use gpu_metric_collector.Server.Nvlink.{
  P2pDevice, NvlinkStatus, lanes_of, set_lanes, new_lane, count_lane, scan_lane, scan_lanes,
}

lanes_of-set_lanes :
    (bus : Text) (val : ℕ) (lanes : List (Text × ℕ))
    → lanes_of bus (set_lanes bus val lanes) ≡ some val
unfolding lanes_of set_lanes
lanes_of-set_lanes bus val [] = rw (text_eq_refl bus) refl
lanes_of-set_lanes bus val ((key, old) ∷ rest) = elim (Bool-cases (text_eq key bus)) [
  | inl h ↦ rw (h, h) refl
  | inr h ↦ rw (h, h, lanes_of-set_lanes bus val rest) refl
]

lanes_of-set_lanes_other :
    (bus other : Text) (val : ℕ) (lanes : List (Text × ℕ))
    → text_eq other bus ≡ false
    → lanes_of bus (set_lanes other val lanes) ≡ lanes_of bus lanes
unfolding lanes_of set_lanes
lanes_of-set_lanes_other bus other val [] h = rw h refl
lanes_of-set_lanes_other bus other val ((key, old) ∷ rest) h =
    elim (Bool-cases (text_eq key other)) [
      | inl e ↦ rw (e, subst (λ t. text_eq t bus ≡ false) (sym (text_eq→eq key other e)) h) refl
      | inr e ↦ rw (e, lanes_of-set_lanes_other bus other val rest h) refl
    ]

module _ (device_by_bus : Text → Option P2pDevice) where
  -- A first lane to a bus is counted where the index of the device there is above the lane.
  abbrev pub started : ℕ → Option P2pDevice → Option ℕ
  started j none = none
  started j (some d) = if ltb j d.index then some 1 else none

  abbrev pub bumped : ℕ → Text → Option ℕ → Option ℕ
  bumped j bus none = started j (device_by_bus bus)
  bumped j bus (some val) = some (suc val)

  -- The count for one bus over the lanes, from the count so far on.
  unfoldable pub tally : ℕ → Text → List Text → Option ℕ → Option ℕ
  tally j bus [] count = count
  tally j bus (b ∷ buses) count =
      tally (suc j) bus buses (if text_eq b bus then bumped j bus count else count)

  lanes_of-new_lane :
      (j : ℕ) (bus : Text) (o : Option P2pDevice) (s : NvlinkStatus)
      → lanes_of bus s.lanes ≡ none
      → lanes_of bus (new_lane device_by_bus j bus o s).lanes ≡ started j o
  lanes_of-new_lane j bus none s h = h
  lanes_of-new_lane j bus (some d) s h = elim (Bool-cases (ltb j d.index)) [
    | inl e ↦ rw e (lanes_of-set_lanes bus 1 s.lanes)
    | inr e ↦ rw e h
  ]

  lanes_of-count_lane :
      (j : ℕ) (bus : Text) (o : Option ℕ) (s : NvlinkStatus)
      → lanes_of bus s.lanes ≡ o
      → lanes_of bus (count_lane device_by_bus j bus o s).lanes ≡ bumped j bus o
  lanes_of-count_lane j bus none s h = lanes_of-new_lane j bus (device_by_bus bus) s h
  lanes_of-count_lane j bus (some val) s h = lanes_of-set_lanes bus (suc val) s.lanes

  lanes_of-new_lane_other :
      (j : ℕ) (bus b : Text) (o : Option P2pDevice) (s : NvlinkStatus)
      → text_eq b bus ≡ false
      → lanes_of bus (new_lane device_by_bus j b o s).lanes ≡ lanes_of bus s.lanes
  lanes_of-new_lane_other j bus b none s h = refl
  lanes_of-new_lane_other j bus b (some d) s h = elim (Bool-cases (ltb j d.index)) [
    | inl e ↦ rw e (lanes_of-set_lanes_other bus b 1 s.lanes h)
    | inr e ↦ rw e refl
  ]

  lanes_of-count_lane_other :
      (j : ℕ) (bus b : Text) (o : Option ℕ) (s : NvlinkStatus)
      → text_eq b bus ≡ false
      → lanes_of bus (count_lane device_by_bus j b o s).lanes ≡ lanes_of bus s.lanes
  lanes_of-count_lane_other j bus b none s h = lanes_of-new_lane_other j bus b (device_by_bus b) s h
  lanes_of-count_lane_other j bus b (some val) s h =
      lanes_of-set_lanes_other bus b (suc val) s.lanes h

  lanes_of-scan_lane :
      (j : ℕ) (bus b : Text) (s : NvlinkStatus)
      → lanes_of bus (scan_lane device_by_bus j b s).lanes
        ≡ (if text_eq b bus then bumped j bus (lanes_of bus s.lanes) else lanes_of bus s.lanes)
  unfolding scan_lane
  lanes_of-scan_lane j bus b s = elim (Bool-cases (text_eq b bus)) [
    | inl h ↦ rw (h, text_eq→eq b bus h) (lanes_of-count_lane j bus (lanes_of bus s.lanes) s refl)
    | inr h ↦ rw h (lanes_of-count_lane_other j bus b (lanes_of b s.lanes) s h)
  ]

  pub lanes_of-scan_lanes :
      (j : ℕ) (bus : Text) (buses : List Text) (s : NvlinkStatus)
      → lanes_of bus (scan_lanes device_by_bus j buses s).lanes
        ≡ tally j bus buses (lanes_of bus s.lanes)
  unfolding scan_lanes tally
  lanes_of-scan_lanes j bus [] s = refl
  lanes_of-scan_lanes j bus (b ∷ buses) s =
      lanes_of-scan_lanes (suc j) bus buses (scan_lane device_by_bus j b s)
      ∙ ap (tally (suc j) bus buses) (lanes_of-scan_lane j bus b s)
