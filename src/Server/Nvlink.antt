-- ===== src/Server/Nvlink.antt =====
-- `GetNvlinkInfo` of cmd/main.go: which GPUs a GPU is joined to by NvLink, and by how many lanes.
use gpu_metric_collector.Base.{
  ℕ, zero, suc, ◌≡◌, Bool, List, [], ◌∷◌, ◌++◌, map, Option, none, some, ltb, if◌then◌else◌,
}
use gpu_metric_collector.Base.Int.{ℤ, pos}
use gpu_metric_collector.Base.Text.{Text, text_eq}
use gpu_metric_collector.Grpcs.{NvLink}
pub mod Lanes
pub mod Counts
mod Tests

-- What the driver says of the device at the other end.
pub record P2pDevice : Type 0 where
  pub index : ℕ
  pub uuid : Text
  pub device_type : ℕ

pub record NvlinkStatus : Type 0 where
  pub uuid : Text
  pub p2p : List (Text × P2pDevice)
  pub lanes : List (Text × ℕ)

-- The map `Lanes`.
unfoldable pub lanes_of : Text → List (Text × ℕ) → Option ℕ
lanes_of bus [] = none
lanes_of bus ((key, val) ∷ rest) =
    let later = lanes_of bus rest in if text_eq key bus then some val else later

unfoldable pub set_lanes : Text → ℕ → List (Text × ℕ) → List (Text × ℕ)
set_lanes bus val [] = (bus, val) ∷ []
set_lanes bus val ((key, old) ∷ rest) =
    let later = set_lanes bus val rest in
    if text_eq key bus then (key, val) ∷ rest else (key, old) ∷ later

-- `DeviceGetHandleByPciBusId`, and the queries on the handle.
module _ (device_by_bus : Text → Option P2pDevice) where
  abbrev pub new_lane : ℕ → Text → Option P2pDevice → NvlinkStatus → NvlinkStatus
  new_lane j bus none s = s
  new_lane j bus (some d) s =
      if ltb j d.index
      then record s { p2p = s.p2p ++ (bus, d) ∷ []; lanes = set_lanes bus 1 s.lanes }
      else s

  abbrev pub count_lane : ℕ → Text → Option ℕ → NvlinkStatus → NvlinkStatus
  count_lane j bus none s = new_lane j bus (device_by_bus bus) s
  count_lane j bus (some val) s = record s { lanes = set_lanes bus (suc val) s.lanes }

  -- One turn of the loop over the lanes: lane `j` leads to the bus.
  unfoldable pub scan_lane : ℕ → Text → NvlinkStatus → NvlinkStatus
  scan_lane j bus s = count_lane j bus (lanes_of bus s.lanes) s

  -- The lanes from `j` on, up to the first that the driver knows nothing of.
  unfoldable pub scan_lanes : ℕ → List Text → NvlinkStatus → NvlinkStatus
  scan_lanes j [] s = s
  scan_lanes j (bus ∷ buses) s = scan_lanes (suc j) buses (scan_lane j bus s)

  abbrev pub lanes_or_zero : Option ℕ → ℕ
  lanes_or_zero none = 0
  lanes_or_zero (some val) = val

  -- The links of one GPU, from the buses that its lanes lead to.
  unfoldable pub nvlinks : Text → List Text → List NvLink
  nvlinks uuid buses =
      let s = scan_lanes 0 buses (record { uuid = uuid; p2p = []; lanes = [] }) in
      map
        (λ entry. record {
          gpu1_uuid = uuid;
          gpu2_uuid = (entry.1).uuid;
          count_link = pos (lanes_or_zero (lanes_of entry.0 s.lanes));
        })
        s.p2p

  -- The node's links, from the uuid and the lanes of each GPU.
  unfoldable pub get_nvlink_info : List (Text × List Text) → List NvLink → List NvLink
  get_nvlink_info [] found = found
  get_nvlink_info ((uuid, buses) ∷ gpus) found = get_nvlink_info gpus (found ++ nvlinks uuid buses)
