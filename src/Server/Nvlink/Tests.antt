-- ===== src/Server/Nvlink/Tests.antt =====
-- `GetNvlinkInfo` on three GPUs.
use gpu_metric_collector.Base.{
  ℕ, ◌≡◌, refl, String, List, [], ◌∷◌, Option, none, some, if◌then◌else◌,
}
use gpu_metric_collector.Base.Int.{pos}
use gpu_metric_collector.Base.Text.{Text, text_eq, bytes_of}
use gpu_metric_collector.Grpcs.{NvLink}
use gpu_metric_collector.Server.Nvlink.{
  P2pDevice, lanes_of, set_lanes, scan_lane, scan_lanes, nvlinks, get_nvlink_info,
}
use gpu_metric_collector.Server.Nvlink.Counts.{
  lane_count, first_lane, reported, scan_lanes-reported,
}

abbrev device_at : Text → Option P2pDevice
device_at bus =
    if text_eq bus (bytes_of "00")
    then some (record { index = 0; uuid = bytes_of "G0"; device_type = 0 })
    else if text_eq bus (bytes_of "01")
    then some (record { index = 1; uuid = bytes_of "G1"; device_type = 0 })
    else if text_eq bus (bytes_of "02")
    then some (record { index = 2; uuid = bytes_of "G2"; device_type = 0 })
    else none

abbrev link : String → String → ℕ → NvLink
link from to count = record {
  gpu1_uuid = bytes_of from;
  gpu2_uuid = bytes_of to;
  count_link = pos count;
}

-- GPU 1 and GPU 2 are joined by two lanes: the pair is listed from both sides.
twice :
    get_nvlink_info device_at
      ((bytes_of "G1", bytes_of "02" ∷ bytes_of "02" ∷ [])
        ∷ (bytes_of "G2", bytes_of "01" ∷ bytes_of "01" ∷ [])
        ∷ [])
      []
    ≡ link "G1" "G2" 2 ∷ link "G2" "G1" 2 ∷ []
unfolding get_nvlink_info nvlinks scan_lanes scan_lane lanes_of set_lanes text_eq
twice = refl

-- GPU 0 reaches GPU 2 by its first lanes and GPU 1 by later ones: GPU 1 is left out.
left_out :
    nvlinks device_at
      (bytes_of "G0")
      (bytes_of "02" ∷ bytes_of "02" ∷ bytes_of "01" ∷ bytes_of "01" ∷ [])
    ≡ link "G0" "G2" 2 ∷ []
unfolding nvlinks scan_lanes scan_lane lanes_of set_lanes text_eq
left_out = refl

abbrev buses : List Text
buses = bytes_of "02" ∷ bytes_of "01" ∷ bytes_of "02" ∷ []

scan_lanes-reported_example :
    lanes_of
      (bytes_of "02")
      (scan_lanes device_at 0 buses (record { uuid = bytes_of "G0"; p2p = []; lanes = [] })).lanes
    ≡ reported 0
        (first_lane (bytes_of "02") buses)
        (device_at (bytes_of "02"))
        (lane_count (bytes_of "02") buses)
scan_lanes-reported_example = scan_lanes-reported device_at (bytes_of "02") (bytes_of "G0") buses
