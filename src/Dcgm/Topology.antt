-- ===== src/Dcgm/Topology.antt =====
-- pkg/dcgm/topology.go: the kind of each path between GPUs.
use gpu_metric_collector.Base.{
  ℕ, ◌/◌, ◌%◌, ◌≤◌, ◌≡◌, ◌≢◌, refl, none, some, String, List, [], map, take, length, ◌==◌,
  if◌then◌else◌, arith, Outcome, ok, ◌>>=◌, collect, collect-take,
}
use gpu_metric_collector.Dcgm.Returns.{
  DcgmReturn, dcgm_st_ok, dcgm_st_not_supported, error_string, Answered, answer, failed,
}
use gpu_metric_collector.Base.Text.{Text}
mod Tests

pub data P2pLinkType : Type 0 where
  p2p_link_unknown p2p_link_cross_cpu p2p_link_same_cpu p2p_link_host_bridge : P2pLinkType
  p2p_link_multi_switch p2p_link_single_switch p2p_link_same_board : P2pLinkType
  single_nvlink_link two_nvlink_links three_nvlink_links four_nvlink_links : P2pLinkType

abbrev pub pci_paths : P2pLinkType → String
pci_paths p2p_link_same_board = "PSB"
pci_paths p2p_link_single_switch = "PIX"
pci_paths p2p_link_multi_switch = "PXB"
pci_paths p2p_link_host_bridge = "PHB"
pci_paths p2p_link_same_cpu = "NODE"
pci_paths p2p_link_cross_cpu = "SYS"
pci_paths single_nvlink_link = "NV1"
pci_paths two_nvlink_links = "NV2"
pci_paths three_nvlink_links = "NV3"
pci_paths four_nvlink_links = "NV4"
pci_paths p2p_link_unknown = "N/A"

-- The cases are the numbers of DCGM_TOPOLOGY_BOARD, _SINGLE, _MULTIPLE, _HOSTBRIDGE, _CPU, _SYSTEM
-- and _NVLINK1 to _NVLINK4.
unfoldable pub get_p2p_link : ℕ → P2pLinkType
get_p2p_link path =
    if path == 0x1
    then p2p_link_same_board
    else if path == 0x2
    then p2p_link_single_switch
    else if path == 0x4
    then p2p_link_multi_switch
    else if path == 0x8
    then p2p_link_host_bridge
    else if path == 0x10
    then p2p_link_same_cpu
    else if path == 0x20
    then p2p_link_cross_cpu
    else if path == 0x100
    then single_nvlink_link
    else if path == 0x200
    then two_nvlink_links
    else if path == 0x400
    then three_nvlink_links
    else if path == 0x800
    then four_nvlink_links
    else p2p_link_unknown

-- An entry of `gpuPaths` in dcgmDeviceTopology_v1.
pub record GpuPath : Type 0 where
  pub gpu_id : ℕ
  pub path : ℕ
  pub local_nvlink_ids : ℕ

pub record P2pLink : Type 0 where
  pub gpu : ℕ
  pub bus_id : Text
  pub link : P2pLinkType

-- What the library answers to the two queries.
pub record TopologyAnswer : Type 0 where
  pub result : DcgmReturn
  pub num_gpus : ℕ
  pub gpu_paths : List GpuPath
  pub attributes_result : DcgmReturn
  pub pci_bus_id : Text

abbrev pub to_link : Text → GpuPath → P2pLink
to_link busid p = record { gpu = p.gpu_id; bus_id = busid; link = get_p2p_link p.path }

abbrev pub get_busid : TopologyAnswer → Answered Text
get_busid a = elim (error_string a.attributes_result) [
  | none ↦ answer a.pci_bus_id
  | some code ↦ failed code
]

-- The loop over `gpuPaths`, once the bus is known.
abbrev pub topology_links : TopologyAnswer → Answered Text → Outcome (Answered (List P2pLink))
topology_links a (failed code) = ok (failed code)
topology_links a (answer busid) =
    collect (to_link busid) a.gpu_paths 0 a.num_gpus >>= λ found. ok (answer found)

abbrev pub topology_result : TopologyAnswer → DcgmReturn → Outcome (Answered (List P2pLink))
topology_result a dcgm_st_not_supported = ok (answer [])
topology_result a dcgm_st_ok = topology_links a (get_busid a)
topology_result a code = ok (failed code)

unfoldable pub get_device_topology : TopologyAnswer → Outcome (Answered (List P2pLink))
get_device_topology a = topology_result a a.result

-- A path that crosses both PCIe, in its low eight bits, and NvLink, above them, has no name.
pub get_p2p_link-both :
    (path : ℕ) → path % 256 ≢ 0 → path / 256 ≢ 0 → pci_paths (get_p2p_link path) ≡ "N/A"
unfolding get_p2p_link
get_p2p_link-both path low high = ground arith

-- Where both queries succeed and the count is one that the array holds, each path becomes a link.
pub get_device_topology_lem :
    (a : TopologyAnswer)
    → a.result ≡ dcgm_st_ok
    → a.attributes_result ≡ dcgm_st_ok
    → a.num_gpus ≤ length a.gpu_paths
    → get_device_topology a ≡ ok (answer (map (to_link a.pci_bus_id) (take a.num_gpus a.gpu_paths)))
unfolding get_device_topology
get_device_topology_lem a h g le =
    rw (h, g, collect-take (to_link a.pci_bus_id) a.gpu_paths a.num_gpus le) refl
