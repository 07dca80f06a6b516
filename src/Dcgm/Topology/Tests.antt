-- ===== src/Dcgm/Topology/Tests.antt =====
-- pkg/dcgm/topology.go on some paths.
use gpu_metric_collector.Base.{◌≡◌, refl}
use gpu_metric_collector.Dcgm.Topology.{
  get_p2p_link, pci_paths, p2p_link_same_cpu, two_nvlink_links,
}

cpu_path : get_p2p_link 0x10 ≡ p2p_link_same_cpu
unfolding get_p2p_link
cpu_path = refl

nvlink_path : get_p2p_link 0x200 ≡ two_nvlink_links
unfolding get_p2p_link
nvlink_path = refl

-- The header's own instance: DCGM_TOPOLOGY_CPU | DCGM_TOPOLOGY_NVLINK2.
mixed_path : pci_paths (get_p2p_link 0x210) ≡ "N/A"
unfolding get_p2p_link
mixed_path = refl
