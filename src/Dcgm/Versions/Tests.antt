-- ===== src/Dcgm/Versions/Tests.antt =====
-- The version words and layouts of some structs.
use gpu_metric_collector.Base.{◌≡◌, ◌≢◌, ◌⊎◌, refl, some}
use gpu_metric_collector.Dcgm.Layout.{size_of, align_of, slots, slot_of, round_up, four, find_slot}
use gpu_metric_collector.Dcgm.Structs.Groups.{dcgm_connect_v2_params_v2}
use gpu_metric_collector.Dcgm.Structs.Policy.{dcgm_field_value_v1}
use gpu_metric_collector.Dcgm.Structs.Diagnostics.{dcgm_device_topology_v1}
use gpu_metric_collector.Dcgm.Versions.{word}
use gpu_metric_collector.Dcgm.Versions.Calls.{
  connect_standalone, device_topology, policy, written, declared, written-declared,
}

field_value_size : size_of dcgm_field_value_v1 ≡ 4120
unfolding size_of align_of round_up
field_value_size = refl

-- Eight 64-bit words hold the affinity mask, at offset 8.
topology_size : size_of dcgm_device_topology_v1 ≡ 448
unfolding size_of align_of round_up
topology_size = refl

unix_socket_slot :
    slot_of "addressIsUnixSocket" dcgm_connect_v2_params_v2
    ≡ some (record { name = "addressIsUnixSocket"; start = 12; width = 4; alignment = four })
unfolding find_slot slots size_of align_of round_up
unix_socket_slot = refl

written-declared_example :
    ((policy ≡ connect_standalone) ⊎ (policy ≡ device_topology))
      × (written policy ≢ word (declared policy))
    ⊎ (written policy ≡ word (declared policy))
written-declared_example = written-declared policy
