-- ===== src/Dcgm/Versions/Calls.antt =====
-- The version words that pkg/dcgm writes into the structs that it passes to the DCGM library,
-- against the words that internal/include/dcgm_structs.h declares for these structs.
use gpu_metric_collector.Base.{ℕ, ◌≡◌, ◌≢◌, refl, ◌⊎◌, inl, inr, arith}
use gpu_metric_collector.Dcgm.Layout.{size_of, round_up, align_of}
use gpu_metric_collector.Dcgm.Structs.Groups.{dcgm_connect_v2_params_t, dcgm_mig_hierarchy_v2}
use gpu_metric_collector.Dcgm.Structs.Vgpu.{dcgm_device_attributes_t}
use gpu_metric_collector.Dcgm.Structs.Policy.{dcgm_policy_t}
use gpu_metric_collector.Dcgm.Structs.Statistics.{dcgm_health_response_v4, dcgm_pid_info_t}
use gpu_metric_collector.Dcgm.Structs.Diagnostics.{dcgm_device_topology_t}
use gpu_metric_collector.Dcgm.Structs.Introspection.{
  dcgm_introspect_memory_t, dcgm_introspect_cpu_util_t,
}
use gpu_metric_collector.Dcgm.Structs.Links.{dcgm_prof_get_metric_groups_t, dcgm_version_info_t}
use gpu_metric_collector.Dcgm.Versions.{
  Version, word, make_dcgm_version, make_version_1, make_version_2, make_version_4,
}
use gpu_metric_collector.Dcgm.Versions.Devices.{
  dcgm_connect_v2_params_version2, dcgm_device_attributes_version2, dcgm_mig_hierarchy_version2,
}
use gpu_metric_collector.Dcgm.Versions.Services.{
  dcgm_policy_version1, dcgm_health_response_version4, dcgm_pid_info_version2,
  dcgm_device_topology_version1, dcgm_introspect_memory_version1, dcgm_introspect_cpu_util_version1,
  dcgm_prof_get_metric_groups_version2, dcgm_version_info_version2,
}
use gpu_metric_collector.Dcgm.Versions.Words.{
  make_version_1-agrees, make_version_2-agrees, make_version_4-agrees,
}

-- What each call writes.
abbrev pub connect_standalone_word : ℕ
connect_standalone_word = make_version_1 (size_of dcgm_connect_v2_params_t)

abbrev pub start_hostengine_word : ℕ
start_hostengine_word = make_version_2 (size_of dcgm_connect_v2_params_t)

abbrev pub hostengine_version_info_word : ℕ
hostengine_version_info_word = make_version_2 (size_of dcgm_version_info_t)

abbrev pub library_version_info_word : ℕ
library_version_info_word = make_version_2 (size_of dcgm_version_info_t)

abbrev pub device_info_word : ℕ
device_info_word = make_version_2 (size_of dcgm_device_attributes_t)

abbrev pub busid_word : ℕ
busid_word = make_version_2 (size_of dcgm_device_attributes_t)

abbrev pub device_topology_word : ℕ
device_topology_word = make_version_2 (size_of dcgm_device_topology_t)

abbrev pub health_check_word : ℕ
health_check_word = make_version_4 (size_of dcgm_health_response_v4)

abbrev pub policy_word : ℕ
policy_word = make_version_1 (size_of dcgm_policy_t)

abbrev pub process_info_word : ℕ
process_info_word = make_version_2 (size_of dcgm_pid_info_t)

abbrev pub introspect_memory_word : ℕ
introspect_memory_word = make_version_1 (size_of dcgm_introspect_memory_t)

abbrev pub introspect_cpu_word : ℕ
introspect_cpu_word = make_version_1 (size_of dcgm_introspect_cpu_util_t)

abbrev pub metric_groups_word : ℕ
metric_groups_word = make_version_2 (size_of dcgm_prof_get_metric_groups_t)

-- The constant of the header.
abbrev pub mig_hierarchy_word : ℕ
mig_hierarchy_word = make_dcgm_version dcgm_mig_hierarchy_v2 2

-- The places of pkg/dcgm that write a version.
pub data VersionCall : Type 0 where
  connect_standalone start_hostengine hostengine_version_info library_version_info : VersionCall
  device_info busid device_topology health_check : VersionCall
  policy process_info introspect_memory introspect_cpu : VersionCall
  metric_groups mig_hierarchy : VersionCall

abbrev pub written : VersionCall → ℕ
written connect_standalone = connect_standalone_word
written start_hostengine = start_hostengine_word
written hostengine_version_info = hostengine_version_info_word
written library_version_info = library_version_info_word
written device_info = device_info_word
written busid = busid_word
written device_topology = device_topology_word
written health_check = health_check_word
written policy = policy_word
written process_info = process_info_word
written introspect_memory = introspect_memory_word
written introspect_cpu = introspect_cpu_word
written metric_groups = metric_groups_word
written mig_hierarchy = mig_hierarchy_word

-- The current version of the struct that the call passes.
abbrev pub declared : VersionCall → Version
declared connect_standalone = dcgm_connect_v2_params_version2
declared start_hostengine = dcgm_connect_v2_params_version2
declared hostengine_version_info = dcgm_version_info_version2
declared library_version_info = dcgm_version_info_version2
declared device_info = dcgm_device_attributes_version2
declared busid = dcgm_device_attributes_version2
declared device_topology = dcgm_device_topology_version1
declared health_check = dcgm_health_response_version4
declared policy = dcgm_policy_version1
declared process_info = dcgm_pid_info_version2
declared introspect_memory = dcgm_introspect_memory_version1
declared introspect_cpu = dcgm_introspect_cpu_util_version1
declared metric_groups = dcgm_prof_get_metric_groups_version2
declared mig_hierarchy = dcgm_mig_hierarchy_version2

stale :
    (connect_standalone_word ≢ word dcgm_connect_v2_params_version2)
    × (device_topology_word ≢ word dcgm_device_topology_version1)
unfolding make_dcgm_version make_version_1 make_version_2 size_of round_up align_of
stale = (λ h. omega arith, λ h. omega arith)

-- Each call writes the word that the header declares for its struct, but two: the connection
-- parameters of a standalone start and the topology request carry another one.
pub written-declared :
    (c : VersionCall)
    → ((c ≡ connect_standalone) ⊎ (c ≡ device_topology)) × (written c ≢ word (declared c))
      ⊎ (written c ≡ word (declared c))
written-declared connect_standalone = inl (inl refl, stale.0)
written-declared start_hostengine = inr (make_version_2-agrees dcgm_connect_v2_params_t)
written-declared hostengine_version_info = inr (make_version_2-agrees dcgm_version_info_t)
written-declared library_version_info = inr (make_version_2-agrees dcgm_version_info_t)
written-declared device_info = inr (make_version_2-agrees dcgm_device_attributes_t)
written-declared busid = inr (make_version_2-agrees dcgm_device_attributes_t)
written-declared device_topology = inl (inr refl, stale.1)
written-declared health_check = inr (make_version_4-agrees dcgm_health_response_v4)
written-declared policy = inr (make_version_1-agrees dcgm_policy_t)
written-declared process_info = inr (make_version_2-agrees dcgm_pid_info_t)
written-declared introspect_memory = inr (make_version_1-agrees dcgm_introspect_memory_t)
written-declared introspect_cpu = inr (make_version_1-agrees dcgm_introspect_cpu_util_t)
written-declared metric_groups = inr (make_version_2-agrees dcgm_prof_get_metric_groups_t)
written-declared mig_hierarchy = inr refl
