-- ===== src/Dcgm/Queries.antt =====
-- pkg/dcgm/mig.go, pkg/dcgm/profile.go and pkg/dcgm/process_info.go: the copies of the arrays that libdcgm
-- fills, each with the number of its valid entries beside it; and pkg/dcgm/hostengine_status.go.
use gpu_metric_collector.Base.{
  ℕ, zero, suc, ◌+◌, ◌/◌, ◌%◌, ◌^◌, Bool, List, [], ◌∷◌, Outcome, ok, ◌>>=◌, index, set, replicate,
  collect, collect_each, leb, if◌then◌else◌, Option, none, some, String, panic, length_out_of_range,
}
use gpu_metric_collector.Base.Int.{ℤ, pos, negsuc, pos_part, ◌-ℤ◌}
use gpu_metric_collector.Base.Text.{Text}
use gpu_metric_collector.Dcgm.Returns.{DcgmReturn, error_string, Answered, answer, failed}
use gpu_metric_collector.Dcgm.Values.{GroupEntityPair, go_string, signed64}
pub mod Mig
pub mod Readings
pub mod Processes
pub mod Destroyed
pub mod Profile
mod Tests

-- dcgmMigHierarchyInfo_v2, whose uuid is a C string, and MigHierarchyInfo_v2, whose uuid is a text.
pub record MigHierarchyInfo : Type 0 where
  pub entity : GroupEntityPair
  pub parent : GroupEntityPair
  pub gpu_uuid : List ℕ
  pub nvml_gpu_index : ℕ
  pub nvml_instance_id : ℕ
  pub nvml_compute_instance_id : ℕ
  pub nvml_mig_profile_id : ℕ
  pub nvml_profile_slices : ℕ

-- dcgmMigHierarchy_v2 and MigHierarchy_v2.
pub record MigHierarchy : Type 0 where
  pub version : ℕ
  pub count : ℕ
  pub entity_list : List MigHierarchyInfo

unfoldable pub to_mig_info : MigHierarchyInfo → MigHierarchyInfo
to_mig_info c = record c { gpu_uuid = go_string c.gpu_uuid }

abbrev pub no_entity : GroupEntityPair
no_entity = record { entity_group_id = 0; entity_id = 0 }

abbrev pub no_info : MigHierarchyInfo
no_info = record {
  entity = no_entity;
  parent = no_entity;
  gpu_uuid = [];
  nvml_gpu_index = 0;
  nvml_instance_id = 0;
  nvml_compute_instance_id = 0;
  nvml_mig_profile_id = 0;
  nvml_profile_slices = 0;
}

-- `list[i] = v` in Go.
abbrev pub store {ℓ} : {A : Type ℓ} → List A → ℕ → A → Outcome (List A)
store xs i v = index xs i >>= λ old. ok (set xs i v)

-- The loop of `toMigHierarchy`, from index `i` with `left` entries to go.
unfoldable pub copy_entities :
    List MigHierarchyInfo → ℕ → ℕ → List MigHierarchyInfo → Outcome (List MigHierarchyInfo)
copy_entities c_list i zero list = ok list
copy_entities c_list i (suc left) list = do
  c ← index c_list i
  list' ← store list i (to_mig_info c)
  copy_entities c_list (suc i) left list'

-- `max_hierarchy_info` is DCGM_MAX_HIERARCHY_INFO.
unfoldable pub to_mig_hierarchy : ℕ → MigHierarchy → Outcome MigHierarchy
to_mig_hierarchy max_hierarchy_info c = do
  list ← copy_entities c.entity_list 0 c.count (replicate max_hierarchy_info no_info)
  ok (record { version = c.version; count = c.count; entity_list = list })

-- A failed call returns what it has filled in, and the error.
unfoldable pub get_gpu_instance_hierarchy :
    ℕ → DcgmReturn → MigHierarchy → Outcome (MigHierarchy × Option DcgmReturn)
get_gpu_instance_hierarchy max_hierarchy_info result c = do
  hierarchy ← to_mig_hierarchy max_hierarchy_info c
  ok (hierarchy, error_string result)

-- dcgmProfMetricGroupInfo_t and MetricGroup.
pub record CmetricGroup : Type 0 where
  pub major_id : ℕ
  pub minor_id : ℕ
  pub num_field_ids : ℕ
  pub field_ids : List ℕ

pub record MetricGroup : Type 0 where
  pub major : ℕ
  pub minor : ℕ
  pub field_ids : List ℕ

unfoldable pub to_metric_group : CmetricGroup → Outcome MetricGroup
to_metric_group c = do
  field_ids ← collect (λ (id : ℕ). id) c.field_ids 0 c.num_field_ids
  ok (record { major = c.major_id; minor = c.minor_id; field_ids = field_ids })

unfoldable pub metric_groups :
    Option DcgmReturn → ℕ → List CmetricGroup → Outcome (Answered (List MetricGroup))
metric_groups (some err) count groups = ok (failed err)
metric_groups none count groups = do
  copied ← collect_each to_metric_group groups 0 count
  ok (answer copied)

-- `getSupportedMetricGroups`, from the call's result and what it has filled in.
unfoldable pub get_supported_metric_groups :
    DcgmReturn → ℕ → List CmetricGroup → Outcome (Answered (List MetricGroup))
unfolding metric_groups
get_supported_metric_groups result count groups = metric_groups (error_string result) count groups

-- `make([]uint, n)` and the loop that fills it from an array.
abbrev pub first_devices : ℤ → List ℕ → Outcome (Answered (List ℕ))
first_devices (negsuc n) gpu_id_list = panic length_out_of_range
first_devices (pos n) gpu_id_list = do
  gpus ← collect (λ (id : ℕ). id) gpu_id_list 0 n
  ok (answer gpus)

abbrev pub supported_devices : Option DcgmReturn → ℤ → List ℕ → Outcome (Answered (List ℕ))
supported_devices (some err) count gpu_id_list = ok (failed err)
supported_devices none count gpu_id_list = first_devices count gpu_id_list

-- `getSupportedDevices`, from the call's result and what it has filled in.
unfoldable pub get_supported_devices : DcgmReturn → ℤ → List ℕ → Outcome (Answered (List ℕ))
get_supported_devices result count gpu_id_list =
    supported_devices (error_string result) count gpu_id_list

-- DcgmStatus of hostengine_status.go.
pub record DcgmStatus (Float : Type 0) : Type 0 where
  pub memory : ℤ
  pub cpu : Float

-- Go's division drops the fraction.
unfoldable pub kilobytes : ℤ → ℤ
kilobytes (pos n) = pos (n / 1024)
kilobytes (negsuc n) = pos 0 -ℤ pos ((n + 1) / 1024)

abbrev pub introspected :
    {Float : Type 0}
    → Option DcgmReturn
    → Option DcgmReturn
    → Option DcgmReturn
    → DcgmStatus Float
    → Answered (DcgmStatus Float)
introspected (some err) memory cpu status = failed err
introspected none (some err) cpu status = failed err
introspected none none (some err) status = failed err
introspected none none none status = answer status

-- `introspect`, from the results of its three calls; `percent` is the product with 100.
unfoldable pub introspect :
    {Float : Type 0}
    → (Float → Float)
    → (toggled memory_result cpu_result : DcgmReturn) → ℤ
    → Float
    → Answered (DcgmStatus Float)
unfolding kilobytes
introspect percent toggled memory_result cpu_result bytes_used total =
    introspected (error_string toggled) (error_string memory_result) (error_string cpu_result)
      (record { memory = kilobytes bytes_used; cpu = percent total })
