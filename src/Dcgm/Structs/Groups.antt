-- ===== src/Dcgm/Structs/Groups.antt =====
-- The connection, group, MIG hierarchy and field group structs of internal/include/dcgm_structs.h.
use gpu_metric_collector.Base.{[], ◌∷◌}
use gpu_metric_collector.Dcgm.Layout.{
  Ctype, array, char, enumeration, int, members, scalar, short, struct, unsigned_int, unsigned_long,
  unsigned_short,
}
use gpu_metric_collector.Dcgm.Structs.Limits.{
  dcgm_group_max_entities, dcgm_max_field_ids_per_field_group, dcgm_max_hierarchy_info,
  dcgm_max_num_field_groups, dcgm_max_str_length,
}

abbrev pub dcgm_connect_v2_params_v1 : Ctype
dcgm_connect_v2_params_v1 = struct (
    members
      (("version", scalar unsigned_int) ∷ ("persistAfterDisconnect", scalar unsigned_int) ∷ []))

abbrev pub dcgm_connect_v2_params_v2 : Ctype
dcgm_connect_v2_params_v2 = struct (
    members (
      ("version", scalar unsigned_int)
      ∷ ("persistAfterDisconnect", scalar unsigned_int)
      ∷ ("timeoutMs", scalar unsigned_int)
      ∷ ("addressIsUnixSocket", scalar unsigned_int)
      ∷ []))

abbrev pub dcgm_connect_v2_params_t : Ctype
dcgm_connect_v2_params_t = dcgm_connect_v2_params_v2

abbrev pub dcgm_hostengine_health_v1 : Ctype
dcgm_hostengine_health_v1 =
    struct
      (members (("version", scalar unsigned_int) ∷ ("overallHealth", scalar unsigned_int) ∷ []))

abbrev pub dcgm_group_entity_pair_t : Ctype
dcgm_group_entity_pair_t =
    struct
      (members (("entityGroupId", scalar enumeration) ∷ ("entityId", scalar unsigned_int) ∷ []))

abbrev pub dcgm_group_info_v2 : Ctype
dcgm_group_info_v2 = struct (
    members (
      ("version", scalar unsigned_int)
      ∷ ("count", scalar unsigned_int)
      ∷ ("groupName", array (scalar char) dcgm_max_str_length)
      ∷ ("entityList", array dcgm_group_entity_pair_t dcgm_group_max_entities)
      ∷ []))

abbrev pub dcgm_group_info_t : Ctype
dcgm_group_info_t = dcgm_group_info_v2

abbrev pub dcgm_mig_hierarchy_info_t : Ctype
dcgm_mig_hierarchy_info_t = struct (
    members (
      ("entity", dcgm_group_entity_pair_t)
      ∷ ("parent", dcgm_group_entity_pair_t)
      ∷ ("sliceProfile", scalar enumeration)
      ∷ []))

abbrev pub dcgm_mig_entity_info_t : Ctype
dcgm_mig_entity_info_t = struct (
    members (
      ("gpuUuid", array (scalar char) 128)
      ∷ ("nvmlGpuIndex", scalar unsigned_int)
      ∷ ("nvmlInstanceId", scalar unsigned_int)
      ∷ ("nvmlComputeInstanceId", scalar unsigned_int)
      ∷ ("nvmlMigProfileId", scalar unsigned_int)
      ∷ ("nvmlProfileSlices", scalar unsigned_int)
      ∷ []))

abbrev pub dcgm_mig_hierarchy_info_v2 : Ctype
dcgm_mig_hierarchy_info_v2 = struct (
    members (
      ("entity", dcgm_group_entity_pair_t)
      ∷ ("parent", dcgm_group_entity_pair_t)
      ∷ ("info", dcgm_mig_entity_info_t)
      ∷ []))

abbrev pub dcgm_mig_hierarchy_v1 : Ctype
dcgm_mig_hierarchy_v1 = struct (
    members (
      ("version", scalar unsigned_int)
      ∷ ("count", scalar unsigned_int)
      ∷ ("entityList", array dcgm_mig_hierarchy_info_t dcgm_max_hierarchy_info)
      ∷ []))

abbrev pub dcgm_mig_hierarchy_v2 : Ctype
dcgm_mig_hierarchy_v2 = struct (
    members (
      ("version", scalar unsigned_int)
      ∷ ("count", scalar unsigned_int)
      ∷ ("entityList", array dcgm_mig_hierarchy_info_v2 dcgm_max_hierarchy_info)
      ∷ []))

abbrev pub dcgm_field_group_info_v1 : Ctype
dcgm_field_group_info_v1 = struct (
    members (
      ("version", scalar unsigned_int)
      ∷ ("numFieldIds", scalar unsigned_int)
      ∷ ("fieldGroupId", scalar unsigned_long)
      ∷ ("fieldGroupName", array (scalar char) dcgm_max_str_length)
      ∷ ("fieldIds", array (scalar unsigned_short) dcgm_max_field_ids_per_field_group)
      ∷ []))

abbrev pub dcgm_field_group_info_t : Ctype
dcgm_field_group_info_t = dcgm_field_group_info_v1

abbrev pub dcgm_all_field_group_v1 : Ctype
dcgm_all_field_group_v1 = struct (
    members (
      ("version", scalar unsigned_int)
      ∷ ("numFieldGroups", scalar unsigned_int)
      ∷ ("fieldGroups", array dcgm_field_group_info_t dcgm_max_num_field_groups)
      ∷ []))

abbrev pub dcgm_error_info_t : Ctype
dcgm_error_info_t = struct (
    members
      (("gpuId", scalar unsigned_int) ∷ ("fieldId", scalar short) ∷ ("status", scalar int) ∷ []))

abbrev pub dcgm_clock_set_v1 : Ctype
dcgm_clock_set_v1 = struct (
    members (
      ("version", scalar int)
      ∷ ("memClock", scalar unsigned_int)
      ∷ ("smClock", scalar unsigned_int)
      ∷ []))
