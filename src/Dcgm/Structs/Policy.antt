-- ===== src/Dcgm/Structs/Policy.antt =====
-- The policy and field value structs of internal/include/dcgm_structs.h.
use gpu_metric_collector.Base.{[], ◌∷◌}
use gpu_metric_collector.Dcgm.Layout.{
  Ctype, array, char, double, enumeration, int, long, long_long, members, scalar, struct, union,
  unsigned_int, unsigned_long_long, unsigned_short,
}
use gpu_metric_collector.Dcgm.Structs.Limits.{
  dcgm_max_blob_length, dcgm_max_str_length, dcgm_policy_cond_max,
}

abbrev pub dcgm_policy_violation_v1 : Ctype
dcgm_policy_violation_v1 = struct (
    members (
      ("version", scalar unsigned_int)
      ∷ ("notifyOnEccDbe", scalar unsigned_int)
      ∷ ("notifyOnPciEvent", scalar unsigned_int)
      ∷ ("notifyOnMaxRetiredPages", scalar unsigned_int)
      ∷ []))

abbrev pub dcgm_policy_condition_params_t : Ctype
dcgm_policy_condition_params_t = struct (
    members (
      ("tag", scalar enumeration)
      ∷ (
        "val",
        union (
            members (("boolean", scalar unsigned_int) ∷ ("llval", scalar unsigned_long_long) ∷ [])),
      )
      ∷ []))

abbrev pub dcgm_policy_violation_notify_t : Ctype
dcgm_policy_violation_notify_t =
    struct
      (members (("gpuId", scalar unsigned_int) ∷ ("violationOccurred", scalar unsigned_int) ∷ []))

abbrev pub dcgm_policy_v1 : Ctype
dcgm_policy_v1 = struct (
    members (
      ("version", scalar unsigned_int)
      ∷ ("condition", scalar enumeration)
      ∷ ("mode", scalar enumeration)
      ∷ ("isolation", scalar enumeration)
      ∷ ("action", scalar enumeration)
      ∷ ("validation", scalar enumeration)
      ∷ ("response", scalar enumeration)
      ∷ ("parms", array dcgm_policy_condition_params_t dcgm_policy_cond_max)
      ∷ []))

abbrev pub dcgm_policy_t : Ctype
dcgm_policy_t = dcgm_policy_v1

abbrev pub dcgm_policy_condition_dbe_t : Ctype
dcgm_policy_condition_dbe_t = struct (
    members (
      ("timestamp", scalar long_long)
      ∷ ("location", scalar enumeration)
      ∷ ("numerrors", scalar unsigned_int)
      ∷ []))

abbrev pub dcgm_policy_condition_pci_t : Ctype
dcgm_policy_condition_pci_t =
    struct (members (("timestamp", scalar long_long) ∷ ("counter", scalar unsigned_int) ∷ []))

abbrev pub dcgm_policy_condition_mpr_t : Ctype
dcgm_policy_condition_mpr_t = struct (
    members (
      ("timestamp", scalar long_long)
      ∷ ("sbepages", scalar unsigned_int)
      ∷ ("dbepages", scalar unsigned_int)
      ∷ []))

abbrev pub dcgm_policy_condition_thermal_t : Ctype
dcgm_policy_condition_thermal_t =
    struct
      (members (("timestamp", scalar long_long) ∷ ("thermalViolation", scalar unsigned_int) ∷ []))

abbrev pub dcgm_policy_condition_power_t : Ctype
dcgm_policy_condition_power_t =
    struct
      (members (("timestamp", scalar long_long) ∷ ("powerViolation", scalar unsigned_int) ∷ []))

abbrev pub dcgm_policy_condition_nvlink_t : Ctype
dcgm_policy_condition_nvlink_t = struct (
    members (
      ("timestamp", scalar long_long)
      ∷ ("fieldId", scalar unsigned_short)
      ∷ ("counter", scalar unsigned_int)
      ∷ []))

abbrev pub dcgm_policy_condition_xid_t : Ctype
dcgm_policy_condition_xid_t =
    struct (members (("timestamp", scalar long_long) ∷ ("errnum", scalar unsigned_int) ∷ []))

abbrev pub dcgm_policy_callback_response_v1 : Ctype
dcgm_policy_callback_response_v1 = struct (
    members (
      ("version", scalar unsigned_int)
      ∷ ("condition", scalar enumeration)
      ∷ (
        "val",
        union (
            members (
              ("dbe", dcgm_policy_condition_dbe_t)
              ∷ ("pci", dcgm_policy_condition_pci_t)
              ∷ ("mpr", dcgm_policy_condition_mpr_t)
              ∷ ("thermal", dcgm_policy_condition_thermal_t)
              ∷ ("power", dcgm_policy_condition_power_t)
              ∷ ("nvlink", dcgm_policy_condition_nvlink_t)
              ∷ ("xid", dcgm_policy_condition_xid_t)
              ∷ [])),
      )
      ∷ []))

abbrev pub dcgm_field_value_v1 : Ctype
dcgm_field_value_v1 = struct (
    members (
      ("version", scalar unsigned_int)
      ∷ ("fieldId", scalar unsigned_short)
      ∷ ("fieldType", scalar unsigned_short)
      ∷ ("status", scalar int)
      ∷ ("ts", scalar long)
      ∷ (
        "value",
        union (
            members (
              ("i64", scalar long)
              ∷ ("dbl", scalar double)
              ∷ ("str", array (scalar char) dcgm_max_str_length)
              ∷ ("blob", array (scalar char) dcgm_max_blob_length)
              ∷ [])),
      )
      ∷ []))

abbrev pub dcgm_field_value_v2 : Ctype
dcgm_field_value_v2 = struct (
    members (
      ("version", scalar unsigned_int)
      ∷ ("entityGroupId", scalar enumeration)
      ∷ ("entityId", scalar unsigned_int)
      ∷ ("fieldId", scalar unsigned_short)
      ∷ ("fieldType", scalar unsigned_short)
      ∷ ("status", scalar int)
      ∷ ("unused", scalar unsigned_int)
      ∷ ("ts", scalar long)
      ∷ (
        "value",
        union (
            members (
              ("i64", scalar long)
              ∷ ("dbl", scalar double)
              ∷ ("str", array (scalar char) dcgm_max_str_length)
              ∷ ("blob", array (scalar char) dcgm_max_blob_length)
              ∷ [])),
      )
      ∷ []))
