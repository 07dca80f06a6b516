-- ===== src/Dcgm/Fields/Tests.antt =====
-- The tables of field identifiers at some of their names.
use gpu_metric_collector.Base.{ℕ, String, ◌≡◌, refl, inl}
use gpu_metric_collector.Dcgm.Fields.{header_fields, field_keys, map_read}
use gpu_metric_collector.Dcgm.Fields.Agreement.{InTable, field_constants-header}

unknown_name : map_read "DCGM_FI_DEV_MIG_MODE" field_keys ≡ 0
unfolding map_read
unknown_name = refl

field_constants-header_example : InTable "DCGM_FI_UNKNOWN" 0 header_fields
field_constants-header_example = field_constants-header "DCGM_FI_UNKNOWN" 0 (inl (refl, refl))

abbrev sm_clock : String
sm_clock = "DCGM_FI_DEV_SM_CLOCK"

abbrev odd_key : String
odd_key = "DCGM_FI_DEV_CUDA_COMPUTE_CAPABILITY"

abbrev first_id : ℕ
first_id = 0

abbrev unknown : String
unknown = "DCGM_FI_UNKNOWN"
