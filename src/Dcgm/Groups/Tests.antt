-- ===== src/Dcgm/Groups/Tests.antt =====
-- The queries on an engine that does what is documented, and that may refuse every GPU.
use gpu_metric_collector.Base.{ℕ, suc, refl, ap, List, [], ◌∷◌, Bool, false, if◌then◌else◌}
use gpu_metric_collector.Dcgm.Returns.{dcgm_st_badparam, answer, failed}
use gpu_metric_collector.Dcgm.Health.{result_pass}
use gpu_metric_collector.Dcgm.Values.{FieldValueV1}
use gpu_metric_collector.Dcgm.Groups.{Library}
use gpu_metric_collector.Dcgm.Groups.Ends.{Live, Ends, Documented, Same, MayLeak}
use gpu_metric_collector.Base.{◌≡◌}
use gpu_metric_collector.Base.Int.{pos}
use gpu_metric_collector.Dcgm.Returns.{dcgm_st_ok}
use gpu_metric_collector.Dcgm.Groups.{then_answer}
use gpu_metric_collector.Base.{map, ◌%◌, ◌/◌, ok}
use gpu_metric_collector.Dcgm.Fields.{map_read}
use gpu_metric_collector.Dcgm.Values.{int64, signed64, little_endian}
use gpu_metric_collector.Dcgm.Status.Named.{status_of, value_of}
use gpu_metric_collector.Dcgm.Groups.Devices.{
  latest_values_for_device, latest_values_for_device-status_of,
}
use gpu_metric_collector.Dcgm.Groups.Pids.{
  PidLibrary, DocumentedPids, Left, watch_pid_fields, add_all, process_query, process_query-Ends,
}
use gpu_metric_collector.Dcgm.Queries.Readings.{not_exist, unreadable, process_name}
use gpu_metric_collector.Dcgm.Queries.Processes.{CpidSingleInfo, get_process_info}

-- What lives, and the next handle.
abbrev State : Type 0
State = Live × ℕ

abbrev tail : List ℕ → List ℕ
tail [] = []
tail (h ∷ hs) = hs

-- The value of each field is its identifier, in two of the bytes.
abbrev held_value : ℕ → FieldValueV1
held_value id = record {
  version = 1;
  field_id = id;
  field_type = b'i';
  status = pos 0;
  ts = pos 0;
  value = id % 256 ∷ id / 256 ∷ 0 ∷ 0 ∷ 0 ∷ 0 ∷ 0 ∷ 0 ∷ [];
}

abbrev engine : Bool → Library
engine refuses = record {
  Engine = State;
  group_create = λ e. (((e.1 ∷ (e.0).0, (e.0).1), suc e.1), answer e.1);
  group_add_device = λ h gpu e. (e, if refuses then failed dcgm_st_badparam else answer tt);
  group_destroy = λ h e. (((tail (e.0).0, (e.0).1), e.1), answer tt);
  field_group_create = λ fields e. ((((e.0).0, e.1 ∷ (e.0).1), suc e.1), answer e.1);
  field_group_destroy = λ h e. ((((e.0).0, tail (e.0).1), e.1), answer tt);
  dcgm_watch_fields = λ h f e. (e, answer tt);
  dcgm_update_all_fields = λ e. (e, answer tt);
  get_latest_values = λ gpu fields e. (e, answer (map held_value fields));
  health_set = λ h e. (e, answer tt);
  dcgm_health_check = λ h e.
      (e, answer (record { overall_health = result_pass; incident_count = 0; incidents = [] }));
}

engine-Documented : (refuses : Bool) → Documented (engine refuses)
engine-Documented refuses = record {
  live = λ e. e.0;
  created = λ gs fs e h. ap (λ l. (e.1 ∷ l.0, l.1)) h;
  field_group_created = λ fields gs fs e h. ap (λ l. (l.0, e.1 ∷ l.1)) h;
  destroyed = λ h gs fs e start. ap (λ l. (tail l.0, l.1)) start;
  field_group_destroyed = λ h gs fs e start. ap (λ l. (l.0, tail l.1)) start;
  added = λ h gpu e. refl;
  watched = λ h f e. refl;
  updated = λ e. refl;
  read = λ gpu fields e. refl;
  health_watched = λ h e. refl;
  checked = λ h e. refl;
}

abbrev start : State
start = ((7 ∷ [], []), 8)

abbrev nothing_read : CpidSingleInfo ℕ (λ x. x)
nothing_read = record {
  gpu_id = 0;
  energy_consumed = pos 0;
  pcie_rx_average = pos 0;
  pcie_tx_average = pos 0;
  pcie_replays = pos 0;
  start_time = pos 0;
  end_time = pos 0;
  sm_util = 0;
  mem_util = 0;
  sm_utilization_average = pos 0;
  memory_utilization_average = pos 0;
  ecc_single_bit = 0;
  ecc_double_bit = 0;
  memory_clock_average = pos 0;
  sm_clock_average = pos 0;
  num_xid_critical_errors = pos 0;
  xid_critical_errors_ts = [];
  max_gpu_memory_used = pos 0;
  power_violation_time = pos 0;
  thermal_violation_time = pos 0;
  reliability_violation_time = pos 0;
  board_limit_violation_time = pos 0;
  low_utilization_time = pos 0;
  sync_boost_time = pos 0;
}

-- The process ran on GPU 0.
abbrev pids : PidLibrary (engine false) ℕ (λ x. x)
pids = record {
  get_all_supported_devices = λ e. (e, answer (0 ∷ 1 ∷ []));
  dcgm_watch_pid_fields = λ h e. (e, answer tt);
  dcgm_get_pid_info = λ h pid e. (
    e,
    (
      dcgm_st_ok,
      record { pid = pid; num_gpus = pos 1; summary = nothing_read; gpus = nothing_read ∷ [] },
    ),
  );
}

pids-Documented : DocumentedPids (engine false) ℕ (λ x. x) pids (engine-Documented false)
unfolding engine-Documented
pids-Documented = record { listed = λ e. refl; pids_watched = λ h e. refl; asked = λ h pid e. refl }

-- A file of the process's name that cannot be read leaves the new group 8 behind.
unreadable_name :
    ((process_query (engine false) ℕ (λ x. x) pids [] 77 unreadable start).0).0 ≡ (8 ∷ 7 ∷ [], [])
unfolding process_query watch_pid_fields add_all then_answer get_process_info process_name
unreadable_name = refl

process_query-Ends_example :
    Ends
      (λ e. e.0)
      (Left (engine false) ℕ (λ x. x) (7 ∷ []) [])
      (MayLeak (7 ∷ []) [])
      (process_query (engine false) ℕ (λ x. x) pids [] 77 not_exist start)
unfolding engine-Documented
process_query-Ends_example =
    process_query-Ends (engine false) ℕ (λ x. x) pids (engine-Documented false) pids-Documented []
      77 not_exist (7 ∷ []) [] start refl

status_example : (status_of ℕ little_endian (value_of held_value)).temperature ≡ pos 150
unfolding status_of map_read int64 signed64 little_endian
status_example = refl

latest_values_for_device-status_of_example :
    Ends
      (λ e. e.0)
      (λ o l. (o ≡ ok (status_of ℕ little_endian (value_of held_value))) × Same (7 ∷ []) [] l)
      (MayLeak (7 ∷ []) [])
      (latest_values_for_device (engine false) ℕ little_endian 0 start)
unfolding engine-Documented
latest_values_for_device-status_of_example =
    latest_values_for_device-status_of (engine false) (engine-Documented false) 0 held_value
      (λ fields e. refl) ℕ little_endian (7 ∷ []) [] start refl
