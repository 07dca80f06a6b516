-- ===== src/Dcgm/Queries/Tests.antt =====
-- Examples of the queries of pkg/dcgm.
use gpu_metric_collector.Base.{
  ℕ, ◌≤◌, ◌≡◌, refl, ◌⊎◌, [], ◌∷◌, map, true, some, ok, panic, index_out_of_range, take, drop,
  length, replicate, arith, ◌<◌, All,
}
use gpu_metric_collector.Base.Int.{pos}
use gpu_metric_collector.Base.Text.{bytes_of}
use gpu_metric_collector.Dcgm.Returns.{dcgm_st_ok, error_string}
use gpu_metric_collector.Dcgm.Queries.{
  MigHierarchyInfo, MigHierarchy, to_mig_info, no_info, get_gpu_instance_hierarchy,
}
use gpu_metric_collector.Dcgm.Queries.Readings.{contents, process_name, trim_newline}
use gpu_metric_collector.Dcgm.Queries.Mig.{IsEntryCopy, get_gpu_instance_hierarchy-copied}
use gpu_metric_collector.Dcgm.Queries.Processes.{
  CpidSingleInfo, CpidInfo, infos, copy_of, IsCopy, IsReadable, IsOfSummary, get_process_info,
  get_process_info-copied,
}

-- A GPU with one instance, in an array with room for three entries.
abbrev instance_info : MigHierarchyInfo
instance_info = record {
  entity = record { entity_group_id = 4; entity_id = 0 };
  parent = record { entity_group_id = 1; entity_id = 0 };
  gpu_uuid = 71 ∷ 80 ∷ 85 ∷ 0 ∷ 9 ∷ [];
  nvml_gpu_index = 0;
  nvml_instance_id = 7;
  nvml_compute_instance_id = 0;
  nvml_mig_profile_id = 19;
  nvml_profile_slices = 1;
}

abbrev one_instance : MigHierarchy
one_instance = record {
  version = 2;
  count = 1;
  entity_list = instance_info ∷ no_info ∷ no_info ∷ [];
}

get_gpu_instance_hierarchy-copied_example :
    ((m : MigHierarchyInfo) → IsEntryCopy m (to_mig_info m))
    × (((h : MigHierarchy) × (get_gpu_instance_hierarchy 3 dcgm_st_ok one_instance
            ≡ ok (h, error_string dcgm_st_ok))
          × (1 ≤ 3)
          × (h.version ≡ 2)
          × (h.count ≡ 1)
          × (length h.entity_list ≡ 3)
          × (take 1 h.entity_list ≡ map to_mig_info (take 1 one_instance.entity_list))
          × (drop 1 h.entity_list ≡ drop 1 (replicate 3 no_info)))
        ⊎ ((3 < 1)
            × (get_gpu_instance_hierarchy 3 dcgm_st_ok one_instance ≡ panic index_out_of_range)))
get_gpu_instance_hierarchy-copied_example =
    get_gpu_instance_hierarchy-copied 3 dcgm_st_ok one_instance refl

-- A process on GPU 1, with whole percents for floats.
abbrev on_gpu : ℕ → CpidSingleInfo ℕ (λ x. x)
on_gpu id = record {
  gpu_id = id;
  energy_consumed = pos 5000;
  pcie_rx_average = pos 10;
  pcie_tx_average = pos 20;
  pcie_replays = pos 0;
  start_time = pos 1700000000000000;
  end_time = pos 0;
  sm_util = 40;
  mem_util = 10;
  sm_utilization_average = pos 41;
  memory_utilization_average = pos 11;
  ecc_single_bit = 0;
  ecc_double_bit = 0;
  memory_clock_average = pos 900;
  sm_clock_average = pos 1400;
  num_xid_critical_errors = pos 1;
  xid_critical_errors_ts = pos 5 ∷ pos 0 ∷ [];
  max_gpu_memory_used = pos 1024;
  power_violation_time = pos 0;
  thermal_violation_time = pos 0;
  reliability_violation_time = pos 0;
  board_limit_violation_time = pos 0;
  low_utilization_time = pos 0;
  sync_boost_time = pos 0;
}

abbrev on_two_gpus : CpidInfo ℕ (λ x. x)
on_two_gpus = record {
  pid = 77;
  num_gpus = pos 2;
  summary = on_gpu 2147483647;
  gpus = on_gpu 0 ∷ on_gpu 1 ∷ [];
}

abbrev on_gpu_IsReadable : (id : ℕ) → IsReadable ℕ (λ x. x) (on_gpu id)
on_gpu_IsReadable id = record { count = 1; counted = refl; fits = omega arith }

named_train : process_name (contents (bytes_of "train\n")) ≡ some (bytes_of "train")
unfolding process_name trim_newline
named_train = refl

get_process_info-copied_example :
    (get_process_info ℕ (λ x. x) dcgm_st_ok on_two_gpus (contents (bytes_of "train\n"))
      ≡ ok (
        infos (map (copy_of ℕ (λ x. x) on_two_gpus (bytes_of "train")) (on_gpu 0 ∷ on_gpu 1 ∷ [])),
        true,
      ))
    × All
        (IsOfSummary ℕ (λ x. x) on_two_gpus)
        (map (copy_of ℕ (λ x. x) on_two_gpus (bytes_of "train")) (on_gpu 0 ∷ on_gpu 1 ∷ []))
    × ((g : CpidSingleInfo ℕ (λ x. x))
        → IsCopy ℕ
            (λ x. x)
            on_two_gpus
            (bytes_of "train")
            g
            (copy_of ℕ (λ x. x) on_two_gpus (bytes_of "train") g))
get_process_info-copied_example =
    get_process_info-copied ℕ (λ x. x) dcgm_st_ok on_two_gpus (contents (bytes_of "train\n"))
      (bytes_of "train") 2 refl named_train refl (omega arith)
      (on_gpu_IsReadable 0, (on_gpu_IsReadable 1, tt))
