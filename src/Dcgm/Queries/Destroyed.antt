-- ===== src/Dcgm/Queries/Destroyed.antt =====
-- Which ends of `getProcessInfo` of pkg/dcgm/process_info.go have destroyed the group.
use gpu_metric_collector.Base.{
  Bool, true, false, ◌≡◌, refl, Option, none, some, List, Outcome, ok, panic, ◌>>=◌, collect_each,
}
use gpu_metric_collector.Base.Int.{pos_part}
use gpu_metric_collector.Base.Text.{Text}
use gpu_metric_collector.Dcgm.Returns.{DcgmReturn, error_string}
use gpu_metric_collector.Dcgm.Queries.Readings.{CommFile, process_name}
use gpu_metric_collector.Dcgm.Queries.Processes.{
  CpidInfo, GpuProcessInfo, ProcessAnswer, infos, no_info, no_name, process_info, named_infos,
  infos_of, get_process_info,
}

module _ (Float : Type 0) (round : Float → Float) where
  -- Only the return with the statistics has destroyed it.
  abbrev pub Flagged : Outcome (ProcessAnswer Float round × Bool) → Type 0
  Flagged (panic fault) = Unit
  Flagged (ok (infos found, destroyed)) = destroyed ≡ true
  Flagged (ok (no_info code, destroyed)) = destroyed ≡ false
  Flagged (ok (no_name, destroyed)) = destroyed ≡ false

  then_infos-Flagged :
      (o : Outcome (List (GpuProcessInfo Float round)))
      → Flagged (o >>= λ found. ok (infos found, true))
  then_infos-Flagged (ok found) = refl
  then_infos-Flagged (panic fault) = tt

  named_infos-Flagged :
      (c : CpidInfo Float round) (name : Option Text) → Flagged (named_infos Float round c name)
  named_infos-Flagged c none = refl
  named_infos-Flagged c (some name) =
      then_infos-Flagged
        (collect_each (process_info Float round c name) c.gpus 0 (pos_part c.num_gpus))

  infos_of-Flagged :
      (err : Option DcgmReturn) (c : CpidInfo Float round) (name : Option Text)
      → Flagged (infos_of Float round err c name)
  infos_of-Flagged none c name = named_infos-Flagged c name
  infos_of-Flagged (some err) c name = refl

  pub get_process_info-Flagged :
      (result : DcgmReturn) (c : CpidInfo Float round) (comm : CommFile)
      → Flagged (get_process_info Float round result c comm)
  unfolding get_process_info
  get_process_info-Flagged result c comm =
      infos_of-Flagged (error_string result) c (process_name comm)
