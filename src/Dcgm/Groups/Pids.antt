-- ===== src/Dcgm/Groups/Pids.antt =====
-- `watchPidFields` and `getProcessInfo` of pkg/dcgm/process_info.go one after the other, as
-- pkg/dcgm/api.go says to call them: the group of the first is destroyed by the second.
use gpu_metric_collector.Base.{
  ℕ, Bool, true, false, ◌≡◌, refl, ◌∙◌, inl, inr, List, [], ◌∷◌, Outcome, ok, panic,
}
use gpu_metric_collector.Dcgm.Returns.{DcgmReturn, Answered, answer}
use gpu_metric_collector.Dcgm.Groups.{Query, Library, ignore, return, ◌>>=◌, ◌>>◌}
use gpu_metric_collector.Dcgm.Groups.Ends.{
  Live, Ends, Documented, Same, Opened, MayLeak, then_Ends, neutral_Ends, ignore-Ends, then_live,
}
use gpu_metric_collector.Dcgm.Queries.Readings.{CommFile}
use gpu_metric_collector.Dcgm.Queries.Destroyed.{Flagged, get_process_info-Flagged}
use gpu_metric_collector.Dcgm.Queries.Processes.{
  CpidInfo, ProcessAnswer, infos, no_info, no_name, get_process_info,
}

module _ (L : Library) (Float : Type 0) (round : Float → Float) where
  open L use {Engine, group_create, group_add_device, group_destroy, dcgm_update_all_fields}

  -- What is called of libdcgm besides. dcgmGetPidInfo gives its return code and what it has written.
  pub record PidLibrary : Type 0 where
    pub get_all_supported_devices : Query Engine (List ℕ)
    pub dcgm_watch_pid_fields : ℕ → Query Engine Unit
    pub dcgm_get_pid_info : ℕ → ℕ → Engine → Engine × (DcgmReturn × CpidInfo Float round)

  -- What lives after an answer of `getProcessInfo`.
  abbrev pub Left : List ℕ → List ℕ → Outcome (ProcessAnswer Float round) → Live → Type 0
  Left gs fs (ok (infos found)) l = l ≡ (gs, fs)
  Left gs fs (ok (no_info code)) l = (h : ℕ) × (l ≡ (h ∷ gs, fs))
  Left gs fs (ok no_name) l = (h : ℕ) × (l ≡ (h ∷ gs, fs))
  Left gs fs (panic fault) l = (h : ℕ) × (l ≡ (h ∷ gs, fs))

  module _ (P : PidLibrary) where
    abbrev pub gpus_or_all : List ℕ → Query Engine (List ℕ)
    gpus_or_all [] = P.get_all_supported_devices
    gpus_or_all (gpu ∷ gpus) = return (gpu ∷ gpus)

    unfoldable pub add_all : ℕ → List ℕ → Query Engine Unit
    add_all group [] = return tt
    add_all group (gpu ∷ gpus) = group_add_device group gpu >> add_all group gpus

    unfoldable pub watch_pid_fields : List ℕ → Query Engine ℕ
    watch_pid_fields gpus = do
      group ← group_create
      chosen ← gpus_or_all gpus
      add_all group chosen
      P.dcgm_watch_pid_fields group
      ignore dcgm_update_all_fields
      return group

    -- The last line of `getProcessInfo`, which its error returns do not reach.
    abbrev pub close_group :
        ℕ
        → Engine
        → Outcome (ProcessAnswer Float round × Bool)
        → Engine × Outcome (ProcessAnswer Float round)
    close_group group e (panic fault) = (e, panic fault)
    close_group group e (ok (found, false)) = (e, ok found)
    close_group group e (ok (found, true)) = ((group_destroy group e).0, ok found)

    abbrev pub then_info :
        ℕ
        → CommFile
        → Engine × (DcgmReturn × CpidInfo Float round)
        → Engine × Answered (Outcome (ProcessAnswer Float round))
    then_info group comm (e, (result, c)) =
        let (e', found) = close_group group e (get_process_info Float round result c comm) in
        (e', answer found)

    -- `GetProcessInfo` on the group of `WatchPidFields`.
    unfoldable pub process_query :
        List ℕ → ℕ → CommFile → Query Engine (Outcome (ProcessAnswer Float round))
    process_query gpus pid comm = do
      group ← watch_pid_fields gpus
      λ e. then_info group comm (P.dcgm_get_pid_info group pid e)

    -- What internal/include/dcgm_agent.h says of these calls: they neither create nor destroy a group.
    pub record DocumentedPids (D : Documented L) : Type 0 where
      pub listed : (e : Engine) → D.live (P.get_all_supported_devices e).0 ≡ D.live e
      pub pids_watched : (h : ℕ) (e : Engine) → D.live (P.dcgm_watch_pid_fields h e).0 ≡ D.live e
      pub asked : (h pid : ℕ) (e : Engine) → D.live (P.dcgm_get_pid_info h pid e).0 ≡ D.live e

    module _ (D : Documented L) (DP : DocumentedPids D) where
      open D use {live}

      gpus_or_all-live : (gpus : List ℕ) (e : Engine) → live (gpus_or_all gpus e).0 ≡ live e
      gpus_or_all-live [] e = DP.listed e
      gpus_or_all-live (gpu ∷ gpus) e = refl

      add_all-live : (h : ℕ) (gpus : List ℕ) (e : Engine) → live (add_all h gpus e).0 ≡ live e
      unfolding add_all
      add_all-live h [] e = refl
      add_all-live h (gpu ∷ gpus) e =
          then_live live _ (live e) (group_add_device h gpu e) (D.added h gpu e)
            (λ e' _ same. add_all-live h gpus e' ∙ same)

      watch_pid_fields-Ends :
          (gpus gs fs : List ℕ) (e : Engine)
          → live e ≡ (gs, fs)
          → Ends live (Opened gs fs) (MayLeak gs fs) (watch_pid_fields gpus e)
      unfolding watch_pid_fields
      watch_pid_fields-Ends gpus gs fs e start =
          then_Ends live _ (Opened gs fs) (Same gs fs) (Opened gs fs) (MayLeak gs fs)
            (group_create e) (D.created gs fs e start) (λ l same. inl same)
            (λ e1 h h1.
              neutral_Ends live _ (h ∷ gs, fs) (Opened gs fs) (MayLeak gs fs) (gpus_or_all gpus e1)
                (gpus_or_all-live gpus e1 ∙ h1) (inr (h, refl))
                (λ e2 chosen h2.
                  neutral_Ends live _ (h ∷ gs, fs) (Opened gs fs) (MayLeak gs fs)
                    (add_all h chosen e2) (add_all-live h chosen e2 ∙ h2) (inr (h, refl))
                    (λ e3 _ h3.
                      neutral_Ends live _ (h ∷ gs, fs) (Opened gs fs) (MayLeak gs fs)
                        (P.dcgm_watch_pid_fields h e3) (DP.pids_watched h e3 ∙ h3) (inr (h, refl))
                        (λ e4 _ h4.
                          ignore-Ends live _ (Opened gs fs) (MayLeak gs fs) dcgm_update_all_fields
                            e4 (D.updated e4 ∙ h4)))))

      close_group-Left :
          (h : ℕ) (gs fs : List ℕ) (e : Engine) (o : Outcome (ProcessAnswer Float round × Bool))
          → Flagged Float round o
          → live e ≡ (h ∷ gs, fs)
          → Left gs fs (close_group h e o).1 (live (close_group h e o).0)
      close_group-Left h gs fs e (panic fault) flag start = (h, start)
      close_group-Left h gs fs e (ok (infos found, true)) flag start = D.destroyed h gs fs e start
      close_group-Left h gs fs e (ok (infos found, false)) flag start = cc
      close_group-Left h gs fs e (ok (no_info code, false)) flag start = (h, start)
      close_group-Left h gs fs e (ok (no_info code, true)) flag start = cc
      close_group-Left h gs fs e (ok (no_name, false)) flag start = (h, start)
      close_group-Left h gs fs e (ok (no_name, true)) flag start = cc

      -- `WatchPidFields` and then `GetProcessInfo` on its group: what lived before is left if the second
      -- returns the statistics, and one group more with every other end of it, be it an error or a
      -- panic. Where the first fails, there may be one group more.
      pub process_query-Ends :
          (gpus : List ℕ) (pid : ℕ) (comm : CommFile) (gs fs : List ℕ) (e : Engine)
          → live e ≡ (gs, fs)
          → Ends live (Left gs fs) (MayLeak gs fs) (process_query gpus pid comm e)
      unfolding process_query
      process_query-Ends gpus pid comm gs fs e start =
          then_Ends live _ (Opened gs fs) (MayLeak gs fs) (Left gs fs) (MayLeak gs fs)
            (watch_pid_fields gpus e) (watch_pid_fields-Ends gpus gs fs e start) (λ l leak. leak)
            (λ e1 h h1.
              close_group-Left h gs fs (P.dcgm_get_pid_info h pid e1).0 _
                (get_process_info-Flagged Float round _ _ comm) (DP.asked h pid e1 ∙ h1))
