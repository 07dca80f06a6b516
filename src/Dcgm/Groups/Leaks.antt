-- ===== src/Dcgm/Groups/Leaks.antt =====
-- Which queries give back the groups that they create.
use gpu_metric_collector.Base.{ℕ, ◌≡◌, refl, ◌∙◌, sym, subst, ap, inl, inr, List, ◌∷◌}
use gpu_metric_collector.Dcgm.Returns.{DcgmReturn, Answered, answer, failed}
use gpu_metric_collector.Dcgm.Groups.Ends.{
  Live, Ends, Answers, Documented, Same, Opened, FieldsOpened, MayLeak, then_Ends, neutral_Ends,
  ignore-Ends, cleanup_Ends, read_Ends, weaken_Ends,
}
use gpu_metric_collector.Dcgm.Values.{FieldValueV1, to_field_value}
use gpu_metric_collector.Dcgm.Groups.{
  Library, then_answer, ignore, ◌>>◌, watch_fields, fetch_fields, health_check_by_gpu_id,
}

answers_anything : {A : Type 0} (a : Answered A) → Answers (λ _. Unit) a
answers_anything (answer a) = tt
answers_anything (failed code) = tt

module _ (L : Library) (D : Documented L) where
  open L use {
    Engine, group_create, group_add_device, group_destroy, field_group_create, field_group_destroy,
    dcgm_watch_fields, dcgm_update_all_fields, get_latest_values, health_set, dcgm_health_check,
  }
  open D use {live}

  -- The group that `WatchFields` creates stays also where a later call of it fails.
  watch_fields-Ends :
      (gpu f : ℕ) (gs fs : List ℕ) (e : Engine)
      → live e ≡ (gs, fs)
      → Ends live (Opened gs fs) (MayLeak gs fs) (watch_fields L gpu f e)
  unfolding watch_fields
  watch_fields-Ends gpu f gs fs e start =
      then_Ends live _ (Opened gs fs) (Same gs fs) (Opened gs fs) (MayLeak gs fs) (group_create e)
        (D.created gs fs e start) (λ l same. inl same)
        (λ e1 h h1.
          neutral_Ends live _ (h ∷ gs, fs) (Opened gs fs) (MayLeak gs fs)
            (group_add_device h gpu e1) (D.added h gpu e1 ∙ h1) (inr (h, refl))
            (λ e2 _ h2.
              neutral_Ends live _ (h ∷ gs, fs) (Opened gs fs) (MayLeak gs fs)
                (dcgm_watch_fields h f e2) (D.watched h f e2 ∙ h2) (inr (h, refl))
                (λ e3 _ h3.
                  ignore-Ends live _ (Opened gs fs) (MayLeak gs fs) dcgm_update_all_fields e3
                    (D.updated e3 ∙ h3))))

  field_group_destroyed-MayLeak :
      (f : ℕ) (gs fs : List ℕ) (e : Engine)
      → MayLeak gs (f ∷ fs) (live e)
      → MayLeak gs fs (live (field_group_destroy f e).0)
  field_group_destroyed-MayLeak f gs fs e (inl same) = inl (D.field_group_destroyed f gs fs e same)
  field_group_destroyed-MayLeak f gs fs e (inr (h, left)) =
      inr (h, D.field_group_destroyed f (h ∷ gs) fs e left)

  both_destroyed :
      (f h : ℕ) (gs fs : List ℕ) (e : Engine)
      → live e ≡ (h ∷ gs, f ∷ fs)
      → live (group_destroy h (field_group_destroy f e).0).0 ≡ (gs, fs)
  both_destroyed f h gs fs e start =
      D.destroyed h gs fs _ (D.field_group_destroyed f (h ∷ gs) fs e start)

  cleanup_both :
      (f h : ℕ) (gs fs : List ℕ) (e : Engine)
      → live e ≡ (h ∷ gs, f ∷ fs)
      → live ((ignore (field_group_destroy f) >> ignore (group_destroy h)) e).0 ≡ (gs, fs)
  unfolding then_answer
  cleanup_both f h gs fs e start = both_destroyed f h gs fs e start

  -- The ends of a query of field values, with what is known of the values that are read.
  pub fetch_fields-Ends_of :
      (P : List FieldValueV1 → Type 0) (gpu : ℕ) (fields gs fs : List ℕ) (e : Engine)
      → ((e' : Engine)
          → Answers (λ values. P (to_field_value values)) (get_latest_values gpu fields e').1)
      → live e ≡ (gs, fs)
      → Ends live
          (λ values l. P values × Same gs fs l)
          (MayLeak gs fs)
          (fetch_fields L gpu fields e)
  unfolding fetch_fields
  fetch_fields-Ends_of P gpu fields gs fs e read start =
      let End = λ (values : List FieldValueV1) (l : Live). P values × Same gs fs l in
      then_Ends live _ (FieldsOpened gs fs) (Same gs fs) End (MayLeak gs fs)
        (field_group_create fields e) (D.field_group_created fields gs fs e start)
        (λ l same. inl same)
        (λ e1 f h1.
          then_Ends live _ (Opened gs (f ∷ fs)) (MayLeak gs fs) End (MayLeak gs fs) _
            (cleanup_Ends live (ignore (field_group_destroy f)) (Opened gs (f ∷ fs))
              (MayLeak gs (f ∷ fs)) (MayLeak gs fs) (watch_fields L gpu f e1)
              (watch_fields-Ends gpu f gs (f ∷ fs) e1 h1) (field_group_destroyed-MayLeak f gs fs))
            (λ l left. left)
            (λ e2 h h2.
              then_Ends live _ (λ values l. P (to_field_value values) × Same (h ∷ gs) (f ∷ fs) l)
                (MayLeak gs fs) End (MayLeak gs fs) _
                (cleanup_Ends live (ignore (field_group_destroy f) >> ignore (group_destroy h))
                  (λ values l. P (to_field_value values) × Same (h ∷ gs) (f ∷ fs) l)
                  (Same (h ∷ gs) (f ∷ fs)) (MayLeak gs fs) (get_latest_values gpu fields e2)
                  (read_Ends live (λ values. P (to_field_value values)) (h ∷ gs, f ∷ fs)
                    (get_latest_values gpu fields e2) (D.read gpu fields e2 ∙ h2) (read e2))
                  (λ e' same. inl (cleanup_both f h gs fs e' same)))
                (λ l left. left)
                (λ e3 values (p, h3).
                  ignore-Ends live _ End (MayLeak gs fs) (field_group_destroy f) e3 (
                    ignore-Ends live _ End (MayLeak gs fs) (group_destroy h) _
                      (p, both_destroyed f h gs fs e3 h3)))))

  -- A query of field values that answers leaves the groups and field groups as they were; one that
  -- fails leaves the field groups as they were, and may leave one group more.
  pub fetch_fields-Ends :
      (gpu : ℕ) (fields gs fs : List ℕ) (e : Engine)
      → live e ≡ (gs, fs)
      → Ends live (λ _. Same gs fs) (MayLeak gs fs) (fetch_fields L gpu fields e)
  fetch_fields-Ends gpu fields gs fs e start =
      weaken_Ends live (λ _ l. Unit × Same gs fs l) (λ _. Same gs fs) (MayLeak gs fs)
        (fetch_fields L gpu fields e)
        (fetch_fields-Ends_of (λ _. Unit) gpu fields gs fs e
          (λ e'. answers_anything (get_latest_values gpu fields e').1) start)
        (λ values l h. h.1)

  -- The same of a health check.
  pub health_check_by_gpu_id-Ends :
      (gpu : ℕ) (gs fs : List ℕ) (e : Engine)
      → live e ≡ (gs, fs)
      → Ends live (λ _. Same gs fs) (MayLeak gs fs) (health_check_by_gpu_id L gpu e)
  unfolding health_check_by_gpu_id
  health_check_by_gpu_id-Ends gpu gs fs e start =
      then_Ends live _ (Opened gs fs) (Same gs fs) (λ _. Same gs fs) (MayLeak gs fs)
        (group_create e) (D.created gs fs e start) (λ l same. inl same)
        (λ e1 h h1.
          neutral_Ends live _ (h ∷ gs, fs) (λ _. Same gs fs) (MayLeak gs fs)
            (group_add_device h gpu e1) (D.added h gpu e1 ∙ h1) (inr (h, refl))
            (λ e2 _ h2.
              neutral_Ends live _ (h ∷ gs, fs) (λ _. Same gs fs) (MayLeak gs fs) (health_set h e2)
                (D.health_watched h e2 ∙ h2) (inr (h, refl))
                (λ e3 _ h3.
                  neutral_Ends live _ (h ∷ gs, fs) (λ _. Same gs fs) (MayLeak gs fs)
                    (dcgm_health_check h e3) (D.checked h e3 ∙ h3) (inr (h, refl))
                    (λ e4 _ h4.
                      ignore-Ends live _ (λ _. Same gs fs) (MayLeak gs fs) (group_destroy h) e4
                        (D.destroyed h gs fs e4 h4)))))

  -- A health check whose group is created and then refuses the GPU leaves that group behind.
  pub health_check_by_gpu_id-leak :
      (gpu h : ℕ) (gs fs : List ℕ) (code : DcgmReturn) (e e1 e2 : Engine)
      → live e ≡ (gs, fs)
      → group_create e ≡ (e1, answer h)
      → group_add_device h gpu e1 ≡ (e2, failed code)
      → (health_check_by_gpu_id L gpu e ≡ (e2, failed code)) × (live e2 ≡ (h ∷ gs, fs))
  unfolding health_check_by_gpu_id then_answer
  health_check_by_gpu_id-leak gpu h gs fs code e e1 e2 start made refused = (
    rw (made, refused) refl,
    ap (λ r. live r.0) (sym refused)
        ∙ D.added h gpu e1
        ∙ subst (Ends live (Opened gs fs) (Same gs fs)) made (D.created gs fs e start),
  )
