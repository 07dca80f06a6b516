-- ===== src/Dcgm/Groups.antt =====
-- The groups and field groups that pkg/dcgm creates for one query and destroys after it: gpu_group.go,
-- the watches of fields.go, and the queries of device_info.go, device_status.go and health.go.
use gpu_metric_collector.Base.{ℕ, ◌*◌, ◌==◌, ◌≡◌, refl, if◌then◌else◌, List, [], ◌∷◌, map, Outcome}
use gpu_metric_collector.Base.Int.{ℤ, pos, negsuc, ◌*ℤ◌}
use gpu_metric_collector.Dcgm.Returns.{DcgmReturn, Answered, answer, failed}
use gpu_metric_collector.Dcgm.Values.{FieldValueV1, to_field_value, int64}
use gpu_metric_collector.Dcgm.Health.{HealthResponse}
pub mod Ends
pub mod Leaks
pub mod Pids
pub mod Devices
mod Tests

-- A query on the engine: what it answers, and the engine after it.
abbrev pub Query : Type 0 → Type 0 → Type 0
Query E A = E → E × Answered A

module _ {E : Type 0} where
  infixl 5 ◌>>=◌ ◌>>◌
  unfoldable pub then_answer : {A B : Type 0} → (A → Query E B) → E × Answered A → E × Answered B
  then_answer next (e, answer a) = next a e
  then_answer next (e, failed code) = (e, failed code)

  -- `if err != nil { return }` between two calls.
  abbrev pub ◌>>=◌ : {A B : Type 0} → Query E A → (A → Query E B) → Query E B
  q >>= next = λ e. then_answer next (q e)

  abbrev pub ◌>>◌ : {A B : Type 0} → Query E A → Query E B → Query E B
  q >> next = q >>= λ _. next

  abbrev pub return : {A : Type 0} → A → Query E A
  return a = λ e. (e, answer a)

  -- `_ = call`.
  abbrev pub ignore : {A : Type 0} → Query E A → Query E Unit
  ignore q = λ e. ((q e).0, answer tt)

  unfoldable pub after_error : {A : Type 0} → Query E Unit → E × Answered A → E × Answered A
  after_error cleanup (e, answer a) = (e, answer a)
  after_error cleanup (e, failed code) = ((cleanup e).0, failed code)

  -- `if err != nil { cleanup; return }`.
  abbrev pub on_error : {A : Type 0} → Query E A → Query E Unit → Query E A
  on_error q cleanup = λ e. after_error cleanup (q e)

-- What is called of libdcgm. A call that returns DCGM_ST_OK answers with what it has written.
pub record Library : Type 1 where
  pub Engine : Type 0
  pub group_create : Query Engine ℕ
  pub group_add_device : ℕ → ℕ → Query Engine Unit
  pub group_destroy : ℕ → Query Engine Unit
  pub field_group_create : List ℕ → Query Engine ℕ
  pub field_group_destroy : ℕ → Query Engine Unit
  pub dcgm_watch_fields : ℕ → ℕ → Query Engine Unit
  pub dcgm_update_all_fields : Query Engine Unit
  pub get_latest_values : ℕ → List ℕ → Query Engine (List FieldValueV1)
  pub health_set : ℕ → Query Engine Unit
  pub dcgm_health_check : ℕ → Query Engine HealthResponse

module _ (L : Library) where
  open L use {
    Engine, group_create, group_add_device, group_destroy, field_group_create, field_group_destroy,
    dcgm_watch_fields, dcgm_update_all_fields, get_latest_values, health_set, dcgm_health_check,
  }

  unfoldable pub watch_fields : ℕ → ℕ → Query Engine ℕ
  watch_fields gpu_id fields_group = do
    group ← group_create
    group_add_device group gpu_id
    dcgm_watch_fields group fields_group
    ignore dcgm_update_all_fields
    return group

  -- What `getPciBandwidth` and `latestValuesForDevice` do alike: the values of some fields of a GPU,
  -- with a field group and a group that live as long as the query.
  unfoldable pub fetch_fields : ℕ → List ℕ → Query Engine (List FieldValueV1)
  fetch_fields gpu_id fields = do
    fields_id ← field_group_create fields
    group_id ← on_error (watch_fields gpu_id fields_id) (ignore (field_group_destroy fields_id))
    values ←
        on_error (get_latest_values gpu_id fields)
          (ignore (field_group_destroy fields_id) >> ignore (group_destroy group_id))
    ignore (field_group_destroy fields_id)
    ignore (group_destroy group_id)
    return (to_field_value values)

  -- `healthCheckByGpuId` up to the report.
  unfoldable pub health_check_by_gpu_id : ℕ → Query Engine HealthResponse
  health_check_by_gpu_id gpu_id = do
    group_id ← group_create
    group_add_device group_id gpu_id
    health_set group_id
    response ← dcgm_health_check group_id
    ignore (group_destroy group_id)
    return response
