-- ===== src/Dcgm/Groups/Devices.antt =====
-- `latestValuesForDevice` of pkg/dcgm/device_status.go and `getPciBandwidth` of pkg/dcgm/device_info.go.
use gpu_metric_collector.Base.{ℕ, ◌≡◌, refl, ap, ◌∙◌, List, [], ◌∷◌, map, Outcome, ok}
use gpu_metric_collector.Base.Int.{ℤ}
use gpu_metric_collector.Dcgm.Returns.{Answered, answer, failed}
use gpu_metric_collector.Dcgm.Values.{FieldValueV1, to_field_value}
use gpu_metric_collector.Dcgm.Status.{
  DeviceStatus, device_fields, device_status, pci_fields, pci_bandwidth,
}
use gpu_metric_collector.Dcgm.Status.Named.{
  value_of, status_of, device_status-status_of, bandwidth_of, pci_bandwidth-bandwidth_of,
}
use gpu_metric_collector.Dcgm.Groups.{Query, Library, return, ◌>>=◌, fetch_fields}
use gpu_metric_collector.Dcgm.Groups.Ends.{Ends, Answers, Documented, Same, MayLeak, then_Ends}
use gpu_metric_collector.Dcgm.Groups.Leaks.{fetch_fields-Ends_of}

-- There are as many values as fields, so that no index is out of range before the groups are destroyed.
module _ (L : Library) where
  unfoldable pub latest_values_for_device :
      (Float : Type 0) (float64_of : List ℕ → Float)
      → ℕ
      → Query L.Engine (Outcome (DeviceStatus Float float64_of))
  latest_values_for_device Float float64_of gpu_id = do
    values ← fetch_fields L gpu_id device_fields
    return (device_status Float float64_of values)

  unfoldable pub get_pci_bandwidth : ℕ → Query L.Engine (Outcome ℤ)
  get_pci_bandwidth gpu_id = do
    values ← fetch_fields L gpu_id pci_fields
    return (pci_bandwidth values)

to_field_value_eq : (values : List FieldValueV1) → to_field_value values ≡ values
unfolding to_field_value
to_field_value_eq [] = refl
to_field_value_eq (v ∷ values) = ap (◌∷◌ v) (to_field_value_eq values)

copied_answers :
    (wanted : List FieldValueV1) (a : Answered (List FieldValueV1))
    → Answers (λ values. values ≡ wanted) a
    → Answers (λ values. to_field_value values ≡ wanted) a
copied_answers wanted (answer values) h = to_field_value_eq values ∙ h
copied_answers wanted (failed code) h = h

-- The library holds a value for each field of the GPU, and answers with those of the fields asked for
-- in their order.
abbrev pub Holds : (L : Library) → ℕ → (ℕ → FieldValueV1) → Type 0
Holds L gpu_id held =
    (fields : List ℕ) (e : L.Engine)
    → Answers (λ values. values ≡ map held fields) (L.get_latest_values gpu_id fields e).1

module _ (L : Library) (D : Documented L) (gpu_id : ℕ) (held : ℕ → FieldValueV1)
    (holds : Holds L gpu_id held) where
  open D use {live}

  -- A query that makes something of the values.
  reader_Ends :
      {B : Type 0} (reader : List FieldValueV1 → B) (b : B) (fields gs fs : List ℕ) (e : L.Engine)
      → reader (map held fields) ≡ b
      → live e ≡ (gs, fs)
      → Ends live
          (λ o l. (o ≡ b) × Same gs fs l)
          (MayLeak gs fs)
          ((fetch_fields L gpu_id fields >>= λ values. return (reader values)) e)
  reader_Ends reader b fields gs fs e reads start =
      then_Ends live _ (λ values l. (values ≡ map held fields) × Same gs fs l) (MayLeak gs fs)
        (λ o l. (o ≡ b) × Same gs fs l) (MayLeak gs fs) (fetch_fields L gpu_id fields e)
        (fetch_fields-Ends_of L D (λ values. values ≡ map held fields) gpu_id fields gs fs e
          (λ e'.
            copied_answers (map held fields) (L.get_latest_values gpu_id fields e').1
              (holds fields e'))
          start)
        (λ l leak. leak) (λ e' values (same, left). (ap reader same ∙ reads, left))

  -- `latestValuesForDevice` on a library that holds a value for each field: a call that answers gives
  -- the status whose members are the values of the header's fields named for them, and leaves the
  -- groups and field groups as they were; one that fails may leave one group more.
  pub latest_values_for_device-status_of :
      (Float : Type 0) (float64_of : List ℕ → Float) (gs fs : List ℕ) (e : L.Engine)
      → live e ≡ (gs, fs)
      → Ends live
          (λ o l. (o ≡ ok (status_of Float float64_of (value_of held))) × Same gs fs l)
          (MayLeak gs fs)
          (latest_values_for_device L Float float64_of gpu_id e)
  unfolding latest_values_for_device
  latest_values_for_device-status_of Float float64_of gs fs e start =
      reader_Ends (device_status Float float64_of) (ok (status_of Float float64_of (value_of held)))
        device_fields gs fs e (device_status-status_of Float float64_of held) start

  -- The same of `getPciBandwidth`, which gives the bandwidth of a lane of the greatest generation, 0 for
  -- one above the fourth, times the greatest number of lanes.
  pub get_pci_bandwidth-bandwidth_of :
      (gs fs : List ℕ) (e : L.Engine)
      → live e ≡ (gs, fs)
      → Ends live
          (λ o l. (o ≡ ok (bandwidth_of (value_of held))) × Same gs fs l)
          (MayLeak gs fs)
          (get_pci_bandwidth L gpu_id e)
  unfolding get_pci_bandwidth
  get_pci_bandwidth-bandwidth_of gs fs e start =
      reader_Ends pci_bandwidth (ok (bandwidth_of (value_of held))) pci_fields gs fs e
        (pci_bandwidth-bandwidth_of held) start
