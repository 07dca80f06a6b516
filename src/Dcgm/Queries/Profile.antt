-- ===== src/Dcgm/Queries/Profile.antt =====
-- What `getSupportedMetricGroups` of pkg/dcgm/profile.go copies.
use gpu_metric_collector.Base.{
  ℕ, ◌≤◌, ◌≡◌, refl, ap, List, map, ok, ◌>>=◌, length, take, collect-take, collect_each-take, All,
  none,
}
use gpu_metric_collector.Dcgm.Returns.{DcgmReturn, error_string, answer}
use gpu_metric_collector.Dcgm.Queries.{
  CmetricGroup, MetricGroup, to_metric_group, metric_groups, get_supported_metric_groups,
}

-- The valid field ids of a group are in their array.
abbrev pub FieldsFit : CmetricGroup → Type 0
FieldsFit c = c.num_field_ids ≤ length c.field_ids

-- The group with its valid field ids.
abbrev pub group_of : CmetricGroup → MetricGroup
group_of c = record {
  major = c.major_id;
  minor = c.minor_id;
  field_ids = map (λ (id : ℕ). id) (take c.num_field_ids c.field_ids);
}

to_metric_group-group_of : (c : CmetricGroup) → FieldsFit c → to_metric_group c ≡ ok (group_of c)
unfolding to_metric_group
to_metric_group-group_of c fits =
    ap
      (λ o. o >>= λ field_ids.
        ok (record { major = c.major_id; minor = c.minor_id; field_ids = field_ids }))
      (collect-take (λ (id : ℕ). id) c.field_ids c.num_field_ids fits)

-- An answered call, a count of groups that the array holds, and for each of them a count of field ids
-- that its own array holds: `getSupportedMetricGroups` returns the first groups in order, each with the
-- first of its field ids in order.
pub get_supported_metric_groups-copied :
    (result : DcgmReturn) (count : ℕ) (groups : List CmetricGroup)
    → error_string result ≡ none
    → count ≤ length groups
    → All FieldsFit (take count groups)
    → get_supported_metric_groups result count groups
      ≡ ok (answer (map group_of (take count groups)))
unfolding get_supported_metric_groups metric_groups
get_supported_metric_groups-copied result count groups answered fits all_fit =
    rw
      (
        answered,
        collect_each-take to_metric_group FieldsFit group_of to_metric_group-group_of groups count
            fits all_fit,
      )
      refl
