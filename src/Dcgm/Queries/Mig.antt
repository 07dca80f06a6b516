-- ===== src/Dcgm/Queries/Mig.antt =====
-- What `toMigHierarchy` of pkg/dcgm/mig.go copies.
use gpu_metric_collector.Base.{
  ℕ, zero, suc, ◌+◌, ◌≤◌, ◌<◌, ◌≡◌, refl, sym, ◌∙◌, ◌⊎◌, inl, inr, List, map, ok, panic,
  index_out_of_range, length, set, take, drop, replicate, arith, leb, Bool-cases, leb→le, get_elem?,
  some, get_elem?-lt, get_elem?-le, take-suc-set, take-suc-get_elem?, drop-set_lt, map-append_one,
  length-set, length-replicate,
}
use gpu_metric_collector.Dcgm.Values.{go_string}
use gpu_metric_collector.Dcgm.Returns.{DcgmReturn, error_string}
use gpu_metric_collector.Dcgm.Queries.{
  MigHierarchyInfo, MigHierarchy, to_mig_info, no_info, copy_entities, to_mig_hierarchy,
  get_gpu_instance_hierarchy,
}

-- The Go entry has the members of the C entry, and its uuid up to the zero byte as a text.
abbrev pub IsEntryCopy : MigHierarchyInfo → MigHierarchyInfo → Type 0
IsEntryCopy c info =
    (info.entity ≡ c.entity)
    × (info.parent ≡ c.parent)
    × (info.gpu_uuid ≡ go_string c.gpu_uuid)
    × (info.nvml_gpu_index ≡ c.nvml_gpu_index)
    × (info.nvml_instance_id ≡ c.nvml_instance_id)
    × (info.nvml_compute_instance_id ≡ c.nvml_compute_instance_id)
    × (info.nvml_mig_profile_id ≡ c.nvml_mig_profile_id)
    × (info.nvml_profile_slices ≡ c.nvml_profile_slices)

to_mig_info-IsEntryCopy : (c : MigHierarchyInfo) → IsEntryCopy c (to_mig_info c)
unfolding to_mig_info
to_mig_info-IsEntryCopy c = (refl, refl, refl, refl, refl, refl, refl, refl)

-- The array holds the copies of the first `n` entries, and behind them what it held before.
abbrev Copied : List MigHierarchyInfo → ℕ → List MigHierarchyInfo → List MigHierarchyInfo → Type 0
Copied c_list n before after =
    (length after ≡ length before)
    × (take n after ≡ map to_mig_info (take n c_list))
    × (drop n after ≡ drop n before)

module _ (c_list : List MigHierarchyInfo) where
  store-Copied :
      (i : ℕ) (list : List MigHierarchyInfo) (c : MigHierarchyInfo)
      → i < length list
      → get_elem? c_list i ≡ some c
      → take i list ≡ map to_mig_info (take i c_list)
      → take (suc i) (set list i (to_mig_info c)) ≡ map to_mig_info (take (suc i) c_list)
  store-Copied i list c lt at h =
      take-suc-set list i (to_mig_info c) lt
      ∙ rw (h, take-suc-get_elem? c_list i at) (sym (map-append_one to_mig_info (take i c_list) c))

  copy_entities-Copied :
      (left i : ℕ) (list : List MigHierarchyInfo)
      → i + left ≤ length c_list
      → i + left ≤ length list
      → take i list ≡ map to_mig_info (take i c_list)
      → (after : List MigHierarchyInfo) × (copy_entities c_list i left list ≡ ok after)
        × Copied c_list (i + left) list after
  unfolding copy_entities
  copy_entities-Copied zero i list fits room h =
      let none_left : i + 0 ≡ i = omega arith in (list, refl, (refl, rw none_left h, refl))
  copy_entities-Copied (suc left) i list fits room h =
      let (c, at) = get_elem?-lt c_list i (omega arith) in
      let (old, held) = get_elem?-lt list i (omega arith) in
      let next = set list i (to_mig_info c) in
      let same = length-set list i (to_mig_info c) in
      let (after, went, (len, front, back)) =
        copy_entities-Copied left (suc i) next (omega arith) (omega (arith, same))
          (store-Copied i list c (omega arith) at h) in
      let count : suc i + left ≡ i + suc left = omega arith in
      (
        after,
        rw (at, held) went,
        (
          len ∙ same,
          rw (← count) front,
          rw (← count) (back ∙ drop-set_lt list (suc i + left) i (to_mig_info c) (omega arith)),
        ),
      )

  copy_entities-beyond :
      (left i : ℕ) (list : List MigHierarchyInfo)
      → i ≤ length c_list
      → length c_list < i + left
      → length list ≡ length c_list
      → copy_entities c_list i left list ≡ panic index_out_of_range
  unfolding copy_entities
  copy_entities-beyond zero i list at_most beyond same = absurd (omega arith)
  copy_entities-beyond (suc left) i list at_most beyond same =
      elim (Bool-cases (leb (length c_list) i)) [
        | inl h ↦ rw (get_elem?-le c_list i (leb→le _ _ h)) refl
        | inr h ↦
            let below : i < length c_list = ground (arith, h) in
            let (c, at) = get_elem?-lt c_list i below in
            let (old, held) = get_elem?-lt list i (omega (arith, same)) in
            rw (at, held)
              (copy_entities-beyond left (suc i) (set list i (to_mig_info c)) below (omega arith)
                (length-set list i (to_mig_info c) ∙ same))
      ]

-- `toMigHierarchy` on an array with room for DCGM_MAX_HIERARCHY_INFO entries: a count that the array
-- holds gives the version, the count, the copies of the first entries in order, each with the members of
-- its entry, and empty entries behind them, beside the error of the call; a larger count ends the process, whatever the call's result was.
pub get_gpu_instance_hierarchy-copied :
    (max_hierarchy_info : ℕ) (result : DcgmReturn) (c : MigHierarchy)
    → length c.entity_list ≡ max_hierarchy_info
    → ((m : MigHierarchyInfo) → IsEntryCopy m (to_mig_info m))
      × (((h : MigHierarchy) × (get_gpu_instance_hierarchy max_hierarchy_info result c
              ≡ ok (h, error_string result))
            × (c.count ≤ max_hierarchy_info)
            × (h.version ≡ c.version)
            × (h.count ≡ c.count)
            × (length h.entity_list ≡ max_hierarchy_info)
            × (take c.count h.entity_list ≡ map to_mig_info (take c.count c.entity_list))
            × (drop c.count h.entity_list ≡ drop c.count (replicate max_hierarchy_info no_info)))
          ⊎ ((max_hierarchy_info < c.count)
              × (get_gpu_instance_hierarchy max_hierarchy_info result c
                  ≡ panic index_out_of_range)))
unfolding get_gpu_instance_hierarchy to_mig_hierarchy
get_gpu_instance_hierarchy-copied max_hierarchy_info result c size =
    let empty = replicate max_hierarchy_info no_info in
    let room = length-replicate max_hierarchy_info no_info in
    (
      to_mig_info-IsEntryCopy,
      elim (Bool-cases (leb c.count max_hierarchy_info)) [
        | inl h ↦
            let fits = leb→le c.count max_hierarchy_info h in
            let (after, went, (len, front, back)) =
              copy_entities-Copied c.entity_list c.count 0 empty (omega (arith, size))
                (omega (arith, room)) refl in
            let count : 0 + c.count ≡ c.count = omega arith in
            inl (
              record { version = c.version; count = c.count; entity_list = after },
              rw went refl,
              fits,
              refl,
              refl,
              len ∙ room,
              rw count at front,
              rw count at back,
            )
        | inr h ↦
            let beyond : max_hierarchy_info < c.count = ground (arith, h) in
            inr (
              beyond,
              rw
                  (copy_entities-beyond c.entity_list c.count 0 empty (omega arith)
                    (omega (arith, size)) (room ∙ sym size))
                  refl,
            )
      ],
    )
