-- ===== src/GpuMetric/Rounds.antt =====
-- The turns of the loop of `Gpumetric`: what a turn that goes through has read and written.
use gpu_metric_collector.Base.{
  ℕ, zero, suc, ◌+◌, ◌≤◌, ◌<◌, ◌≡◌, refl, ap, ◌∙◌, sym, subst, some, List, [], ◌∷◌, ◌++◌, map, ok,
  index, length, set, take, arith, ltb, Bool-cases, ok-injective, bind-eq-ok, index-eq-ok,
  lt_of_get_elem?, take-suc-set, length-set, length-take, length-append, map-append_one, inl, inr,
}
use Prim.Native.Nat.{min, max}
use mathlib.Core.Path.{subst₂}
use gpu_metric_collector.Base.Int.{pos}
use gpu_metric_collector.Storage.{Quantities, Collection}
use gpu_metric_collector.Grpcs.{GrpcGpu}
use gpu_metric_collector.Mps.Processes.{Host}
use gpu_metric_collector.Mps.Podmap.{Collected, gpumpsmetric}
use gpu_metric_collector.Mps.Assign.{to_int64}
use gpu_metric_collector.GpuMetric.{
  GpuMap, Device, Nvml, GpuPoint, write_pods, write_gpu, Loop, device_at, grown, measured,
  gpu_point, gpu_round, gpu_rounds,
}
use gpu_metric_collector.GpuMetric.Events.{
  gpu_points, analyzed, node_points, node_points-append, gpu_points-append, analyzed-append,
}

-- The GPU metrics as they follow from a GPU.
abbrev pub point_of : GrpcGpu → GpuPoint
point_of g = record {
  uuid = g.uuid;
  index = g.index;
  gpu_name = g.name;
  memory_total = g.total;
  memory_free = g.free;
  memory_used = g.used;
  utilization = g.util;
  power = g.power;
  temperature = g.temp;
  podnum = length g.gpu_pod;
  fan_speed = g.fan_speed;
}

-- The GPU holds what the driver answered about the device.
pub record Reads (i : ℕ) (d : Device) (g : GrpcGpu) : Type 0 where
  pub uuid : g.uuid ≡ d.uuid
  pub name : g.name ≡ d.name
  pub index : g.index ≡ pos i
  pub total : g.total ≡ to_int64 d.memory_total
  pub free : g.free ≡ to_int64 d.memory_free
  pub used : g.used ≡ to_int64 d.memory_used
  pub temperature : g.temp.current ≡ pos d.temperature
  pub power : g.power ≡ pos d.power_usage
  pub limit : g.total_power ≡ pos d.power_limit
  pub util : g.util ≡ pos d.utilization
  pub fan_speed : g.fan_speed ≡ pos d.fan_speed

measured-Reads : (i : ℕ) (d : Device) (podnum : ℕ) (g : GrpcGpu) → Reads i d (measured i d podnum g)
unfolding measured
measured-Reads i d podnum g = record {
  uuid = refl;
  name = refl;
  index = refl;
  total = refl;
  free = refl;
  used = refl;
  temperature = refl;
  power = refl;
  limit = refl;
  util = refl;
  fan_speed = refl;
}

gpu_point-point_of :
    (i : ℕ) (d : Device) (podnum : ℕ) (g : GrpcGpu)
    → gpu_point i d.uuid (measured i d podnum g) ≡ point_of (measured i d podnum g)
unfolding measured gpu_point
gpu_point-point_of i d podnum g = refl

pub length-grown :
    (count : ℕ) (podmap : List GpuMap)
    → length (grown count podmap) ≡ max (length podmap) (min count (suc (length podmap)))
length-grown count podmap = elim (Bool-cases (ltb (length podmap) count)) [
  | inl h ↦
      rw h
        (length-append podmap (record { gpu_uuid = []; pod_metric = [] } ∷ []) ∙ ground (arith, h))
  | inr h ↦ rw h (ground (arith, h))
]

module _ (nvml : Nvml) where
  -- Each GPU of the list, from index `i` on, holds what the driver answered about its device.
  abbrev pub AllRead : ℕ → List GrpcGpu → Type 0
  AllRead i [] = Unit
  AllRead i (g ∷ gpus) =
      ((d : Device) × (nvml.device i ≡ some d) × Reads i d g) × AllRead (suc i) gpus

  AllRead-append :
      (i k : ℕ) (gpus : List GrpcGpu) (g : GrpcGpu) (d : Device)
      → AllRead i gpus
      → k ≡ i + length gpus
      → nvml.device k ≡ some d
      → Reads k d g
      → AllRead i (gpus ++ g ∷ [])
  AllRead-append i k [] g d h e at r =
      let same : k ≡ i = omega (arith, e) in
      ((d, rw same at at, subst (λ m. Reads m d g) same r), tt)
  AllRead-append i k (x ∷ gpus) g d h e at r =
      (h.0, AllRead-append (suc i) k gpus g d h.1 (omega (arith, e)) at r)

  -- What holds when the loop stands before index `i`: `count` devices, `known` entries of `podmap`
  -- and `size` GPUs at the start.
  pub record Inv (count known size i : ℕ) (s : Loop) : Type 0 where
    pub same_size : length s.gpus ≡ size
    pub in_range : i ≤ size
    pub maps : length s.podmap ≡ max known (min count (known + i))
    pub points : gpu_points s.events ≡ map point_of (take i s.gpus)
    pub reads : AllRead 0 (take i s.gpus)
    pub not_analyzed : analyzed s.events ≡ []
    pub not_written : node_points s.events ≡ []

  module _ (Q : Quantities) (host : Host) (collected : Collection Q.Quantity) where
    -- What a turn leaves behind, from what it has read.
    unfoldable pub after : ℕ → ℕ → Loop → Device → Collected → Loop
    after count i s d mps = record {
      podmap = set (grown count s.podmap) i (record { gpu_uuid = d.uuid; pod_metric = mps.podmap });
      gpus = set s.gpus i (measured i d mps.podnum mps.gpu);
      gpuuuid = s.gpuuuid ++ d.uuid ∷ [];
      events =
          s.events
          ++ write_pods mps.points
            ∷ write_gpu (gpu_point i d.uuid (measured i d mps.podnum mps.gpu))
            ∷ [];
    }

    pub gpu_round-after :
        (count i : ℕ) (s s' : Loop)
        → gpu_round Q host nvml collected count i s ≡ ok s'
        → (d : Device) × (mps : Collected) × (nvml.device i ≡ some d)
          × (i < length s.gpus)
          × (s' ≡ after count i s d mps)
    unfolding gpu_round after
    gpu_round-after count i s s' e =
        let (d, at, e1) = bind-eq-ok (device_at (nvml.device i)) _ e in
        let (entry, _, e2) = bind-eq-ok (index (grown count s.podmap) i) _ e1 in
        let (gpu, found, e3) = bind-eq-ok (index s.gpus i) _ e2 in
        let (mps, _, e4) =
          bind-eq-ok
            (gpumpsmetric Q host d.observe d.uuid collected entry.pod_metric
              (record gpu { gpu_pod = [] }))
            _ e3 in
        (
          d,
          mps,
          ground (arith, at),
          lt_of_get_elem? s.gpus i (index-eq-ok s.gpus i found),
          sym (ok-injective e4),
        )

    pub after-Inv :
        (count known size i : ℕ) (s : Loop) (d : Device) (mps : Collected)
        → nvml.device i ≡ some d
        → i < length s.gpus
        → i < count
        → Inv count known size i s
        → Inv count known size (suc i) (after count i s d mps)
    unfolding after gpu_points analyzed node_points
    after-Inv count known size i s d mps at lt below inv =
        let g : GrpcGpu = measured i d mps.podnum mps.gpu in
        record {
          same_size = length-set s.gpus i g ∙ inv.same_size;
          in_range = omega (arith, inv.same_size);
          maps =
              length-set (grown count s.podmap) i _
              ∙ omega (arith, length-grown count s.podmap, inv.maps);
          points =
              gpu_points-append s.events _
              ∙ ap (λ ps. gpu_points s.events ++ ps)
                  (ap (λ p. p ∷ []) (gpu_point-point_of i d mps.podnum mps.gpu))
              ∙ rw (inv.points, take-suc-set s.gpus i g lt)
                  (sym (map-append_one point_of (take i s.gpus) g));
          reads = rw (take-suc-set s.gpus i g lt) (
              AllRead-append 0 i (take i s.gpus) g d inv.reads (omega (arith, length-take i s.gpus))
                at (measured-Reads i d mps.podnum mps.gpu));
          not_analyzed = analyzed-append s.events _ ∙ rw inv.not_analyzed refl;
          not_written = node_points-append s.events _ ∙ rw inv.not_written refl;
        }

    pub gpu_rounds-Inv :
        (count known size left i : ℕ) (s s' : Loop)
        → i + left ≤ count
        → Inv count known size i s
        → gpu_rounds Q host nvml collected count left i s ≡ ok s'
        → Inv count known size (i + left) s'
    unfolding gpu_rounds
    gpu_rounds-Inv count known size zero i s s' h inv e =
        subst₂ (Inv count known size) (omega arith) (ok-injective e) inv
    gpu_rounds-Inv count known size (suc left) i s s' h inv e =
        let (s1, first, rest) = bind-eq-ok (gpu_round Q host nvml collected count i s) _ e in
        let (d, mps, at, lt, eq) = gpu_round-after count i s s1 first in
        subst (λ k. Inv count known size k s') (omega arith)
          (gpu_rounds-Inv count known size left (suc i) s1 s' (omega arith)
            (subst (Inv count known size (suc i)) (sym eq)
              (after-Inv count known size i s d mps at lt (omega arith) inv))
            rest)
