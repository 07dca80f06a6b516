-- ===== src/Server/Gpus.antt =====
-- What cmd/main.go answers about the GPUs of the node.
use gpu_metric_collector.Base.{
  suc, ◌≡◌, refl, ap, Option, none, some, List, [], ◌∷◌, ◌++◌, ok, length, set,
  get_elem?-append_middle, append_assoc, if◌then◌else◌, arith, inl, inr, Bool-cases,
}
use gpu_metric_collector.Base.Int.{ℤ, pos, negsuc, ltb_ℤ, ◌≤ℤ◌}
use gpu_metric_collector.Base.Text.{Text, text_eq}
use gpu_metric_collector.Grpcs.{GrpcGpu}
use gpu_metric_collector.Server.{
  Server, GpuMessage, to_unsigned, clamped, gpu_data, find_gpu, get_gpu,
}

set-middle :
    {A : Type 0} (before after : List A) (x v : A)
    → set (before ++ x ∷ after) (length before) v ≡ before ++ v ∷ after
set-middle [] after x v = refl
set-middle (b ∷ before) after x v = ap (◌∷◌ b) (set-middle before after x v)

length_snoc : (xs : List GrpcGpu) (x : GrpcGpu) → length (xs ++ x ∷ []) ≡ suc (length xs)
length_snoc [] x = refl
length_snoc (y ∷ xs) x = ap suc (length_snoc xs x)

-- The first GPU whose uuid is the one asked for.
unfoldable pub first_gpu : Text → List Text → List GrpcGpu → Option GrpcGpu
first_gpu uuid [] gpu = none
first_gpu uuid (j ∷ js) [] = none
first_gpu uuid (j ∷ js) (g ∷ gs) = if text_eq j uuid then some g else first_gpu uuid js gs

unfoldable pub reset_first : Text → List Text → List GrpcGpu → List GrpcGpu
reset_first uuid [] gpu = gpu
reset_first uuid (j ∷ js) [] = []
reset_first uuid (j ∷ js) (g ∷ gs) =
    if text_eq j uuid then clamped g ∷ gs else g ∷ reset_first uuid js gs

-- The count where it is not negative, and 0 where it is.
abbrev pub IsCountOf : ℤ → ℤ → Type 0
IsCountOf count sent = (pos 0 ≤ℤ count → sent ≡ count) × (count ≤ℤ negsuc 0 → sent ≡ pos 0)

-- Nothing of the GPU has changed but a negative count.
abbrev pub IsReset : GrpcGpu → GrpcGpu → Type 0
IsReset g h = (h ≡ record g { mps_count = h.mps_count }) × IsCountOf g.mps_count h.mps_count

-- The message has the GPU's use.
abbrev pub TellsUse : GrpcGpu → GpuMessage → Type 0
TellsUse g m =
    (m.gpu_used ≡ to_unsigned 64 g.used)
    × (m.gpu_free ≡ to_unsigned 64 g.free)
    × (m.gpu_temp ≡ g.temp.current)
    × (m.gpu_power ≡ g.power)
    × (m.gpu_util ≡ g.util)
    × IsCountOf g.mps_count m.mps_count

-- The message has what does not change.
abbrev pub TellsDevice : GrpcGpu → GpuMessage → Type 0
TellsDevice g m =
    (m.gpu_uuid ≡ g.uuid)
    × (m.gpu_name ≡ g.name)
    × (m.gpu_index ≡ g.index)
    × (m.gpu_total ≡ to_unsigned 64 g.total)
    × (m.gpu_flops ≡ g.flops)
    × (m.gpu_arch ≡ g.arch)
    × (m.gpu_tpower ≡ g.total_power)

clamped-IsCountOf : (g : GrpcGpu) → IsCountOf g.mps_count (clamped g).mps_count
unfolding clamped
clamped-IsCountOf g = (λ h. ground arith, λ h. ground arith)

clamped-IsReset : (g : GrpcGpu) → IsReset g (clamped g)
unfolding clamped
clamped-IsReset g = (
  elim (Bool-cases (ltb_ℤ g.mps_count (pos 0))) [ inl h ↦ rw h refl | inr h ↦ rw h refl ],
  clamped-IsCountOf g,
)

gpu_data-TellsUse : (g : GrpcGpu) → TellsUse g (gpu_data (clamped g))
unfolding gpu_data clamped
gpu_data-TellsUse g = elim (Bool-cases (ltb_ℤ g.mps_count (pos 0))) [
  | inl h ↦ rw h (refl, refl, refl, refl, refl, (rw h at (clamped-IsCountOf g)))
  | inr h ↦ rw h (refl, refl, refl, refl, refl, (rw h at (clamped-IsCountOf g)))
]

abbrev pub message_of : Option GrpcGpu → Option GpuMessage
message_of none = none
message_of (some g) = some (gpu_data (clamped g))

find_gpu-first_gpu :
    (uuid : Text) (js : List Text) (before rest : List GrpcGpu)
    → length js ≡ length rest
    → find_gpu uuid js (length before) (before ++ rest)
      ≡ ok (message_of (first_gpu uuid js rest), before ++ reset_first uuid js rest)
unfolding find_gpu first_gpu reset_first
find_gpu-first_gpu uuid [] before rest h = refl
find_gpu-first_gpu uuid (j ∷ js) before [] h = absurd (omega arith)
find_gpu-first_gpu uuid (j ∷ js) before (g ∷ gs) h = elim (Bool-cases (text_eq j uuid)) [
  | inl e ↦ rw (e, get_elem?-append_middle before gs g, set-middle before gs g (clamped g)) refl
  | inr e ↦ rw e (
      rw
        (
          length_snoc before g,
          append_assoc before (g ∷ []) gs,
          append_assoc before (g ∷ []) (reset_first uuid js gs),
        )
        at (find_gpu-first_gpu uuid js (before ++ g ∷ []) gs (omega arith)))
]

-- With a uuid for each GPU, `GetGPU` returns. It answers with the use of the first GPU of the uuid, or
-- with an empty message where there is none, and changes no more than that GPU's count, which it sets
-- to 0 where it is negative.
pub get_gpu-first_gpu :
    (uuid : Text) (s : Server)
    → length s.gpuuuid ≡ length s.gpu
    → (get_gpu uuid s
        ≡ ok (
          message_of (first_gpu uuid s.gpuuuid s.gpu),
          record s { gpu = reset_first uuid s.gpuuuid s.gpu },
        ))
      × ((g : GrpcGpu) → IsReset g (clamped g) × TellsUse g (gpu_data (clamped g)))
unfolding get_gpu
get_gpu-first_gpu uuid s h = (
  rw (find_gpu-first_gpu uuid s.gpuuuid [] s.gpu h) refl,
  λ g. (clamped-IsReset g, gpu_data-TellsUse g),
)

-- The largest of a bound and the memories.
unfoldable pub largest : ℤ → List GrpcGpu → ℤ
largest best [] = best
largest best (g ∷ gs) = largest (if ltb_ℤ best g.total then g.total else best) gs

-- No memory is above the bound.
abbrev pub AtMost : ℤ → List GrpcGpu → Type 0
AtMost bound [] = Unit {0}
AtMost bound (g ∷ gs) = (g.total ≤ℤ bound) × AtMost bound gs
