-- ===== src/Server.antt =====
-- The gRPC server of cmd/main.go: what it answers about the node and its GPUs.
use gpu_metric_collector.Base.{
  ℕ, zero, suc, ◌+◌, ◌-◌, ◌%◌, ◌^◌, Bool, true, false, Option, none, some, List, [], ◌∷◌, map,
  Outcome, ok, ◌>>=◌, index, set, ltb, if◌then◌else◌,
}
use gpu_metric_collector.Base.Int.{ℤ, pos, negsuc, ltb_ℤ}
use gpu_metric_collector.Base.Text.{Text, text_eq}
use gpu_metric_collector.Grpcs.{GrpcNode, GrpcGpu, NvLink}
pub mod Nvlink
pub mod TotalStorage
pub mod Gpus
pub mod Pci
mod Tests

-- The package's variables `Node[0]`, `GPU`, `gpuuuid` and `prevNodeStorage`.
pub record Server : Type 0 where
  pub node : GrpcNode
  pub gpu : List GrpcGpu
  pub gpuuuid : List Text
  pub prev_node_storage : ℤ

-- userpb.NodeMessage; a field that is not sent is 0 or empty. `gpu_uuid` is sent as one text with
-- blanks between the uuids.
pub record NodeMessage : Type 0 where
  pub node_name : Text
  pub node_totalcpu : ℤ
  pub node_cpu : ℤ
  pub gpu_count : ℤ
  pub node_totalmemory : ℤ
  pub node_memory : ℤ
  pub node_totalstorage : ℤ
  pub node_storage : ℤ
  pub gpu_uuid : Text
  pub max_gpu_memory : ℤ
  pub gpu_1_index : List Text
  pub gpu_2_index : List Text
  pub lanecount : List ℤ

pub record GpuMessage : Type 0 where
  pub gpu_uuid : Text
  pub gpu_used : ℕ
  pub gpu_name : Text
  pub gpu_index : ℤ
  pub gpu_total : ℕ
  pub gpu_free : ℕ
  pub gpu_temp : ℤ
  pub gpu_power : ℤ
  pub mps_count : ℤ
  pub gpu_util : ℤ
  pub gpu_flops : ℤ
  pub gpu_arch : ℤ
  pub gpu_tpower : ℤ

-- Go's conversions, which keep the low bits.
unfoldable pub to_unsigned : ℕ → ℤ → ℕ
to_unsigned bits (pos n) = n % 2 ^ bits
to_unsigned bits (negsuc n) = 2 ^ bits - 1 - n % 2 ^ bits

unfoldable pub to_int32 : ℤ → ℤ
unfolding to_unsigned
to_int32 a = let u = to_unsigned 32 a in if ltb u (2 ^ 31) then pos u else negsuc (2 ^ 32 - 1 - u)

unfoldable pub differs : ℤ → ℤ → Bool
differs a b = if ltb_ℤ a b then true else ltb_ℤ b a

-- `GetNode`: the total storage is only sent when it is not what was sent last.
unfoldable pub get_node : Server → NodeMessage × Server
get_node s = (
  record {
    node_name = s.node.node_name;
    node_totalcpu = pos 0;
    node_cpu = s.node.cpu;
    gpu_count = pos 0;
    node_totalmemory = pos 0;
    node_memory = s.node.memory;
    node_totalstorage =
        if differs s.prev_node_storage s.node.total_storage then s.node.total_storage else pos 0;
    node_storage = s.node.storage;
    gpu_uuid = [];
    max_gpu_memory = pos 0;
    gpu_1_index = [];
    gpu_2_index = [];
    lanecount = [];
  },
  record s { prev_node_storage = s.node.total_storage },
)

unfoldable pub clamped : GrpcGpu → GrpcGpu
clamped g = if ltb_ℤ g.mps_count (pos 0) then record g { mps_count = pos 0 } else g

unfoldable pub gpu_data : GrpcGpu → GpuMessage
gpu_data g = record {
  gpu_uuid = [];
  gpu_used = to_unsigned 64 g.used;
  gpu_name = [];
  gpu_index = pos 0;
  gpu_total = 0;
  gpu_free = to_unsigned 64 g.free;
  gpu_temp = g.temp.current;
  gpu_power = g.power;
  mps_count = g.mps_count;
  gpu_util = g.util;
  gpu_flops = pos 0;
  gpu_arch = pos 0;
  gpu_tpower = pos 0;
}

-- `GetGPU`: the loop over `gpuuuid`.
unfoldable pub find_gpu :
    Text → List Text → ℕ → List GrpcGpu → Outcome (Option GpuMessage × List GrpcGpu)
unfolding clamped gpu_data
find_gpu uuid [] i gpu = ok (none, gpu)
find_gpu uuid (j ∷ js) i gpu =
    let rest = find_gpu uuid js (suc i) gpu in
    if text_eq j uuid
    then (do g ← index gpu i; ok (some (gpu_data (clamped g)), set gpu i (clamped g)))
    else rest

unfoldable pub get_gpu : Text → Server → Outcome (Option GpuMessage × Server)
unfolding find_gpu
get_gpu uuid s = do
  (message, gpu) ← find_gpu uuid s.gpuuuid 0 s.gpu
  ok (message, record s { gpu = gpu })

-- `GetInitData`: the loop for the largest memory.
unfoldable pub max_memory : List Text → ℕ → List GrpcGpu → ℤ → Outcome ℤ
max_memory [] i gpu best = ok best
max_memory (j ∷ js) i gpu best = do
  g ← index gpu i
  max_memory js (suc i) gpu (if ltb_ℤ best g.total then g.total else best)

unfoldable pub init_gpu : GrpcGpu → GpuMessage
init_gpu g = record {
  gpu_uuid = g.uuid;
  gpu_used = to_unsigned 64 g.used;
  gpu_name = g.name;
  gpu_index = g.index;
  gpu_total = to_unsigned 64 g.total;
  gpu_free = to_unsigned 64 g.free;
  gpu_temp = g.temp.current;
  gpu_power = g.power;
  mps_count = g.mps_count;
  gpu_util = g.util;
  gpu_flops = g.flops;
  gpu_arch = g.arch;
  gpu_tpower = g.total_power;
}

-- The loop for the messages; it walks the GPUs and resets their counts in place.
unfoldable pub init_gpus : List Text → ℕ → List GrpcGpu → Outcome (List GpuMessage × List GrpcGpu)
unfolding clamped init_gpu
init_gpus [] i gpu = ok ([], gpu)
init_gpus (j ∷ js) i gpu = do
  g ← index gpu i
  (messages, gpu') ← init_gpus js (suc i) (set gpu i (clamped g))
  ok (init_gpu (clamped g) ∷ messages, gpu')

unfoldable pub init_node : GrpcNode → ℤ → (List Text → Text) → NodeMessage
init_node node max_gpu_memory join = record {
  node_name = node.node_name;
  node_totalcpu = node.total_cpu;
  node_cpu = node.cpu;
  gpu_count = node.count;
  node_totalmemory = node.total_memory;
  node_memory = node.memory;
  node_totalstorage = node.total_storage;
  node_storage = node.storage;
  gpu_uuid = join node.node_uuid;
  max_gpu_memory = max_gpu_memory;
  gpu_1_index = map (λ (l : NvLink). l.gpu1_uuid) node.nv_link_info;
  gpu_2_index = map (λ (l : NvLink). l.gpu2_uuid) node.nv_link_info;
  lanecount = map (λ (l : NvLink). to_int32 l.count_link) node.nv_link_info;
}

-- `join` is strings.Join with a blank.
unfoldable pub get_init_data :
    (List Text → Text) → Server → Outcome (NodeMessage × List GpuMessage × Server)
get_init_data join s = do
  max_gpu_memory ← max_memory s.gpuuuid 0 s.gpu (pos 0)
  (messages, gpu) ← init_gpus s.gpuuuid 0 s.gpu
  ok (
    init_node s.node max_gpu_memory join,
    messages,
    record s { gpu = gpu; prev_node_storage = s.node.total_storage },
  )
