-- ===== src/Server/Tests.antt =====
-- cmd/main.go on a node with one GPU.
use gpu_metric_collector.Base.{◌+◌, ℕ, ◌≡◌, refl, List, [], ◌∷◌, ok}
use gpu_metric_collector.Base.Int.{pos, negsuc}
use gpu_metric_collector.Base.Text.{Text, bytes_of}
use gpu_metric_collector.Grpcs.{GrpcNode, GrpcGpu}
use gpu_metric_collector.Server.{Server, differs, get_gpu, clamped, gpu_data}
use gpu_metric_collector.Server.TotalStorage.{polls, HasTotals, polls-last_total}
use gpu_metric_collector.Server.Pci.{
  PciCall, idle, get_gpu_pci, get_rxtx_data, rounds, rounds-published,
}
use gpu_metric_collector.Server.Gpus.{
  first_gpu, reset_first, message_of, IsReset, TellsUse, get_gpu-first_gpu,
}

abbrev gpu : GrpcGpu
gpu = record {
  uuid = bytes_of "GPU-1";
  total = pos 16000;
  free = pos 12000;
  used = pos 4000;
  name = bytes_of "A100";
  index = pos 0;
  temp = record { current = pos 40; threshold = pos 90; shutdown = pos 95; max_operating = pos 85 };
  power = pos 60;
  mps_count = negsuc 0;
  total_power = pos 250;
  flops = pos 19;
  arch = pos 7;
  util = pos 80;
  fan_speed = pos 30;
  gpu_pod = [];
  gpu_rx = pos 0;
  gpu_tx = pos 0;
  gpu_assingment = pos 0;
  gpu_return = pos 0;
}

abbrev node_with : ℕ → GrpcNode
node_with total = record {
  node_name = bytes_of "worker";
  total_cpu = pos 8;
  cpu = pos 3;
  count = pos 1;
  total_memory = pos 64;
  memory = pos 32;
  total_storage = pos total;
  storage = pos 5;
  network_rx = pos 0;
  network_tx = pos 0;
  total_podnum = pos 0;
  node_uuid = bytes_of "GPU-1" ∷ [];
  node_gpu = gpu ∷ [];
  nv_link_info = [];
}

abbrev server : Server
server = record {
  node = node_with 100;
  gpu = gpu ∷ [];
  gpuuuid = bytes_of "GPU-1" ∷ [];
  prev_node_storage = pos 100;
}

server-HasTotals : HasTotals (node_with 100 ∷ node_with 200 ∷ [])
unfolding differs
server-HasTotals = (refl, (refl, tt))

polls-last_total_example :
    ((polls (node_with 100 ∷ node_with 200 ∷ []) server (pos 100)).1 ≡ pos 200)
    × ((polls (node_with 100 ∷ node_with 200 ∷ []) server (pos 100)).0.prev_node_storage ≡ pos 200)
polls-last_total_example =
    polls-last_total (node_with 100 ∷ node_with 200 ∷ []) server (pos 100) refl server-HasTotals

get_gpu-first_gpu_example :
    (get_gpu (bytes_of "GPU-1") server
      ≡ ok (
        message_of (first_gpu (bytes_of "GPU-1") server.gpuuuid server.gpu),
        record server { gpu = reset_first (bytes_of "GPU-1") server.gpuuuid server.gpu },
      ))
    × ((g : GrpcGpu) → IsReset g (clamped g) × TellsUse g (gpu_data (clamped g)))
get_gpu-first_gpu_example = get_gpu-first_gpu (bytes_of "GPU-1") server refl

abbrev no_join : List Text → Text
no_join uuids = []

abbrev three_rounds : List PciCall
three_rounds = get_gpu_pci 5 ∷ get_rxtx_data ∷ get_gpu_pci 6 ∷ []

rounds-published_example :
    (rounds three_rounds idle).published + (rounds three_rounds idle).tmprx
    ≡ (rounds three_rounds idle).measured
rounds-published_example = rounds-published three_rounds idle refl
