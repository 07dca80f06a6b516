-- ===== src/Decode/Spec.antt =====
-- What decode/decode.go means to make of a pod, said of the pod alone: no slots, no order of tests.
use gpu_metric_collector.Base.{ℕ, ◌≡◌, ◌⊎◌, Option, none, some, List, [], ◌∷◌, ◌++◌}
use gpu_metric_collector.Base.Int.{pos, negsuc}
use gpu_metric_collector.Stats.{CpuStats, MemoryStats, FsStats, NodeStats, PodStats}
use gpu_metric_collector.Storage.{Quantities, PodMetricsPoint, binary_si}
use gpu_metric_collector.Decode.{
  Reason, missing_cpu, missing_memory, missing_fs, no_timestamp, DecodeError, of_node, of_pod,
  get_scrape_time_node, get_scrape_time_pod, uint64_quantity,
}

infixl 5 ◌>>=◌
abbrev ◌>>=◌ : {A B : Type 0} → Option A → (A → Option B) → Option B
none >>= f = none
some a >>= f = f a

abbrev pub IsPresent : Option ℕ → Type 0
IsPresent none = ⊥
IsPresent (some n) = Unit {0}

-- The pointers that the decoder reads without a test are there.
abbrev pub MemoryReadable : Option MemoryStats → Type 0
MemoryReadable none = Unit {0}
MemoryReadable (some m) = (m.working_set_bytes ≡ none) ⊎ IsPresent m.usage_bytes

abbrev pub FsReadable : Option FsStats → Type 0
FsReadable none = Unit {0}
FsReadable (some f) = IsPresent f.available_bytes × IsPresent f.capacity_bytes

abbrev pub PodReadable : PodStats → Type 0
PodReadable p =
    (get_scrape_time_pod p.cpu p.memory ≡ none)
    ⊎ (MemoryReadable p.memory × FsReadable p.ephemeral_storage)

abbrev pub PodsReadable : List PodStats → Type 0
PodsReadable [] = Unit {0}
PodsReadable (p ∷ ps) = PodReadable p × PodsReadable ps

-- The same of a node, whose time may also be that of its network or file system.
abbrev pub NodeReadable : NodeStats → Type 0
NodeReadable n =
    (get_scrape_time_node n.cpu n.memory n.network n.fs ≡ none)
    ⊎ (MemoryReadable n.memory × FsReadable n.fs)

abbrev lacks_cpu : Option CpuStats → List Reason
lacks_cpu none = missing_cpu ∷ []
lacks_cpu (some c) = elim c.usage_nano_cores [ none ↦ missing_cpu ∷ [] | some n ↦ [] ]

abbrev lacks_memory : Option MemoryStats → List Reason
lacks_memory none = missing_memory ∷ []
lacks_memory (some m) = elim m.working_set_bytes [ none ↦ missing_memory ∷ [] | some n ↦ [] ]

abbrev lacks_fs : Option FsStats → List Reason
lacks_fs none = missing_fs ∷ []
lacks_fs (some f) = []

abbrev reasons : PodStats → List Reason
reasons p = elim (get_scrape_time_pod p.cpu p.memory) [
  | none ↦ no_timestamp ∷ []
  | some t ↦ lacks_cpu p.cpu ++ lacks_memory p.memory ++ lacks_fs p.ephemeral_storage
]

abbrev errors_of : (Reason → DecodeError) → List Reason → List DecodeError
errors_of wrap [] = []
errors_of wrap (r ∷ rs) = wrap r ∷ errors_of wrap rs

-- All that a pod lacks.
unfoldable pub pod_errors : PodStats → List DecodeError
pod_errors p = errors_of (of_pod p.pod_ref.name) (reasons p)

unfoldable pub pods_errors : List PodStats → List DecodeError
pods_errors [] = []
pods_errors (p ∷ ps) = pod_errors p ++ pods_errors ps

abbrev node_reasons : NodeStats → List Reason
node_reasons n = elim (get_scrape_time_node n.cpu n.memory n.network n.fs) [
  | none ↦ no_timestamp ∷ []
  | some t ↦ lacks_cpu n.cpu ++ lacks_memory n.memory ++ lacks_fs n.fs
]

-- All that a node lacks.
unfoldable pub node_errors : NodeStats → List DecodeError
node_errors n = errors_of (of_node n.node_name) (node_reasons n)

module _ (Q : Quantities) where
  open Q use {Quantity, empty, with_format}

  abbrev bytes : ℕ → Quantity
  bytes n = with_format binary_si (uint64_quantity Q n (pos 0))

  -- The point of a pod that reports all of its metrics; the amounts that the kubelet may leave out
  -- are empty, or zero for the used bytes, and the network is never read.
  unfoldable pub pod_point : PodStats → Option (PodMetricsPoint Quantity)
  pod_point p = do
    time ← get_scrape_time_pod p.cpu p.memory
    cpu ← p.cpu
    nano_cores ← cpu.usage_nano_cores
    memory ← p.memory
    working_set ← memory.working_set_bytes
    usage ← memory.usage_bytes
    fs ← p.ephemeral_storage
    available ← fs.available_bytes
    capacity ← fs.capacity_bytes
    some (record {
      name = p.pod_ref.name;
      namespace = p.pod_ref.namespace;
      metrics_point = record {
        timestamp = time;
        cpu_usage_nano_cores = uint64_quantity Q nano_cores (negsuc 8);
        memory_usage_bytes = bytes usage;
        memory_available_bytes = elim memory.available_bytes as (λ o. Quantity) [
          | none ↦ empty
          | some n ↦ bytes n
        ];
        memory_working_set_bytes = bytes working_set;
        network_rx_bytes = empty;
        network_tx_bytes = empty;
        fs_available_bytes = bytes available;
        fs_capacity_bytes = bytes capacity;
        fs_used_bytes = elim fs.used_bytes as (λ o. Quantity) [ none ↦ bytes 0 | some n ↦ bytes n ];
      };
    })

  -- The pods that report all of their metrics, in the summary's order.
  unfoldable pub complete_pods : List PodStats → List (PodMetricsPoint Quantity)
  complete_pods [] = []
  complete_pods (p ∷ ps) = elim (pod_point p) [
    | none ↦ complete_pods ps
    | some point ↦ point ∷ complete_pods ps
  ]
