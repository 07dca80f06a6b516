-- ===== src/Analyzer/Nodes.antt =====
-- `Analyzer` and `NodeDegradation` of analyzer/analysis.go: the loop over a node's GPUs. What
-- `GPUDegradation` and `GetNodeMetric` do is an argument: they write the database's answers to the
-- degradation data and may end the process.
use gpu_metric_collector.Base.{
  ℕ, suc, ◌≡◌, refl, Bool, false, List, [], ◌∷◌, set, Outcome, ok, panic, index_out_of_range, index,
  ◌>>=◌,
}
use gpu_metric_collector.Base.Text.{Text}
use gpu_metric_collector.Grpcs.{GrpcGpu, GrpcNode}

pub record DegradationPod : Type 0 where
  pub pod_uid : Text
  pub is_degradation : Bool
  pub is_increase : Bool

pub record DegradationGpu : Type 0 where
  pub gpu_uuid : Text
  pub is_degradation : Bool
  pub is_increase : Bool
  pub pod : List DegradationPod

pub record Degradation : Type 0 where
  pub node_name : Text
  pub is_increase : Bool
  pub is_degradation : Bool
  pub gpu : List DegradationGpu

abbrev pub no_degradation : Text → Degradation
no_degradation node_name = record {
  node_name = node_name;
  is_increase = false;
  is_degradation = false;
  gpu = [];
}

module _ (gpu_degradation : GrpcGpu → DegradationGpu → Outcome DegradationGpu)
    (get_node_metric : GrpcNode → Degradation → Outcome ℕ) where
  -- The loop, from the GPU with index `i` on.
  unfoldable pub degrade_gpus : ℕ → List GrpcGpu → Degradation → Outcome Degradation
  degrade_gpus i [] found = ok found
  degrade_gpus i (g ∷ gpus) found = do
    d ← index found.gpu i
    d' ← gpu_degradation g d
    degrade_gpus (suc i) gpus (record found { gpu = set found.gpu i d' })

  unfoldable pub node_degradation : GrpcNode → Degradation → Outcome ℕ
  node_degradation node found = do
    found' ← degrade_gpus 0 node.node_gpu found
    get_node_metric node found'

  unfoldable pub analyzer : GrpcNode → Outcome ℕ
  analyzer node = node_degradation node (no_degradation node.node_name)

  -- The analyzer ends the process by an index out of range on every node that has a GPU, whatever the
  -- database and the analysis of a GPU answer: the degradation data has no element for the GPU.
  pub analyzer-panic :
      (node : GrpcNode) (g : GrpcGpu) (gpus : List GrpcGpu)
      → node.node_gpu ≡ g ∷ gpus
      → analyzer node ≡ panic index_out_of_range
  unfolding analyzer node_degradation degrade_gpus
  analyzer-panic node g gpus h = rw h refl

  -- A node without GPUs goes on to the metrics of the node.
  pub analyzer-get_node_metric :
      (node : GrpcNode)
      → node.node_gpu ≡ []
      → analyzer node ≡ get_node_metric node (no_degradation node.node_name)
  unfolding analyzer node_degradation degrade_gpus
  analyzer-get_node_metric node h = rw h refl
