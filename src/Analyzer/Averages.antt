-- ===== src/Analyzer/Averages.antt =====
-- analyzer/analysis.go: `GetNodeMetric` with `NodeThreshold`, and `GetGPUMetrics`, which compare the
-- node's and the GPU's current metrics with the averages and deviations of the rows of the database.
use gpu_metric_collector.Base.{
  ℕ, Bool, true, false, List, [], ◌∷◌, map, Outcome, ok, panic, nil_dereference, unless_zero, ◌>>=◌,
  index, length, ltb, if◌then◌else◌,
}
use gpu_metric_collector.Base.Int.{ℤ, pos, pos_part}
use gpu_metric_collector.Grpcs.{GrpcGpu, GrpcNode}
use gpu_metric_collector.Analyzer.{
  Floats, query_failed, error_response, answered, GpuMetric, quotient, exceeds, degraded,
  gpu_threshold,
}
use gpu_metric_collector.Analyzer.Columns.{Row, Answer, column, same_pods, sum}
use gpu_metric_collector.Analyzer.Trends.{get_trands, deviations, both_deviations}

-- The columns of a row that `GetNodeMetric` reads.
pub record NodeRow : Type 0 where
  pub cpu : ℤ
  pub memory : ℤ
  pub network_tx : ℤ
  pub network_rx : ℤ
  pub storage : ℤ

unfoldable pub node_row : Row → Outcome NodeRow
node_row row = do
  cpu ← column row 2
  memory ← column row 3
  network_tx ← column row 5
  network_rx ← column row 6
  storage ← column row 7
  ok (record {
    cpu = cpu;
    memory = memory;
    network_tx = network_tx;
    network_rx = network_rx;
    storage = storage;
  })

-- The columns of a row that `GetGPUMetrics` reads.
pub record GpuRow : Type 0 where
  pub fan_speed : ℤ
  pub rx : ℤ
  pub tx : ℤ
  pub power : ℤ
  pub memory : ℤ
  pub temp : ℤ
  pub util : ℤ

unfoldable pub gpu_row : Row → Outcome GpuRow
gpu_row row = do
  fan_speed ← column row 1
  rx ← column row 4
  tx ← column row 5
  power ← column row 7
  memory ← column row 11
  temp ← column row 12
  util ← column row 13
  ok (record {
    fan_speed = fan_speed;
    rx = rx;
    tx = tx;
    power = power;
    memory = memory;
    temp = temp;
    util = util;
  })

unfoldable pub read_rows : {R : Type 0} → (Row → Outcome R) → List Row → Outcome (List R)
read_rows read [] = ok []
read_rows read (row ∷ values) = do r ← read row; rs ← read_rows read values; ok (r ∷ rs)

-- analyzer.NodeMetric with the deviations cut to integers, and what `GetTrands` says of each list.
pub record NodeMetric : Type 0 where
  pub aver_cpu : ℤ
  pub aver_memory : ℤ
  pub aver_storage : ℤ
  pub aver_network_rx : ℤ
  pub aver_network_tx : ℤ
  pub st_dev_cpu : ℤ
  pub st_dev_memory : ℤ
  pub st_dev_storage : ℤ
  pub st_dev_network_rx : ℤ
  pub st_dev_network_tx : ℤ
  pub trend_cpu : Bool
  pub trend_memory : Bool
  pub trend_storage : Bool
  pub trend_rx : Bool
  pub trend_tx : Bool

-- 0 is degraded.
unfoldable pub node_threshold : ℕ → NodeMetric → GrpcNode → ℕ
node_threshold root aver curr =
    if exceeds root aver.aver_cpu aver.st_dev_cpu curr.cpu
    then degraded aver.trend_cpu
    else if exceeds root aver.aver_memory aver.st_dev_memory curr.memory
    then degraded aver.trend_memory
    else if exceeds root aver.aver_network_rx aver.st_dev_network_rx curr.network_rx
    then degraded aver.trend_rx
    else if exceeds root aver.aver_network_tx aver.st_dev_network_tx curr.network_tx
    then degraded aver.trend_tx
    else if exceeds root aver.aver_storage aver.st_dev_storage curr.storage
    then degraded aver.trend_storage
    else 1

module _ (Fl : Floats) where
  open Fl use {of_int, sqrt, truncate}

  -- `*CountNumber`.
  module _ (count_number : ℕ) where
    unfoldable pub mean : List ℤ → Outcome ℤ
    mean xs = unless_zero count_number (quotient (sum xs) count_number)

    abbrev pub per_degree : Fl.Float → ℤ
    per_degree total =
        truncate (Fl.over total (Fl.minus (of_int (pos count_number)) (of_int (pos 1))))

    unfoldable pub st_dev : ℤ → List ℤ → ℤ
    st_dev aver xs = per_degree (deviations Fl aver xs (of_int (pos 0)))

    unfoldable pub trend : ℤ → List ℤ → Bool
    trend aver xs = get_trands Fl (map of_int xs) (of_int aver)

    -- At least 1 where `*CountNumber` is, so that no division by it ends the process after the means.
    abbrev pub root : ℕ
    root = pos_part (truncate (sqrt (of_int (pos count_number))))

    -- The deviation of the storage is added to that of the sent bytes.
    unfoldable pub node_metric : List NodeRow → Outcome NodeMetric
    unfolding mean
    node_metric rows = do
      let cpu = map (λ (r : NodeRow). r.cpu) rows
      let memory = map (λ (r : NodeRow). r.memory) rows
      let tx = map (λ (r : NodeRow). r.network_tx) rows
      let rx = map (λ (r : NodeRow). r.network_rx) rows
      let storage = map (λ (r : NodeRow). r.storage) rows
      aver_cpu ← mean cpu
      aver_memory ← mean memory
      aver_rx ← mean rx
      aver_tx ← mean tx
      aver_storage ← mean storage
      ok (record {
        aver_cpu = aver_cpu;
        aver_memory = aver_memory;
        aver_storage = aver_storage;
        aver_network_rx = aver_rx;
        aver_network_tx = aver_tx;
        st_dev_cpu = st_dev aver_cpu cpu;
        st_dev_memory = st_dev aver_memory memory;
        st_dev_storage = per_degree (of_int (pos 0));
        st_dev_network_rx = st_dev aver_rx rx;
        st_dev_network_tx =
            per_degree (both_deviations Fl aver_tx aver_storage tx storage (of_int (pos 0)));
        trend_cpu = trend aver_cpu cpu;
        trend_memory = trend aver_memory memory;
        trend_storage = trend aver_storage storage;
        trend_rx = trend aver_rx rx;
        trend_tx = trend aver_tx tx;
      })

    unfoldable pub gpu_metric : List GpuRow → Outcome GpuMetric
    unfolding mean
    gpu_metric rows = do
      let fan = map (λ (r : GpuRow). r.fan_speed) rows
      let memory = map (λ (r : GpuRow). r.memory) rows
      let rx = map (λ (r : GpuRow). r.rx) rows
      let tx = map (λ (r : GpuRow). r.tx) rows
      let power = map (λ (r : GpuRow). r.power) rows
      let temp = map (λ (r : GpuRow). r.temp) rows
      let util = map (λ (r : GpuRow). r.util) rows
      aver_fan ← mean fan
      aver_memory ← mean memory
      aver_power ← mean power
      aver_rx ← mean rx
      aver_tx ← mean tx
      aver_temp ← mean temp
      aver_util ← mean util
      ok (record {
        aver_fan_speed = aver_fan;
        aver_memory = aver_memory;
        aver_rx = aver_rx;
        aver_tx = aver_tx;
        aver_power = aver_power;
        aver_temp = aver_temp;
        aver_util = aver_util;
        st_dev_fan_speed = st_dev aver_fan fan;
        st_dev_memory = st_dev aver_memory memory;
        st_dev_rx = st_dev aver_rx rx;
        st_dev_tx = st_dev aver_tx tx;
        st_dev_power = st_dev aver_power power;
        st_dev_temp = st_dev aver_temp temp;
        st_dev_util = st_dev aver_util util;
        trend_fan_speed = trend aver_fan fan;
        trend_memory = trend aver_memory memory;
        trend_rx = trend aver_rx rx;
        trend_tx = trend aver_tx tx;
        trend_power = trend aver_power power;
        trend_util = trend aver_util util;
      })

    -- 2 is that there are too few rows to decide.
    unfoldable pub node_verdict : GrpcNode → List Row → Bool → Outcome ℕ
    node_verdict node values false = ok 2
    node_verdict node values true = do
      rows ← read_rows node_row values
      aver ← node_metric rows
      ok (node_threshold root aver node)

    -- The message on an error calls `response.Error()`, which ends the process where there is no
    -- response; so it does in `GetGPUMetrics`.
    unfoldable pub get_node_metric : Answer → GrpcNode → Outcome ℕ
    get_node_metric query_failed node = panic nil_dereference
    get_node_metric error_response node = ok 2
    get_node_metric (answered []) node = ok 2
    get_node_metric (answered (series ∷ results)) node = do
      values ← index series 0
      let decide : Outcome ℕ =
          same_pods values 8 node.total_podnum 0 count_number >>= node_verdict node values
      if ltb (length values) count_number then ok 2 else decide

    unfoldable pub gpu_verdict : GrpcGpu → List Row → Bool → Outcome ℕ
    gpu_verdict gpu values false = ok 2
    gpu_verdict gpu values true = do
      rows ← read_rows gpu_row values
      aver ← gpu_metric rows
      ok (gpu_threshold root aver gpu)

    -- The number of rows is not tested.
    unfoldable pub get_gpu_metrics : Answer → GrpcGpu → Outcome ℕ
    get_gpu_metrics query_failed gpu = panic nil_dereference
    get_gpu_metrics error_response gpu = ok 2
    get_gpu_metrics (answered []) gpu = ok 2
    get_gpu_metrics (answered (series ∷ results)) gpu = do
      values ← index series 0
      same ← same_pods values 6 (pos (length gpu.gpu_pod)) 0 count_number
      gpu_verdict gpu values same
