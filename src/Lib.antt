-- ===== src/Lib.antt =====
-- The collector of GPU metrics: a daemon that runs on each node of a Kubernetes cluster. cmd/main.go
-- asks the kubelet for a summary, decodes it (decode), asks the NVIDIA driver about each GPU, finds the
-- pods that run on it (gpumpsmetric), writes all to a database, and serves the result over gRPC;
-- pkg/dcgm is a binding of NVIDIA's data center GPU manager that is compiled against the C headers
-- of internal/include.
--
-- Files and code:
--   * Base: names and lemmas that the parts share. Base/Faults has the outcome of code that can end the
--     process (a nil dereference, an index out of range, a division by 0, log.Fatal) as `panic`; Base/Text has texts as
--     lists of bytes with strings.Split; Base/Int has signed integers.
--   * Stats: stats/types.go. Storage: storage/types.go, where resource.Quantity is the parameter
--     `Quantities` with its documented laws as fields; Samples has one such implementation.
--   * Decode: decode/decode.go. A function of the same name in snake_case for each Go function; a
--     pointer field is an Option; the node and the slots that Go writes in place are passed along.
--     Decode/Quantity, Decode/Times, Decode/Pods and Decode/Batch prove, Decode/Spec says what a batch should be.
--   * Grpcs: grpcs/types.go.
--   * Mps: gpumpsmetric/gpumpsmetric.go. Mps/Processes is `getgpuprocess`, Mps/Pods is `getpodlist`, the
--     waiting loop and the table of pods, Mps/Assign the matching of pods with processes, Mps/Podmap the
--     counters and the whole of `Gpumpsmetric`. The other children prove.
--   * Dcgm/Fields: the field identifiers of internal/include/dcgm_fields.h and pkg/dcgm/const.go, a table
--     for each stretch of at most 150 lines.
--   * Dcgm/Policy: pkg/dcgm/policy.go, pkg/dcgm/callback.c, and the structs of
--     internal/include/dcgm_structs.h that they read. Dcgm/Policy/Merge has the goroutines of one
--     registration as a step relation.
--   * Dcgm/Layout: C types and where the x86-64 ABI puts them. Dcgm/Structs: the structs of
--     internal/include/dcgm_structs.h, a definition for each, named as there in snake_case.
--     Dcgm/Versions: the version macros of that header, `makeVersion1` and the others of
--     pkg/dcgm/utils.go, and each place of pkg/dcgm that writes a version.
--   * Dcgm/Returns: dcgmReturn_t. Dcgm/Values: the field values of pkg/dcgm/fields.go, whose unions are
--     lists of bytes.
--   * Dcgm/Groups: the groups that the queries of pkg/dcgm/gpu_group.go, fields.go, device_info.go,
--     device_status.go and health.go create and destroy. libdcgm is the record `Library`, and what
--     internal/include/dcgm_agent.h says of it is `Documented`, with the rules of Dcgm/Groups/Ends.
--     getPciBandwidth and latestValuesForDevice make the same calls, which `fetch_fields` is;
--     Dcgm/Groups/Devices joins them with Dcgm/Status, what they make of the values. Dcgm/Groups/Pids is
--     watchPidFields, followed by getProcessInfo.
--   * Dcgm/Health, Dcgm/Topology: the reports of pkg/dcgm/health.go and pkg/dcgm/topology.go.
--   * Dcgm/Bcast: the subscribers of pkg/dcgm/bcast.go, as a slice over an array that a running round
--     of `broadcast` shares.
--   * Dcgm/Queries: the copies of pkg/dcgm/mig.go (Dcgm/Queries/Mig proves), profile.go (Dcgm/Queries/Profile
--     proves), process_info.go (Dcgm/Queries/Processes, with the readings of Dcgm/Queries/Readings; when it
--     destroys its group is Dcgm/Queries/Destroyed), hostengine_status.go and the list of devices.
--   * Dcgm/Enums: the enums of internal/include/dcgm_structs.h, named as there in snake_case, and C's rule
--     for the value of an enumerator.
--   * Dcgm/Errors: the tables of internal/include/dcgm_errors.h. Dcgm/Errors/Formats reads the conversions of
--     a format string and the arguments that a comment lists.
--   * Dcgm/Api: `Init` and `Shutdown` of pkg/dcgm/api.go and what they call in pkg/dcgm/admin.go.
--   * Server: the handlers `GetNode`, `GetGPU` and `GetInitData` of cmd/main.go, as functions from the
--     package's variables to an answer and the new variables. Server/Pci: the counters that
--     `Get_GPUPci` and `Get_RXTX_Data` share, as a step relation on their statements. Server/Nvlink is
--     `GetNvlinkInfo`, from the buses that each GPU's lanes lead to, up to lane 16 or the driver's first
--     failure.
--   * Scrap: `Scrap` of scrap/scrap.go, with a goroutine for each node and two buffered channels, as a
--     step relation over what `CollectNode` returns for the nodes.
--   * GpuMetric: `Gpumetric` of gpumetric/gpumetric.go over what the driver answers, with its writes and the
--     goroutine of the analyzer as events, which GpuMetric/Events reads. GpuMetric/Rounds is about the loop
--     over the GPUs, GpuMetric/Reports about what a round leaves behind, GpuMetric/Ends about how it ends.
--   * Collector: the start of `main` of cmd/main.go and a turn of its loop, which joins Scrap, CustomMetrics
--     and GpuMetric. Collector/Network proves.
--   * CustomMetrics: `AddToPodCustomMetricServer` of customMetrics/customMetrics.go, and
--     `MemberMetricCollector` of cmd/main.go from the end of `Scrap` on.
--   * Analyzer: `GPUTemperatureAnalysis`, `GPUThreshold`, `PodThreshold` and `GetPodPattern` of
--     analyzer/analysis.go, over abstract floats. Analyzer/Averages has `GetNodeMetric`, `GetGPUMetrics` and
--     `NodeThreshold`, Analyzer/Columns the rows that they read, Analyzer/Trends `GetTrands`,
--     Analyzer/Undecided the proofs. Analyzer/PodAverages has `GetPodMetric`, Analyzer/Degradations
--     `PodDegradation` and `GPUDegradation`. Analyzer/Nodes has `Analyzer` and `NodeDegradation`,
--     over any `GPUDegradation` and `GetNodeMetric`.
--
-- Bounds: the waiting loop is recursion on its 20 rounds and `getpodlist` on its three more tries, as in
-- the code; no other loop needs fuel, since each walks a list. Go's int and int64 are integers with no
-- bound, except in `uint64Quantity`, whose bounds are what it is about.
--
-- Not modelled: the Kubernetes API, /proc, the driver and libdcgm are arguments, and so are the times of
-- the steps; the database gets the points as a list. Left out are the HTTP client of kubeletClient, the
-- generated code of protos, prints and sleeps, and vendored code. The prototypes of
-- internal/include/dcgm_agent.h are for libdcgm. The log of cmd/main.go and `getDeviceInfo`, which copies
-- attributes, have no model.
pub mod Base
pub mod Stats
pub mod Storage
pub mod Samples
pub mod Decode
pub mod Grpcs
pub mod CustomMetrics
pub mod Dcgm
pub mod Mps
pub mod GpuMetric
pub mod Collector
pub mod Server
pub mod Scrap
pub mod Analyzer
