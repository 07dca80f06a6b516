-- ===== src/Dcgm/Health.antt =====
-- pkg/dcgm/health.go: the report of one GPU's health from what the library answers.
use gpu_metric_collector.Base.{
  ℕ, ◌≤◌, ◌<◌, ◌≡◌, refl, String, List, map, take, length, ◌==◌, if◌then◌else◌, Outcome, ok, panic,
  index_out_of_range, ◌>>=◌, collect, collect-take, collect-beyond,
}
use gpu_metric_collector.Base.Text.{Text}
use gpu_metric_collector.Dcgm.Values.{go_string}

-- dcgmHealthSystems_t.
pub data HealthSystem : Type 0 where
  watch_pcie watch_nvlink watch_pmu watch_mcu watch_mem watch_sm watch_inforom : HealthSystem
  watch_thermal watch_power watch_driver watch_nvswitch_nonfatal watch_nvswitch_fatal : HealthSystem

abbrev pub health_system : HealthSystem → ℕ
health_system watch_pcie = 0x1
health_system watch_nvlink = 0x2
health_system watch_pmu = 0x4
health_system watch_mcu = 0x8
health_system watch_mem = 0x10
health_system watch_sm = 0x20
health_system watch_inforom = 0x40
health_system watch_thermal = 0x80
health_system watch_power = 0x100
health_system watch_driver = 0x200
health_system watch_nvswitch_nonfatal = 0x400
health_system watch_nvswitch_fatal = 0x800

-- dcgmHealthWatchResults_t.
pub data HealthWatchResult : Type 0 where
  result_pass result_warn result_fail : HealthWatchResult

abbrev pub health_watch_result : HealthWatchResult → ℕ
health_watch_result result_pass = 0
health_watch_result result_warn = 10
health_watch_result result_fail = 20

-- dcgmIncidentInfo_t, as far as it is read.
pub record IncidentInfo : Type 0 where
  pub system : HealthSystem
  pub health : HealthWatchResult
  pub msg : List ℕ

-- dcgmHealthResponse_v4.
pub record HealthResponse : Type 0 where
  pub overall_health : HealthWatchResult
  pub incident_count : ℕ
  pub incidents : List IncidentInfo

pub record SystemWatch : Type 0 where
  pub typ : String
  pub status : String
  pub error : Text

pub record DeviceHealth : Type 0 where
  pub gpu : ℕ
  pub status : String
  pub watches : List SystemWatch

unfoldable pub health_status : ℕ → String
health_status status =
    if status == 0
    then "Healthy"
    else if status == 10
    then "Warning"
    else if status == 20
    then "Failure"
    else "N/A"

unfoldable pub system_watch : ℕ → String
system_watch watch =
    if watch == 1
    then "PCIe watches"
    else if watch == 2
    then "NVLINK watches"
    else if watch == 4
    then "Power Managemnt unit watches"
    else if watch == 8
    then "Microcontroller unit watches"
    else if watch == 16
    then "Memory watches"
    else if watch == 32
    then "Streaming Multiprocessor watches"
    else if watch == 64
    then "Inforom watches"
    else if watch == 128
    then "Temperature watches"
    else if watch == 256
    then "Power watches"
    else if watch == 512
    then "Driver-related watches"
    else "N/A"

-- The body of the loop over the incidents.
abbrev pub to_watch : IncidentInfo → SystemWatch
to_watch i = record {
  typ = system_watch (health_system i.system);
  status = health_status (health_watch_result i.health);
  error = go_string i.msg;
}

-- `healthCheckByGpuId` from the answer of dcgmHealthCheck on.
unfoldable pub device_health : ℕ → HealthResponse → Outcome DeviceHealth
device_health gpu_id r = collect to_watch r.incidents 0 r.incident_count >>= λ watches. ok (record {
  gpu = gpu_id;
  status = health_status (health_watch_result r.overall_health);
  watches = watches;
})

-- The report has one watch for each incident counted, in order; a count above the array's length ends
-- the process.
pub device_health_lem :
    (gpu_id : ℕ) (r : HealthResponse)
    → (r.incident_count ≤ length r.incidents
        → device_health gpu_id r
          ≡ ok (record {
            gpu = gpu_id;
            status = health_status (health_watch_result r.overall_health);
            watches = map to_watch (take r.incident_count r.incidents);
          }))
      × (length r.incidents < r.incident_count → device_health gpu_id r ≡ panic index_out_of_range)
unfolding device_health
device_health_lem gpu_id r = (
  λ le. rw (collect-take to_watch r.incidents r.incident_count le) refl,
  λ lt. rw (collect-beyond to_watch r.incidents r.incident_count lt) refl,
)
