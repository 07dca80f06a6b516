-- ===== src/Mps.antt =====
-- gpumpsmetric/gpumpsmetric.go: which pods run on a GPU. The processes that the driver reports are
-- matched with the pods of the node by the container id in each process's cgroup.
pub mod Processes
pub mod Pods
pub mod Assign
pub mod Podmap
pub mod Matching
pub mod Alignment
pub mod Table
pub mod Counters
pub mod Shift
mod Tests
