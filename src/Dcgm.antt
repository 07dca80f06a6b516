-- ===== src/Dcgm.antt =====
-- pkg/dcgm and the headers under internal/include that it is compiled against: the Go binding of
-- NVIDIA's data center GPU manager. The functions of libdcgm are parameters.
pub mod Fields
pub mod Layout
pub mod Returns
pub mod Structs
pub mod Values
pub mod Groups
pub mod Bcast
pub mod Topology
pub mod Health
pub mod Queries
pub mod Errors
pub mod Enums
pub mod Status
pub mod Versions
pub mod Policy
pub mod Api
