-- ===== src/Dcgm/Structs.antt =====
-- The structs of internal/include/dcgm_structs.h, by the sections of the header.
pub mod Limits
pub mod Groups
pub mod Device
pub mod Vgpu
pub mod Policy
pub mod Statistics
pub mod Diagnostics
pub mod Introspection
pub mod Links
