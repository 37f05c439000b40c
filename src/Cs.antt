-- ===== src/Cs.antt =====
-- host/snia_cs_api: the computational storage API over NVMe admin commands.
pub mod Sys
pub mod Types
pub mod Tsp
pub mod Discovery
pub mod Memory
pub mod Query
pub mod Compute
pub mod Utils
