-- ===== src/Demos.antt =====
-- host/demos: clients of the API, from the command line to the compute request.
pub mod Session
pub mod Request
pub mod Checksum
pub mod Sleep
