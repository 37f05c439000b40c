-- ===== src/Latency.antt =====
-- firmware/latency: the time stamps of commands, from the kernel's buffers to a table.
pub mod Extract
pub mod Csv
pub mod Table
