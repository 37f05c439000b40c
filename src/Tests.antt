-- ===== src/Tests.antt =====
-- Runs on concrete data, and the theorems at concrete inputs.
mod Crypt
mod Cs
mod Relay
mod Utils
mod Demos
mod Latency
