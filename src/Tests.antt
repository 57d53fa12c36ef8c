-- ===== src/Tests.antt =====
-- Concrete inputs for the theorems, and runs of the definitions on them.
mod Bits
mod Auth
mod Data
mod Graphs
mod Crate
mod Cancelled
mod Detectors
mod Options
mod Tables
mod Places
mod Runs
mod Built
mod Called
