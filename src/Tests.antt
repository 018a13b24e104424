-- ===== src/Tests.antt =====
-- Concrete inputs: the theorems applied to them, and runs of the definitions.
mod Scans
mod Logs
mod Sources
mod Fields
mod Coders
mod Graphs
mod Files
mod Numbers
