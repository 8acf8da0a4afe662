-- ===== src/Tests.antt =====
-- Runs of the definitions on concrete inputs.
mod Samples
mod Graph
mod Rows
mod Latch
mod Durable
mod Handler
mod Counters
mod Batch
mod Entities
mod Isolation
