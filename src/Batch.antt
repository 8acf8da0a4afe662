-- ===== src/Batch.antt =====
-- tableinator/batch_processor.py: the policy that the loader gives the shared batch engine, the
-- sink that writes a batch and isolates the records that PostgreSQL refuses, and the observer of what
-- becomes of the deliveries.
pub mod Config
pub mod Sink
mod Halves
pub mod Isolation
pub mod Sizes
pub mod Observer
