-- ===== src/Executor.antt =====
-- backend/app/engine/executor.py: a case's task is cut into batches, the batches run on a pool of
-- threads, and their results are recorded, counted and judged.
pub mod Types
pub mod Config
pub mod Batching
pub mod Progress
pub mod Record
pub mod World
pub mod Insert
pub mod Rollback
pub mod Batch
pub mod Pool
pub mod RunAll
pub mod Final
pub mod Recount
pub mod Retry
pub mod Task
pub mod Execute
mod Samples
