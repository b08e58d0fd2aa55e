-- ===== src/Kernel.antt =====
-- backend/app/v2/research_runs.py: the durable run kernel, one child module for each group of its
-- operations, over the tables of backend/app/v2/models.py.
pub mod Rows
pub mod Tx
pub mod Session
pub mod Boundary
pub mod Create
pub mod Lease
pub mod Checkpoints
pub mod Partial
pub mod Control
pub mod Retry
pub mod Calls
pub mod Respects
pub mod Fencing
pub mod Stale
pub mod Exclusive
pub mod Consistent
pub mod Agreement
pub mod Frames
pub mod Idempotency
pub mod Leasing
pub mod Queue
pub mod Queries
pub mod Cancel
pub mod AtOnce
pub mod Effects
mod Tests
