-- ===== src/Core.antt =====
-- clawfs/core.py: the class `ClawFS`. Every method takes the time at which it runs, and what it
-- draws at random.
pub mod Refcount
pub mod Accounting
pub mod Contents
pub mod Frame
pub mod Outcome
pub mod Paths
pub mod Quota
pub mod Blobs
pub mod Refs
pub mod Gc
pub mod Shares
pub mod Tenants
