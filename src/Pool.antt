-- ===== src/Pool.antt =====
-- The container pool (pkg/exec/pool.go): its state, its operations one module each, and what is
-- proved of them.
pub mod State
pub mod Space
pub mod Get
pub mod Put
pub mod Reap
pub mod Shutdown
pub mod Emptied
pub mod Prewarm
pub mod Longest
pub mod Eviction
pub mod Valid
pub mod Warm
pub mod Cold
pub mod Memory
pub mod Safety
pub mod Calls
pub mod Reaping
pub mod Reaped
pub mod Stocking
pub mod Stocked
pub mod System
pub mod Bound
pub mod RoundTrip
mod Tests
pub mod Books
