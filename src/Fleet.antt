-- ===== src/Fleet.antt =====
-- The fleet of caches, internal/cache/cache.go: each method of `Engine` that drives the runtime.
pub mod Commands
pub mod Query
pub mod Up
pub mod Status
pub mod Discover
pub mod Found
pub mod Down
pub mod Summary
pub mod Gc
pub mod Removal
pub mod Restart
pub mod Docker
pub mod Running
pub mod Result
pub mod AllRunning
mod Tests
