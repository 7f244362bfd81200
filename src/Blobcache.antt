-- ===== src/Blobcache.antt =====
-- internal/blobcache: the credential-free caching proxy.
pub mod Route
pub mod Types
pub mod Escape
pub mod Record
pub mod Recorded
pub mod Replies
pub mod Stream
pub mod Serve
pub mod Integrity
pub mod Store
pub mod Kept
pub mod Credentials
pub mod Fill
pub mod Stats
pub mod Inventory
pub mod Start
mod Tests
pub mod Sidecar
