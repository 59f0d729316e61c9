-- ===== src/Memory.antt =====
-- The memory module, src/memoria/src/.
pub mod Types
pub mod Partitions
pub mod Processes
pub mod Search
pub mod Places
pub mod Shapes
pub mod Joining
pub mod Layout
pub mod Separation
pub mod Tenants
pub mod Leaving
pub mod Registry
pub mod Invariant
pub mod Changes
pub mod Requests
pub mod Service
pub mod Handling
pub mod Threads
pub mod Boot
pub mod Start
pub mod UserSpace
pub mod Disjoint
pub mod Isolation
pub mod Dumping
pub mod Confined
pub mod Reachable
pub mod Tests
pub mod Scenes
