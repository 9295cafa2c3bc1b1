-- ===== src/SkipList.antt =====
-- The skip list: include/common/skipList.h.
pub mod Order
pub mod Types
pub mod Ops
pub mod Cells
pub mod Relink
pub mod Path
pub mod Rep
pub mod Entries
pub mod Writes
pub mod Search
pub mod Rewiring
pub mod Unlinking
pub mod Allocate
pub mod Insert
pub mod Free
pub mod Delete
pub mod AsMap
pub mod Load
pub mod Destroy
pub mod Strings
pub mod Store
