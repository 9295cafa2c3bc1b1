-- ===== src/KvServer.antt =====
-- The key-value server: src/kvserver/KvServer.cc, include/kvserver/KvServer.h.
pub mod Interfaces
pub mod Types
pub mod Apply
pub mod Calls
pub mod Refinement
pub mod Retries
pub mod Reads
