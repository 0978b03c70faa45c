-- ===== src/Sync.antt =====
-- The primitives of coroutine/src/sync.
pub mod Backoff
pub mod SeqLock
mod Tests
