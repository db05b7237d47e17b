-- ===== src/Cache.antt =====
-- Helens/ds: the caches.
pub mod Status
pub mod Lru
pub mod HashLru
pub mod Timed
mod Tests
