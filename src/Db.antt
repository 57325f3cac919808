-- ===== src/Db.antt =====
-- sparrow-broadcast-pool/src/db: the SQLite store of the pool.
pub mod Models
pub mod Table
pub mod Stats
