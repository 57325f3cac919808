-- ===== src/Pool.antt =====
-- sparrow-broadcast-pool/src/pool: the pool of transactions that wait for their broadcast.
pub mod Backend
pub mod Manager
pub mod Due
pub mod Enrich
pub mod Schedule
pub mod Broadcaster
pub mod Confirm
pub mod Restart
