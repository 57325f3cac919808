-- ===== src/Discovery.antt =====
-- sparrow-broadcast-pool/src/discovery.rs: how the pool finds an indexer and its own address.
pub mod Urls
pub mod Hosts
pub mod Probe
pub mod Apply
