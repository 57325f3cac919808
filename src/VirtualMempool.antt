-- ===== src/VirtualMempool.antt =====
-- sparrow-broadcast-pool/src/pool/virtual_mempool.rs: transactions and their scripthashes, and the
-- responses in which pending transactions are injected.
pub mod Txid
pub mod Inject
pub mod Inputs
pub mod Status
