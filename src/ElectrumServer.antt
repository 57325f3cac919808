-- ===== src/ElectrumServer.antt =====
-- sparrow-broadcast-pool/src/electrum_server: the server that wallets connect to.
pub mod Ingest
pub mod Requests
pub mod Lines
pub mod Session
pub mod Answers
pub mod Client
pub mod Process
pub mod Loop
