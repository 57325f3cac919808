-- ===== src/Migration.antt =====
-- sparrow-broadcast-pool/src/db, src/migration and src/main.rs: the plans that move the coins of a
-- wallet, their utxos, and the commands on them.
pub mod Plans
pub mod Importer
pub mod Commands
