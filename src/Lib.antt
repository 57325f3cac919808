-- ===== src/Lib.antt =====
-- A verification library for the broadcast pool of Umbrel's Sparrow app
-- (sparrow-broadcast-pool/src, Rust): a service that takes signed bitcoin transactions, keeps them in
-- a SQLite table, shows them to wallets as if they were in the mempool, and sends them when their
-- time, their price or their locktime has come.
--
-- The parts, and the files that model them:
--   Db                 db/models.rs and db/mod.rs: the row of the table broadcast_pool (Db.Models),
--                      one function per SQL statement (Db.Table) and the statistics (Db.Stats).
--                      A table is the list of its rows in the order of insertion.
--   Pool.Backend       pool/manager.rs: the indexer and Bitcoin Core as the manager sees them, the
--                      cached median time past, and the locktime test.
--   Pool.Manager       pool/manager.rs: the state PoolManager and the virtual mempool, the
--                      transactions of which wallets are told before they are sent.
--   Pool.Due           pool/manager.rs: run_scheduler_tick with its three passes (mark due, requeue
--                      failures, broadcast). Its children prove that a tick acts row by row.
--   Pool.Enrich        pool/manager.rs: what a listing or a single view says about a transaction.
--   Pool.Schedule      pool/manager.rs: schedule_at, schedule_by_price, check_price_triggers,
--                      retry_failed_transaction, schedule_transaction.
--   Pool.Confirm       pool/manager.rs: rebroadcast_pending, check_confirmations, remove_transaction.
--   Pool.Restart       pool/manager.rs and electrum_server/mod.rs: the virtual mempool after a restart,
--                      and the inputs' scripthashes of a transaction that was acknowledged.
--   Pool.Broadcaster   pool/broadcaster.rs: the broadcasts that the command line asks for.
--   Migration          the tables of migration plans and their utxos (Migration.Plans, db/), the reading
--                      of Sparrow's exports (Migration.Importer, migration/importer.rs), and the
--                      commands on plans (Migration.Commands, main.rs).
--   Price              price/mod.rs: the chain of price providers, the cache and the last good
--                      snapshot.
--   Config             config.rs: the modes of a broadcast, the settings with their defaults
--                      (Config.Settings), and Config::load with what the environment overrides
--                      (Config.Load).
--   Discovery          discovery.rs: the forms of an indexer's URL (Discovery.Urls), the hosts and
--                      ports that are tried and the settings that are cleared (Discovery.Hosts), the
--                      probes and the scan of subnets (Discovery.Probe), and what becomes of the
--                      settings (Discovery.Apply).
--   ElectrumServer     electrum_server/mod.rs. Ingest: the intake of a transaction that a wallet
--                      broadcasts (handle_broadcast), and when it is to be sent. Requests: reading a
--                      line. Lines: taking lines out of the client's buffer. Session: what is kept of
--                      a wallet, and the answers of the indexer with the pending transactions in
--                      them. Answers: the answers from the server, the cache and the indexer. Client:
--                      one request (handle_one_subrequest) and the requests of a line. Process: the
--                      interception of a broadcast and process_client_line. Loop: handle_connection
--                      as the events that it selects, and the tasks in the background.
--   Scheduler          pool/scheduler.rs: the broadcast loop with its back-off, a pass of each of the
--                      other four loops, and the passes of all five in any order (Scheduler.Final).
--   VirtualMempool     pool/virtual_mempool.rs: the two byte orders of a txid, the injection of
--                      pending transactions into answers (VirtualMempool.Inject), the status hash of a
--                      scripthash (VirtualMempool.Status), and what the inputs of a transaction spend
--                      from (VirtualMempool.Inputs).
--   Examples           a small pool, on which every theorem is applied.
-- A wallet's line reaches the server, which intercepts a broadcast, shows it in the virtual mempool,
-- acknowledges it and leaves a task that writes it to the store; other requests are answered from the
-- pool or by the indexer that Discovery chose. The loops of Scheduler call the manager. The manager
-- (Pool) calls the store (Db) and asks the backend; the price monitor hands prices of the feed (Price)
-- to the manager. Each operation takes the manager's state and returns the next
-- one with its result; a `Result` holds the outermost message of an error.
--
-- How the model stands to the code:
--   * Code outside the repository is a parameter: the answers of the indexer and of Bitcoin Core
--     during one call (Backend), the clocks as one call reads them (Clock), what each price provider
--     returned (Providers), hexadecimal coding (Hex),
--     the decoding of transactions (Bitcoin), dates and random delays (Dates, Draws), the addition of
--     doubles in the statistics, serde_json's parser (SerdeJson), the forwarding of a request, the
--     time limits of tasks, SHA-256 (Outside), the network that is probed, with what
--     an indexer and Bitcoin Core answer there (Net, Addresses), the indexer's answer for a
--     previous transaction (Chain), the environment (Env) and the file that toml reads (ConfigFile).
--   * A client's bytes are UTF-8 and the buffer holds their characters. Writes to the client succeed
--     and are listed, one JSON value for a line. The URL of the indexer stays the same while a list of
--     events is handled. The `panicked` flag stands for a panic of the task, as on an answer of the
--     indexer that is neither an object nor null, or on a log message that cuts a character; nothing
--     is handled after it. A buffer has no more lines than characters, which is the fuel of the loop
--     that takes them out.
--   * Times are nanoseconds since the epoch. The columns hold RFC 3339 texts in UTC, which compare as
--     the times do. Time differences stop at zero where the code's could be negative, and the tests
--     on them come out the same.
--   * A double is a whole multiple of 2^-1074 or one of the three special values; only comparisons
--     are used. The sums of 64-bit values keep their wrap-around; utxo_count is a natural number.
--   * The status column holds the value of its text; the text is read back as the same value.
--   * `to_lowercase` maps ASCII letters. A HashMap is an association list in its iteration order.
--   * SQL statements fail only where the code reports it (a missing id, a taken id, a retry of what
--     has not failed). Mutexes are not poisoned, and a call of the manager, and a pass of a loop, runs alone.
--   * Loops are structural recursion over the rows that the query selected. `decimal` has fuel for
--     20 digits, which every u64 has.
--   * The limits of the code's queries are kept: a tick requeues, and a confirmation round looks at,
--     the newest 1000 transactions, so the theorems on them ask for at most 1000 such transactions.
--   * Distinct ids are the primary key of the table.
--   * A command on a migration plan reads the clock once. The foreign key from the utxos of migrations
--     to the pool forbids the removal of a transaction to which a utxo refers: the manager sees the
--     column of these references as `utxo_links`.
--   * The log is at its default level, info. Where a log message cuts a client's text at a byte, the
--     model panics if that is inside a character. Txids, and the scripthashes that the pool announces,
--     are hexadecimal, and cutting them does not panic.
--   * `as i64` and `as i32` of larger unsigned numbers keep their wrap-around. Hours that
--     `Duration::hours` refuses with a panic are left out.
--
-- Not modelled: sockets, TLS and HTTP (rpc/), the listeners of the Electrum server and its functions
-- that nothing calls, an ingest that ends after its time limit, the HTTP API, the rest of the command line,
-- logging, and the web pages.
pub mod Prelude
pub mod Db
pub mod VirtualMempool
pub mod Pool
pub mod Price
pub mod Examples
pub mod Config
pub mod ElectrumServer
pub mod Scheduler
pub mod Discovery
pub mod Migration
