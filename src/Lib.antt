-- ===== src/Lib.antt =====
-- The RGB++ indexer.
--
-- The indexer follows the CKB chain behind a lag, finds the cells under the two RGB++ locks, writes them,
-- their consumption and the transitions to PostgreSQL, and compares each transition with the commitment
-- that a Bitcoin transaction publishes. Beside this it asks a Bitcoin data source, on demand and from a
-- queue, whether the outputs that cells are bound to are spent, and reports spends that no transition
-- answers.
--
-- Types models crates/types: Ckb (H256, Script, CellOutput), Bitcoin (BtcTxid and its byte orders),
-- Molecule (the encoder and the reader of molecule tables), Protocol (`RgbppLockArgs`, `BtcTimeLockArgs`,
-- `LockBinding`, `args_with_placeholder_txid`), Commitment (`CommitmentPreimage`, `op_return_payload`,
-- `find_commitment`), State, Asset, Config (`validate`, `safe_ckb_target`), Text (`as_str`, `from_str_opt`)
-- and Json (the JSON values and the hex text of the columns). Error holds the errors and Rust's `Result`
-- with a value for a panic, so that a slice out of bounds is visible.
--
-- Client models crates/ckb/src/client.rs: the answers of the node and of the rich indexer are the record
-- `Node`, and `collect_transactions_in_range` is the loop over the pages of a search. Btc models
-- crates/btc/src/source.rs: the answers of the data source are the record `BtcDataSource`, and
-- `observe_many` groups the questions.
--
-- Indexer models crates/indexer: Extract is extract.rs, function by function (a loop is a function of its
-- own, such as `classify_from` for `classify_outputs`); Resolve is resolve.rs and, of scanner.rs,
-- `process_transaction`, `resolve_input` and `backfill_input`, with the batch in the making as explicit
-- state. Scanner is the rest of scanner.rs: the decision of the range with the check of the checkpoint,
-- Merge for `collect_range`, Round for `scan_once` from the tip to the commit and for the loop of `run`
-- until it sleeps (`catch_up`). The records that `extract` returns are collected in the batch that
-- `Store::apply_batch` writes; the next `scan_once` starts from the checkpoint that this sets. Reconcile is
-- reconcile.rs (`refresh_outpoints`, `refresh_btc_tx`, `drain_queue_once`) with `record_addresses`; its
-- functions take the tables and give them back also when they end with an error. Diff is the rest of it
-- (`reconcile_address`, `resolve_transition`). Verify is verify.rs, and Sweeper the detection of misspends
-- of sweeper.rs; both use `refresh_btc_tx`. Walk is the sweep itself, which ends with that detection.
--
-- Store models crates/store: Models the rows, Table the SQL statements that are used (a table is the
-- function from its primary key to the row), Apply `apply_batch` with its four loops, `init_stream`,
-- `record_chain_progress` and `prune_blocks_below`, Observations, Queue and Anomalies the statements of
-- btc.rs, queue.rs and anomalies.rs. One call is one database transaction, so it is one function, and a
-- database that answers: of its errors only the one is modelled that a statement gives which writes a row
-- twice.
--
-- Numbers are natural numbers, with the casts `as u32` and `as u8` of the encoders and the u64 sums of the
-- range written out as remainders. A column of type i32 or i64 that holds an unsigned number stands for
-- that number; where its sign is read, that is written out: `spent_height`, the target of a round
-- (`reaches`, `is_near`), the order of output indices in a query (`lt_i32`). A checkpoint is not negative:
-- the first block is at most 2 ^ 63. SHA-256 and BLAKE2b are parameters. Times are seconds and stand still
-- during a call; `now()` is the clock of the modelled database. What runs concurrently in the source
-- (requests for headers, transactions and out points) is made one after the other. Where other tasks
-- matter, they are arguments: the rows that others have locked in the queue, and the cells that are live at
-- each page of a sweep.
--
-- Fuel bounds the pages of a search, the rounds of the loop and the pages of a sweep. It is enough when it
-- exceeds the number of the records that the search has, the number of blocks between checkpoint and tip,
-- and the number of the out points that are ever live during the sweep. All other loops are structural
-- recursions.
--
-- Not modelled: the characters of hex and JSON text (hex text is the bytes that it reads as, JSON its
-- entries), serde, the times of insertion (`created_at`, `indexed_at`), logging, the HTTP clients and their
-- retries, the validation of addresses, the HTTP API, the read queries, and of the tasks: the rows of the
-- sweeper's runs and the passes of the address backfill.
pub mod Common
pub mod Types
pub mod Store
pub mod Btc
pub mod Client
pub mod Indexer
mod Tests
