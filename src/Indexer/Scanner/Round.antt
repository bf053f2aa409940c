-- ===== src/Indexer/Scanner/Round.antt =====
-- crates/indexer/src/scanner.rs: a whole round, `scan_once`, and the loop of `run` until it sleeps. The headers are
-- fetched in ascending order (the source lets the requests race, which only chooses among errors).
pub mod Tables
pub mod Checkpoint
pub mod Plans
pub mod CatchUp
use rgbpp_indexer.Common.{
  insert_number, ℕ, suc, zero, ◌+◌, ◌-◌, max, Bool, true, false, not, ◌&&◌, Option, none, some,
  List, [], ◌∷◌, ◌++◌, map, length, ltb, ◌==◌, if◌then◌else◌,
}
use mathlib.Core.Option
use rgbpp_indexer.Types.Error.{Error, Result, ok, err, panic, inconsistent, ◌>>=◌}
use rgbpp_indexer.Types.Ckb.{H256}
use rgbpp_indexer.Types.Config.{Config, CkbConfig, safe_ckb_target}
use rgbpp_indexer.Client.{
  IoType, input, output, MatchedCell, TxRecord, RpcHeader, Node, TransactionWithStatus, synced_tip,
}
use rgbpp_indexer.Store.Models.{
  BlockRecord, IndexBatch, ApplyStats, StreamState, Database, CellRow, CellKey,
}
use rgbpp_indexer.Store.Apply.{apply_batch, init_stream, record_chain_progress, prune_blocks_below}
use rgbpp_indexer.Indexer.Extract.{BlockContext}
use rgbpp_indexer.Indexer.Resolve.{Pending, process_transaction}
use rgbpp_indexer.Indexer.Scanner.{ScanPlan, no_target, idle, scan, scan_plan}
use rgbpp_indexer.Indexer.Scanner.Merge.{and_then, collect_range}

pub record ScanRound : Type 0 where
  pub from : ℕ
  pub to : ℕ
  pub chain_tip : ℕ
  pub target : ℕ
  pub transactions : ℕ
  pub cells : ℕ
  pub spends : ℕ
  pub backfilled_cells : ℕ
  pub is_idle : Bool

abbrev pub idle_round : ℕ → ℕ → ScanRound
idle_round chain_tip target = record {
  from = 0;
  to = 0;
  chain_tip = chain_tip;
  target = target;
  transactions = 0;
  cells = 0;
  spends = 0;
  backfilled_cells = 0;
  is_idle = true;
}

unfoldable pub block_numbers : List TxRecord → List ℕ
block_numbers [] = []
block_numbers (r ∷ rs) = insert_number r.block_number (block_numbers rs)

-- The indices of the inputs among the matched cells.
unfoldable pub input_indices : List MatchedCell → List ℕ
input_indices [] = []
input_indices (c ∷ cs) =
    let rest = input_indices cs in elim c.io_type [ input ↦ c.io_index ∷ rest | output ↦ rest ]

unfoldable pub find_header : List (ℕ × RpcHeader) → ℕ → Option RpcHeader
find_header [] n = none
find_header ((m, h) ∷ hs) n = let rest = find_header hs n in if m == n then some h else rest

abbrev pub header_row : ℕ → RpcHeader → Bool → BlockRecord
header_row number h activity = record {
  number = number;
  hash = h.hash.bytes;
  parent_hash = h.parent_hash.bytes;
  timestamp = h.timestamp;
  has_rgbpp_activity = activity;
}

unfoldable pub activity_rows : List (ℕ × RpcHeader) → List BlockRecord
activity_rows [] = []
activity_rows ((n, h) ∷ hs) = header_row n h true ∷ activity_rows hs

-- `iter().all(|b| b.number != to)`.
unfoldable pub lacks_block : ℕ → List BlockRecord → Bool
lacks_block to [] = true
lacks_block to (b ∷ bs) = not (b.number == to) && lacks_block to bs

module _ (node : Node) where
  unfoldable pub header_at : ℕ → Result RpcHeader
  header_at number =
      node.header number >>= λ found. elim found [ some h ↦ ok h | none ↦ err inconsistent ]

  unfoldable pub fetch_numbers : List ℕ → Result (List (ℕ × RpcHeader))
  fetch_numbers [] = ok []
  fetch_numbers (n ∷ ns) = do h ← header_at n; hs ← fetch_numbers ns; ok ((n, h) ∷ hs)

  unfoldable pub fetch_headers : List TxRecord → Result (List (ℕ × RpcHeader))
  fetch_headers records = fetch_numbers (block_numbers records)

  abbrev pub header_hash : ℕ → Result (Option (List ℕ))
  header_hash n = node.header n >>= λ found. ok (Option.map (λ h. h.hash.bytes) found)

  -- The header of the checkpoint: from the fetched ones, or from the node.
  unfoldable pub checkpoint_header : List (ℕ × RpcHeader) → ℕ → Result RpcHeader
  checkpoint_header headers to = elim (find_header headers to) [
    | some h ↦ ok h
    | none ↦ header_at to
  ]

abbrev pub empty_batch : Pending
empty_batch = record { cells = []; spends = []; transitions = []; backfilled_cells = 0 }

-- The batch of a round, from what the transactions gave and the headers.
unfoldable pub round_batch : Pending → List (ℕ × RpcHeader) → RpcHeader → ℕ → ℕ → ℕ → ℕ → IndexBatch
round_batch pending headers checkpoint to chain_tip target lag =
    let activity = activity_rows headers in
    record {
      blocks =
          if lacks_block to activity
          then activity ++ (header_row to checkpoint false ∷ [])
          else activity;
      cells = pending.cells;
      spends = pending.spends;
      transitions = pending.transitions;
      checkpoint_number = to;
      checkpoint_hash = some checkpoint.hash.bytes;
      chain_tip = chain_tip;
      target = target;
      reorg_lag = lag;
    }

abbrev pub recorded_target : Option ℕ → ℕ
recorded_target none = 0
recorded_target (some target) = target

-- `!round.idle && round.to < round.target`.
abbrev pub has_backlog : ScanRound → Bool
has_backlog round = not round.is_idle && ltb round.to round.target

-- `set_stream_error`.
abbrev pub set_stream_error : Error → Database → Database
set_stream_error e db = record db {
  state =
      Option.map (λ (row : StreamState). record row { last_error = some e; updated_at = db.clock })
        db.state;
}

-- What a round writes: the batch, the number of transactions and of backfilled cells.
pub record Collected : Type 0 where
  pub batch : IndexBatch
  pub transactions : ℕ
  pub backfilled : ℕ

module _ (blake2b sha256 : List ℕ → List ℕ) (fuel : ℕ) (c : Config) (node : Node) where
  -- The loop over the fetched transactions, in the order of the records.
  unfoldable pub process_records :
      (CellKey → Option CellRow) → List (ℕ × RpcHeader) → List TxRecord → Pending → Result Pending
  process_records rows headers [] batch = ok batch
  process_records rows headers (r ∷ rs) batch = node.transaction r.tx_hash >>= λ found. elim found [
    | none ↦ err inconsistent
    | some ws ↦ elim (find_header headers r.block_number) [
      | none ↦ err inconsistent
      | some h ↦
          process_transaction node.transaction blake2b sha256 c.protocol c.assets rows r.tx_hash
            (input_indices r.cells)
            (record {
              number = r.block_number;
              hash = h.hash;
              timestamp = h.timestamp;
              tx_index = r.tx_index;
            })
            ws batch
          >>= λ next. process_records rows headers rs next
    ]
  ]

  unfoldable pub collect_batch :
      (CellKey → Option CellRow) → ℕ → ℕ → ℕ → ℕ → List TxRecord → Result Collected
  collect_batch rows from to chain_tip target records = do
    headers ← fetch_headers node records
    pending ← process_records rows headers records empty_batch
    checkpoint ← checkpoint_header node headers to
    ok (record {
      batch = round_batch pending headers checkpoint to chain_tip target c.ckb.reorg_lag;
      transactions = length records;
      backfilled = pending.backfilled_cells;
    })

  -- `apply_batch`, then the retention of headers.
  unfoldable pub commit_round : ℕ → ℕ → ℕ → ℕ → Collected → Database → Database × ScanRound
  commit_round from to chain_tip target collected db =
      let (applied, stats) = apply_batch collected.batch db in
      let keep_from = to - c.ckb.header_retention in
      (
        if ltb 0 keep_from then prune_blocks_below keep_from applied else applied,
        record {
          from = from;
          to = to;
          chain_tip = chain_tip;
          target = target;
          transactions = collected.transactions;
          cells = stats.cells;
          spends = stats.spends;
          backfilled_cells = collected.backfilled;
          is_idle = false;
        },
      )

  -- What is fetched for the range, before anything is written.
  abbrev pub collect_scan : ℕ → ℕ → ℕ → ℕ → Database → Option (Result Collected)
  collect_scan from to chain_tip target db =
      and_then (collect_range node c.ckb.page_limit fuel c.protocol from to)
        λ records. some (collect_batch db.cells from to chain_tip target records)

  unfoldable pub finish_scan :
      ℕ → ℕ → ℕ → ℕ → Option (Result Collected) → Database → Database × Option (Result ScanRound)
  finish_scan from to chain_tip target none db = (db, none)
  finish_scan from to chain_tip target (some (err e)) db = (db, some (err e))
  finish_scan from to chain_tip target (some panic) db = (db, some panic)
  finish_scan from to chain_tip target (some (ok collected)) db =
      let (next, round) = commit_round from to chain_tip target collected db in
      (next, some (ok round))

  -- `scan_once` behind the reading of the tip; `db` has the progress recorded.
  unfoldable pub scan_planned :
      ℕ → Result ScanPlan → Database → Database × Option (Result ScanRound)
  scan_planned chain_tip (err e) db = (db, some (err e))
  scan_planned chain_tip panic db = (db, some panic)
  scan_planned chain_tip (ok no_target) db = (db, some (ok (idle_round chain_tip 0)))
  scan_planned chain_tip (ok (idle target)) db = (db, some (ok (idle_round chain_tip target)))
  scan_planned chain_tip (ok (scan from to target)) db =
      finish_scan from to chain_tip target (collect_scan from to chain_tip target db) db

  -- `scan_once` behind `init_stream`, with the tip that was read.
  unfoldable pub scan_at : StreamState → Result ℕ → Database → Database × Option (Result ScanRound)
  scan_at state (err e) db = (db, some (err e))
  scan_at state panic db = (db, some panic)
  scan_at state (ok chain_tip) db =
      scan_planned chain_tip (scan_plan (header_hash node) c.ckb state chain_tip) (
        record_chain_progress chain_tip (recorded_target (safe_ckb_target c.ckb chain_tip))
          c.ckb.reorg_lag db)

  unfoldable pub scan_once : Database → Database × Option (Result ScanRound)
  scan_once db =
      let (opened, state) = init_stream c.ckb.start_block db in
      scan_at state (synced_tip node) opened

  -- The loop of `run` until it goes to sleep, without a shutdown: the last round, or the error that was
  -- written down. It makes `rounds` rounds at most, and `none` says that this, or the fuel, has run out.
  unfoldable pub catch_up : ℕ → Database → Database × Option (Result ScanRound)
  catch_up zero db = (db, none)
  catch_up (suc rounds) db =
      let (next, outcome) = scan_once db in
      elim outcome [
        | none ↦ (next, none)
        | some r ↦ elim r [
          | panic ↦ (next, some panic)
          | err e ↦ (set_stream_error e next, some (err e))
          | ok round ↦ elim (has_backlog round) [
            | true ↦ catch_up rounds next
            | false ↦ (next, some (ok round))
          ]
        ]
      ]
