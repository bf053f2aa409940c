-- ===== src/Store/Apply.antt =====
-- crates/store/src/cells.rs (`apply_batch`), blocks.rs, transitions.rs and state.rs: one round of the scanner,
-- written in one database transaction.
pub mod Loops
pub mod Replay
pub mod Times
pub mod Contents
use rgbpp_indexer.Common.{
  ℕ, ◌+◌, ◌-◌, Bool, Option, none, some, List, [], ◌∷◌, length, ◌==◌, ◌&&◌, ◌||◌, bytes_eq, ltb,
  if◌then◌else◌, true, false,
}
use mathlib.Core.Option
use rgbpp_indexer.Types.Error.{Error}
use rgbpp_indexer.Store.Models.{
  BlockRecord, NewCell, CellSpend, NewTransition, CommitmentStatus, IndexBatch, ApplyStats,
  StreamState, Consumed, CellRow, TransitionRow, CellKey, Database,
}
use rgbpp_indexer.Store.Table.{upsert, update, word}

abbrev pub key_eq : CellKey → CellKey → Bool
key_eq a b = bytes_eq a.ckb_tx_hash b.ckb_tx_hash && (a.output_index == b.output_index)

abbrev pub block_hit : BlockRecord → ℕ → Bool
block_hit b n = b.number == n

-- The flag of a block is never taken back.
abbrev pub block_change : BlockRecord → BlockRecord → BlockRecord
block_change b old = record b {
  has_rgbpp_activity = old.has_rgbpp_activity || b.has_rgbpp_activity;
}

unfoldable pub upsert_block : BlockRecord → (ℕ → Option BlockRecord) → ℕ → Option BlockRecord
upsert_block b = upsert (block_hit b) b (block_change b)

abbrev pub cell_hit : NewCell → CellKey → Bool
cell_hit c key = key_eq (record { ckb_tx_hash = c.ckb_tx_hash; output_index = c.output_index }) key

abbrev pub new_row : NewCell → CellRow
new_row c = record { cell = c; consumed = none }

-- Only where the cell was created is written again.
abbrev pub cell_change : NewCell → CellRow → CellRow
cell_change c old = record old {
  cell = record (old.cell) {
    created_block_number = c.created_block_number;
    created_block_hash = c.created_block_hash;
    created_tx_index = c.created_tx_index;
  };
}

unfoldable pub insert_cell : NewCell → (CellKey → Option CellRow) → CellKey → Option CellRow
insert_cell c = upsert (cell_hit c) (new_row c) (cell_change c)

abbrev pub spend_key : CellSpend → CellKey
spend_key s = record { ckb_tx_hash = s.ckb_tx_hash; output_index = s.output_index }

abbrev pub spend_hit : CellSpend → CellKey → Bool
spend_hit s key = key_eq (spend_key s) key

abbrev pub consumed_of : ℕ → CellSpend → Consumed
consumed_of now s = record {
  block_number = s.consumed_block_number;
  block_hash = s.consumed_block_hash;
  tx_hash = s.consumed_tx_hash;
  tx_index = s.consumed_tx_index;
  input_index = s.consumed_input_index;
  consumed_at = now;
}

abbrev pub spend_change : ℕ → CellSpend → CellRow → CellRow
spend_change now s row = record row { consumed = some (consumed_of now s) }

-- How many rows there are with the key.
abbrev pub rows_of : Option CellRow → ℕ
rows_of (some row) = 1
rows_of none = 0

-- The table after the update, and the number of rows updated: 0 or 1, by the primary key.
unfoldable pub apply_spend :
    ℕ → CellSpend → (CellKey → Option CellRow) → (CellKey → Option CellRow) × ℕ
apply_spend now s t = (update (spend_hit s) (spend_change now s) t, rows_of (t (spend_key s)))

abbrev pub transition_hit : NewTransition → List ℕ → Bool
transition_hit t hash = bytes_eq t.ckb_tx_hash hash

-- A new row has the defaults of the schema.
abbrev pub new_transition_row : NewTransition → TransitionRow
new_transition_row t = record {
  transition = t;
  observed_commitment = none;
  commitment_status = CommitmentStatus.unchecked;
}

abbrev pub transition_change : NewTransition → TransitionRow → TransitionRow
transition_change t old = record old { transition = t }

unfoldable pub insert_transition :
    NewTransition → (List ℕ → Option TransitionRow) → List ℕ → Option TransitionRow
insert_transition t = upsert (transition_hit t) (new_transition_row t) (transition_change t)

-- The four loops of `apply_batch`.
unfoldable pub upsert_blocks : List BlockRecord → (ℕ → Option BlockRecord) → ℕ → Option BlockRecord
upsert_blocks = word upsert_block

unfoldable pub insert_cells : List NewCell → (CellKey → Option CellRow) → CellKey → Option CellRow
insert_cells = word insert_cell

unfoldable pub apply_spends :
    ℕ → List CellSpend → (CellKey → Option CellRow) → (CellKey → Option CellRow) × ℕ
apply_spends now [] t = (t, 0)
apply_spends now (s ∷ ss) t =
    let (t1, n) = apply_spend now s t in let (t2, m) = apply_spends now ss t1 in (t2, n + m)

unfoldable pub insert_transitions :
    List NewTransition → (List ℕ → Option TransitionRow) → List ℕ → Option TransitionRow
insert_transitions = word insert_transition

-- The `UPDATE indexer_state` that comes last.
unfoldable pub set_checkpoint : ℕ → IndexBatch → StreamState → StreamState
set_checkpoint now batch old = record {
  last_block_number = batch.checkpoint_number;
  last_block_hash = batch.checkpoint_hash;
  target_block_number = some batch.target;
  chain_tip_number = some batch.chain_tip;
  reorg_lag = batch.reorg_lag;
  last_error = none;
  updated_at = now;
}

unfoldable pub apply_batch : IndexBatch → Database → Database × ApplyStats
apply_batch batch db =
    let (cells, spent) = apply_spends db.clock batch.spends (insert_cells batch.cells db.cells) in
    (
      record {
        blocks = upsert_blocks batch.blocks db.blocks;
        cells = cells;
        transitions = insert_transitions batch.transitions db.transitions;
        state = Option.map (set_checkpoint db.clock batch) db.state;
        clock = db.clock;
      },
      record {
        blocks = length batch.blocks;
        cells = length batch.cells;
        spends = spent;
        transitions = length batch.transitions;
      },
    )

-- The row that `init_stream` inserts, with the defaults of the schema. The first block is at most 2 ^ 63, so that the
-- column is not negative.
abbrev pub initial_state : ℕ → ℕ → StreamState
initial_state now start_block = record {
  last_block_number = start_block - 1;
  last_block_hash = none;
  target_block_number = none;
  chain_tip_number = none;
  reorg_lag = 0;
  last_error = none;
  updated_at = now;
}

-- `init_stream`: the row is created if it is absent; nothing else changes.
unfoldable pub init_stream : ℕ → Database → Database × StreamState
init_stream start_block db = elim db.state [
  | some row ↦ (db, row)
  | none ↦ (
    record db { state = some (initial_state db.clock start_block) },
    initial_state db.clock start_block,
  )
]

abbrev pub set_progress : ℕ → ℕ → ℕ → ℕ → StreamState → StreamState
set_progress now chain_tip target lag row = record row {
  chain_tip_number = some chain_tip;
  target_block_number = some target;
  reorg_lag = lag;
  updated_at = now;
}

-- `record_chain_progress`: what is known of the chain, without the checkpoint.
unfoldable pub record_chain_progress : ℕ → ℕ → ℕ → Database → Database
record_chain_progress chain_tip target lag db = record db {
  state = Option.map (set_progress db.clock chain_tip target lag) db.state;
}

-- `prune_blocks_below`.
unfoldable pub prune_blocks_below : ℕ → Database → Database
prune_blocks_below keep_from db = record db {
  blocks = λ n. let row = db.blocks n in if ltb n keep_from then none else row;
}
