-- ===== src/Store/Apply/Contents.antt =====
-- What the tables hold after `apply_batch`.
use rgbpp_indexer.Common.{
  ℕ, ◌≡◌, ◌≢◌, refl, ap, ◌∙◌, ◌⊎◌, inl, inr, List, Occurs, true, Bool-cases, none, some,
}
use mathlib.Core.Option
use rgbpp_indexer.Store.Models.{
  BlockRecord, NewCell, CellSpend, IndexBatch, CellRow, CellKey, Database,
}
use rgbpp_indexer.Store.Table.{
  word, word-preserves, word-keeps, write_at, insert_at, insert_at-some, upserts-at,
}
use rgbpp_indexer.Store.Apply.{
  block_hit, block_change, upsert_block, cell_hit, new_row, cell_change, spend_hit, spend_change,
  consumed_of, upsert_blocks, insert_cells, apply_batch,
}
use rgbpp_indexer.Store.Apply.Loops.{spends_at, apply_spends-at}
use rgbpp_indexer.Store.Apply.Replay.{insert_cells-at, row_insert}

flag_kept :
    (key : ℕ) (b r : BlockRecord)
    → r.has_rgbpp_activity ≡ true
    → (write_at block_hit block_change key b r).has_rgbpp_activity ≡ true
flag_kept key b r h = elim (Bool-cases (block_hit b key)) [
  | inl e ↦ rw (e, h) refl
  | inr e ↦ rw (e) h
]

-- A block that is known to carry activity keeps its flag, whatever the batch says of it.
pub apply_batch-activity :
    (batch : IndexBatch) (db : Database) (n : ℕ) (old : BlockRecord)
    → db.blocks n ≡ some old
    → old.has_rgbpp_activity ≡ true
    → (row : BlockRecord) × ((apply_batch batch db).0.blocks n ≡ some row)
      × (row.has_rgbpp_activity ≡ true)
unfolding apply_batch upsert_blocks upsert_block
apply_batch-activity batch db n old e h = (
  _,
  upserts-at block_hit (λ b. b) block_change batch.blocks db.blocks n
      ∙ ap (word (insert_at block_hit (λ b. b) block_change n) batch.blocks) e
      ∙ insert_at-some block_hit (λ b. b) block_change n batch.blocks old,
  word-preserves (write_at block_hit block_change n) {P = λ r. r.has_rgbpp_activity ≡ true}
      (flag_kept n) batch.blocks old h,
)

-- The cells after a batch, by the insertions and then the spends at the key.
apply_batch-cells :
    (batch : IndexBatch) (db : Database) (key : CellKey)
    → (apply_batch batch db).0.cells key
      ≡ Option.map (spends_at db.clock key batch.spends) (row_insert key batch.cells (db.cells key))
unfolding apply_batch
apply_batch-cells batch db key =
    apply_spends-at db.clock batch.spends (insert_cells batch.cells db.cells) key
    ∙ ap (Option.map (spends_at db.clock key batch.spends))
        (insert_cells-at batch.cells db.cells key)

-- `row` is the row of the cell `old` after the spends `spends` at the time `now`: the columns of the cell are as they
-- were but for where it was created, a cell that was consumed is consumed, and what it says of its consumption is what
-- it said before, or what a spend of the cell says.
pub record Keeps (now : ℕ) (key : CellKey) (spends : List CellSpend) (old row : CellRow)
    : Type 0 where
  pub cell_eq :
      record (row.cell) {
        created_block_number = old.cell.created_block_number;
        created_block_hash = old.cell.created_block_hash;
        created_tx_index = old.cell.created_tx_index;
      }
      ≡ old.cell
  pub stays_consumed : old.consumed ≢ none → row.consumed ≢ none
  pub consumed_eq :
      (row.consumed ≡ old.consumed)
      ⊎ ((s : CellSpend) × Occurs s spends
          × (spend_hit s key ≡ true)
          × (row.consumed ≡ some (consumed_of now s)))

module _ (now : ℕ) (key : CellKey) (spends : List CellSpend) (old : CellRow) where
  Keeps-insert :
      (c : NewCell) (r : CellRow)
      → Keeps now key spends old r
      → Keeps now key spends old (write_at cell_hit cell_change key c r)
  Keeps-insert c r h = elim (Bool-cases (cell_hit c key)) [
    | inl e ↦ rw (e) (record {
      cell_eq = h.cell_eq;
      stays_consumed = h.stays_consumed;
      consumed_eq = h.consumed_eq;
    })
    | inr e ↦ rw (e) h
  ]

  Keeps-spend :
      (s : CellSpend) (r : CellRow)
      → Occurs s spends
      → Keeps now key spends old r
      → Keeps now key spends old (write_at spend_hit (spend_change now) key s r)
  Keeps-spend s r o h = elim (Bool-cases (spend_hit s key)) [
    | inl e ↦ rw (e) (record {
      cell_eq = h.cell_eq;
      stays_consumed = λ _ p. cc;
      consumed_eq = inr (s, o, e, refl);
    })
    | inr e ↦ rw (e) h
  ]

-- A cell that the database has is still there after a batch. The columns that `insert_cell` writes are as they were, but
-- for those of where it was created; it is consumed if it was; and its columns of consumption are as they were, or those
-- of a spend of the batch that names the cell, at the time of the batch.
pub apply_batch-Keeps :
    (batch : IndexBatch) (db : Database) (key : CellKey) (old : CellRow)
    → db.cells key ≡ some old
    → (row : CellRow) × ((apply_batch batch db).0.cells key ≡ some row)
      × Keeps db.clock key batch.spends old row
apply_batch-Keeps batch db key old e = (
  _,
  apply_batch-cells batch db key
      ∙ ap (λ x. Option.map (spends_at db.clock key batch.spends) (row_insert key batch.cells x)) e
      ∙ ap (Option.map (spends_at db.clock key batch.spends))
          (insert_at-some cell_hit new_row cell_change key batch.cells old),
  word-keeps (write_at spend_hit (spend_change db.clock) key)
      {P = Keeps db.clock key batch.spends old} batch.spends
      (Keeps-spend db.clock key batch.spends old) _
      (word-preserves (write_at cell_hit cell_change key) {P = Keeps db.clock key batch.spends old}
        (Keeps-insert db.clock key batch.spends old) batch.cells old
        (record { cell_eq = refl; stays_consumed = λ h. h; consumed_eq = inl refl })),
)
