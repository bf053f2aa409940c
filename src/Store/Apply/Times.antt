-- ===== src/Store/Apply/Times.antt =====
-- `apply_batch` run again later, as after a crash: what differs are times.
use rgbpp_indexer.Common.{
  ℕ, ◌≡◌, refl, sym, ap, ◌∙◌, inl, inr, Bool-cases, Option, none, some, List, fun_ext,
}
use mathlib.Core.Option
use rgbpp_indexer.Store.Models.{
  NewCell, CellSpend, IndexBatch, StreamState, Consumed, CellRow, CellKey, Database,
}
use rgbpp_indexer.Store.Table.{word-map, write_at, insert_at}
use rgbpp_indexer.Store.Apply.{
  cell_hit, new_row, cell_change, spend_hit, spend_change, rows_of, insert_cells, apply_spends,
  set_checkpoint, apply_batch,
}
use rgbpp_indexer.Store.Apply.Loops.{rows_of-map, spends_at, apply_spends-at, apply_spends-count}
use rgbpp_indexer.Store.Apply.Replay.{row_insert, insert_cells-at, apply_batch_same}

abbrev pub timeless_row : CellRow → CellRow
timeless_row r = record r {
  consumed = Option.map (λ (c : Consumed). record c { consumed_at = 0 }) r.consumed;
}

abbrev pub timeless_state : StreamState → StreamState
timeless_state s = record s { updated_at = 0 }

-- A database without its times: the clock, `consumed_at` and `updated_at`.
abbrev pub timeless : Database → Database
timeless db = record db {
  cells = λ key. Option.map timeless_row (db.cells key);
  state = Option.map timeless_state db.state;
  clock = 0;
}

-- The database as it stands, at another time.
abbrev pub at_time : ℕ → Database → Database
at_time now db = record db { clock = now }

timeless-insert :
    (key : CellKey) (c : NewCell) (x : Option CellRow)
    → Option.map timeless_row (insert_at cell_hit new_row cell_change key c x)
      ≡ insert_at cell_hit new_row cell_change key c (Option.map timeless_row x)
timeless-insert key c none = elim (Bool-cases (cell_hit c key)) [
  | inl e ↦ rw e refl
  | inr e ↦ rw e refl
]
timeless-insert key c (some r) = elim (Bool-cases (cell_hit c key)) [
  | inl e ↦ rw e refl
  | inr e ↦ rw e refl
]

timeless-spend :
    (now : ℕ) (key : CellKey) (s : CellSpend) (r : CellRow)
    → timeless_row (write_at spend_hit (spend_change now) key s r)
      ≡ write_at spend_hit (spend_change 0) key s (timeless_row r)
timeless-spend now key s r = elim (Bool-cases (spend_hit s key)) [
  | inl e ↦ rw e refl
  | inr e ↦ rw e refl
]

timeless-spends :
    (now : ℕ) (key : CellKey) (ss : List CellSpend) (x : Option CellRow)
    → Option.map timeless_row (Option.map (spends_at now key ss) x)
      ≡ Option.map (spends_at 0 key ss) (Option.map timeless_row x)
timeless-spends now key ss none = refl
timeless-spends now key ss (some r) = ap some (
    word-map (write_at spend_hit (spend_change now) key) (write_at spend_hit (spend_change 0) key)
      timeless_row (timeless-spend now key) ss r)

-- The cells after a batch, without their times.
timeless-cells :
    (now : ℕ) (cs : List NewCell) (ss : List CellSpend) (t : CellKey → Option CellRow)
    (key : CellKey)
    → Option.map timeless_row ((apply_spends now ss (insert_cells cs t)).0 key)
      ≡ (apply_spends 0 ss (insert_cells cs (λ key. Option.map timeless_row (t key)))).0 key
timeless-cells now cs ss t key =
    let u : CellKey → Option CellRow = λ key. Option.map timeless_row (t key) in
    ap (Option.map timeless_row) (
      apply_spends-at now ss (insert_cells cs t) key
      ∙ ap (Option.map (spends_at now key ss)) (insert_cells-at cs t key))
    ∙ timeless-spends now key ss (row_insert key cs (t key))
    ∙ ap (Option.map (spends_at 0 key ss)) (
        word-map (insert_at cell_hit new_row cell_change key)
          (insert_at cell_hit new_row cell_change key) (Option.map timeless_row)
          (timeless-insert key) cs (t key))
    ∙ sym (
        apply_spends-at 0 ss (insert_cells cs u) key
        ∙ ap (Option.map (spends_at 0 key ss)) (insert_cells-at cs u key))

timeless-count :
    (now : ℕ) (cs : List NewCell) (ss : List CellSpend) (t : CellKey → Option CellRow)
    → (apply_spends now ss (insert_cells cs t)).1
      ≡ (apply_spends 0 ss (insert_cells cs (λ key. Option.map timeless_row (t key)))).1
timeless-count now cs ss t =
    let u : CellKey → Option CellRow = λ key. Option.map timeless_row (t key) in
    apply_spends-count now 0 ss (insert_cells cs t) (insert_cells cs u) λ key.
      sym (rows_of-map timeless_row (insert_cells cs t key))
      ∙ ap rows_of (
          ap (Option.map timeless_row) (insert_cells-at cs t key)
          ∙ word-map (insert_at cell_hit new_row cell_change key)
              (insert_at cell_hit new_row cell_change key) (Option.map timeless_row)
              (timeless-insert key) cs (t key)
          ∙ sym (insert_cells-at cs u key))

timeless-state :
    (now : ℕ) (batch : IndexBatch) (x : Option StreamState)
    → Option.map timeless_state (Option.map (set_checkpoint now batch) x)
      ≡ Option.map (set_checkpoint 0 batch) (Option.map timeless_state x)
unfolding set_checkpoint
timeless-state now batch none = refl
timeless-state now batch (some s) = refl

-- Only the times depend on the times.
timeless-apply :
    (batch : IndexBatch) (db : Database)
    → timeless (apply_batch batch db).0 ≡ (apply_batch batch (timeless db)).0
unfolding apply_batch
timeless-apply batch db = λ i. record {
  blocks = (apply_batch batch db).0.blocks;
  cells = fun_ext (timeless-cells db.clock batch.cells batch.spends db.cells) i;
  transitions = (apply_batch batch db).0.transitions;
  state = timeless-state db.clock batch db.state i;
  clock = 0;
}

stats-timeless :
    (batch : IndexBatch) (db : Database)
    → (apply_batch batch db).1 ≡ (apply_batch batch (timeless db)).1
unfolding apply_batch
stats-timeless batch db =
    ap (λ n. record ((apply_batch batch db).1) { spends = n })
      (timeless-count db.clock batch.cells batch.spends db.cells)

-- A batch that is applied again, at any time, to the database that it has made gives the same statistics, and the
-- same database but for `consumed_at`, `updated_at` and the clock.
pub apply_batch_twice :
    (batch : IndexBatch) (db : Database) (later : ℕ)
    → (timeless (apply_batch batch (at_time later (apply_batch batch db).0)).0
        ≡ timeless (apply_batch batch db).0)
      × ((apply_batch batch (at_time later (apply_batch batch db).0)).1 ≡ (apply_batch batch db).1)
apply_batch_twice batch db later =
    let again = at_time later (apply_batch batch db).0 in
    let same : timeless again ≡ (apply_batch batch (timeless db)).0 = timeless-apply batch db in
    let replay = ap (apply_batch batch) same ∙ apply_batch_same batch (timeless db) in
    (
      timeless-apply batch again ∙ ap (λ p. p.0) replay ∙ sym (timeless-apply batch db),
      stats-timeless batch again ∙ ap (λ p. p.1) replay ∙ sym (stats-timeless batch db),
    )
