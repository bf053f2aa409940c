-- ===== src/Store/Apply/Replay.antt =====
-- `apply_batch` run again on its own result: a round that is replayed after a crash.
use rgbpp_indexer.Common.{
  ℕ, ◌≡◌, refl, sym, ap, ◌∙◌, inl, inr, Bool-cases, Option, none, some, List, [], ◌∷◌, fun_ext,
}
use mathlib.Core.Option
use rgbpp_indexer.Store.Models.{
  NewCell, CellSpend, IndexBatch, StreamState, CellRow, CellKey, Database,
}
use rgbpp_indexer.Store.Table.{
  word, word_twice, write_at, insert_at, write_at-LastWins, insert_at-cases, insert_at-some,
  upserts-at,
}
use rgbpp_indexer.Store.Apply.{
  cell_hit, new_row, cell_change, insert_cell, spend_hit, spend_change, insert_cells, apply_spends,
  set_checkpoint, apply_batch,
}
use rgbpp_indexer.Store.Apply.Loops.{
  cell_change-LastWins, upsert_blocks_twice, insert_transitions_twice, spends_twice, spends_at,
  apply_spends-at,
}

-- The words of insertions and of spends write different columns.
abbrev pub inserts_at : CellKey → List NewCell → CellRow → CellRow
inserts_at key = word (write_at cell_hit cell_change key)

one_commutes :
    (now : ℕ) (key : CellKey) (c : NewCell) (s : CellSpend) (r : CellRow)
    → write_at cell_hit cell_change key c (write_at spend_hit (spend_change now) key s r)
      ≡ write_at spend_hit (spend_change now) key s (write_at cell_hit cell_change key c r)
one_commutes now key c s r = elim (Bool-cases (cell_hit c key)) [
  | inl e ↦ elim (Bool-cases (spend_hit s key)) [ inl k ↦ rw (e, k) refl | inr k ↦ rw (e, k) refl ]
  | inr e ↦ rw (e) refl
]

insert_commutes :
    (now : ℕ) (key : CellKey) (c : NewCell) (ss : List CellSpend) (r : CellRow)
    → write_at cell_hit cell_change key c (spends_at now key ss r)
      ≡ spends_at now key ss (write_at cell_hit cell_change key c r)
insert_commutes now key c [] r = refl
insert_commutes now key c (s ∷ ss) r =
    insert_commutes now key c ss (write_at spend_hit (spend_change now) key s r)
    ∙ ap (spends_at now key ss) (one_commutes now key c s r)

inserts_commute :
    (now : ℕ) (key : CellKey) (cs : List NewCell) (ss : List CellSpend) (r : CellRow)
    → inserts_at key cs (spends_at now key ss r) ≡ spends_at now key ss (inserts_at key cs r)
inserts_commute now key [] ss r = refl
inserts_commute now key (c ∷ cs) ss r =
    ap (inserts_at key cs) (insert_commutes now key c ss r)
    ∙ inserts_commute now key cs ss (write_at cell_hit cell_change key c r)

abbrev pub row_insert : CellKey → List NewCell → Option CellRow → Option CellRow
row_insert key = word (insert_at cell_hit new_row cell_change key)

pub insert_cells-at :
    (cs : List NewCell) (t : CellKey → Option CellRow) (key : CellKey)
    → insert_cells cs t key ≡ row_insert key cs (t key)
unfolding insert_cells insert_cell
insert_cells-at = upserts-at cell_hit new_row cell_change

row_replay :
    (now : ℕ) (key : CellKey) (cs : List NewCell) (ss : List CellSpend) (x : Option CellRow)
    → row_insert key cs (Option.map (spends_at now key ss) (row_insert key cs x))
      ≡ Option.map (spends_at now key ss) (row_insert key cs x)
row_replay now key cs ss x =
    elim (insert_at-cases cell_hit new_row cell_change (λ p. refl) key cs x) [
      | inl (e, h) ↦ rw (e, h) h
      | inr (r, h) ↦ rw h (
          insert_at-some cell_hit new_row cell_change key cs
            (spends_at now key ss (inserts_at key cs r))
          ∙ ap some (
              inserts_commute now key cs ss (inserts_at key cs r)
              ∙ ap (spends_at now key ss) (
                  word_twice (write_at cell_hit cell_change key)
                    (write_at-LastWins cell_hit cell_change cell_change-LastWins key) cs r)))
    ]

-- The insertions of a round, run again after its spends, change nothing.
cells_replay :
    (now : ℕ) (cs : List NewCell) (ss : List CellSpend) (t : CellKey → Option CellRow)
    → insert_cells cs (apply_spends now ss (insert_cells cs t)).0
      ≡ (apply_spends now ss (insert_cells cs t)).0
cells_replay now cs ss t = fun_ext λ key.
    insert_cells-at cs (apply_spends now ss (insert_cells cs t)).0 key
    ∙ ap (row_insert key cs) (at_key key)
    ∙ row_replay now key cs ss (t key)
    ∙ sym (at_key key)
  where
    at_key :
        (key : CellKey)
        → (apply_spends now ss (insert_cells cs t)).0 key
          ≡ Option.map (spends_at now key ss) (row_insert key cs (t key))
    at_key key =
        apply_spends-at now ss (insert_cells cs t) key
        ∙ ap (Option.map (spends_at now key ss)) (insert_cells-at cs t key)

cells_twice :
    (now : ℕ) (cs : List NewCell) (ss : List CellSpend) (t : CellKey → Option CellRow)
    → apply_spends now ss (insert_cells cs (apply_spends now ss (insert_cells cs t)).0)
      ≡ apply_spends now ss (insert_cells cs t)
cells_twice now cs ss t =
    ap (apply_spends now ss) (cells_replay now cs ss t) ∙ spends_twice now ss (insert_cells cs t)

state_twice :
    (now : ℕ) (batch : IndexBatch) (x : Option StreamState)
    → Option.map (set_checkpoint now batch) (Option.map (set_checkpoint now batch) x)
      ≡ Option.map (set_checkpoint now batch) x
unfolding set_checkpoint
state_twice now batch none = refl
state_twice now batch (some r) = refl

-- Applied again at the same time, a batch changes nothing.
pub apply_batch_same :
    (batch : IndexBatch) (db : Database)
    → apply_batch batch (apply_batch batch db).0 ≡ apply_batch batch db
unfolding apply_batch
apply_batch_same batch db =
    rw
      (
        upsert_blocks_twice batch.blocks db.blocks,
        cells_twice db.clock batch.cells batch.spends db.cells,
        insert_transitions_twice batch.transitions db.transitions,
        state_twice db.clock batch db.state,
      )
      refl
