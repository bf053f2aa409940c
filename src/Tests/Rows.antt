-- ===== src/Tests/Rows.antt =====
-- Extraction, one round of the scanner, and the tables.
use rgbpp_indexer.Common.{
  ℕ, ◌+◌, ◌≡◌, ◌⊎◌, refl, true, some, Option, List, [], ◌∷◌, All, bytes_eq, arith, ◌==◌,
  if◌then◌else◌,
}
use rgbpp_indexer.Types.Error.{Result, ok, err, reorg, inconsistent}
use rgbpp_indexer.Types.Config.{safe_ckb_target}
use rgbpp_indexer.Store.Models.{BlockRecord, CellRow}
use rgbpp_indexer.Store.Apply.{apply_batch, set_checkpoint}
use rgbpp_indexer.Store.Apply.Times.{timeless, at_time, apply_batch_twice}
use rgbpp_indexer.Store.Apply.Contents.{Keeps, apply_batch-activity, apply_batch-Keeps}
use rgbpp_indexer.Indexer.Extract.{RgbppOutput, ExtractedTx, classify_outputs}
use rgbpp_indexer.Indexer.Extract.Outputs.{IsFound, FindsAll, classify_outputs_lem}
use rgbpp_indexer.Indexer.Extract.Rows.{run, HasNothing, IsExtracted, extract_lem}
use rgbpp_indexer.Indexer.Scanner.{
  scan, idle, no_target, scan_plan, assert_checkpoint_still_canonical,
}
use rgbpp_indexer.Indexer.Scanner.Range.{
  IsRange, scan_plan-IsRange, scan_plan-contiguous, scan_plan-reorg,
}
use rgbpp_indexer.Tests.Data.{
  protocol, assets, hash, seal_cell, resolved, block, toy_hash, ckb_config, state, batch, database,
  cell_key, row, activity_block,
}

classify_outputs_lem_example :
    (found : List RgbppOutput) × (classify_outputs protocol (seal_cell ∷ []) ((7 ∷ []) ∷ [])
      ≡ ok found)
    × All (IsFound protocol ((7 ∷ []) ∷ []) 0 (seal_cell ∷ [])) found
    × FindsAll protocol ((7 ∷ []) ∷ []) 0 (seal_cell ∷ []) found
classify_outputs_lem_example = classify_outputs_lem protocol ((7 ∷ []) ∷ []) (seal_cell ∷ [])

extract_lem_example :
    (HasNothing toy_hash toy_hash protocol assets
        (hash 6)
        (seal_cell ∷ [])
        ((7 ∷ []) ∷ [])
        (resolved ∷ [])
        block
      × (run toy_hash toy_hash protocol assets
            (hash 6)
            (seal_cell ∷ [])
            ((7 ∷ []) ∷ [])
            (resolved ∷ [])
            block
          ≡ err inconsistent))
    ⊎ ((tx : ExtractedTx) × (run toy_hash toy_hash protocol assets
            (hash 6)
            (seal_cell ∷ [])
            ((7 ∷ []) ∷ [])
            (resolved ∷ [])
            block
          ≡ ok tx)
        × IsExtracted toy_hash toy_hash protocol assets
            (hash 6)
            (seal_cell ∷ [])
            ((7 ∷ []) ∷ [])
            (resolved ∷ [])
            block
            tx)
extract_lem_example =
    extract_lem toy_hash toy_hash protocol assets (hash 6) (seal_cell ∷ []) ((7 ∷ []) ∷ [])
      (resolved ∷ []) block

apply_batch_twice_example :
    (timeless (apply_batch batch (at_time 90 (apply_batch batch database).0)).0
      ≡ timeless (apply_batch batch database).0)
    × ((apply_batch batch (at_time 90 (apply_batch batch database).0)).1
        ≡ (apply_batch batch database).1)
apply_batch_twice_example = apply_batch_twice batch database 90

apply_batch-activity_example :
    (row : BlockRecord) × ((apply_batch batch database).0.blocks 12 ≡ some row)
    × (row.has_rgbpp_activity ≡ true)
apply_batch-activity_example = apply_batch-activity batch database 12 activity_block refl refl

apply_batch-Keeps_example :
    (new : CellRow) × ((apply_batch batch database).0.cells cell_key ≡ some new)
    × Keeps 70 cell_key batch.spends row new
apply_batch-Keeps_example = apply_batch-Keeps batch database cell_key row refl

-- A node that has the checkpoint's header.
abbrev node : ℕ → Result (Option (List ℕ))
node n = ok (some (1 ∷ []))

first_plan : scan_plan node ckb_config state 100 ≡ ok (scan 10 13 97)
unfolding scan_plan safe_ckb_target assert_checkpoint_still_canonical bytes_eq
first_plan = refl

scan_plan-IsRange_example : IsRange ckb_config state 100 10 13 97
scan_plan-IsRange_example =
    scan_plan-IsRange node ckb_config state 100 (omega arith) (omega arith) first_plan

-- A node for both rounds.
abbrev longer : ℕ → Result (Option (List ℕ))
longer n = if n == 13 then ok (some (8 ∷ [])) else ok (some (1 ∷ []))

round_one : scan_plan longer ckb_config state 100 ≡ ok (scan 10 13 97)
unfolding scan_plan safe_ckb_target assert_checkpoint_still_canonical bytes_eq
round_one = refl

round_two : scan_plan longer ckb_config (set_checkpoint 70 batch state) 101 ≡ ok (scan 14 17 98)
unfolding scan_plan safe_ckb_target assert_checkpoint_still_canonical bytes_eq set_checkpoint
round_two = refl

scan_plan-contiguous_example : 14 ≡ 13 + 1
scan_plan-contiguous_example =
    scan_plan-contiguous longer ckb_config state batch 70 100 101 (omega arith) (omega arith) refl
      round_one round_two

-- A node on another chain.
abbrev other : ℕ → Result (Option (List ℕ))
other n = ok (some (2 ∷ []))

scan_plan-reorg_example :
    (scan_plan other ckb_config state 100 ≡ ok no_target)
    ⊎ (((target : ℕ) × (scan_plan other ckb_config state 100 ≡ ok (idle target)))
        ⊎ (scan_plan other ckb_config state 100 ≡ err (reorg 9 (1 ∷ []) (2 ∷ []))))
scan_plan-reorg_example =
    scan_plan-reorg other ckb_config state 100 (1 ∷ []) (2 ∷ []) (omega arith) refl refl (λ e. cc)
