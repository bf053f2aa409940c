-- ===== src/Indexer/Scanner.antt =====
-- crates/indexer/src/scanner.rs: the part of `scan_once` that decides what to scan, and the check of the checkpoint
-- before it. The node is a parameter: `header_hash` gives the hash of the header at a height.
pub mod Range
pub mod Merge
pub mod Round
use rgbpp_indexer.Common.{
  ℕ, ◌+◌, ◌-◌, ◌%◌, ◌^◌, min, max, Bool, ◌||◌, Option, none, some, List, ltb, leb, bytes_eq,
  if◌then◌else◌,
}
use rgbpp_indexer.Types.Error.{Result, ok, err, reorg, inconsistent, ◌>>=◌}
use rgbpp_indexer.Types.Config.{CkbConfig, safe_ckb_target}
use rgbpp_indexer.Store.Models.{StreamState}

-- Arithmetic on u64, as a release build does it.
abbrev pub add_u64 : ℕ → ℕ → ℕ
add_u64 a b = (a + b) % 2 ^ 64

abbrev pub sub_u64 : ℕ → ℕ → ℕ
sub_u64 a b = (a + 2 ^ 64 - b) % 2 ^ 64

-- `(target as i64) <= checkpoint`: the cast makes a number from 2 ^ 63 on negative, and a checkpoint is not.
abbrev pub reaches : ℕ → ℕ → Bool
reaches checkpoint target = leb (2 ^ 63) target || leb target checkpoint

-- `next.max(start_block as i64)`.
abbrev pub max_as_i64 : ℕ → ℕ → ℕ
max_as_i64 next start_block = if leb (2 ^ 63) start_block then next else max next start_block

pub data ScanPlan : Type 0 where
  -- No block may be scanned yet.
  no_target : ScanPlan
  -- Everything up to the target is done.
  idle : ℕ → ScanPlan
  -- Scan from the first to the second height, on the way to the third.
  scan : ℕ → ℕ → ℕ → ScanPlan

module _ (header_hash : ℕ → Result (Option (List ℕ))) where
  unfoldable pub assert_checkpoint_still_canonical : StreamState → Result (Unit {0})
  assert_checkpoint_still_canonical state = elim state.last_block_hash [
    | none ↦ ok tt
    | some stored ↦
        if ltb 0 state.last_block_number
        then (header_hash state.last_block_number >>= λ found. elim found [
          | none ↦ err inconsistent
          | some actual ↦
              if bytes_eq actual stored
              then ok tt
              else err (reorg state.last_block_number stored actual)
        ])
        else ok tt
  ]

  -- `scan_once` from the reading of the tip to the computation of `to`.
  unfoldable pub scan_plan : CkbConfig → StreamState → ℕ → Result ScanPlan
  scan_plan c state chain_tip = elim (safe_ckb_target c chain_tip) [
    | none ↦ ok no_target
    | some target ↦
        let checkpoint = state.last_block_number in
        if reaches checkpoint target
        then ok (idle target)
        else assert_checkpoint_still_canonical state >>= λ _.
            let from = max_as_i64 (checkpoint + 1) c.start_block in
            ok (scan from (min target (sub_u64 (add_u64 from c.batch_blocks) 1)) target)
  ]
