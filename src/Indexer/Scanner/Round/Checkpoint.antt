-- ===== src/Indexer/Scanner/Round/Checkpoint.antt =====
-- What a round does to the tables and to the checkpoint, whatever the node answers.
use rgbpp_indexer.Common.{
  ℕ, ◌-◌, ◌≡◌, refl, sym, ap, ap₂, ◌∙◌, inl, inr, Bool-cases, Option, none, some, List, ltb,
  some-injective,
}
use mathlib.Core.Option
use rgbpp_indexer.Types.Error.{Result, ok, err, panic, ok-injective, >>=-eq-ok}
use rgbpp_indexer.Types.Config.{Config, safe_ckb_target}
use rgbpp_indexer.Client.{TxRecord, RpcHeader, Node, synced_tip}
use rgbpp_indexer.Store.Models.{StreamState, Database, CellRow, CellKey}
use rgbpp_indexer.Store.Apply.{
  apply_batch, init_stream, record_chain_progress, prune_blocks_below, set_checkpoint, set_progress,
}
use rgbpp_indexer.Indexer.Scanner.{ScanPlan, no_target, idle, scan, scan_plan}
use rgbpp_indexer.Indexer.Scanner.Merge.{and_then, collect_range}
use rgbpp_indexer.Indexer.Scanner.Round.{
  fetch_numbers, fetch_headers, checkpoint_header, header_hash, round_batch, Collected,
  collect_batch, commit_round, collect_scan, finish_scan, scan_planned, scan_at, recorded_target,
  scan_once, process_records, empty_batch, block_numbers,
}
use rgbpp_indexer.Indexer.Scanner.Round.Tables.{
  HasHeader, Outcome, Outcome-after, fetch_numbers-All, checkpoint_header-HasHeader, checkpoint_of,
  checkpoint_of-some, init_stream-state, init_stream-SameFacts, unchanged, progress-state,
  progress-SameFacts,
}

and_then-inv {ℓ κ} :
    {A : Type ℓ} {B : Type κ} (m : Option (Result A)) (f : A → Option (Result B)) {b : B}
    → and_then m f ≡ some (ok b)
    → (a : A) × (m ≡ some (ok a)) × (f a ≡ some (ok b))
and_then-inv none f e = cc
and_then-inv (some (ok a)) f e = (a, refl, e)
and_then-inv (some (err x)) f e = absurd (let k = some-injective e in cc)
and_then-inv (some panic) f e = absurd (let k = some-injective e in cc)

module _ (blake2b sha256 : List ℕ → List ℕ) (fuel : ℕ) (c : Config) (node : Node) where
  collect_batch-inv :
      (rows : CellKey → Option CellRow) (from to chain_tip target : ℕ) (records : List TxRecord)
      (out : Collected)
      → collect_batch blake2b sha256 fuel c node rows from to chain_tip target records ≡ ok out
      → (h : RpcHeader) × HasHeader node to h
        × (out.batch.checkpoint_number ≡ to)
        × (out.batch.checkpoint_hash ≡ some h.hash.bytes)
  unfolding collect_batch round_batch fetch_headers
  collect_batch-inv rows from to chain_tip target records out e =
      let (hs, q, k) = >>=-eq-ok (fetch_numbers node (block_numbers records)) _ e in
      let (pending, _, j) =
        >>=-eq-ok (process_records blake2b sha256 fuel c node rows hs records empty_batch) _ k in
      let (h, r, m) = >>=-eq-ok (checkpoint_header node hs to) _ j in
      (
        h,
        checkpoint_header-HasHeader node hs to h
            (fetch_numbers-All node (block_numbers records) hs q) r,
        ap (λ (o : Collected). o.batch.checkpoint_number) (sym (ok-injective m)),
        ap (λ (o : Collected). o.batch.checkpoint_hash) (sym (ok-injective m)),
      )

  commit_round-state :
      (from to chain_tip target : ℕ) (out : Collected) (db : Database)
      → (commit_round blake2b sha256 fuel c node from to chain_tip target out db).0.state
        ≡ Option.map (set_checkpoint db.clock out.batch) db.state
  unfolding commit_round apply_batch prune_blocks_below
  commit_round-state from to chain_tip target out db =
      elim (Bool-cases (ltb 0 (to - c.ckb.header_retention))) [
        | inl e ↦ rw e refl
        | inr e ↦ rw e refl
      ]

  commit_round-checkpoint :
      (from to chain_tip target : ℕ) (out : Collected) (db : Database) (s : StreamState)
      → db.state ≡ some s
      → checkpoint_of c.ckb.start_block
          (commit_round blake2b sha256 fuel c node from to chain_tip target out db).0
        ≡ (out.batch.checkpoint_number, out.batch.checkpoint_hash)
  unfolding set_checkpoint
  commit_round-checkpoint from to chain_tip target out db s e =
      checkpoint_of-some c.ckb.start_block _ (set_checkpoint db.clock out.batch s) (
        commit_round-state from to chain_tip target out db
        ∙ ap (Option.map (set_checkpoint db.clock out.batch)) e)

  finish_scan-Outcome :
      (from to chain_tip target : ℕ) (m : Option (Result Collected)) (db : Database)
      (s : StreamState)
      → db.state ≡ some s
      → ((out : Collected)
          → m ≡ some (ok out)
          → (h : RpcHeader) × HasHeader node to h
            × (out.batch.checkpoint_number ≡ to)
            × (out.batch.checkpoint_hash ≡ some h.hash.bytes))
      → Outcome c.ckb.start_block node db
          (finish_scan blake2b sha256 fuel c node from to chain_tip target m db).0
          (finish_scan blake2b sha256 fuel c node from to chain_tip target m db).1
  unfolding finish_scan commit_round
  finish_scan-Outcome from to chain_tip target none db s q k = unchanged db
  finish_scan-Outcome from to chain_tip target (some (err e)) db s q k = unchanged db
  finish_scan-Outcome from to chain_tip target (some panic) db s q k = unchanged db
  finish_scan-Outcome from to chain_tip target (some (ok out)) db s q k =
      let (h, has, number, hash) = k out refl in
      inr (
        refl,
        record {
          header = h;
          has_header = has;
          checkpoint_eq =
              commit_round-checkpoint from to chain_tip target out db s q
              ∙ ap₂ (λ a b. (a, b)) number hash;
        },
      )

  collect_scan-inv :
      (from to chain_tip target : ℕ) (db : Database) (out : Collected)
      → collect_scan blake2b sha256 fuel c node from to chain_tip target db ≡ some (ok out)
      → (h : RpcHeader) × HasHeader node to h
        × (out.batch.checkpoint_number ≡ to)
        × (out.batch.checkpoint_hash ≡ some h.hash.bytes)
  collect_scan-inv from to chain_tip target db out e =
      let (records, _, k) =
        and_then-inv (collect_range node c.ckb.page_limit fuel c.protocol from to) _ e in
      collect_batch-inv db.cells from to chain_tip target records out (some-injective k)

  scan_planned-Outcome :
      (chain_tip : ℕ) (plan : Result ScanPlan) (db : Database) (s : StreamState)
      → db.state ≡ some s
      → Outcome c.ckb.start_block node db
          (scan_planned blake2b sha256 fuel c node chain_tip plan db).0
          (scan_planned blake2b sha256 fuel c node chain_tip plan db).1
  unfolding scan_planned
  scan_planned-Outcome chain_tip (err e) db s q = unchanged db
  scan_planned-Outcome chain_tip panic db s q = unchanged db
  scan_planned-Outcome chain_tip (ok no_target) db s q = inl (refl, unchanged db)
  scan_planned-Outcome chain_tip (ok (idle target)) db s q = inl (refl, unchanged db)
  scan_planned-Outcome chain_tip (ok (scan from to target)) db s q =
      finish_scan-Outcome from to chain_tip target
        (collect_scan blake2b sha256 fuel c node from to chain_tip target db) db s q
        (collect_scan-inv from to chain_tip target db)

  scan_at-Outcome :
      (state : StreamState) (tip : Result ℕ) (db : Database) (s : StreamState)
      → db.state ≡ some s
      → Outcome c.ckb.start_block node db
          (scan_at blake2b sha256 fuel c node state tip db).0
          (scan_at blake2b sha256 fuel c node state tip db).1
  unfolding scan_at
  scan_at-Outcome state (err e) db s q = unchanged db
  scan_at-Outcome state panic db s q = unchanged db
  scan_at-Outcome state (ok chain_tip) db s q =
      let target = recorded_target (safe_ckb_target c.ckb chain_tip) in
      let written = record_chain_progress chain_tip target c.ckb.reorg_lag db in
      let plan = scan_plan (header_hash node) c.ckb state chain_tip in
      Outcome-after c.ckb.start_block node db written
        (scan_planned blake2b sha256 fuel c node chain_tip plan written).0
        (scan_planned blake2b sha256 fuel c node chain_tip plan written).1
        (progress-SameFacts c.ckb.start_block chain_tip target c.ckb.reorg_lag db s q)
        (scan_planned-Outcome chain_tip plan written
          (set_progress db.clock chain_tip target c.ckb.reorg_lag s)
          (progress-state chain_tip target c.ckb.reorg_lag db s q))

  -- Whatever the node answers, and whether a round ends with a value, an error or a panic: unless it scanned a
  -- range, what was indexed and the checkpoint are as before; and if it did, the checkpoint that the next round
  -- starts from is the end of the range, with the hash of the header that the node has there.
  pub scan_once-Outcome :
      (db : Database)
      → Outcome c.ckb.start_block node db
          (scan_once blake2b sha256 fuel c node db).0
          (scan_once blake2b sha256 fuel c node db).1
  unfolding scan_once
  scan_once-Outcome db =
      let (opened, state) = init_stream c.ckb.start_block db in
      Outcome-after c.ckb.start_block node db opened
        (scan_at blake2b sha256 fuel c node state (synced_tip node) opened).0
        (scan_at blake2b sha256 fuel c node state (synced_tip node) opened).1
        (init_stream-SameFacts c.ckb.start_block db)
        (scan_at-Outcome state (synced_tip node) opened state
          (init_stream-state c.ckb.start_block db))
