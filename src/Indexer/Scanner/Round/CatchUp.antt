-- ===== src/Indexer/Scanner/Round/CatchUp.antt =====
-- The loop of `run` comes to rest, at the target.
use rgbpp_indexer.Common.{
  ℕ, suc, zero, ◌+◌, ◌-◌, ◌^◌, ◌≤◌, ◌<◌, ◌≡◌, refl, sym, ap, ◌∙◌, subst, inl, inr, true, false,
  Bool-cases, Option, none, some, List, ltb-false→le, ltb→lt, arith,
}
use rgbpp_indexer.Types.Error.{Result, ok, err, panic, Result-cases}
use rgbpp_indexer.Types.Config.{Config, safe_ckb_target}
use rgbpp_indexer.Client.{Node, synced_tip}
use rgbpp_indexer.Store.Models.{StreamState, Database}
use rgbpp_indexer.Store.Apply.{init_stream, record_chain_progress}
use rgbpp_indexer.Indexer.Scanner.{ScanPlan, scan_plan}
use rgbpp_indexer.Indexer.Scanner.Range.{IsRange, scan_plan-IsRange, scan_plan-inv}
use rgbpp_indexer.Indexer.Scanner.Round.{
  ScanRound, header_hash, scan_planned, scan_at, recorded_target, scan_once, has_backlog, catch_up,
}
use rgbpp_indexer.Indexer.Scanner.Round.Checkpoint.{scan_once-Outcome}
use rgbpp_indexer.Indexer.Scanner.Round.Tables.{checkpoint_of, SameFacts, Outcome}
use rgbpp_indexer.Indexer.Scanner.Round.Plans.{
  EndsPages, scan_planned-HasResult, scan_planned-idle, scan_planned-scan, plan-idle,
  plan-no_target,
}

module _ (blake2b sha256 : List ℕ → List ℕ) (fuel : ℕ) (c : Config) (node : Node) where
  -- The checkpoint has reached the target, when there is one.
  abbrev pub IsAhead : Option ℕ → Database → Type 0
  IsAhead none db = Unit {0}
  IsAhead (some target) db = target ≤ (checkpoint_of c.ckb.start_block db).0

  -- The end of the loop: an error, a panic, or the target.
  abbrev pub IsSettled : ℕ → Database → Option (Result ScanRound) → Type 0
  IsSettled tip db none = ⊥
  IsSettled tip db (some (err e)) = Unit {0}
  IsSettled tip db (some panic) = Unit {0}
  IsSettled tip db (some (ok round)) = IsAhead (safe_ckb_target c.ckb tip) db

  module _ (tip : ℕ) (synced : synced_tip node ≡ ok tip) where
    abbrev state_of : Database → StreamState
    state_of db = (init_stream c.ckb.start_block db).1

    abbrev plan_of : Database → Result ScanPlan
    plan_of db = scan_plan (header_hash node) c.ckb (state_of db) tip

    abbrev written : Database → Database
    written db =
        record_chain_progress tip (recorded_target (safe_ckb_target c.ckb tip)) c.ckb.reorg_lag
          (init_stream c.ckb.start_block db).0

    scan_once-planned :
        (db : Database)
        → scan_once blake2b sha256 fuel c node db
          ≡ scan_planned blake2b sha256 fuel c node tip (plan_of db) (written db)
    unfolding scan_once scan_at
    scan_once-planned db = rw (synced, scan_at) refl

    -- After a round that rested, the checkpoint is at the target.
    rested :
        (db : Database) (round : ScanRound)
        → (scan_once blake2b sha256 fuel c node db).1 ≡ some (ok round)
        → tip < 2 ^ 63
        → round.is_idle ≡ true
        → SameFacts c.ckb.start_block db (scan_once blake2b sha256 fuel c node db).0
        → IsAhead (safe_ckb_target c.ckb tip) (scan_once blake2b sha256 fuel c node db).0
    rested db round e m i same =
        elim (scan_planned-idle blake2b sha256 fuel c node tip (plan_of db) (written db) round
          (sym (ap (λ p. p.1) (scan_once-planned db)) ∙ e) i) [
            | inl q ↦
                subst (λ o. IsAhead o (scan_once blake2b sha256 fuel c node db).0)
                  (sym (
                    plan-no_target blake2b sha256 fuel c node (header_hash node) (state_of db) tip
                      q))
                  tt
            | inr (t, q) ↦
                let (target, below) =
                  plan-idle blake2b sha256 fuel c node (header_hash node) (state_of db) tip t m q in
                subst (λ o. IsAhead o (scan_once blake2b sha256 fuel c node db).0) (sym target)
                  (subst (λ n. t ≤ n) (sym (ap (λ p. p.0) same.checkpoint_eq)) below)
          ]

    -- A round that scanned was planned as its range.
    ranged :
        (db : Database) (round : ScanRound)
        → 0 < c.ckb.batch_blocks
        → tip + c.ckb.batch_blocks < 2 ^ 63
        → (scan_once blake2b sha256 fuel c node db).1 ≡ some (ok round)
        → round.is_idle ≡ false
        → (safe_ckb_target c.ckb tip ≡ some round.target)
          × IsRange c.ckb (state_of db) tip round.from round.to round.target
    ranged db round h m e i =
        let plan =
          scan_planned-scan blake2b sha256 fuel c node tip (plan_of db) (written db) round
            (sym (ap (λ p. p.1) (scan_once-planned db)) ∙ e) i in
        (
          (scan_plan-inv (header_hash node) c.ckb (state_of db) tip plan).0,
          scan_plan-IsRange (header_hash node) c.ckb (state_of db) tip h (omega (arith, m)) plan,
        )

    abbrev checkpoint : Database → ℕ
    checkpoint db = (checkpoint_of c.ckb.start_block db).0

    scan_once-Outcome_at :
        (db : Database) (r : Result ScanRound)
        → (scan_once blake2b sha256 fuel c node db).1 ≡ some r
        → Outcome c.ckb.start_block node db (scan_once blake2b sha256 fuel c node db).0 (some r)
    scan_once-Outcome_at db r e =
        subst (Outcome c.ckb.start_block node db (scan_once blake2b sha256 fuel c node db).0) e
          (scan_once-Outcome blake2b sha256 fuel c node db)

    -- A round that ends with a value is at the target or leaves a backlog, and then it came nearer.
    round-IsAhead :
        (db : Database) (round : ScanRound)
        → 0 < c.ckb.batch_blocks
        → tip + c.ckb.batch_blocks < 2 ^ 63
        → (scan_once blake2b sha256 fuel c node db).1 ≡ some (ok round)
        → has_backlog round ≡ false
        → IsAhead (safe_ckb_target c.ckb tip) (scan_once blake2b sha256 fuel c node db).0
    round-IsAhead db round h m e b = elim (scan_once-Outcome_at db (ok round) e) [
      | inl (i, same) ↦ rested db round e (omega (arith, m)) i same
      | inr (i, advanced) ↦
          let (target, range) = ranged db round h m e i in
          subst (λ o. IsAhead o (scan_once blake2b sha256 fuel c node db).0) (sym target)
            (subst (λ n. round.target ≤ n) (sym (ap (λ p. p.0) advanced.checkpoint_eq))
              (ltb-false→le round.to round.target (rw i at b)))
    ]

    round_nearer :
        (db : Database) (round : ScanRound)
        → 0 < c.ckb.batch_blocks
        → tip + c.ckb.batch_blocks < 2 ^ 63
        → (scan_once blake2b sha256 fuel c node db).1 ≡ some (ok round)
        → has_backlog round ≡ true
        → (checkpoint db < checkpoint (scan_once blake2b sha256 fuel c node db).0)
          × (checkpoint (scan_once blake2b sha256 fuel c node db).0 < tip)
    round_nearer db round h m e b = elim (scan_once-Outcome_at db (ok round) e) [
      | inl (i, same) ↦ absurd (let k = rw i at b in cc)
      | inr (i, advanced) ↦
          let (target, range) = ranged db round h m e i in
          let first = range.from_eq in
          let below = range.from_le in
          let lag = range.target_eq in
          let reached = ap (λ p. p.0) advanced.checkpoint_eq in
          let short = ltb→lt round.to round.target (rw i at b) in (omega arith, omega arith)
    ]

    catch_up-on :
        (rounds : ℕ) (db : Database) (round : ScanRound)
        → (scan_once blake2b sha256 fuel c node db).1 ≡ some (ok round)
        → has_backlog round ≡ true
        → catch_up blake2b sha256 fuel c node (suc rounds) db
          ≡ catch_up blake2b sha256 fuel c node rounds (scan_once blake2b sha256 fuel c node db).0
    unfolding catch_up
    catch_up-on rounds db round e b = rw (e, b, catch_up) refl

    catch_up-rest :
        (rounds : ℕ) (db : Database) (round : ScanRound)
        → (scan_once blake2b sha256 fuel c node db).1 ≡ some (ok round)
        → has_backlog round ≡ false
        → catch_up blake2b sha256 fuel c node (suc rounds) db
          ≡ ((scan_once blake2b sha256 fuel c node db).0, some (ok round))
    unfolding catch_up
    catch_up-rest rounds db round e b = rw (e, b, catch_up) refl

    -- When the pages of each search end, with a positive batch size and a tip that leaves room for a batch below
    -- 2 ^ 63, the rounds that follow each other without a pause come to rest when more rounds are
    -- allowed than there are blocks between checkpoint and tip: with an error, with a panic, or, if there is a
    -- target, with a checkpoint that has reached it.
    pub catch_up-IsSettled :
        (rounds : ℕ) (db : Database)
        → EndsPages node c.ckb.page_limit fuel c.protocol
        → 0 < c.ckb.batch_blocks
        → tip + c.ckb.batch_blocks < 2 ^ 63
        → tip - checkpoint db < rounds
        → IsSettled tip
            (catch_up blake2b sha256 fuel c node rounds db).0
            (catch_up blake2b sha256 fuel c node rounds db).1
    unfolding catch_up
    catch_up-IsSettled zero db ends h m f = absurd (omega arith)
    catch_up-IsSettled (suc rounds) db ends h m f =
        let (r, planned) =
          scan_planned-HasResult blake2b sha256 fuel c node tip (plan_of db) (written db) ends in
        let e = ap (λ p. p.1) (scan_once-planned db) ∙ planned in
        elim (Result-cases r) [
          | inl (round, q) ↦
              let value = e ∙ ap some q in
              elim (Bool-cases (has_backlog round)) [
                | inl b ↦
                    let (nearer, below) = round_nearer db round h m value b in
                    subst (λ p. IsSettled tip p.0 p.1) (sym (catch_up-on rounds db round value b))
                      (catch_up-IsSettled rounds (scan_once blake2b sha256 fuel c node db).0 ends h
                        m (omega arith))
                | inr b ↦
                    subst (λ p. IsSettled tip p.0 p.1) (sym (catch_up-rest rounds db round value b))
                      (round-IsAhead db round h m value b)
              ]
          | inr (inl (er, q)) ↦ rw (e ∙ ap some q, catch_up, IsSettled) tt
          | inr (inr q) ↦ rw (e ∙ ap some q, catch_up, IsSettled) tt
        ]
