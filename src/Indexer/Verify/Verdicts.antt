-- ===== src/Indexer/Verify/Verdicts.antt =====
-- What a transition is judged as, from what the Bitcoin data source has.
use rgbpp_indexer.Common.{
  ℕ, ◌≡◌, ◌≢◌, refl, sym, ap, ◌∙◌, inl, inr, Bool, true, Bool-cases, Option, none, some, List,
  bytes_eq, bytes_eq_iff,
}
use rgbpp_indexer.Types.Error.{Error, Result, ok, err, panic}
use rgbpp_indexer.Types.Bitcoin.{BtcTxid, BtcOutPoint, from_display_slice}
use rgbpp_indexer.Types.State.{
  TransitionKind, issuance, transfer, leap_to_ckb, btc_time_unlock, exit,
}
use rgbpp_indexer.Btc.{BtcTxInfo, BtcDataSource, tx_commitment}
use rgbpp_indexer.Store.Models.{CommitmentStatus, TransitionRow, Database}
use rgbpp_indexer.Indexer.Reconcile.{refresh_btc_tx, cache_btc_tx}
use rgbpp_indexer.Indexer.Verify.{
  Pass, set_commitment_result, is_issuance, verdict, compare_with, compare_fetched,
  fetch_and_compare, verify_bound, verify_row,
}

module _ (source : BtcDataSource) where
  -- The source has this answer for the Bitcoin transaction of the row.
  pub record IsFetched (row : TransitionRow) (found : Option BtcTxInfo) : Type 0 where
    pub bytes : List ℕ
    pub txid : BtcTxid
    pub bytes_eq : row.transition.btc_txid ≡ some bytes
    pub txid_eq : from_display_slice bytes ≡ ok txid
    pub found_eq : source.transaction txid ≡ ok found

  -- The status of a transition, and the commitment that is written with it.
  pub data IsJudged (row : TransitionRow) : Option (List ℕ) → CommitmentStatus → Type 0 where
    issued : row.transition.kind ≡ issuance → IsJudged row none CommitmentStatus.not_applicable
    no_transaction : IsFetched row none → IsJudged row none CommitmentStatus.btc_unknown
    no_commitment :
        (tx : BtcTxInfo)
        → IsFetched row (some tx)
        → tx_commitment tx ≡ none
        → IsJudged row none CommitmentStatus.missing
    same_commitment :
        (tx : BtcTxInfo) (c : List ℕ)
        → IsFetched row (some tx)
        → tx_commitment tx ≡ some c
        → row.transition.expected_commitment ≡ some c
        → IsJudged row (some c) CommitmentStatus.match
    other_commitment :
        (tx : BtcTxInfo) (c d : List ℕ)
        → IsFetched row (some tx)
        → tx_commitment tx ≡ some d
        → row.transition.expected_commitment ≡ some c
        → c ≢ d
        → IsJudged row (some d) CommitmentStatus.mismatch
    no_expectation :
        (tx : BtcTxInfo) (d : List ℕ)
        → IsFetched row (some tx)
        → tx_commitment tx ≡ some d
        → row.transition.expected_commitment ≡ none
        → IsJudged row (some d) CommitmentStatus.unchecked

  verdict-IsJudged :
      (row : TransitionRow) (tx : BtcTxInfo) (expected observed : Option (List ℕ))
      → IsFetched row (some tx)
      → row.transition.expected_commitment ≡ expected
      → tx_commitment tx ≡ observed
      → IsJudged row observed (verdict expected observed)
  unfolding verdict
  verdict-IsJudged row tx none none f k e = no_commitment tx f e
  verdict-IsJudged row tx (some c) none f k e = no_commitment tx f e
  verdict-IsJudged row tx none (some d) f k e = no_expectation tx d f e k
  verdict-IsJudged row tx (some c) (some d) f k e = elim (Bool-cases (bytes_eq c d)) [
    | inl b ↦ rw b (same_commitment tx d f e (k ∙ ap some ((bytes_eq_iff c d).0 b)))
    | inr b ↦ rw b (
        other_commitment tx c d f e k
          λ same. absurd (let z = sym ((bytes_eq_iff c d).1 same) ∙ b in cc))
  ]

module _ (source : BtcDataSource) (bound : BtcOutPoint → Bool) (now : ℕ) where
  -- The row was judged, and that was written; or nothing was written.
  pub data Step (row : TransitionRow) (old : Database) : Database → Result (Unit {0}) → Type 0 where
    judged :
        (observed : Option (List ℕ)) (status : CommitmentStatus)
        → IsJudged source row observed status
        → Step row old
            (set_commitment_result row.transition.ckb_tx_hash observed status old)
            (ok tt)
    unbound : row.transition.btc_txid ≡ none → Step row old old (ok tt)
    failed : (e : Error) → Step row old old (err e)
    panicked : Step row old old panic

  abbrev StepOf : TransitionRow → Pass → Pass × Result (Unit {0}) → Type 0
  StepOf row p out = Step row p.db out.0.db out.1

  compare_with-Step :
      (row : TransitionRow) (found : Option BtcTxInfo) (p : Pass)
      → IsFetched source row found
      → Step row p.db (compare_with source bound now row found p).db (ok tt)
  unfolding compare_with
  compare_with-Step row none p f = judged none CommitmentStatus.btc_unknown (no_transaction f)
  compare_with-Step row (some tx) p f = judged (tx_commitment tx) _ (
      verdict-IsJudged source row tx row.transition.expected_commitment (tx_commitment tx) f refl
        refl)

  fetched-Step :
      (row : TransitionRow) (bytes : List ℕ) (txid : BtcTxid) (r : Result (Option BtcTxInfo))
      (p : Pass)
      → row.transition.btc_txid ≡ some bytes
      → from_display_slice bytes ≡ ok txid
      → source.transaction txid ≡ r
      → StepOf row p
          (compare_fetched source bound now row (cache_btc_tx source bound now txid r p.tables) p)
  fetched-Step row bytes txid (err e) p a b q = failed e
  fetched-Step row bytes txid panic p a b q = panicked
  fetched-Step row bytes txid (ok none) p a b q =
      compare_with-Step row none _
        (record { bytes = bytes; txid = txid; bytes_eq = a; txid_eq = b; found_eq = q })
  fetched-Step row bytes txid (ok (some tx)) p a b q =
      compare_with-Step row (some tx) _
        (record { bytes = bytes; txid = txid; bytes_eq = a; txid_eq = b; found_eq = q })

  fetch_and_compare-Step :
      (row : TransitionRow) (bytes : List ℕ) (r : Result BtcTxid) (p : Pass)
      → row.transition.btc_txid ≡ some bytes
      → from_display_slice bytes ≡ r
      → StepOf row p (fetch_and_compare source bound now row r p)
  unfolding refresh_btc_tx
  fetch_and_compare-Step row bytes (ok txid) p a b =
      fetched-Step row bytes txid (source.transaction txid) p a b refl
  fetch_and_compare-Step row bytes (err e) p a b = failed e
  fetch_and_compare-Step row bytes panic p a b = panicked

  is_issuance-eq : (k : TransitionKind) → is_issuance k ≡ true → k ≡ issuance
  is_issuance-eq issuance h = refl
  is_issuance-eq transfer h = cc
  is_issuance-eq leap_to_ckb h = cc
  is_issuance-eq btc_time_unlock h = cc
  is_issuance-eq exit h = cc

  verify_bound-Step :
      (row : TransitionRow) (btc_txid : Option (List ℕ)) (p : Pass)
      → row.transition.btc_txid ≡ btc_txid
      → StepOf row p (verify_bound source bound now row btc_txid p)
  verify_bound-Step row none p a = unbound a
  verify_bound-Step row (some bytes) p a = elim (Bool-cases (is_issuance row.transition.kind)) [
    | inl e ↦ rw e (
        judged none CommitmentStatus.not_applicable (issued (is_issuance-eq row.transition.kind e)))
    | inr e ↦ rw e (fetch_and_compare-Step row bytes (from_display_slice bytes) p a refl)
  ]

  pub verify_row-Step :
      (row : TransitionRow) (p : Pass)
      → Step row p.db (verify_row source bound now row p).0.db (verify_row source bound now row p).1
  unfolding verify_row
  verify_row-Step row p = verify_bound-Step row row.transition.btc_txid p refl
