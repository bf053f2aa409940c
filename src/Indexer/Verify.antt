-- ===== src/Indexer/Verify.antt =====
-- crates/indexer/src/verify.rs, with `set_commitment_result` of crates/store/src/transitions.rs and `record_anomaly` of
-- anomalies.rs: the comparison of a transition with what its Bitcoin transaction commits to. The rows that
-- `unchecked_transitions` selects are an argument. The details of a finding are left out.
pub mod Rows
pub mod Facts
pub mod Verdicts
use rgbpp_indexer.Common.{
  ℕ, ◌+◌, Bool, true, false, Option, none, some, List, [], ◌∷◌, if◌then◌else◌, bytes_eq,
}
use mathlib.Core.Option
use rgbpp_indexer.Types.Error.{Error, Result, ok, err, panic, ◌>>=◌}
use rgbpp_indexer.Types.Bitcoin.{BtcTxid, from_display_slice}
use rgbpp_indexer.Types.State.{
  TransitionKind, issuance, transfer, leap_to_ckb, btc_time_unlock, exit, AnomalyKind,
}
use rgbpp_indexer.Btc.{BtcTxInfo, BtcDataSource, tx_commitment}
use rgbpp_indexer.Types.Bitcoin.{BtcOutPoint}
use rgbpp_indexer.Store.Table.{update, upsert}
use rgbpp_indexer.Store.Models.{CommitmentStatus, TransitionRow, Database}
use rgbpp_indexer.Store.Observations.{
  BtcTables, AnomalyRow, DedupKey, dedup_eq, Subject, ckb_tx_subject,
}
use rgbpp_indexer.Store.Anomalies.{anomaly_row, record_anomaly}
use rgbpp_indexer.Indexer.Reconcile.{Run, refresh_btc_tx}

pub record VerifyReport : Type 0 where
  pub checked : ℕ
  pub matched : ℕ
  pub mismatched : ℕ
  pub btc_unknown : ℕ
  pub missing_commitment : ℕ
  pub not_applicable : ℕ

-- The tables that a pass writes, and its report.
pub record Pass : Type 0 where
  pub db : Database
  pub tables : BtcTables
  pub report : VerifyReport

abbrev pub judged_row : Option (List ℕ) → CommitmentStatus → TransitionRow → TransitionRow
judged_row observed status row = record row {
  observed_commitment = observed;
  commitment_status = status;
}

unfoldable pub set_commitment_result :
    List ℕ → Option (List ℕ) → CommitmentStatus → Database → Database
set_commitment_result ckb_tx_hash observed status db = record db {
  transitions = update (bytes_eq ckb_tx_hash) (judged_row observed status) db.transitions;
}

abbrev pub is_issuance : TransitionKind → Bool
is_issuance issuance = true
is_issuance transfer = false
is_issuance leap_to_ckb = false
is_issuance btc_time_unlock = false
is_issuance exit = false

-- The status by the expected and the observed commitment.
unfoldable pub verdict : Option (List ℕ) → Option (List ℕ) → CommitmentStatus
verdict expected none = CommitmentStatus.missing
verdict (some expected) (some observed) =
    if bytes_eq expected observed then CommitmentStatus.match else CommitmentStatus.mismatch
verdict none (some observed) = CommitmentStatus.unchecked

abbrev pub is_mismatch : CommitmentStatus → Bool
is_mismatch CommitmentStatus.mismatch = true
is_mismatch CommitmentStatus.unchecked = false
is_mismatch CommitmentStatus.match = false
is_mismatch CommitmentStatus.btc_unknown = false
is_mismatch CommitmentStatus.missing = false
is_mismatch CommitmentStatus.not_applicable = false

unfoldable pub counted : CommitmentStatus → VerifyReport → VerifyReport
counted CommitmentStatus.unchecked r = record r { checked = r.checked + 1 }
counted CommitmentStatus.match r = record r { checked = r.checked + 1; matched = r.matched + 1 }
counted CommitmentStatus.mismatch r = record r {
  checked = r.checked + 1;
  mismatched = r.mismatched + 1;
}
counted CommitmentStatus.btc_unknown r = record r {
  checked = r.checked + 1;
  btc_unknown = r.btc_unknown + 1;
}
counted CommitmentStatus.missing r = record r {
  checked = r.checked + 1;
  missing_commitment = r.missing_commitment + 1;
}
counted CommitmentStatus.not_applicable r = record r {
  checked = r.checked + 1;
  not_applicable = r.not_applicable + 1;
}

module _ (source : BtcDataSource) (bound : BtcOutPoint → Bool) (now : ℕ) where
  -- `CommitmentVerifier::record`, on a key of a CKB transaction.
  abbrev pub record_finding : AnomalyKind → TransitionRow → BtcTables → BtcTables
  record_finding kind row t =
      record_anomaly (record { kind = kind; subject = ckb_tx_subject row.transition.ckb_tx_hash })
        (anomaly_row row.transition.btc_txid none (some row.transition.ckb_tx_hash)) t

  abbrev pub judge : TransitionRow → Option (List ℕ) → CommitmentStatus → Pass → Pass
  judge row observed status p = record p {
    db = set_commitment_result row.transition.ckb_tx_hash observed status p.db;
    report = counted status p.report;
  }

  -- The comparison with the transaction that the source gave.
  unfoldable pub compare_with : TransitionRow → Option BtcTxInfo → Pass → Pass
  compare_with row none p = record (judge row none CommitmentStatus.btc_unknown p) {
    tables = record_finding AnomalyKind.unknown_btc_tx row p.tables;
  }
  compare_with row (some tx) p =
      let observed = tx_commitment tx in
      let status = verdict row.transition.expected_commitment observed in
      record (judge row observed status p) {
        tables =
            if is_mismatch status
            then record_finding AnomalyKind.commitment_mismatch row p.tables
            else p.tables;
      }

  abbrev pub compare_fetched :
      TransitionRow → Run (Option BtcTxInfo) → Pass → Pass × Result (Unit {0})
  compare_fetched row (t, ok found) p = (compare_with row found (record p { tables = t }), ok tt)
  compare_fetched row (t, err e) p = (record p { tables = t }, err e)
  compare_fetched row (t, panic) p = (record p { tables = t }, panic)

  abbrev pub fetch_and_compare : TransitionRow → Result BtcTxid → Pass → Pass × Result (Unit {0})
  fetch_and_compare row (ok txid) p =
      compare_fetched row (refresh_btc_tx source bound now txid p.tables) p
  fetch_and_compare row (err e) p = (p, err e)
  fetch_and_compare row panic p = (p, panic)

  abbrev pub verify_bound : TransitionRow → Option (List ℕ) → Pass → Pass × Result (Unit {0})
  verify_bound row none p = (p, ok tt)
  verify_bound row (some btc_txid) p =
      if is_issuance row.transition.kind
      then (judge row none CommitmentStatus.not_applicable p, ok tt)
      else fetch_and_compare row (from_display_slice btc_txid) p

  -- The body of the loop over the transitions.
  unfoldable pub verify_row : TransitionRow → Pass → Pass × Result (Unit {0})
  verify_row row p = verify_bound row row.transition.btc_txid p

  abbrev pub then_pass :
      Pass × Result (Unit {0}) → (Pass → Pass × Result (Unit {0})) → Pass × Result (Unit {0})
  then_pass (p, ok a) f = f p
  then_pass (p, err e) f = (p, err e)
  then_pass (p, panic) f = (p, panic)

  unfoldable pub verify_once : List TransitionRow → Pass → Pass × Result (Unit {0})
  verify_once [] p = (p, ok tt)
  verify_once (row ∷ rows) p = then_pass (verify_row row p) λ next. verify_once rows next
