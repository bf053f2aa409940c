-- ===== src/Tests/Findings.antt =====
-- The witnesses of the verification of commitments and of the detection of misspends.
use rgbpp_indexer.Common.{
  List, ◌≡◌, arith, refl, true, false, none, some, [], ◌∷◌, ◌⊎◌, bytes_eq, replicate,
}
use rgbpp_indexer.Types.Bitcoin.{BtcOutPoint, out_point_eq, txid_eq, from_display_slice}
use rgbpp_indexer.Types.State.{transfer, AnomalyKind}
use rgbpp_indexer.Btc.{tx_commitment}
use rgbpp_indexer.Types.Commitment.{find_commitment, find_loop, op_return_payload}
use rgbpp_indexer.Store.Table.{upsert}
use rgbpp_indexer.Store.Models.{CommitmentStatus, NewTransition, TransitionRow, Database}
use rgbpp_indexer.Store.Observations.{
  StatusName, ObservationRow, DedupKey, out_point_subject, kind_eq, subject_eq, dedup_eq,
  spend_status, named_status, read_height, record_binding_addresses, upsert_address, upsert_btc_tx,
}
use rgbpp_indexer.Indexer.Reconcile.{refresh_btc_tx, record_addresses, addressed}
use rgbpp_indexer.Indexer.Verify.{Pass, verify_once}
use rgbpp_indexer.Store.Anomalies.{record_anomaly, anomaly_row}
use rgbpp_indexer.Indexer.Verify.Facts.{VerifyOutcome, verify_once-VerifyOutcome}
use rgbpp_indexer.Indexer.Sweeper.{
  check_spend, check_pending, detect_misspends, indexer_is_caught_up,
}
use rgbpp_indexer.Indexer.Sweeper.Sound.{IsOpen, MayOpen, detect_misspends-MayOpen}
use rgbpp_indexer.Indexer.Walk.{row_lt, sweep_inner}
use rgbpp_indexer.Indexer.Walk.Pages.{IsAscending}
use rgbpp_indexer.Indexer.Walk.Covers.{Covers, sweep_over, sweep_inner-Covers}
use rgbpp_indexer.Indexer.Scanner.Merge.{bytes_lt}
use rgbpp_indexer.Tests.Data.{database, state}
use rgbpp_indexer.Tests.Reconcile.{point, source, tables}

abbrev transition : NewTransition
transition = record {
  ckb_tx_hash = 4 ∷ [];
  block_number = 12;
  block_hash = 8 ∷ [];
  tx_index = 1;
  block_timestamp = none;
  kind = transfer;
  btc_txid = some (replicate 32 7);
  input_cell_count = 1;
  output_cell_count = 1;
  expected_commitment = some (replicate 32 3);
}

abbrev unchecked_row : TransitionRow
unchecked_row = record {
  transition = transition;
  observed_commitment = none;
  commitment_status = CommitmentStatus.unchecked;
}

abbrev start : Pass
start = record {
  db = record database { transitions = λ key. some unchecked_row };
  tables = tables;
  report = record {
    checked = 0;
    matched = 0;
    mismatched = 0;
    btc_unknown = 0;
    missing_commitment = 0;
    not_applicable = 0;
  };
}

verify_once-VerifyOutcome_example :
    VerifyOutcome source
      (λ o. true)
      50
      (unchecked_row ∷ [])
      start.db
      (verify_once source (λ o. true) 50 (unchecked_row ∷ []) start).0.db
      (verify_once source (λ o. true) 50 (unchecked_row ∷ []) start).1
verify_once-VerifyOutcome_example =
    verify_once-VerifyOutcome source (λ o. true) 50 (unchecked_row ∷ []) start (λ o. absurd o, tt)
      (
        record {
          btc_txid = replicate 32 7;
          bound_eq = refl;
          stored = unchecked_row;
          stored_eq = refl;
        },
        tt,
      )

abbrev spent_row : ObservationRow
spent_row = record {
  status = StatusName.spent_confirmed;
  spender_txid = some (replicate 32 7);
  spent_height = some 100;
  address = none;
  source = "esplora";
  observed_at = 40;
  invalidated_at = none;
}

abbrev found_key : DedupKey
found_key = record {
  kind = AnomalyKind.no_commitment_in_spender;
  subject = out_point_subject (point 1 0);
}

abbrev near_target : Database
near_target = record database { state = some (record state { target_block_number = some 20 }) }

opened :
    IsOpen
      (detect_misspends source
        (λ o. false)
        50
        (λ t. false)
        100
        6
        near_target
        ((point 1 0, spent_row) ∷ [])
        tables).0
      found_key
unfolding detect_misspends indexer_is_caught_up check_pending check_spend spend_status named_status
    read_height from_display_slice refresh_btc_tx record_addresses addressed
    record_binding_addresses upsert_address upsert_btc_tx record_anomaly upsert dedup_eq kind_eq
    subject_eq out_point_eq txid_eq bytes_eq tx_commitment find_commitment find_loop
    op_return_payload
opened = record {
  row = anomaly_row (some (replicate 32 1)) (some 0) none;
  row_eq = refl;
  open_eq = refl;
}

detect_misspends-MayOpen_example :
    IsOpen tables found_key
    ⊎ MayOpen source
        (λ o. false)
        50
        (λ t. false)
        6
        100
        near_target
        ((point 1 0, spent_row) ∷ [])
        found_key
detect_misspends-MayOpen_example =
    detect_misspends-MayOpen source (λ o. false) 50 (λ t. false) 6 100 near_target
      ((point 1 0, spent_row) ∷ []) tables found_key opened

abbrev walked : List BtcOutPoint
walked = point 1 0 ∷ point 2 1 ∷ point 2 3 ∷ []

walked-IsAscending : IsAscending walked
unfolding row_lt bytes_lt txid_eq bytes_eq
walked-IsAscending = ((refl, (refl, tt)), ((refl, tt), (tt, tt)))

sweep_inner-Covers_example :
    (pages : List (List BtcOutPoint)) × Covers 2 (λ n. walked) pages
    × (sweep_inner source
          (λ o. false)
          50
          4
          2
          (λ n. walked)
          (λ t. false)
          6
          100
          near_target
          (λ t. (point 1 0, spent_row) ∷ [])
          4
          tables
        ≡ some (
            sweep_over source
              (λ o. false)
              50
              4
              (λ t. false)
              6
              100
              near_target
              (λ t. (point 1 0, spent_row) ∷ [])
              pages
              tables))
sweep_inner-Covers_example =
    sweep_inner-Covers 2 (λ n. walked) walked (λ n x h. h) source (λ o. false) 50 4 (λ t. false) 6
      100 near_target (λ t. (point 1 0, spent_row) ∷ []) 4 tables (omega arith)
      (λ n. walked-IsAscending) (omega arith)
