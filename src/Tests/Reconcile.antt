-- ===== src/Tests/Reconcile.antt =====
-- The witnesses of the observation of out points, of the refresh and of the queue.
use rgbpp_indexer.Common.{
  ◌++◌, inr, ℕ, refl, true, none, some, List, [], ◌∷◌, Occurs, inl, bytes_eq, ◌==◌, if◌then◌else◌,
}
use rgbpp_indexer.Types.Error.{Result, ok, err, upstream}
use rgbpp_indexer.Types.Bitcoin.{BtcOutPoint, out_point_eq, txid_eq}
use rgbpp_indexer.Types.State.{OutpointSpendStatus}
use rgbpp_indexer.Btc.{BtcTxInfo, BtcDataSource, observe_many}
use rgbpp_indexer.Btc.Answers.{AnswersAll, observe_many-AnswersAll}
use rgbpp_indexer.Store.Observations.{BtcTables}
use rgbpp_indexer.Store.Queue.{
  claim_refresh_batch, picked, skip_locked, due_rows, insert_due, due_before, returned, has_point,
  new_queue_row, sweep, on_demand,
}
use rgbpp_indexer.Store.Queue.Attempts.{IsBounded}
use rgbpp_indexer.Store.Queue.Claims.{in_flight, claimed_points, claim_refresh_batch-apart}
use rgbpp_indexer.Indexer.Reconcile.{refresh_outpoints, drain_queue_once}
use rgbpp_indexer.Indexer.Reconcile.Outcome.{Outcome, refresh_outpoints-Outcome}
use rgbpp_indexer.Indexer.Reconcile.Queue.{drain_queue_once-IsBounded}
use rgbpp_indexer.Tests.Data.{txid}

abbrev pub point : ℕ → ℕ → BtcOutPoint
point t vout = record { txid = txid t; vout = vout }

abbrev spending : BtcTxInfo
spending = record {
  txid = txid 7;
  confirmation = some (record { height = 800; hash = []; time = 5 });
  inputs = point 1 0 ∷ [];
  outputs = record { value = 546; script_pubkey = []; address = some "bc1" } ∷ [];
  fee = some 300;
}

-- The first output of a transaction is spent, the second is unspent, the others are not answered.
abbrev status : ℕ → Result OutpointSpendStatus
status vout =
    if vout == 0
    then ok (OutpointSpendStatus.spent_confirmed (txid 7) 800)
    else if vout == 1
    then ok OutpointSpendStatus.unspent
    else err upstream

abbrev pub source : BtcDataSource
source = record {
  name = "esplora";
  tip_height = ok 810;
  transaction = λ t. ok (some spending);
  outpoint_status = λ o. status o.vout;
  tx_outspends = λ t. inr none;
  address_utxos = λ a. ok [];
}

abbrev asked : List BtcOutPoint
asked = point 1 0 ∷ point 2 1 ∷ point 1 2 ∷ point 1 0 ∷ point 3 5 ∷ []

abbrev pub tables : BtcTables
tables = record {
  observations = λ o. none;
  txs = λ t. none;
  queue =
      new_queue_row (point 1 0) "sweep" sweep 40
      ∷ new_queue_row (point 2 2) "request" on_demand 45
      ∷ [];
  anomalies = λ k. none;
}

observe_many-AnswersAll_example : AnswersAll source asked (observe_many source asked)
observe_many-AnswersAll_example = observe_many-AnswersAll source asked

refresh_outpoints-Outcome_example :
    Outcome source
      (λ o. true)
      50
      4
      asked
      (refresh_outpoints source (λ o. true) 50 4 asked tables).0
      (refresh_outpoints source (λ o. true) 50 4 asked tables).1
refresh_outpoints-Outcome_example = refresh_outpoints-Outcome source (λ o. true) 50 4 asked tables

drain_queue_once-IsBounded_example :
    IsBounded 3 (drain_queue_once source (λ o. true) 50 [] 3 10 4 60 tables).0.queue
drain_queue_once-IsBounded_example =
    drain_queue_once-IsBounded 3 source (λ o. true) 50 [] 10 4 60 tables

first_claim : Occurs (point 2 2) (claimed_points (claim_refresh_batch [] 1 50 tables))
unfolding claim_refresh_batch picked skip_locked due_rows insert_due due_before returned has_point
    out_point_eq txid_eq bytes_eq
first_claim = inl refl

claim_refresh_batch-apart_example : ¬ (
    Occurs
      (point 2 2)
      (claimed_points (claim_refresh_batch (picked [] 1 50 tables.queue ++ []) 5 50 tables)))
claim_refresh_batch-apart_example =
    claim_refresh_batch-apart [] 1 5 50 tables (point 2 2) (picked [] 1 50 tables.queue ++ [])
      tables (in_flight []) first_claim
