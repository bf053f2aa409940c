-- ===== src/Indexer/Sweeper.antt =====
-- crates/indexer/src/sweeper.rs: the detection of spends that never landed on CKB. The rows that
-- `pending_ckb_outpoints` selects are an argument, and `has_transition` is the test that `transitions_by_btc_txid` is
-- not empty.
pub mod Sound
use rgbpp_indexer.Common.{
  leb, ◌%◌, ◌^◌, ℕ, ◌+◌, ◌-◌, ltb, Bool, true, false, not, Option, none, some, List, [], ◌∷◌,
  if◌then◌else◌,
}
use mathlib.Core.Option
use rgbpp_indexer.Types.Error.{Error, Result, ok, err, panic, ◌>>=◌}
use rgbpp_indexer.Types.Bitcoin.{BtcTxid, BtcOutPoint}
use rgbpp_indexer.Types.State.{OutpointSpendStatus, AnomalyKind}
use rgbpp_indexer.Btc.{BtcTxInfo, BtcDataSource, tx_commitment}
use rgbpp_indexer.Store.Models.{StreamState, Database}
use rgbpp_indexer.Store.Observations.{
  BtcTables, ObservationRow, DedupKey, out_point_subject, spend_status,
}
use rgbpp_indexer.Store.Anomalies.{resolve_anomalies_for_outpoint}
use rgbpp_indexer.Indexer.Reconcile.{Run, then_run, refresh_btc_tx}
use rgbpp_indexer.Store.Anomalies.{anomaly_row, record_anomaly}

-- `target.saturating_sub(last).max(0)` of two i64 heights, of which a target from 2 ^ 63 on is negative.
abbrev pub is_near : ℕ → StreamState → Option ℕ → Bool
is_near allowed state none = false
is_near allowed state (some target) =
    not (ltb allowed (if leb (2 ^ 63) target then 0 else target - state.last_block_number))

unfoldable pub indexer_is_caught_up : ℕ → Database → Bool
indexer_is_caught_up allowed db = elim db.state [
  | none ↦ false
  | some state ↦ is_near allowed state state.target_block_number
]

-- The kind by what the spender publishes.
abbrev pub misspend_kind : Option (List ℕ) → AnomalyKind
misspend_kind none = AnomalyKind.no_commitment_in_spender
misspend_kind (some c) = AnomalyKind.btc_spent_without_ckb

abbrev pub published : Option BtcTxInfo → Option (List ℕ)
published none = none
published (some tx) = tx_commitment tx

module _ (source : BtcDataSource) (bound : BtcOutPoint → Bool) (now : ℕ)
    (has_transition : BtcTxid → Bool) (tip grace : ℕ) where
  abbrev pub flag : BtcOutPoint → Option BtcTxInfo → BtcTables → Run ℕ
  flag o tx t = (
    record_anomaly (record { kind = misspend_kind (published tx); subject = out_point_subject o })
        (anomaly_row (some o.txid.bytes) (some o.vout) none) t,
    ok 1,
  )

  -- A spend that was confirmed at `height`.
  unfoldable pub check_spend : BtcOutPoint → BtcTxid → ℕ → BtcTables → Run ℕ
  check_spend o spender height t =
      if ltb ((tip - height + 1) % 2 ^ 32) grace
      then (t, ok 0)
      else if has_transition spender
      then (resolve_anomalies_for_outpoint o now t, ok 0)
      else then_run (refresh_btc_tx source bound now spender t) λ tx next. flag o tx next

  abbrev pub check_status : BtcOutPoint → Result OutpointSpendStatus → BtcTables → Run ℕ
  check_status o (err e) t = (t, err e)
  check_status o panic t = (t, panic)
  check_status o (ok OutpointSpendStatus.unknown) t = (t, ok 0)
  check_status o (ok OutpointSpendStatus.unspent) t = (t, ok 0)
  check_status o (ok (OutpointSpendStatus.spent_unconfirmed s)) t = (t, ok 0)
  check_status o (ok (OutpointSpendStatus.spent_confirmed s h)) t = check_spend o s h t

  -- The loop over the pending rows, with the count of what was found.
  unfoldable pub check_pending : List (BtcOutPoint × ObservationRow) → BtcTables → Run ℕ
  check_pending [] t = (t, ok 0)
  check_pending ((o, row) ∷ rows) t =
      then_run (check_status o (spend_status row) t)
        λ one next. then_run (check_pending rows next) λ rest last. (last, ok (one + rest))

module _ (source : BtcDataSource) (bound : BtcOutPoint → Bool) (now : ℕ)
    (has_transition : BtcTxid → Bool) (allowed grace : ℕ) where
  abbrev pub detect_at : Result ℕ → List (BtcOutPoint × ObservationRow) → BtcTables → Run ℕ
  detect_at (ok tip) pending t = check_pending source bound now has_transition tip grace pending t
  detect_at (err e) pending t = (t, err e)
  detect_at panic pending t = (t, panic)

  unfoldable pub detect_misspends :
      Database → List (BtcOutPoint × ObservationRow) → BtcTables → Run ℕ
  detect_misspends db pending t =
      if indexer_is_caught_up allowed db then detect_at source.tip_height pending t else (t, ok 0)
