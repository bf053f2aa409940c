-- ===== src/Store/Anomalies.antt =====
-- crates/store/src/anomalies.rs: the findings.
use rgbpp_indexer.Common.{
  ℕ, ◌==◌, Bool, false, ◌&&◌, Option, none, some, List, if◌then◌else◌, bytes_eq,
}
use mathlib.Core.Option
use rgbpp_indexer.Types.Bitcoin.{BtcOutPoint}
use rgbpp_indexer.Store.Table.{upsert}
use rgbpp_indexer.Store.Observations.{is_none, DedupKey, dedup_eq, AnomalyRow, BtcTables}

abbrev pub matches_point : BtcOutPoint → AnomalyRow → Bool
matches_point o row = elim row.btc_txid [
  | none ↦ false
  | some t ↦ elim row.btc_vout [ none ↦ false | some v ↦ bytes_eq t o.txid.bytes && (v == o.vout) ]
]

unfoldable pub resolve_row : ℕ → BtcOutPoint → AnomalyRow → AnomalyRow
resolve_row now o row =
    if is_none row.resolved_at && matches_point o row
    then record row { resolved_at = some now }
    else row

unfoldable pub resolve_anomalies_for_outpoint : BtcOutPoint → ℕ → BtcTables → BtcTables
resolve_anomalies_for_outpoint o now t = record t {
  anomalies = λ key. Option.map (resolve_row now o) (t.anomalies key);
}

abbrev pub anomaly_row : Option (List ℕ) → Option ℕ → Option (List ℕ) → AnomalyRow
anomaly_row btc_txid btc_vout ckb_tx_hash = record {
  btc_txid = btc_txid;
  btc_vout = btc_vout;
  ckb_tx_hash = ckb_tx_hash;
  resolved_at = none;
}

-- A finding that shows again is opened again.
unfoldable pub record_anomaly : DedupKey → AnomalyRow → BtcTables → BtcTables
record_anomaly key row t = record t {
  anomalies =
      upsert (dedup_eq key) row (λ (old : AnomalyRow). record old { resolved_at = none })
        t.anomalies;
}
