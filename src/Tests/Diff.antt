-- ===== src/Tests/Diff.antt =====
-- The witness of the diff of an address.
use rgbpp_indexer.Common.{
  refl, true, some, [], ◌∷◌, ◌⊎◌, replicate, bytes_eq, number_set, insert_number,
}
use rgbpp_indexer.Types.Error.{ok}
use rgbpp_indexer.Types.Json.{text_eq}
use rgbpp_indexer.Types.Bitcoin.{out_point_eq, txid_eq}
use rgbpp_indexer.Types.State.{OutpointSpendStatus, is_spent, spender, spent_height}
use rgbpp_indexer.Btc.{observe_many, by_txid, group_point, answer_group, answer_groups}
use rgbpp_indexer.Btc.Answers.{IsAnswer}
use rgbpp_indexer.Store.Table.{upsert}
use rgbpp_indexer.Store.Observations.{
  BtcTables, address_row, status_name, name_eq, upsert_observation, upsert_address, upsert_btc_tx,
  record_binding_addresses,
}
use rgbpp_indexer.Store.Queue.{has_point}
use rgbpp_indexer.Indexer.Reconcile.{
  record_addresses, addressed, refresh_btc_tx, record_status, record_answers, queue_overflow,
  refresh_outpoints,
}
use rgbpp_indexer.Indexer.Diff.{
  point_set, record_outpoint_addresses, live_bound_outpoints_for_address, disappeared_from,
  contradicted_in, insert_point, sorted_points, reconcile_address,
}
use rgbpp_indexer.Indexer.Diff.Columns.{IsSpentRow}
use rgbpp_indexer.Indexer.Diff.Answered.{reconcile_address-IsAnswer}
use rgbpp_indexer.Tests.Data.{txid}
use rgbpp_indexer.Tests.Reconcile.{point, source, tables}

-- The cell of an address whose output the source does not list any more.
abbrev labelled : BtcTables
labelled = record tables { observations = λ o. some (address_row "funding-tx" "bc1") }

abbrev spend : OutpointSpendStatus
spend = OutpointSpendStatus.spent_confirmed (txid 7) 800

spent_after :
    IsSpentRow
      (point 1 0)
      spend
      (reconcile_address source (λ o. true) 50 10 (point 1 0 ∷ []) "bc1" labelled).0
unfolding reconcile_address point_set record_outpoint_addresses live_bound_outpoints_for_address
    text_eq disappeared_from contradicted_in sorted_points insert_point refresh_outpoints
    queue_overflow observe_many by_txid group_point answer_groups answer_group number_set
    insert_number record_answers record_status upsert_observation upsert status_name name_eq
    is_spent spender spent_height refresh_btc_tx record_addresses addressed record_binding_addresses
    upsert_address upsert_btc_tx out_point_eq txid_eq bytes_eq has_point
spent_after = record {
  row = record (address_row "esplora" "bc1") {
    status = status_name spend;
    spender_txid = some (replicate 32 7);
    spent_height = some 800;
    observed_at = 50;
  };
  row_eq = refl;
  status_eq = refl;
  spender_eq = refl;
  height_eq = refl;
  spent_eq = refl;
}

reconcile_address-IsAnswer_example :
    IsSpentRow (point 1 0) spend labelled ⊎ IsAnswer source (point 1 0) (ok spend)
reconcile_address-IsAnswer_example =
    reconcile_address-IsAnswer source (λ o. true) 50 10 (point 1 0 ∷ []) "bc1" labelled (point 1 0)
      spend spent_after
