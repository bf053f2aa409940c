-- ===== src/Indexer/Reconcile/Queue.antt =====
-- The attempts of the entries of the queue are bounded, however a drain ends.
use rgbpp_indexer.Common.{
  ℕ, inl, inr, Bool, true, false, Bool-cases, Option, none, some, List, [], ◌∷◌, if◌then◌else◌,
  ◌&&◌, drop, take,
}
use Prim.Native.String.{String}
use rgbpp_indexer.Types.Error.{Result, ok, err, panic}
use rgbpp_indexer.Types.Bitcoin.{BtcTxid, BtcOutPoint}
use rgbpp_indexer.Types.State.{OutpointSpendStatus, is_spent, spender}
use rgbpp_indexer.Btc.{BtcTxInfo, BtcDataSource, observe_many}
use rgbpp_indexer.Store.Observations.{
  BtcTables, upsert_observation, upsert_btc_tx, upsert_address, record_binding_addresses,
}
use rgbpp_indexer.Store.Queue.{
  enqueue_refresh_many, on_demand, has_repeated, has_point, claim_refresh_batch,
  drop_exhausted_refreshes, complete_refresh, fail_refresh,
}
use rgbpp_indexer.Store.Anomalies.{resolve_anomalies_for_outpoint}
use rgbpp_indexer.Indexer.Reconcile.{
  record_addresses, cache_btc_tx, refresh_btc_tx, follow_up_spend, followed, finish_status,
  record_status, record_answers, queue_overflow, refresh_outpoints, complete_all, settle_entries,
  drain_rest, drain_queue_once, addressed,
}
use rgbpp_indexer.Indexer.Reconcile.Keeps.{then_run-Rests}
use rgbpp_indexer.Store.Queue.Attempts.{
  IsBounded, upsert_points-IsBounded, enqueue_refresh-IsBounded, complete_refresh-IsBounded,
  fail_refresh-IsBounded, exhausted-IsBounded,
}

module _ (n : ℕ) (source : BtcDataSource) (bound : BtcOutPoint → Bool) (now : ℕ) where
  abbrev Bounded : BtcTables → Type 0
  Bounded t = IsBounded n t.queue

  binding-Bounded :
      (outputs : List (BtcOutPoint × String)) (t : BtcTables)
      → Bounded t
      → Bounded (record_binding_addresses bound "funding-tx" now outputs t)
  unfolding record_binding_addresses upsert_address
  binding-Bounded [] t h = h
  binding-Bounded ((o, address) ∷ outputs) t h =
      binding-Bounded outputs _ (labelled (bound o) o address t h)
    where
      labelled :
          (b : Bool) (o : BtcOutPoint) (address : String) (t : BtcTables)
          → Bounded t
          → Bounded (if b then upsert_address "funding-tx" now o address t else t)
      labelled true o address t h = h
      labelled false o address t h = h

  cache_btc_tx-Bounded :
      (txid : BtcTxid) (r : Result (Option BtcTxInfo)) (t : BtcTables)
      → Bounded t
      → Bounded (cache_btc_tx source bound now txid r t).0
  unfolding record_addresses upsert_btc_tx
  cache_btc_tx-Bounded txid (err e) t h = h
  cache_btc_tx-Bounded txid panic t h = h
  cache_btc_tx-Bounded txid (ok none) t h = h
  cache_btc_tx-Bounded txid (ok (some tx)) t h = binding-Bounded (addressed txid 0 tx.outputs) t h

  spend-Bounded :
      (spender : Option BtcTxid) (t : BtcTables)
      → Bounded t
      → Bounded (follow_up_spend source bound now spender t).0
  unfolding refresh_btc_tx
  spend-Bounded none t h = h
  spend-Bounded (some txid) t h = cache_btc_tx-Bounded txid (source.transaction txid) t h

  followed-Bounded :
      (b : Bool) (s : OutpointSpendStatus) (t : BtcTables)
      → Bounded t
      → Bounded (followed source bound now b s t).0
  followed-Bounded true s t h = spend-Bounded (spender s) t h
  followed-Bounded false s t h = h

  resolved-Bounded :
      (b : Bool) (o : BtcOutPoint) (t : BtcTables)
      → Bounded t
      → Bounded (if b then t else resolve_anomalies_for_outpoint o now t)
  unfolding resolve_anomalies_for_outpoint
  resolved-Bounded true o t h = h
  resolved-Bounded false o t h = h

  record_status-Bounded :
      (o : BtcOutPoint) (s : OutpointSpendStatus) (t : BtcTables)
      → Bounded t
      → Bounded (record_status source bound now o s t).0
  unfolding record_status upsert_observation
  record_status-Bounded o s t h =
      let (seen, changed) = upsert_observation o s none source.name now t in
      then_run-Rests Bounded (followed source bound now (changed && is_spent s) s seen)
        (λ _ next. finish_status source bound now o s changed next)
        (followed-Bounded (changed && is_spent s) s seen h)
        λ _ next k. resolved-Bounded (is_spent s) o next k

  record_answers-Bounded :
      (answers : List (BtcOutPoint × Result OutpointSpendStatus)) (t : BtcTables)
      → Bounded t
      → Bounded (record_answers source bound now answers t).0
  unfolding record_answers
  record_answers-Bounded [] t h = h
  record_answers-Bounded ((o, panic) ∷ answers) t h = h
  record_answers-Bounded ((o, err e) ∷ answers) t h =
      record_answers-Bounded answers _
        (enqueue_refresh-IsBounded n o "refresh-failed" on_demand now t h)
  record_answers-Bounded ((o, ok s) ∷ answers) t h =
      then_run-Rests Bounded (record_status source bound now o s t) _
        (record_status-Bounded o s t h)
        λ r next k.
          then_run-Rests Bounded (record_answers source bound now answers next) _
            (record_answers-Bounded answers next k) λ rest last l. l

  queue_overflow-Bounded :
      (os : List BtcOutPoint) (t : BtcTables)
      → Bounded t
      → Bounded (queue_overflow source bound now os t).0
  unfolding queue_overflow enqueue_refresh_many
  queue_overflow-Bounded [] t h = h
  queue_overflow-Bounded (o ∷ os) t h = elim (Bool-cases (has_repeated (o ∷ os))) [
    | inl e ↦ rw e h
    | inr e ↦ rw e (upsert_points-IsBounded n "request-overflow" on_demand now (o ∷ os) t.queue h)
  ]

  refresh_outpoints-Bounded :
      (cap : ℕ) (os : List BtcOutPoint) (t : BtcTables)
      → Bounded t
      → Bounded (refresh_outpoints source bound now cap os t).0
  unfolding refresh_outpoints
  refresh_outpoints-Bounded cap [] t h = h
  refresh_outpoints-Bounded cap (o ∷ os) t h =
      then_run-Rests Bounded (queue_overflow source bound now (drop cap (o ∷ os)) t) _
        (queue_overflow-Bounded (drop cap (o ∷ os)) t h)
        λ _ next k. record_answers-Bounded (observe_many source (take cap (o ∷ os))) next k

  complete_all-Bounded :
      (os : List BtcOutPoint) (t : BtcTables)
      → Bounded t
      → Bounded (complete_all source bound now os t)
  unfolding complete_all
  complete_all-Bounded [] t h = h
  complete_all-Bounded (o ∷ os) t h = complete_all-Bounded os _ (complete_refresh-IsBounded n o t h)

  settled-Bounded :
      (b : Bool) (o : BtcOutPoint) (t : BtcTables)
      → Bounded t
      → Bounded (if b then complete_refresh o t else fail_refresh o "data source did not answer" t)
  settled-Bounded true o t h = complete_refresh-IsBounded n o t h
  settled-Bounded false o t h = fail_refresh-IsBounded n o "data source did not answer" t h

  settle_entries-Bounded :
      (succeeded os : List BtcOutPoint) (t : BtcTables)
      → Bounded t
      → Bounded (settle_entries source bound now succeeded os t)
  unfolding settle_entries
  settle_entries-Bounded succeeded [] t h = h
  settle_entries-Bounded succeeded (o ∷ os) t h =
      settle_entries-Bounded succeeded os _ (settled-Bounded (has_point o succeeded) o t h)

  drain_rest-Bounded :
      (cap : ℕ) (os : List BtcOutPoint) (t : BtcTables)
      → Bounded t
      → Bounded (drain_rest source bound now cap os t).0
  unfolding drain_rest
  drain_rest-Bounded cap [] t h = h
  drain_rest-Bounded cap (o ∷ os) t h =
      then_run-Rests Bounded (refresh_outpoints source bound now cap (o ∷ os) t) _
        (refresh_outpoints-Bounded cap (o ∷ os) t h)
        λ refreshed next k. settle_entries-Bounded _ (o ∷ os) next k

  -- After a drain, however it ends, no entry of the queue has had more than the configured number of attempts.
  pub drain_queue_once-IsBounded :
      (locked : List BtcOutPoint) (batch_size cap ttl : ℕ) (t : BtcTables)
      → IsBounded n (drain_queue_once source bound now locked n batch_size cap ttl t).0.queue
  unfolding drain_queue_once claim_refresh_batch drop_exhausted_refreshes
  drain_queue_once-IsBounded locked batch_size cap ttl t =
      drain_rest-Bounded cap _ _ (complete_all-Bounded _ _ (exhausted-IsBounded n t.queue now _))
