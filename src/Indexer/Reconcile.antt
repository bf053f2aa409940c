-- ===== src/Indexer/Reconcile.antt =====
-- crates/indexer/src/reconcile.rs, with record_addresses of address_backfill.rs: the refresh of observations on demand and
-- the drain of the queue. A function takes the tables and gives them back, also when it ends with an error.
-- `bound` says whether a cell row is bound to an out point, and `now` is the time, which stands still during a call.
pub mod Observed
pub mod Keeps
pub mod Refresh
pub mod Outcome
pub mod Queue
use rgbpp_indexer.Common.{
  ℕ, ◌+◌, Bool, true, false, not, ◌&&◌, Option, none, some, List, [], ◌∷◌, ◌++◌, map, length, take,
  drop, ltb, if◌then◌else◌, get_elem?,
}
use mathlib.Core.Option
use Prim.Native.String.{String}
use rgbpp_indexer.Types.Error.{Error, Result, ok, err, panic}
use rgbpp_indexer.Types.Bitcoin.{BtcTxid, BtcOutPoint, from_display_slice, out_point_eq}
use rgbpp_indexer.Types.State.{OutpointSpendStatus, is_spent, spender}
use rgbpp_indexer.Btc.{
  BtcBlockRef, BtcTxOutput, BtcTxInfo, BtcDataSource, tx_commitment, out_point_of, observe_many,
}
use rgbpp_indexer.Store.Observations.{
  BtcTables, BtcTxRow, ObservationRow, QueueRow, upsert_observation, upsert_btc_tx,
  record_binding_addresses, is_fresh,
}
use rgbpp_indexer.Store.Queue.{
  enqueue_refresh, enqueue_refresh_many, on_demand, drop_exhausted_refreshes, claim_refresh_batch,
  complete_refresh, fail_refresh, has_point,
}
use rgbpp_indexer.Store.Anomalies.{resolve_anomalies_for_outpoint}

pub record OutpointRefresh : Type 0 where
  pub outpoint : BtcOutPoint
  pub status : OutpointSpendStatus
  pub changed : Bool

-- The tables behind a call, and how it ended.
abbrev pub Run : Type 0 → Type 0
Run A = BtcTables × Result A

-- `?` on a call.
abbrev pub then_run : {A B : Type 0} → Run A → (A → BtcTables → Run B) → Run B
then_run (t, ok a) f = f a t
then_run (t, err e) f = (t, err e)
then_run (t, panic) f = (t, panic)

-- The outputs that have an address, by their places.
unfoldable pub addressed : BtcTxid → ℕ → List BtcTxOutput → List (BtcOutPoint × String)
addressed txid vout [] = []
addressed txid vout (output ∷ outputs) =
    let rest = addressed txid (vout + 1) outputs in
    elim output.address [ none ↦ rest | some a ↦ (out_point_of txid vout, a) ∷ rest ]

unfoldable pub btc_tx_row : String → BtcTxInfo → BtcTxRow
btc_tx_row source tx = record {
  block_height = Option.map (λ (c : BtcBlockRef). c.height) tx.confirmation;
  block_hash = Option.map (λ (c : BtcBlockRef). c.hash) tx.confirmation;
  block_time = Option.map (λ (c : BtcBlockRef). c.time) tx.confirmation;
  commitment = tx_commitment tx;
  input_count = length tx.inputs;
  output_count = length tx.outputs;
  fee = tx.fee;
  source = source;
}

module _ (source : BtcDataSource) (bound : BtcOutPoint → Bool) (now : ℕ) where
  unfoldable pub record_addresses : BtcTxid → BtcTxInfo → BtcTables → BtcTables
  record_addresses txid tx t =
      record_binding_addresses bound "funding-tx" now (addressed txid 0 tx.outputs) t

  abbrev pub cache_btc_tx : BtcTxid → Result (Option BtcTxInfo) → BtcTables → Run (Option BtcTxInfo)
  cache_btc_tx txid (err e) t = (t, err e)
  cache_btc_tx txid panic t = (t, panic)
  cache_btc_tx txid (ok none) t = (t, ok none)
  cache_btc_tx txid (ok (some tx)) t =
      (upsert_btc_tx txid (btc_tx_row source.name tx) (record_addresses txid tx t), ok (some tx))

  unfoldable pub refresh_btc_tx : BtcTxid → BtcTables → Run (Option BtcTxInfo)
  refresh_btc_tx txid t = cache_btc_tx txid (source.transaction txid) t

  abbrev pub follow_up_spend : Option BtcTxid → BtcTables → Run (Option BtcTxInfo)
  follow_up_spend none t = (t, ok none)
  follow_up_spend (some txid) t = refresh_btc_tx txid t

  -- Behind the follow-up of a spend: what is live again resolves its findings.
  abbrev pub finish_status :
      BtcOutPoint → OutpointSpendStatus → Bool → BtcTables → Run OutpointRefresh
  finish_status o s changed t = (
    if is_spent s then t else resolve_anomalies_for_outpoint o now t,
    ok (record { outpoint = o; status = s; changed = changed }),
  )

  abbrev pub followed : Bool → OutpointSpendStatus → BtcTables → Run (Option BtcTxInfo)
  followed newly_spent s t = if newly_spent then follow_up_spend (spender s) t else (t, ok none)

  -- An answer that is a status, up to the entry in the list of results.
  unfoldable pub record_status : BtcOutPoint → OutpointSpendStatus → BtcTables → Run OutpointRefresh
  record_status o s t =
      let (seen, changed) = upsert_observation o s none source.name now t in
      then_run (followed (changed && is_spent s) s seen) λ _ next. finish_status o s changed next

  -- The loop over the answers.
  unfoldable pub record_answers :
      List (BtcOutPoint × Result OutpointSpendStatus) → BtcTables → Run (List OutpointRefresh)
  record_answers [] t = (t, ok [])
  record_answers ((o, panic) ∷ answers) t = (t, panic)
  record_answers ((o, err e) ∷ answers) t =
      record_answers answers (enqueue_refresh o "refresh-failed" on_demand now t)
  record_answers ((o, ok s) ∷ answers) t = then_run (record_status o s t) λ refresh next.
      then_run (record_answers answers next) λ rest last. (last, ok (refresh ∷ rest))

  -- What goes beyond the cap is queued.
  unfoldable pub queue_overflow : List BtcOutPoint → BtcTables → Run Unit
  queue_overflow [] t = (t, ok tt)
  queue_overflow (o ∷ os) t = enqueue_refresh_many (o ∷ os) "request-overflow" on_demand now t

  unfoldable pub refresh_outpoints : ℕ → List BtcOutPoint → BtcTables → Run (List OutpointRefresh)
  refresh_outpoints cap [] t = (t, ok [])
  refresh_outpoints cap (o ∷ os) t =
      then_run (queue_overflow (drop cap (o ∷ os)) t)
        λ _ queued. record_answers (observe_many source (take cap (o ∷ os))) queued

  -- The entries that an observation within the time to live answers already.
  unfoldable pub fresh_points : ℕ → List BtcOutPoint → BtcTables → List BtcOutPoint
  fresh_points ttl [] t = []
  fresh_points ttl (o ∷ os) t =
      let rest = fresh_points ttl os t in
      elim (t.observations o) [
        | none ↦ rest
        | some row ↦ if is_fresh ttl now row then o ∷ rest else rest
      ]

  unfoldable pub without : List BtcOutPoint → List BtcOutPoint → List BtcOutPoint
  without fresh [] = []
  without fresh (o ∷ os) =
      let rest = without fresh os in if has_point o fresh then rest else o ∷ rest

  unfoldable pub complete_all : List BtcOutPoint → BtcTables → BtcTables
  complete_all [] t = t
  complete_all (o ∷ os) t = complete_all os (complete_refresh o t)

  -- The entries that were answered are done, the others stay with their error.
  unfoldable pub settle_entries : List BtcOutPoint → List BtcOutPoint → BtcTables → BtcTables
  settle_entries succeeded [] t = t
  settle_entries succeeded (o ∷ os) t = settle_entries succeeded os (
      if has_point o succeeded
      then complete_refresh o t
      else fail_refresh o "data source did not answer" t)

  unfoldable pub drain_rest : ℕ → List BtcOutPoint → BtcTables → Run ℕ
  drain_rest cap [] t = (t, ok 0)
  drain_rest cap (o ∷ os) t = then_run (refresh_outpoints cap (o ∷ os) t) λ refreshed next. (
    settle_entries (map (λ (r : OutpointRefresh). r.outpoint) refreshed) (o ∷ os) next,
    ok (length refreshed),
  )

  -- `locked` are the rows that other workers hold.
  unfoldable pub drain_queue_once : List BtcOutPoint → ℕ → ℕ → ℕ → ℕ → BtcTables → Run ℕ
  drain_queue_once locked max_attempts batch_size cap ttl t =
      let (kept, batch) =
        claim_refresh_batch locked batch_size now (drop_exhausted_refreshes max_attempts t) in
      let points = map (λ (r : QueueRow). r.out_point) batch in
      let fresh = fresh_points ttl points kept in
      drain_rest cap (without fresh points) (complete_all fresh kept)
