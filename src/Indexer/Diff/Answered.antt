-- ===== src/Indexer/Diff/Answered.antt =====
-- An out point is taken for spent only when the data source says so.
use rgbpp_indexer.Common.{ℕ, refl, ◌⊎◌, inl, inr, Bool, Bool-cases, List, [], ◌∷◌, ◌++◌, take, drop}
use Prim.Native.String.{String}
use rgbpp_indexer.Types.Error.{Result, ok, err, panic}
use rgbpp_indexer.Types.Bitcoin.{BtcOutPoint}
use rgbpp_indexer.Types.State.{OutpointSpendStatus}
use rgbpp_indexer.Btc.{BtcDataSource, observe_many}
use rgbpp_indexer.Btc.Answers.{IsAnswer, observe_many-AnswersAll}
use rgbpp_indexer.Store.Observations.{BtcTables}
use rgbpp_indexer.Store.Queue.{enqueue_refresh_many, has_repeated}
use rgbpp_indexer.Indexer.Reconcile.{record_answers, queue_overflow, refresh_outpoints}
use rgbpp_indexer.Indexer.Diff.{
  record_outpoint_addresses, disappeared_from, contradicted_in, live_bound_outpoints_for_address,
  point_set, sorted_points, refresh_diff, diff_with, reconcile_address,
}
use rgbpp_indexer.Indexer.Diff.Spent.{
  SpentOnly, SpentOnly-same, SpentOnly-trans, then_run-SpentOnly, addresses-SpentOnly,
  record_answers-SpentOnly,
}
use rgbpp_indexer.Indexer.Diff.Columns.{IsSpentRow}

module _ (source : BtcDataSource) (bound : BtcOutPoint → Bool) (now : ℕ) where
  queue_overflow-SpentOnly :
      (os : List BtcOutPoint) (t : BtcTables)
      → SpentOnly source bound now t (queue_overflow source bound now os t).0
  unfolding queue_overflow enqueue_refresh_many
  queue_overflow-SpentOnly [] t = SpentOnly-same source bound now refl
  queue_overflow-SpentOnly (o ∷ os) t = elim (Bool-cases (has_repeated (o ∷ os))) [
    | inl e ↦ rw e (SpentOnly-same source bound now refl)
    | inr e ↦ rw e (SpentOnly-same source bound now refl)
  ]

  refresh_outpoints-SpentOnly :
      (cap : ℕ) (os : List BtcOutPoint) (t : BtcTables)
      → SpentOnly source bound now t (refresh_outpoints source bound now cap os t).0
  unfolding refresh_outpoints
  refresh_outpoints-SpentOnly cap [] t = SpentOnly-same source bound now refl
  refresh_outpoints-SpentOnly cap (o ∷ os) t =
      then_run-SpentOnly source bound now t (queue_overflow source bound now (drop cap (o ∷ os)) t)
        (λ _ next. record_answers source bound now (observe_many source (take cap (o ∷ os))) next)
        (queue_overflow-SpentOnly (drop cap (o ∷ os)) t)
        λ _ next.
          let asked = observe_many-AnswersAll source (take cap (o ∷ os)) in
          record_answers-SpentOnly source bound now (observe_many source (take cap (o ∷ os))) next
            asked.from_source

  refresh_diff-SpentOnly :
      (cap : ℕ) (address : String) (live_now gone : List BtcOutPoint)
      (r : Result (List BtcOutPoint)) (t : BtcTables)
      → SpentOnly source bound now t (refresh_diff source bound now cap address live_now gone r t).0
  refresh_diff-SpentOnly cap address live_now gone (err e) t = SpentOnly-same source bound now refl
  refresh_diff-SpentOnly cap address live_now gone panic t = SpentOnly-same source bound now refl
  refresh_diff-SpentOnly cap address live_now gone (ok contradicted) t =
      then_run-SpentOnly source bound now t
        (refresh_outpoints source bound now cap (sorted_points (gone ++ contradicted)) t) _
        (refresh_outpoints-SpentOnly cap (sorted_points (gone ++ contradicted)) t)
        λ refreshed next. SpentOnly-same source bound now refl

  diff_with-SpentOnly :
      (cap : ℕ) (live : List BtcOutPoint) (address : String) (r : Result (List BtcOutPoint))
      (t : BtcTables)
      → SpentOnly source bound now t (diff_with source bound now cap live address r t).0
  diff_with-SpentOnly cap live address (err e) t = SpentOnly-same source bound now refl
  diff_with-SpentOnly cap live address panic t = SpentOnly-same source bound now refl
  diff_with-SpentOnly cap live address (ok utxos) t =
      let live_now = point_set utxos in
      let labelled = record_outpoint_addresses bound now address live_now t in
      let gone =
        disappeared_from live_now (live_bound_outpoints_for_address address live labelled) in
      SpentOnly-trans source bound now t labelled
        (refresh_diff source bound now cap address live_now gone (contradicted_in live_now labelled)
          labelled).0
        (addresses-SpentOnly source bound now address live_now t)
        (refresh_diff-SpentOnly cap address live_now gone (contradicted_in live_now labelled)
          labelled)

  -- Nothing is taken for spent because it is missing from the list of an address. A row that is of a spend behind the
  -- diff of an address, however that ends, was the row of the same spend before, or the data source answers this
  -- spend for the out point itself.
  pub reconcile_address-IsAnswer :
      (cap : ℕ) (live : List BtcOutPoint) (address : String) (t : BtcTables) (o : BtcOutPoint)
      (s : OutpointSpendStatus)
      → IsSpentRow o s (reconcile_address source bound now cap live address t).0
      → IsSpentRow o s t ⊎ IsAnswer source o (ok s)
  unfolding reconcile_address
  reconcile_address-IsAnswer cap live address t o s h =
      diff_with-SpentOnly cap live address (source.address_utxos address) t o s h
