-- ===== src/Indexer/Reconcile/Outcome.antt =====
-- How a refresh can end.
use rgbpp_indexer.Common.{
  ℕ, ◌≡◌, refl, sym, subst, ◌⊎◌, inl, inr, Bool, true, false, Bool-cases, Option, none, some, List,
  [], ◌∷◌, Occurs, Occurs-append, Occurs-map_inv, take, drop, take-append-drop, All, All-Occurs,
  ◌&&◌,
}
use rgbpp_indexer.Types.Error.{Result, ok, err, panic, upstream}
use rgbpp_indexer.Types.Bitcoin.{BtcTxid, BtcOutPoint}
use rgbpp_indexer.Types.State.{OutpointSpendStatus, is_spent, spender}
use rgbpp_indexer.Btc.{BtcTxInfo, BtcDataSource, observe_many}
use rgbpp_indexer.Btc.Answers.{IsAnswer, single_answer, batch_answer, observe_many-AnswersAll}
use rgbpp_indexer.Store.Observations.{BtcTables, upsert_observation}
use rgbpp_indexer.Store.Queue.{enqueue_refresh_many, on_demand, has_repeated, upsert_points}
use rgbpp_indexer.Indexer.Reconcile.{
  OutpointRefresh, Run, then_run, cache_btc_tx, refresh_btc_tx, follow_up_spend, followed,
  finish_status, record_status, record_answers, queue_overflow, refresh_outpoints,
}
use rgbpp_indexer.Indexer.Reconcile.Observed.{IsQueued, upsert_points-Occurs}
use rgbpp_indexer.Indexer.Reconcile.Refresh.{
  IsSettled, queued, record_answers-IsSettled, record_answers-IsQueued,
}

module _ (source : BtcDataSource) (bound : BtcOutPoint → Bool) (now : ℕ) where
  -- What a call that gave no value failed of: the source, when it was asked for a transaction, or a panic in it.
  abbrev pub IsBlamed : {A : Type 0} → Result A → Type 0
  IsBlamed (ok a) = Unit
  IsBlamed (err e) = (txid : BtcTxid) × (source.transaction txid ≡ err e)
  IsBlamed panic =
      ((txid : BtcTxid) × (source.transaction txid ≡ panic))
      ⊎ ((o : BtcOutPoint) × (source.outpoint_status o ≡ panic))

  then_run-IsBlamed :
      {A B : Type 0} (m : Run A) (f : A → BtcTables → Run B)
      → IsBlamed m.1
      → ((a : A) (t : BtcTables) → IsBlamed (f a t).1)
      → IsBlamed (then_run m f).1
  then_run-IsBlamed (t, ok a) f h k = k a t
  then_run-IsBlamed (t, err e) f h k = h
  then_run-IsBlamed (t, panic) f h k = h

  cache_btc_tx-IsBlamed :
      (txid : BtcTxid) (r : Result (Option BtcTxInfo)) (t : BtcTables)
      → source.transaction txid ≡ r
      → IsBlamed (cache_btc_tx source bound now txid r t).1
  cache_btc_tx-IsBlamed txid (err e) t q = (txid, q)
  cache_btc_tx-IsBlamed txid panic t q = inl (txid, q)
  cache_btc_tx-IsBlamed txid (ok none) t q = tt
  cache_btc_tx-IsBlamed txid (ok (some tx)) t q = tt

  spend-IsBlamed :
      (spender : Option BtcTxid) (t : BtcTables)
      → IsBlamed (follow_up_spend source bound now spender t).1
  unfolding refresh_btc_tx
  spend-IsBlamed none t = tt
  spend-IsBlamed (some txid) t = cache_btc_tx-IsBlamed txid (source.transaction txid) t refl

  followed-IsBlamed :
      (b : Bool) (s : OutpointSpendStatus) (t : BtcTables)
      → IsBlamed (followed source bound now b s t).1
  followed-IsBlamed false s t = tt
  followed-IsBlamed true s t = spend-IsBlamed (spender s) t

  record_status-IsBlamed :
      (o : BtcOutPoint) (s : OutpointSpendStatus) (t : BtcTables)
      → IsBlamed (record_status source bound now o s t).1
  unfolding record_status
  record_status-IsBlamed o s t =
      let (seen, changed) = upsert_observation o s none source.name now t in
      then_run-IsBlamed (followed source bound now (changed && is_spent s) s seen)
        (λ _ next. finish_status source bound now o s changed next)
        (followed-IsBlamed (changed && is_spent s) s seen) λ _ next. tt

  panic-single :
      (o : BtcOutPoint) (r : Result OutpointSpendStatus)
      → IsAnswer source o r
      → r ≡ panic
      → source.outpoint_status o ≡ panic
  panic-single o _ single_answer e = e
  panic-single o _ (batch_answer statuses _) e = absurd (let k = e in cc)

  record_answers-IsBlamed :
      (answers : List (BtcOutPoint × Result OutpointSpendStatus)) (t : BtcTables)
      → All (λ a. IsAnswer source a.0 a.1) answers
      → IsBlamed (record_answers source bound now answers t).1
  unfolding record_answers
  record_answers-IsBlamed [] t h = tt
  record_answers-IsBlamed ((o, panic) ∷ answers) t h = inr (o, panic-single o panic h.0 refl)
  record_answers-IsBlamed ((o, err e) ∷ answers) t h = record_answers-IsBlamed answers _ h.1
  record_answers-IsBlamed ((o, ok s) ∷ answers) t h =
      then_run-IsBlamed (record_status source bound now o s t)
        (λ r next.
          then_run (record_answers source bound now answers next)
            λ rest last. (last, ok (r ∷ rest)))
        (record_status-IsBlamed o s t)
        λ r next.
          then_run-IsBlamed (record_answers source bound now answers next)
            (λ rest last. (last, ok (r ∷ rest))) (record_answers-IsBlamed answers next h.1)
            λ rest last. tt

  -- The end of a refresh. With a value, each out point is settled; an error is one of the source's for a transaction,
  -- or the refusal of a statement that would queue an out point twice; a panic is one of the source.
  abbrev pub Outcome : ℕ → List BtcOutPoint → BtcTables → Result (List OutpointRefresh) → Type 0
  Outcome cap os t (ok refreshed) = (o : BtcOutPoint) → Occurs o os → IsSettled o refreshed t
  Outcome cap os t (err e) = IsBlamed {A = Unit {0}} (err e) ⊎ (has_repeated (drop cap os) ≡ true)
  Outcome cap os t panic = IsBlamed {A = Unit {0}} panic

  answers-Outcome :
      (cap : ℕ) (os capped : List BtcOutPoint) (t : BtcTables)
      → ((o : BtcOutPoint) → Occurs o os → Occurs o capped ⊎ IsQueued o t)
      → (r : Result (List OutpointRefresh))
      → (record_answers source bound now (observe_many source capped) t).1 ≡ r
      → Outcome cap os (record_answers source bound now (observe_many source capped) t).0 r
  answers-Outcome cap os capped t split (ok refreshed) e =
      let asked = observe_many-AnswersAll source capped in
      let settled =
        record_answers-IsSettled source bound now (observe_many source capped) t refreshed
          asked.once e in
      let final = (record_answers source bound now (observe_many source capped) t).0 in
      λ o h. elim (split o h) [
        | inl here ↦
            let (a, occurs, same) =
              Occurs-map_inv (λ a. a.0) o (observe_many source capped)
                ((asked.same_points o).1 here) in
            subst (λ o. IsSettled o refreshed final) (sym same)
              (All-Occurs _ (observe_many source capped) a settled occurs)
        | inr there ↦
            queued (record_answers-IsQueued source bound now o (observe_many source capped) t there)
      ]
  answers-Outcome cap os capped t split (err x) e =
      let asked = observe_many-AnswersAll source capped in
      inl (
        subst IsBlamed e (record_answers-IsBlamed (observe_many source capped) t asked.from_source))
  answers-Outcome cap os capped t split panic e =
      let asked = observe_many-AnswersAll source capped in
      subst IsBlamed e (record_answers-IsBlamed (observe_many source capped) t asked.from_source)

  queue_overflow-cases :
      (os : List BtcOutPoint) (t : BtcTables)
      → ((queue_overflow source bound now os t ≡ (t, err upstream)) × (has_repeated os ≡ true))
        ⊎ ((next : BtcTables) × (queue_overflow source bound now os t ≡ (next, ok tt))
            × ((o : BtcOutPoint) → Occurs o os → IsQueued o next))
  unfolding queue_overflow enqueue_refresh_many
  queue_overflow-cases [] t = inr (t, refl, λ o h. absurd h)
  queue_overflow-cases (p ∷ os) t = elim (Bool-cases (has_repeated (p ∷ os))) [
    | inl e ↦ inl (rw e refl, e)
    | inr e ↦ inr (
      record t { queue = upsert_points "request-overflow" on_demand now (p ∷ os) t.queue },
      rw e refl,
      λ o h. upsert_points-Occurs o "request-overflow" on_demand now (p ∷ os) t.queue (inl h),
    )
  ]

  -- However the source answers, a refresh ends in one of these ways. It ends with a value, and then every out point that
  -- it was asked for is among the results, with a valid observation of the same status in the tables, or waits in
  -- the queue. Or it ends with an error that the source gave for a transaction; or with an error because an out point
  -- stands twice beyond the cap; or with a panic of the source.
  pub refresh_outpoints-Outcome :
      (cap : ℕ) (os : List BtcOutPoint) (t : BtcTables)
      → Outcome cap os
          (refresh_outpoints source bound now cap os t).0
          (refresh_outpoints source bound now cap os t).1
  unfolding refresh_outpoints
  refresh_outpoints-Outcome cap [] t = λ o h. absurd h
  refresh_outpoints-Outcome cap (p ∷ ps) t =
      let os = p ∷ ps in
      elim (queue_overflow-cases (drop cap os) t) [
        | inl (e, twice) ↦ rw (e) (inr twice)
        | inr (next, e, waits) ↦ rw (e) (
            answers-Outcome cap os (take cap os) next
              (λ o h.
                elim ((Occurs-append o (take cap os) (drop cap os)).0
                  (subst (Occurs o) (sym (take-append-drop cap os)) h)) [
                    | inl a ↦ inl a
                    | inr b ↦ inr (waits o b)
                  ])
              (record_answers source bound now (observe_many source (take cap os)) next).1 refl)
      ]
