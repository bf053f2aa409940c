-- ===== src/Indexer/Reconcile/Refresh.antt =====
-- A refresh answers or queues every out point that it is asked for.
use rgbpp_indexer.Common.{
  ℕ, ◌≡◌, refl, sym, ap, ◌∙◌, subst, inl, inr, Bool, true, false, none, List, [], ◌∷◌, map, Occurs,
  if◌then◌else◌, Distinct, All, All-imp, ◌&&◌,
}
use rgbpp_indexer.Types.Error.{Result, ok, err, panic, ok-injective}
use rgbpp_indexer.Types.Bitcoin.{BtcOutPoint}
use rgbpp_indexer.Types.State.{OutpointSpendStatus, is_spent, spender}
use rgbpp_indexer.Btc.{BtcDataSource}
use rgbpp_indexer.Store.Observations.{BtcTables, upsert_observation}
use rgbpp_indexer.Store.Queue.{enqueue_refresh, on_demand}
use rgbpp_indexer.Store.Anomalies.{resolve_anomalies_for_outpoint}
use rgbpp_indexer.Indexer.Reconcile.{OutpointRefresh, Run, followed, record_status, record_answers}
use rgbpp_indexer.Indexer.Reconcile.Keeps.{
  then_run-Keeps, then_run-Rests, then_run-inv, follow_up_spend-Keeps,
}
use rgbpp_indexer.Indexer.Reconcile.Observed.{
  IsObserved, IsQueued, Keeps, Keeps-refl, Keeps-trans, resolve-Keeps, enqueue_refresh-Keeps,
  enqueue_refresh-IsQueued, upsert_observation-IsObserved, upsert_observation-Keeps,
}

-- The out point is among the results, and its row has the status of the result; or it waits in the queue.
pub data IsSettled (o : BtcOutPoint) (refreshed : List OutpointRefresh) (t : BtcTables)
    : Type 0 where
  answered :
      (r : OutpointRefresh)
      → Occurs r refreshed
      → r.outpoint ≡ o
      → IsObserved o r.status t
      → IsSettled o refreshed t
  queued : IsQueued o t → IsSettled o refreshed t

module _ (source : BtcDataSource) (bound : BtcOutPoint → Bool) (now : ℕ) where
  abbrev Answer : Type 0
  Answer = BtcOutPoint × Result OutpointSpendStatus

  followed-Keeps :
      (b : Bool) (o : BtcOutPoint) (s : OutpointSpendStatus) (t : BtcTables)
      → Keeps o t (followed source bound now b s t).0
  followed-Keeps true o s t = follow_up_spend-Keeps source bound now o (spender s) t
  followed-Keeps false o s t = Keeps-refl o t

  resolved-Keeps :
      (b : Bool) (o p : BtcOutPoint) (t : BtcTables)
      → Keeps o t (if b then t else resolve_anomalies_for_outpoint p now t)
  resolved-Keeps true o p t = Keeps-refl o t
  resolved-Keeps false o p t = resolve-Keeps o p now t

  -- What a status that is recorded leaves of the tables behind the upsert.
  record_status-Keeps_seen :
      (p o : BtcOutPoint) (s : OutpointSpendStatus) (t : BtcTables)
      → Keeps p
          (upsert_observation o s none source.name now t).0
          (record_status source bound now o s t).0
  unfolding record_status
  record_status-Keeps_seen p o s t =
      let (seen, changed) = upsert_observation o s none source.name now t in
      then_run-Keeps p seen (followed source bound now (changed && is_spent s) s seen) _
        (followed-Keeps (changed && is_spent s) p s seen) λ _ u. resolved-Keeps (is_spent s) p o u

  record_status-Keeps :
      (p o : BtcOutPoint) (s : OutpointSpendStatus) (t : BtcTables)
      → (p ≡ o → ⊥)
      → Keeps p t (record_status source bound now o s t).0
  record_status-Keeps p o s t ne =
      Keeps-trans (upsert_observation-Keeps p o s none source.name now t ne)
        (record_status-Keeps_seen p o s t)

  record_status-IsObserved :
      (o : BtcOutPoint) (s : OutpointSpendStatus) (t : BtcTables)
      → IsObserved o s (record_status source bound now o s t).0
  record_status-IsObserved o s t =
      let k = record_status-Keeps_seen o o s t in
      k.keeps_observed s (upsert_observation-IsObserved o s none source.name now t)

  record_status-result :
      (o : BtcOutPoint) (s : OutpointSpendStatus) (t : BtcTables) (r : OutpointRefresh)
      → (record_status source bound now o s t).1 ≡ ok r
      → (r.outpoint ≡ o) × (r.status ≡ s)
  unfolding record_status
  record_status-result o s t r e =
      let (seen, changed) = upsert_observation o s none source.name now t in
      let (_, _, q) =
        then_run-inv (followed source bound now (changed && is_spent s) s seen) _ r e in
      let k = ok-injective (sym (ap (λ (m : Run OutpointRefresh). m.1) q) ∙ e) in
      (
        sym (ap (λ (r : OutpointRefresh). r.outpoint) k),
        sym (ap (λ (r : OutpointRefresh). r.status) k),
      )

  -- The queue's entries stay when a status is recorded.
  record_status-IsQueued :
      (p o : BtcOutPoint) (s : OutpointSpendStatus) (t : BtcTables)
      → IsQueued p t
      → IsQueued p (record_status source bound now o s t).0
  record_status-IsQueued p o s t h =
      let k = record_status-Keeps_seen p o s t in k.keeps_queued (unfold upsert_observation in h)

  record_answers-Keeps :
      (p : BtcOutPoint) (answers : List Answer) (t : BtcTables)
      → (Occurs p (map (λ (a : Answer). a.0) answers) → ⊥)
      → Keeps p t (record_answers source bound now answers t).0
  unfolding record_answers
  record_answers-Keeps p [] t ne = Keeps-refl p t
  record_answers-Keeps p ((o, panic) ∷ answers) t ne = Keeps-refl p t
  record_answers-Keeps p ((o, err e) ∷ answers) t ne =
      Keeps-trans (enqueue_refresh-Keeps p o "refresh-failed" on_demand now t)
        (record_answers-Keeps p answers _ λ h. ne (inr h))
  record_answers-Keeps p ((o, ok s) ∷ answers) t ne =
      then_run-Keeps p t (record_status source bound now o s t) _
        (record_status-Keeps p o s t λ e. ne (inl e))
        λ r next.
          then_run-Keeps p next (record_answers source bound now answers next) _
            (record_answers-Keeps p answers next λ h. ne (inr h)) λ rest last. Keeps-refl p last

  pub record_answers-IsQueued :
      (p : BtcOutPoint) (answers : List Answer) (t : BtcTables)
      → IsQueued p t
      → IsQueued p (record_answers source bound now answers t).0
  unfolding record_answers
  record_answers-IsQueued p [] t h = h
  record_answers-IsQueued p ((o, panic) ∷ answers) t h = h
  record_answers-IsQueued p ((o, err e) ∷ answers) t h =
      let k = enqueue_refresh-Keeps p o "refresh-failed" on_demand now t in
      record_answers-IsQueued p answers _ (k.keeps_queued h)
  record_answers-IsQueued p ((o, ok s) ∷ answers) t h =
      then_run-Rests (IsQueued p) (record_status source bound now o s t) _
        (record_status-IsQueued p o s t h)
        λ r next k.
          then_run-Rests (IsQueued p) (record_answers source bound now answers next) _
            (record_answers-IsQueued p answers next k) λ rest last l. l

  more_results :
      (o : BtcOutPoint) (r : OutpointRefresh) (rest : List OutpointRefresh) (t : BtcTables)
      → IsSettled o rest t
      → IsSettled o (r ∷ rest) t
  more_results o r rest t (answered a k e h) = answered a (inr k) e h
  more_results o r rest t (queued h) = queued h

  pub record_answers-IsSettled :
      (answers : List Answer) (t : BtcTables) (refreshed : List OutpointRefresh)
      → Distinct (map (λ (a : Answer). a.0) answers)
      → (record_answers source bound now answers t).1 ≡ ok refreshed
      → All (λ a. IsSettled a.0 refreshed (record_answers source bound now answers t).0) answers
  unfolding record_answers
  record_answers-IsSettled [] t refreshed d e = tt
  record_answers-IsSettled ((o, panic) ∷ answers) t refreshed d e = absurd (let k = e in cc)
  record_answers-IsSettled ((o, err x) ∷ answers) t refreshed d e =
      let next = enqueue_refresh o "refresh-failed" on_demand now t in
      (
        queued (
            record_answers-IsQueued o answers next
              (enqueue_refresh-IsQueued o "refresh-failed" on_demand now t)),
        record_answers-IsSettled answers next refreshed d.1 e,
      )
  record_answers-IsSettled ((o, ok s) ∷ answers) t refreshed d e =
      let recorded = record_status source bound now o s t in
      let (r, first, p) = then_run-inv recorded _ refreshed e in
      let run = record_answers source bound now answers recorded.0 in
      let (rest, second, q) =
        then_run-inv run _ refreshed (sym (ap (λ (m : Run (List OutpointRefresh)). m.1) p) ∙ e) in
      let all = p ∙ q in
      let same = ok-injective (sym (ap (λ (m : Run (List OutpointRefresh)). m.1) all) ∙ e) in
      let (at_o, has_s) = record_status-result o s t r first in
      let kept = record_answers-Keeps o answers recorded.0 d.0 in
      subst
        (λ (m : Run (List OutpointRefresh)).
          All (λ a. IsSettled a.0 refreshed m.0) ((o, ok s) ∷ answers))
        (sym all)
        (subst (λ results. All (λ a. IsSettled a.0 results run.0) ((o, ok s) ∷ answers)) same
          (
            answered r (inl refl) at_o (
                subst (λ x. IsObserved o x run.0) (sym has_s)
                  (kept.keeps_observed s (record_status-IsObserved o s t))),
            All-imp (λ a h. more_results a.0 r rest run.0 h) answers
                (record_answers-IsSettled answers recorded.0 rest d.1 second),
          ))
