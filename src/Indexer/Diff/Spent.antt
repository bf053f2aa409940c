-- ===== src/Indexer/Diff/Spent.antt =====
-- The rows of spent out points, through the steps of a refresh.
use rgbpp_indexer.Common.{
  ℕ, ◌≡◌, refl, sym, ap, ◌∙◌, subst, ◌⊎◌, inl, inr, Bool, true, false, Bool-cases, Option, none,
  some, Option-cases, List, [], ◌∷◌, All, if◌then◌else◌, some-injective, ◌&&◌,
}
use mathlib.Core.Option
use Prim.Native.String.{String}
use rgbpp_indexer.Types.Error.{Result, ok, err, panic}
use rgbpp_indexer.Types.Bitcoin.{BtcTxid, BtcOutPoint, out_point_eq, out_point_eq_iff}
use rgbpp_indexer.Types.State.{OutpointSpendStatus, is_spent, spender, spent_height}
use rgbpp_indexer.Btc.{BtcTxInfo, BtcDataSource}
use rgbpp_indexer.Btc.Answers.{IsAnswer}
use rgbpp_indexer.Store.Table.{upsert}
use rgbpp_indexer.Store.Observations.{
  BtcTables, ObservationRow, status_name, observed_row, coalesce, upsert_observation, upsert_btc_tx,
  upsert_address, record_binding_addresses,
}
use rgbpp_indexer.Store.Queue.{enqueue_refresh, on_demand}
use rgbpp_indexer.Store.Anomalies.{resolve_anomalies_for_outpoint}
use rgbpp_indexer.Indexer.Reconcile.{
  Run, then_run, record_addresses, addressed, cache_btc_tx, refresh_btc_tx, follow_up_spend,
  followed, finish_status, record_status, record_answers,
}
use rgbpp_indexer.Indexer.Diff.{record_outpoint_addresses}
use rgbpp_indexer.Indexer.Diff.Columns.{IsSpentRow, columns-injective, spent_known, same_columns}

module _ (source : BtcDataSource) (bound : BtcOutPoint → Bool) (now : ℕ) where
  -- Whatever is spent in the new tables was so in the old ones, or the source says so.
  abbrev pub SpentOnly : BtcTables → BtcTables → Type 0
  SpentOnly old new =
      (o : BtcOutPoint) (s : OutpointSpendStatus)
      → IsSpentRow o s new
      → IsSpentRow o s old ⊎ IsAnswer source o (ok s)

  pub SpentOnly-same : {a b : BtcTables} → b.observations ≡ a.observations → SpentOnly a b
  SpentOnly-same e = λ o s h. inl (record {
    row = h.row;
    row_eq = sym (ap (λ f. f o) e) ∙ h.row_eq;
    status_eq = h.status_eq;
    spender_eq = h.spender_eq;
    height_eq = h.height_eq;
    spent_eq = h.spent_eq;
  })

  pub SpentOnly-trans : (a b c : BtcTables) → SpentOnly a b → SpentOnly b c → SpentOnly a c
  SpentOnly-trans a b c h k = λ o s x. elim (k o s x) [ inl y ↦ h o s y | inr y ↦ inr y ]

  pub then_run-SpentOnly :
      {A B : Type 0} (old : BtcTables) (m : Run A) (f : A → BtcTables → Run B)
      → SpentOnly old m.0
      → ((a : A) (t : BtcTables) → SpentOnly t (f a t).0)
      → SpentOnly old (then_run m f).0
  then_run-SpentOnly old (t, ok a) f h k = SpentOnly-trans old t (f a t).0 h (k a t)
  then_run-SpentOnly old (t, err e) f h k = h
  then_run-SpentOnly old (t, panic) f h k = h

  upsert_address-SpentOnly :
      (name : String) (p : BtcOutPoint) (address : String) (t : BtcTables)
      → SpentOnly t (upsert_address name now p address t)
  unfolding upsert_address upsert
  upsert_address-SpentOnly name p address t o s h = elim (Bool-cases (out_point_eq p o)) [
    | inr e ↦ inl (record {
      row = h.row;
      row_eq = rw e at h.row_eq;
      status_eq = h.status_eq;
      spender_eq = h.spender_eq;
      height_eq = h.height_eq;
      spent_eq = h.spent_eq;
    })
    | inl e ↦ elim (Option-cases (t.observations o)) [
      | inl q ↦
          let same = some-injective (rw (e, q) at h.row_eq) in
          absurd (
            spent_known s h.spent_eq
              (sym h.status_eq ∙ sym (ap (λ (r : ObservationRow). r.status) same)))
      | inr (old, q) ↦
          let same = sym (some-injective (rw (e, q) at h.row_eq)) in
          inl (
            same_columns old h.row q (ap (λ (r : ObservationRow). r.status) same)
              (ap (λ (r : ObservationRow). r.spender_txid) same)
              (ap (λ (r : ObservationRow). r.spent_height) same) h.status_eq h.spender_eq
              h.height_eq h.spent_eq)
    ]
  ]

  upsert_observation-SpentOnly :
      (p : BtcOutPoint) (r : OutpointSpendStatus) (t : BtcTables)
      → IsAnswer source p (ok r)
      → SpentOnly t (upsert_observation p r none source.name now t).0
  unfolding upsert_observation upsert
  upsert_observation-SpentOnly p r t answer o s h = elim (Bool-cases (out_point_eq p o)) [
    | inr e ↦ inl (record {
      row = h.row;
      row_eq = rw e at h.row_eq;
      status_eq = h.status_eq;
      spender_eq = h.spender_eq;
      height_eq = h.height_eq;
      spent_eq = h.spent_eq;
    })
    | inl e ↦
        let (status, spender_id, height) =
          written_columns o r (t.observations o) h.row (rw e at h.row_eq) in
        let known =
          columns-injective s r h.spent_eq (sym status ∙ h.status_eq)
            (sym spender_id ∙ h.spender_eq) (sym height ∙ h.height_eq) in
        inr (
          subst (λ x. IsAnswer source o (ok x)) known
            (subst (λ x. IsAnswer source x (ok r)) ((out_point_eq_iff p o).0 e) answer))
  ]
    where
      written_columns :
          (o : BtcOutPoint) (r : OutpointSpendStatus) (old : Option ObservationRow)
          (row : ObservationRow)
          → some (elim old [
            | none ↦ observed_row r none source.name now
            | some x ↦ record (observed_row r none source.name now) {
              address = coalesce none x.address;
            }
          ])
            ≡ some row
          → (row.status ≡ status_name r)
            × (row.spender_txid ≡ Option.map (λ (t : BtcTxid). t.bytes) (spender r))
            × (row.spent_height ≡ spent_height r)
      written_columns o r none row e =
          let same = sym (some-injective e) in
          (
            ap (λ (r : ObservationRow). r.status) same,
            ap (λ (r : ObservationRow). r.spender_txid) same,
            ap (λ (r : ObservationRow). r.spent_height) same,
          )
      written_columns o r (some x) row e =
          let same = sym (some-injective e) in
          (
            ap (λ (r : ObservationRow). r.status) same,
            ap (λ (r : ObservationRow). r.spender_txid) same,
            ap (λ (r : ObservationRow). r.spent_height) same,
          )

  labelled-SpentOnly :
      (b : Bool) (name : String) (p : BtcOutPoint) (address : String) (t : BtcTables)
      → SpentOnly t (if b then upsert_address name now p address t else t)
  labelled-SpentOnly true name p address t = upsert_address-SpentOnly name p address t
  labelled-SpentOnly false name p address t = SpentOnly-same refl

  binding-SpentOnly :
      (outputs : List (BtcOutPoint × String)) (t : BtcTables)
      → SpentOnly t (record_binding_addresses bound "funding-tx" now outputs t)
  unfolding record_binding_addresses
  binding-SpentOnly [] t = SpentOnly-same refl
  binding-SpentOnly ((p, address) ∷ outputs) t =
      let next = if bound p then upsert_address "funding-tx" now p address t else t in
      SpentOnly-trans t next (record_binding_addresses bound "funding-tx" now outputs next)
        (labelled-SpentOnly (bound p) "funding-tx" p address t) (binding-SpentOnly outputs next)

  pub addresses-SpentOnly :
      (address : String) (os : List BtcOutPoint) (t : BtcTables)
      → SpentOnly t (record_outpoint_addresses bound now address os t)
  unfolding record_outpoint_addresses
  addresses-SpentOnly address [] t = SpentOnly-same refl
  addresses-SpentOnly address (p ∷ os) t =
      let next = if bound p then upsert_address "address-lookup" now p address t else t in
      SpentOnly-trans t next (record_outpoint_addresses bound now address os next)
        (labelled-SpentOnly (bound p) "address-lookup" p address t)
        (addresses-SpentOnly address os next)

  cache_btc_tx-SpentOnly :
      (txid : BtcTxid) (r : Result (Option BtcTxInfo)) (t : BtcTables)
      → SpentOnly t (cache_btc_tx source bound now txid r t).0
  unfolding record_addresses upsert_btc_tx
  cache_btc_tx-SpentOnly txid (err e) t = SpentOnly-same refl
  cache_btc_tx-SpentOnly txid panic t = SpentOnly-same refl
  cache_btc_tx-SpentOnly txid (ok none) t = SpentOnly-same refl
  cache_btc_tx-SpentOnly txid (ok (some tx)) t =
      let labelled =
        record_binding_addresses bound "funding-tx" now (addressed txid 0 tx.outputs) t in
      SpentOnly-trans t labelled (cache_btc_tx source bound now txid (ok (some tx)) t).0
        (binding-SpentOnly (addressed txid 0 tx.outputs) t) (SpentOnly-same refl)

  follow_up_spend-SpentOnly :
      (spender : Option BtcTxid) (t : BtcTables)
      → SpentOnly t (follow_up_spend source bound now spender t).0
  unfolding refresh_btc_tx
  follow_up_spend-SpentOnly none t = SpentOnly-same refl
  follow_up_spend-SpentOnly (some txid) t = cache_btc_tx-SpentOnly txid (source.transaction txid) t

  followed-SpentOnly :
      (b : Bool) (s : OutpointSpendStatus) (t : BtcTables)
      → SpentOnly t (followed source bound now b s t).0
  followed-SpentOnly true s t = follow_up_spend-SpentOnly (spender s) t
  followed-SpentOnly false s t = SpentOnly-same refl

  finish_status-SpentOnly :
      (b : Bool) (o : BtcOutPoint) (t : BtcTables)
      → SpentOnly t (if b then t else resolve_anomalies_for_outpoint o now t)
  unfolding resolve_anomalies_for_outpoint
  finish_status-SpentOnly true o t = SpentOnly-same refl
  finish_status-SpentOnly false o t = SpentOnly-same refl

  record_status-SpentOnly :
      (o : BtcOutPoint) (s : OutpointSpendStatus) (t : BtcTables)
      → IsAnswer source o (ok s)
      → SpentOnly t (record_status source bound now o s t).0
  unfolding record_status
  record_status-SpentOnly o s t answer =
      let (seen, changed) = upsert_observation o s none source.name now t in
      let run = followed source bound now (changed && is_spent s) s seen in
      SpentOnly-trans t seen (record_status source bound now o s t).0
        (upsert_observation-SpentOnly o s t answer)
        (then_run-SpentOnly seen run (λ _ next. finish_status source bound now o s changed next)
          (followed-SpentOnly (changed && is_spent s) s seen)
          λ _ next. finish_status-SpentOnly (is_spent s) o next)

  pub record_answers-SpentOnly :
      (answers : List (BtcOutPoint × Result OutpointSpendStatus)) (t : BtcTables)
      → All (λ a. IsAnswer source a.0 a.1) answers
      → SpentOnly t (record_answers source bound now answers t).0
  unfolding record_answers enqueue_refresh
  record_answers-SpentOnly [] t h = SpentOnly-same refl
  record_answers-SpentOnly ((o, panic) ∷ answers) t h = SpentOnly-same refl
  record_answers-SpentOnly ((o, err e) ∷ answers) t h =
      let next = enqueue_refresh o "refresh-failed" on_demand now t in
      SpentOnly-trans t next (record_answers source bound now answers next).0 (SpentOnly-same refl)
        (record_answers-SpentOnly answers next h.1)
  record_answers-SpentOnly ((o, ok s) ∷ answers) t h =
      then_run-SpentOnly t (record_status source bound now o s t)
        (λ r next.
          then_run (record_answers source bound now answers next)
            λ rest last. (last, ok (r ∷ rest)))
        (record_status-SpentOnly o s t h.0)
        λ r next.
          then_run-SpentOnly next (record_answers source bound now answers next)
            (λ rest last. (last, ok (r ∷ rest))) (record_answers-SpentOnly answers next h.1)
            λ rest last. SpentOnly-same refl
