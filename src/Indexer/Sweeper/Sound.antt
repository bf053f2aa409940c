-- ===== src/Indexer/Sweeper/Sound.antt =====
-- A finding of the detection is a spend with the grace behind it and no transition.
use rgbpp_indexer.Common.{
  ◌%◌, ◌^◌, arith, ℕ, ◌+◌, ◌-◌, ◌≤◌, ◌≡◌, refl, sym, ap, ◌∙◌, ◌⊎◌, inl, inr, Bool, true, false,
  Bool-cases, Option, none, some, Option-cases, List, [], ◌∷◌, Occurs, if◌then◌else◌, ltb,
  ltb-false→le, some-injective, ◌&&◌,
}
use mathlib.Core.Option
use Prim.Native.String.{String}
use rgbpp_indexer.Types.Error.{Result, ok, err, panic}
use rgbpp_indexer.Types.Bitcoin.{BtcTxid, BtcOutPoint}
use rgbpp_indexer.Types.State.{OutpointSpendStatus, AnomalyKind}
use rgbpp_indexer.Btc.{BtcTxInfo, BtcDataSource}
use rgbpp_indexer.Store.Table.{upsert}
use rgbpp_indexer.Store.Models.{Database}
use rgbpp_indexer.Store.Observations.{
  BtcTables, ObservationRow, AnomalyRow, DedupKey, dedup_eq, out_point_subject, spend_status,
  is_none, record_binding_addresses, upsert_address, upsert_btc_tx,
}
use rgbpp_indexer.Store.Anomalies.{resolve_row, resolve_anomalies_for_outpoint, matches_point}
use rgbpp_indexer.Indexer.Reconcile.{
  Run, then_run, refresh_btc_tx, cache_btc_tx, record_addresses, addressed,
}
use rgbpp_indexer.Store.Anomalies.{record_anomaly}
use rgbpp_indexer.Indexer.Sweeper.{
  misspend_kind, published, flag, check_spend, check_status, check_pending, detect_at,
  detect_misspends, indexer_is_caught_up,
}

-- There is an open finding under the key.
pub record IsOpen (t : BtcTables) (key : DedupKey) : Type 0 where
  pub row : AnomalyRow
  pub row_eq : t.anomalies key ≡ some row
  pub open_eq : row.resolved_at ≡ none

module _ (source : BtcDataSource) (bound : BtcOutPoint → Bool) (now : ℕ)
    (has_transition : BtcTxid → Bool) (grace : ℕ) where
  -- The row is of a spend that the chain has confirmed `grace` times, and whose transaction has no transition.
  pub record IsMisspend (tip : ℕ) (row : ObservationRow) : Type 0 where
    pub spender : BtcTxid
    pub height : ℕ
    pub status_eq : spend_status row ≡ ok (OutpointSpendStatus.spent_confirmed spender height)
    pub grace_le : grace ≤ tip - height + 1
    pub unknown_eq : has_transition spender ≡ false

  -- A key whose finding may be opened by the rows.
  abbrev pub IsFound : ℕ → List (BtcOutPoint × ObservationRow) → DedupKey → Type 0
  IsFound tip rows key =
      (o : BtcOutPoint) × (row : ObservationRow) × Occurs (o, row) rows
      × IsMisspend tip row
      × (kind : AnomalyKind) × (dedup_eq (record { kind = kind; subject = out_point_subject o }) key
          ≡ true)

  -- Every open finding was open, or is one of the keys.
  abbrev OpensOnly : (DedupKey → Type 0) → BtcTables → BtcTables → Type 0
  OpensOnly P old new = (key : DedupKey) → IsOpen new key → IsOpen old key ⊎ P key

  binding-anomalies :
      (outputs : List (BtcOutPoint × String)) (t : BtcTables)
      → (record_binding_addresses bound "funding-tx" now outputs t).anomalies ≡ t.anomalies
  unfolding record_binding_addresses upsert_address
  binding-anomalies [] t = refl
  binding-anomalies ((o, address) ∷ outputs) t = binding-anomalies outputs _ ∙ labelled (bound o)
    where
      labelled :
          (b : Bool)
          → (if b then upsert_address "funding-tx" now o address t else t).anomalies ≡ t.anomalies
      labelled true = refl
      labelled false = refl

  cache_btc_tx-anomalies :
      (txid : BtcTxid) (r : Result (Option BtcTxInfo)) (t : BtcTables)
      → (cache_btc_tx source bound now txid r t).0.anomalies ≡ t.anomalies
  unfolding record_addresses upsert_btc_tx
  cache_btc_tx-anomalies txid (err e) t = refl
  cache_btc_tx-anomalies txid panic t = refl
  cache_btc_tx-anomalies txid (ok none) t = refl
  cache_btc_tx-anomalies txid (ok (some tx)) t = binding-anomalies (addressed txid 0 tx.outputs) t

  refresh_btc_tx-anomalies :
      (txid : BtcTxid) (t : BtcTables)
      → (refresh_btc_tx source bound now txid t).0.anomalies ≡ t.anomalies
  unfolding refresh_btc_tx
  refresh_btc_tx-anomalies txid t = cache_btc_tx-anomalies txid (source.transaction txid) t

  same-IsOpen :
      {a b : BtcTables} {key : DedupKey} → b.anomalies ≡ a.anomalies → IsOpen b key → IsOpen a key
  same-IsOpen {a} {b} {key} e h = record {
    row = h.row;
    row_eq = sym (ap (λ f. f key) e) ∙ h.row_eq;
    open_eq = h.open_eq;
  }

  resolve_row-open :
      (o : BtcOutPoint) (row : AnomalyRow)
      → (resolve_row now o row).resolved_at ≡ none
      → row.resolved_at ≡ none
  unfolding resolve_row
  resolve_row-open o row h = elim (Bool-cases (is_none row.resolved_at && matches_point o row)) [
    | inl e ↦ absurd (let k = rw e at h in cc)
    | inr e ↦ rw e at h
  ]

  resolve-IsOpen :
      (o : BtcOutPoint) (t : BtcTables) (key : DedupKey)
      → IsOpen (resolve_anomalies_for_outpoint o now t) key
      → IsOpen t key
  unfolding resolve_anomalies_for_outpoint
  resolve-IsOpen o t key h = elim (Option-cases (t.anomalies key)) [
    | inl e ↦ absurd (let k = sym (ap (Option.map (resolve_row now o)) e) ∙ h.row_eq in cc)
    | inr (row, e) ↦
        let same = some-injective (sym (ap (Option.map (resolve_row now o)) e) ∙ h.row_eq) in
        record {
          row = row;
          row_eq = e;
          open_eq =
              resolve_row-open o row (ap (λ (r : AnomalyRow). r.resolved_at) same ∙ h.open_eq);
        }
  ]

  record-IsOpen :
      (new : DedupKey) (row : AnomalyRow) (t : BtcTables) (key : DedupKey)
      → IsOpen (record_anomaly new row t) key
      → IsOpen t key ⊎ (dedup_eq new key ≡ true)
  unfolding record_anomaly upsert
  record-IsOpen new row t key h = elim (Bool-cases (dedup_eq new key)) [
    | inl e ↦ inr e
    | inr e ↦ inl (record { row = h.row; row_eq = rw e at h.row_eq; open_eq = h.open_eq })
  ]

  then_run-OpensOnly :
      {A B : Type 0} (P : DedupKey → Type 0) (old : BtcTables) (m : Run A)
      (f : A → BtcTables → Run B)
      → OpensOnly P old m.0
      → ((a : A) (t : BtcTables) → OpensOnly P t (f a t).0)
      → OpensOnly P old (then_run m f).0
  then_run-OpensOnly P old (t, ok a) f h k =
      λ key o. elim (k a t key o) [ inl b ↦ h key b | inr p ↦ inr p ]
  then_run-OpensOnly P old (t, err e) f h k = h
  then_run-OpensOnly P old (t, panic) f h k = h

  module _ (tip : ℕ) where
    abbrev KeyOf : BtcOutPoint → DedupKey → Type 0
    KeyOf o key =
        (kind : AnomalyKind) × (dedup_eq (record { kind = kind; subject = out_point_subject o }) key
          ≡ true)

    check_spend-OpensOnly :
        (o : BtcOutPoint) (row : ObservationRow) (spender : BtcTxid) (height : ℕ) (t : BtcTables)
        → spend_status row ≡ ok (OutpointSpendStatus.spent_confirmed spender height)
        → OpensOnly
            (λ key. IsMisspend tip row × KeyOf o key)
            t
            (check_spend source bound now has_transition tip grace o spender height t).0
    unfolding check_spend
    check_spend-OpensOnly o row spender height t q =
        elim (Bool-cases (ltb ((tip - height + 1) % 2 ^ 32) grace)) [
          | inl e ↦ rw e (λ key h. inl h)
          | inr e ↦ elim (Bool-cases (has_transition spender)) [
            | inl b ↦ rw (e, b) (λ key h. inl (resolve-IsOpen o t key h))
            | inr b ↦
                rw (e, b)
                  (then_run-OpensOnly (λ key. IsMisspend tip row × KeyOf o key) t
                    (refresh_btc_tx source bound now spender t)
                    (λ tx next. flag source bound now has_transition tip grace o tx next)
                    (λ key h. inl (same-IsOpen (refresh_btc_tx-anomalies spender t) h))
                    λ tx next key h. elim (record-IsOpen _ _ next key h) [
                      | inl before ↦ inl before
                      | inr same ↦ inr (
                        record {
                          spender = spender;
                          height = height;
                          status_eq = q;
                          grace_le =
                              omega (arith, ltb-false→le ((tip - height + 1) % 2 ^ 32) grace e);
                          unknown_eq = b;
                        },
                        (misspend_kind (published tx), same),
                      )
                    ])
          ]
        ]

    check_status-OpensOnly :
        (o : BtcOutPoint) (row : ObservationRow) (r : Result OutpointSpendStatus) (t : BtcTables)
        → spend_status row ≡ r
        → OpensOnly
            (λ key. IsMisspend tip row × KeyOf o key)
            t
            (check_status source bound now has_transition tip grace o r t).0
    check_status-OpensOnly o row (err e) t q = λ key h. inl h
    check_status-OpensOnly o row panic t q = λ key h. inl h
    check_status-OpensOnly o row (ok OutpointSpendStatus.unknown) t q = λ key h. inl h
    check_status-OpensOnly o row (ok OutpointSpendStatus.unspent) t q = λ key h. inl h
    check_status-OpensOnly o row (ok (OutpointSpendStatus.spent_unconfirmed s)) t q = λ key h. inl h
    check_status-OpensOnly o row (ok (OutpointSpendStatus.spent_confirmed s h)) t q =
        check_spend-OpensOnly o row s h t q

    check_pending-OpensOnly :
        (rows : List (BtcOutPoint × ObservationRow)) (t : BtcTables)
        → OpensOnly
            (IsFound tip rows)
            t
            (check_pending source bound now has_transition tip grace rows t).0
    unfolding check_pending
    check_pending-OpensOnly [] t = λ key h. inl h
    check_pending-OpensOnly ((o, row) ∷ rows) t =
        then_run-OpensOnly (IsFound tip ((o, row) ∷ rows)) t
          (check_status source bound now has_transition tip grace o (spend_status row) t)
          (λ one next.
            then_run (check_pending source bound now has_transition tip grace rows next)
              λ rest last. (last, ok (one + rest)))
          (λ key h. elim (check_status-OpensOnly o row (spend_status row) t refl key h) [
            | inl before ↦ inl before
            | inr (m, (kind, same)) ↦ inr (o, row, inl refl, m, kind, same)
          ])
          λ one next.
            then_run-OpensOnly (IsFound tip ((o, row) ∷ rows)) next
              (check_pending source bound now has_transition tip grace rows next)
              (λ rest last. (last, ok (one + rest)))
              (λ key h. elim (check_pending-OpensOnly rows next key h) [
                | inl before ↦ inl before
                | inr (p, r, occurs, m, kind, same) ↦ inr (p, r, inr occurs, m, kind, same)
              ])
              λ rest last key h. inl h

  module _ (allowed : ℕ) where
    -- What a detection may open.
    abbrev pub MayOpen : Database → List (BtcOutPoint × ObservationRow) → DedupKey → Type 0
    MayOpen db pending key =
        (tip : ℕ) × (source.tip_height ≡ ok tip)
        × (indexer_is_caught_up allowed db ≡ true)
        × IsFound tip pending key

    detect_at-OpensOnly :
        (r : Result ℕ) (db : Database) (pending : List (BtcOutPoint × ObservationRow))
        (t : BtcTables)
        → source.tip_height ≡ r
        → indexer_is_caught_up allowed db ≡ true
        → OpensOnly
            (MayOpen db pending)
            t
            (detect_at source bound now has_transition allowed grace r pending t).0
    detect_at-OpensOnly (ok tip) db pending t q near = λ key h.
        elim (check_pending-OpensOnly tip pending t key h) [
          | inl before ↦ inl before
          | inr found ↦ inr (tip, q, near, found)
        ]
    detect_at-OpensOnly (err e) db pending t q near = λ key h. inl h
    detect_at-OpensOnly panic db pending t q near = λ key h. inl h

    -- The detection raises no false alarm. A finding that is open behind it, however it ends, was open before; or the
    -- index was near its target and the finding is keyed by an out point among the pending rows whose row is of a
    -- confirmed spend, with at least the configured confirmations at the tip, by a transaction that has no transition.
    pub detect_misspends-MayOpen :
        (db : Database) (pending : List (BtcOutPoint × ObservationRow)) (t : BtcTables)
        (key : DedupKey)
        → IsOpen (detect_misspends source bound now has_transition allowed grace db pending t).0 key
        → IsOpen t key ⊎ MayOpen db pending key
    unfolding detect_misspends
    detect_misspends-MayOpen db pending t key h =
        elim (Bool-cases (indexer_is_caught_up allowed db)) [
          | inl e ↦ detect_at-OpensOnly source.tip_height db pending t refl e key (rw e at h)
          | inr e ↦ inl (rw e at h)
        ]
