-- ===== src/Indexer/Reconcile/Observed.antt =====
-- What the statements leave as it is: the observation of an out point, and its entry in the queue.
use rgbpp_indexer.Common.{
  ℕ, ◌≡◌, refl, sym, ap, ◌∙◌, ◌⊎◌, inl, inr, Bool, Bool-cases, Option, none, some, Option-cases,
  List, [], ◌∷◌, map, Occurs,
}
use mathlib.Core.Option
use Prim.Native.String.{String}
use rgbpp_indexer.Types.Error.{ok}
use rgbpp_indexer.Types.Bitcoin.{BtcTxid, BtcOutPoint, out_point_eq, out_point_eq_iff}
use rgbpp_indexer.Types.State.{OutpointSpendStatus, spender, spent_height}
use rgbpp_indexer.Store.Table.{upsert}
use rgbpp_indexer.Store.Observations.{
  BtcTables, BtcTxRow, ObservationRow, QueueRow, status_name, coalesce, upsert_observation,
  upsert_btc_tx, upsert_address, record_binding_addresses, observed_row, spend_status,
}
use rgbpp_indexer.Store.Queue.{
  enqueue_refresh, upsert_queue, upsert_points, new_queue_row, promoted,
}
use rgbpp_indexer.Store.Anomalies.{resolve_anomalies_for_outpoint}
use rgbpp_indexer.Store.Observations.Status.{Fits, spend_status_lem}

-- The row of the out point says that it has this status.
pub record IsObserved (o : BtcOutPoint) (s : OutpointSpendStatus) (t : BtcTables) : Type 0 where
  pub row : ObservationRow
  pub row_eq : t.observations o ≡ some row
  pub status_eq : row.status ≡ status_name s
  pub spender_eq : row.spender_txid ≡ Option.map (λ (t : BtcTxid). t.bytes) (spender s)
  pub height_eq : row.spent_height ≡ spent_height s
  pub valid : row.invalidated_at ≡ none

abbrev pub IsQueued : BtcOutPoint → BtcTables → Type 0
IsQueued o t = Occurs o (map (λ (r : QueueRow). r.out_point) t.queue)

pub record Keeps (o : BtcOutPoint) (old new : BtcTables) : Type 0 where
  pub keeps_queued : IsQueued o old → IsQueued o new
  pub keeps_observed : (s : OutpointSpendStatus) → IsObserved o s old → IsObserved o s new

pub Keeps-refl : (o : BtcOutPoint) (t : BtcTables) → Keeps o t t
Keeps-refl o t = record { keeps_queued = λ h. h; keeps_observed = λ s h. h }

pub Keeps-trans : {o : BtcOutPoint} {a b c : BtcTables} → Keeps o a b → Keeps o b c → Keeps o a c
Keeps-trans h k = record {
  keeps_queued = λ q. k.keeps_queued (h.keeps_queued q);
  keeps_observed = λ s q. k.keeps_observed s (h.keeps_observed s q);
}

-- Tables with the same observations, and all the entries of the queue.
queue-Keeps :
    (o : BtcOutPoint) {a b : BtcTables}
    → b.observations ≡ a.observations
    → (IsQueued o a → IsQueued o b)
    → Keeps o a b
queue-Keeps o e k = record {
  keeps_queued = k;
  keeps_observed = λ s h. record {
    row = h.row;
    row_eq = ap (λ f. f o) e ∙ h.row_eq;
    status_eq = h.status_eq;
    spender_eq = h.spender_eq;
    height_eq = h.height_eq;
    valid = h.valid;
  };
}

pub upsert_btc_tx-Keeps :
    (o : BtcOutPoint) (txid : BtcTxid) (row : BtcTxRow) (t : BtcTables)
    → Keeps o t (upsert_btc_tx txid row t)
unfolding upsert_btc_tx
upsert_btc_tx-Keeps o txid row t = queue-Keeps o refl (λ h. h)

pub resolve-Keeps :
    (o p : BtcOutPoint) (now : ℕ) (t : BtcTables)
    → Keeps o t (resolve_anomalies_for_outpoint p now t)
unfolding resolve_anomalies_for_outpoint
resolve-Keeps o p now t = queue-Keeps o refl (λ h. h)

pub upsert_address-Keeps :
    (o p : BtcOutPoint) (source : String) (now : ℕ) (address : String) (t : BtcTables)
    → Keeps o t (upsert_address source now p address t)
unfolding upsert_address upsert
upsert_address-Keeps o p source now address t = record {
  keeps_queued = λ h. h;
  keeps_observed = λ s h. elim (Bool-cases (out_point_eq p o)) [
    | inl e ↦ record {
      row = record h.row { address = some address };
      row_eq = rw (e, h.row_eq) refl;
      status_eq = h.status_eq;
      spender_eq = h.spender_eq;
      height_eq = h.height_eq;
      valid = h.valid;
    }
    | inr e ↦ record {
      row = h.row;
      row_eq = rw e h.row_eq;
      status_eq = h.status_eq;
      spender_eq = h.spender_eq;
      height_eq = h.height_eq;
      valid = h.valid;
    }
  ];
}

pub record_binding_addresses-Keeps :
    (o : BtcOutPoint) (bound : BtcOutPoint → Bool) (source : String) (now : ℕ)
    (outputs : List (BtcOutPoint × String)) (t : BtcTables)
    → Keeps o t (record_binding_addresses bound source now outputs t)
unfolding record_binding_addresses
record_binding_addresses-Keeps o bound source now [] t = Keeps-refl o t
record_binding_addresses-Keeps o bound source now ((p, address) ∷ outputs) t =
    elim (Bool-cases (bound p)) [
      | inl e ↦ rw e (
          Keeps-trans (upsert_address-Keeps o p source now address t)
            (record_binding_addresses-Keeps o bound source now outputs _))
      | inr e ↦ rw e (record_binding_addresses-Keeps o bound source now outputs t)
    ]

-- An upsert of the queue keeps the points of the rows, when the change does, and has the new one.
upsert_queue-Occurs :
    (o : BtcOutPoint) (new : QueueRow) (change : QueueRow → QueueRow) (rows : List QueueRow)
    → ((r : QueueRow) → (change r).out_point ≡ r.out_point)
    → (o ≡ new.out_point) ⊎ Occurs o (map (λ (r : QueueRow). r.out_point) rows)
    → Occurs o (map (λ (r : QueueRow). r.out_point) (upsert_queue new change rows))
unfolding upsert_queue
upsert_queue-Occurs o new change [] same h = h
upsert_queue-Occurs o new change (row ∷ rows) same h =
    elim (Bool-cases (out_point_eq new.out_point row.out_point)) [
      | inl e ↦ rw e (elim h [
        | inl a ↦ inl (a ∙ (out_point_eq_iff new.out_point row.out_point).0 e ∙ sym (same row))
        | inr b ↦ elim b [ inl a ↦ inl (a ∙ sym (same row)) | inr c ↦ inr c ]
      ])
      | inr e ↦ rw e (elim h [
        | inl a ↦ inr (upsert_queue-Occurs o new change rows same (inl a))
        | inr b ↦ elim b [
          | inl a ↦ inl a
          | inr c ↦ inr (upsert_queue-Occurs o new change rows same (inr c))
        ]
      ])
    ]

pub enqueue_refresh-Keeps :
    (o p : BtcOutPoint) (reason : String) (priority now : ℕ) (t : BtcTables)
    → Keeps o t (enqueue_refresh p reason priority now t)
unfolding enqueue_refresh
enqueue_refresh-Keeps o p reason priority now t =
    queue-Keeps o refl λ h. upsert_queue-Occurs o _ _ t.queue (λ r. refl) (inr h)

pub enqueue_refresh-IsQueued :
    (o : BtcOutPoint) (reason : String) (priority now : ℕ) (t : BtcTables)
    → IsQueued o (enqueue_refresh o reason priority now t)
unfolding enqueue_refresh
enqueue_refresh-IsQueued o reason priority now t =
    upsert_queue-Occurs o _ _ t.queue (λ r. refl) (inl refl)

pub upsert_points-Occurs :
    (o : BtcOutPoint) (reason : String) (priority now : ℕ) (os : List BtcOutPoint)
    (rows : List QueueRow)
    → Occurs o os ⊎ Occurs o (map (λ (r : QueueRow). r.out_point) rows)
    → Occurs o (map (λ (r : QueueRow). r.out_point) (upsert_points reason priority now os rows))
unfolding upsert_points
upsert_points-Occurs o reason priority now [] rows (inl z) = absurd z
upsert_points-Occurs o reason priority now [] rows (inr h) = h
upsert_points-Occurs o reason priority now (p ∷ os) rows h =
    let step =
      upsert_queue-Occurs o (new_queue_row p reason priority now) (promoted priority now) rows
        (λ r. refl) in
    upsert_points-Occurs o reason priority now os _ (elim h [
      | inl a ↦ elim a [ inl e ↦ inr (step (inl e)) | inr b ↦ inl b ]
      | inr q ↦ inr (step (inr q))
    ])

pub upsert_observation-IsObserved :
    (o : BtcOutPoint) (s : OutpointSpendStatus) (address : Option String) (source : String)
    (now : ℕ) (t : BtcTables)
    → IsObserved o s (upsert_observation o s address source now t).0
unfolding upsert_observation upsert
upsert_observation-IsObserved o s address source now t =
    let same = (out_point_eq_iff o o).1 refl in
    elim (Option-cases (t.observations o)) [
      | inl e ↦ record {
        row = observed_row s address source now;
        row_eq = rw (same, e) refl;
        status_eq = refl;
        spender_eq = refl;
        height_eq = refl;
        valid = refl;
      }
      | inr (old, e) ↦ record {
        row = record (observed_row s address source now) { address = coalesce address old.address };
        row_eq = rw (same, e) refl;
        status_eq = refl;
        spender_eq = refl;
        height_eq = refl;
        valid = refl;
      }
    ]

-- When the ids have 32 bytes and the height is below 2 ^ 31, the row behind an observation of an out point has the status
-- that was observed, whatever the table had before.
pub upsert_observation-spend_status :
    (o : BtcOutPoint) (s : OutpointSpendStatus) (address : Option String) (source : String)
    (now : ℕ) (t : BtcTables)
    → Fits s
    → (row : ObservationRow) × ((upsert_observation o s address source now t).0.observations o
        ≡ some row)
      × (spend_status row ≡ ok s)
upsert_observation-spend_status o s address source now t fits =
    let seen = upsert_observation-IsObserved o s address source now t in
    (
      seen.row,
      seen.row_eq,
      spend_status_lem s seen.row fits seen.status_eq seen.spender_eq seen.height_eq,
    )

pub upsert_observation-Keeps :
    (o p : BtcOutPoint) (s : OutpointSpendStatus) (address : Option String) (source : String)
    (now : ℕ) (t : BtcTables)
    → (o ≡ p → ⊥)
    → Keeps o t (upsert_observation p s address source now t).0
unfolding upsert_observation upsert
upsert_observation-Keeps o p s address source now t ne = record {
  keeps_queued = λ h. h;
  keeps_observed = λ r h. elim (Bool-cases (out_point_eq p o)) [
    | inl e ↦ absurd (ne (sym ((out_point_eq_iff p o).0 e)))
    | inr e ↦ record {
      row = h.row;
      row_eq = rw e h.row_eq;
      status_eq = h.status_eq;
      spender_eq = h.spender_eq;
      height_eq = h.height_eq;
      valid = h.valid;
    }
  ];
}
