-- ===== src/Store/Observations.antt =====
-- crates/store/src/btc.rs: the tables of the Bitcoin side, and the cache of observations. A statement is a function on the tables, `now` is the time of the statement in seconds. A table is keyed by its
-- primary key; the queue is the list of its rows, which a claim goes through in order. What no statement reads again
-- (`first_seen_at`, `requested_at`, the details and times of a finding) is left out.
pub mod Status
use rgbpp_indexer.Common.{
  ℕ, ◌+◌, ◌^◌, min, ltb, leb, ◌==◌, Bool, true, false, not, ◌&&◌, ◌||◌, Option, none, some, List,
  [], ◌∷◌, ◌++◌, map, length, take, if◌then◌else◌, bytes_eq,
}
use mathlib.Core.Option
use Prim.Native.String.{String}
use rgbpp_indexer.Types.Error.{Error, Result, ok, err, panic, upstream, ◌>>=◌}
use rgbpp_indexer.Types.Bitcoin.{BtcTxid, BtcOutPoint, out_point_eq, txid_eq, from_display_slice}
use rgbpp_indexer.Types.State.{OutpointSpendStatus, is_spent, spender, spent_height, AnomalyKind}
use rgbpp_indexer.Store.Table.{upsert, update}

-- The texts of the status column.
pub data StatusName : Type 0 where
  unknown unspent spent_unconfirmed spent_confirmed : StatusName

unfoldable pub status_name : OutpointSpendStatus → StatusName
status_name OutpointSpendStatus.unknown = StatusName.unknown
status_name OutpointSpendStatus.unspent = StatusName.unspent
status_name (OutpointSpendStatus.spent_unconfirmed s) = StatusName.spent_unconfirmed
status_name (OutpointSpendStatus.spent_confirmed s h) = StatusName.spent_confirmed

unfoldable pub name_eq : StatusName → StatusName → Bool
name_eq StatusName.unknown StatusName.unknown = true
name_eq StatusName.unspent StatusName.unspent = true
name_eq StatusName.spent_unconfirmed StatusName.spent_unconfirmed = true
name_eq StatusName.spent_confirmed StatusName.spent_confirmed = true
name_eq a b = false

pub record ObservationRow : Type 0 where
  pub status : StatusName
  pub spender_txid : Option (List ℕ)
  pub spent_height : Option ℕ
  pub address : Option String
  pub source : String
  pub observed_at : ℕ
  pub invalidated_at : Option ℕ

-- An i32 that a u32 was cast to, read by `max(0) as u32`.
unfoldable pub read_height : Option ℕ → ℕ
read_height none = 0
read_height (some h) = if ltb h (2 ^ 31) then h else 0

abbrev pub read_spender : Option (List ℕ) → Result (Option BtcTxid)
read_spender none = ok none
read_spender (some bytes) = from_display_slice bytes >>= λ t. ok (some t)

unfoldable pub named_status : StatusName → Option BtcTxid → Option ℕ → OutpointSpendStatus
named_status StatusName.unspent s h = OutpointSpendStatus.unspent
named_status StatusName.spent_unconfirmed (some s) h = OutpointSpendStatus.spent_unconfirmed s
named_status StatusName.spent_confirmed (some s) h =
    OutpointSpendStatus.spent_confirmed s (read_height h)
named_status _ _ h = OutpointSpendStatus.unknown

unfoldable pub spend_status : ObservationRow → Result OutpointSpendStatus
spend_status row =
    read_spender row.spender_txid >>= λ s. ok (named_status row.status s row.spent_height)

abbrev pub is_none {ℓ} : {A : Type ℓ} → Option A → Bool
is_none none = true
is_none (some a) = false

-- `now - observed_at` is signed: a row from the future is fresh.
unfoldable pub is_fresh : ℕ → ℕ → ObservationRow → Bool
is_fresh ttl now row = is_none row.invalidated_at && ltb now (row.observed_at + ttl)

pub record QueueRow : Type 0 where
  pub out_point : BtcOutPoint
  pub reason : String
  pub priority : ℕ
  pub attempts : ℕ
  pub next_attempt_at : ℕ
  pub last_error : Option String

pub record BtcTxRow : Type 0 where
  pub block_height : Option ℕ
  pub block_hash : Option (List ℕ)
  pub block_time : Option ℕ
  pub commitment : Option (List ℕ)
  pub input_count : ℕ
  pub output_count : ℕ
  pub fee : Option ℕ
  pub source : String

-- `dedup_key`: the kind and the subject, an out point or a CKB transaction.
pub data Subject : Type 0 where
  out_point_subject : BtcOutPoint → Subject
  ckb_tx_subject : List ℕ → Subject

pub record DedupKey : Type 0 where
  pub kind : AnomalyKind
  pub subject : Subject

unfoldable pub kind_eq : AnomalyKind → AnomalyKind → Bool
kind_eq AnomalyKind.btc_spent_without_ckb AnomalyKind.btc_spent_without_ckb = true
kind_eq AnomalyKind.commitment_mismatch AnomalyKind.commitment_mismatch = true
kind_eq AnomalyKind.unknown_btc_tx AnomalyKind.unknown_btc_tx = true
kind_eq AnomalyKind.no_commitment_in_spender AnomalyKind.no_commitment_in_spender = true
kind_eq a b = false

unfoldable pub subject_eq : Subject → Subject → Bool
subject_eq (out_point_subject a) (out_point_subject b) = out_point_eq a b
subject_eq (ckb_tx_subject a) (ckb_tx_subject b) = bytes_eq a b
subject_eq a b = false

unfoldable pub dedup_eq : DedupKey → DedupKey → Bool
dedup_eq a b = kind_eq a.kind b.kind && subject_eq a.subject b.subject

pub record AnomalyRow : Type 0 where
  pub btc_txid : Option (List ℕ)
  pub btc_vout : Option ℕ
  pub ckb_tx_hash : Option (List ℕ)
  pub resolved_at : Option ℕ

pub record BtcTables : Type 0 where
  pub observations : BtcOutPoint → Option ObservationRow
  pub txs : BtcTxid → Option BtcTxRow
  pub queue : List QueueRow
  pub anomalies : DedupKey → Option AnomalyRow

-- `COALESCE(a, b)`.
abbrev pub coalesce {ℓ} : {A : Type ℓ} → Option A → Option A → Option A
coalesce none b = b
coalesce (some a) b = some a

abbrev pub observed_row : OutpointSpendStatus → Option String → String → ℕ → ObservationRow
observed_row s address source now = record {
  status = status_name s;
  spender_txid = Option.map (λ (t : BtcTxid). t.bytes) (spender s);
  spent_height = spent_height s;
  address = address;
  source = source;
  observed_at = now;
  invalidated_at = none;
}

-- Whether the status is another than the row's.
abbrev pub status_changed : Option ObservationRow → OutpointSpendStatus → Bool
status_changed none s = true
status_changed (some row) s = not (name_eq row.status (status_name s))

unfoldable pub upsert_observation :
    BtcOutPoint → OutpointSpendStatus → Option String → String → ℕ → BtcTables → BtcTables × Bool
upsert_observation o s address source now t =
    let new = observed_row s address source now in
    (
      record t {
        observations =
            upsert (out_point_eq o) new
              (λ (old : ObservationRow). record new { address = coalesce address old.address })
              t.observations;
      },
      status_changed (t.observations o) s,
    )

abbrev pub merged_tx : BtcTxRow → BtcTxRow → BtcTxRow
merged_tx new old = record new { fee = coalesce new.fee old.fee }

unfoldable pub upsert_btc_tx : BtcTxid → BtcTxRow → BtcTables → BtcTables
upsert_btc_tx txid row t = record t { txs = upsert (txid_eq txid) row (merged_tx row) t.txs }

-- A row that has no more than an address.
abbrev pub address_row : String → String → ObservationRow
address_row source address = record {
  status = StatusName.unknown;
  spender_txid = none;
  spent_height = none;
  address = some address;
  source = source;
  observed_at = 0;
  invalidated_at = none;
}

-- The upsert that writes an address alone. It stands for one row of the statements that write addresses.
unfoldable pub upsert_address : String → ℕ → BtcOutPoint → String → BtcTables → BtcTables
upsert_address source now o address t = record t {
  observations =
      upsert (out_point_eq o) (record (address_row source address) { observed_at = now })
        (λ (old : ObservationRow). record old { address = some address }) t.observations;
}

-- `bound o` says whether a cell row is bound to the out point.
unfoldable pub record_binding_addresses :
    (BtcOutPoint → Bool) → String → ℕ → List (BtcOutPoint × String) → BtcTables → BtcTables
record_binding_addresses bound source now [] t = t
record_binding_addresses bound source now ((o, address) ∷ outputs) t =
    record_binding_addresses bound source now outputs
      (if bound o then upsert_address source now o address t else t)
