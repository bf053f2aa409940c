-- ===== src/Indexer/Diff/Columns.antt =====
-- A spent status is known by the columns of its row.
use rgbpp_indexer.Common.{◌≡◌, sym, ap, ap₂, ◌∙◌, true, some, some-injective}
use mathlib.Core.Option
use rgbpp_indexer.Types.Bitcoin.{BtcTxid, BtcOutPoint}
use rgbpp_indexer.Types.State.{OutpointSpendStatus, is_spent, spender, spent_height}
use rgbpp_indexer.Store.Observations.{BtcTables, ObservationRow, StatusName, status_name}

-- The row of the out point has the columns of this status, which is spent.
pub record IsSpentRow (o : BtcOutPoint) (s : OutpointSpendStatus) (t : BtcTables) : Type 0 where
  pub row : ObservationRow
  pub row_eq : t.observations o ≡ some row
  pub status_eq : row.status ≡ status_name s
  pub spender_eq : row.spender_txid ≡ Option.map (λ (t : BtcTxid). t.bytes) (spender s)
  pub height_eq : row.spent_height ≡ spent_height s
  pub spent_eq : is_spent s ≡ true

txid_of-injective : (a b : BtcTxid) → some a.bytes ≡ some b.bytes → a ≡ b
txid_of-injective a b h = ap (λ bytes. record { bytes = bytes }) (some-injective h)

-- A status is known by its columns.
pub columns-injective :
    (a b : OutpointSpendStatus)
    → is_spent a ≡ true
    → status_name b ≡ status_name a
    → Option.map (λ (t : BtcTxid). t.bytes) (spender b)
      ≡ Option.map (λ (t : BtcTxid). t.bytes) (spender a)
    → spent_height b ≡ spent_height a
    → b ≡ a
unfolding is_spent status_name spender spent_height
columns-injective OutpointSpendStatus.unknown b i n s h = cc
columns-injective OutpointSpendStatus.unspent b i n s h = cc
columns-injective (OutpointSpendStatus.spent_unconfirmed x) OutpointSpendStatus.unknown i n s h = cc
columns-injective (OutpointSpendStatus.spent_unconfirmed x) OutpointSpendStatus.unspent i n s h = cc
columns-injective (OutpointSpendStatus.spent_unconfirmed x)
      (OutpointSpendStatus.spent_unconfirmed y) i n s h =
    ap OutpointSpendStatus.spent_unconfirmed (txid_of-injective y x s)
columns-injective (OutpointSpendStatus.spent_unconfirmed x)
      (OutpointSpendStatus.spent_confirmed y k) i n s h =
    cc
columns-injective (OutpointSpendStatus.spent_confirmed x j) OutpointSpendStatus.unknown i n s h = cc
columns-injective (OutpointSpendStatus.spent_confirmed x j) OutpointSpendStatus.unspent i n s h = cc
columns-injective (OutpointSpendStatus.spent_confirmed x j)
      (OutpointSpendStatus.spent_unconfirmed y) i n s h =
    cc
columns-injective (OutpointSpendStatus.spent_confirmed x j)
      (OutpointSpendStatus.spent_confirmed y k) i n s h =
    ap₂ OutpointSpendStatus.spent_confirmed (txid_of-injective y x s) (some-injective h)

pub spent_known :
    (s : OutpointSpendStatus) → is_spent s ≡ true → status_name s ≡ StatusName.unknown → ⊥
unfolding is_spent status_name
spent_known OutpointSpendStatus.unknown i n = cc
spent_known OutpointSpendStatus.unspent i n = cc
spent_known (OutpointSpendStatus.spent_unconfirmed t) i n = cc
spent_known (OutpointSpendStatus.spent_confirmed t h) i n = cc

-- A row with the columns of another one.
pub same_columns :
    {o : BtcOutPoint} {s : OutpointSpendStatus} {a : BtcTables} (old row : ObservationRow)
    → a.observations o ≡ some old
    → row.status ≡ old.status
    → row.spender_txid ≡ old.spender_txid
    → row.spent_height ≡ old.spent_height
    → row.status ≡ status_name s
    → row.spender_txid ≡ Option.map (λ (t : BtcTxid). t.bytes) (spender s)
    → row.spent_height ≡ spent_height s
    → is_spent s ≡ true
    → IsSpentRow o s a
same_columns old row e a b c x y z i = record {
  row = old;
  row_eq = e;
  status_eq = sym a ∙ x;
  spender_eq = sym b ∙ y;
  height_eq = sym c ∙ z;
  spent_eq = i;
}
