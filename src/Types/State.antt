-- ===== src/Types/State.antt =====
-- crates/types/src/state.rs: the status model.
use rgbpp_indexer.Common.{ℕ, Bool, true, false, Option, none, some, if◌then◌else◌}
use rgbpp_indexer.Types.Bitcoin.{BtcTxid}

pub data OutpointSpendStatus : Type 0 where
  unknown unspent : OutpointSpendStatus
  spent_unconfirmed : BtcTxid → OutpointSpendStatus
  spent_confirmed : BtcTxid → ℕ → OutpointSpendStatus

unfoldable pub is_spent : OutpointSpendStatus → Bool
is_spent (OutpointSpendStatus.spent_unconfirmed s) = true
is_spent (OutpointSpendStatus.spent_confirmed s h) = true
is_spent _ = false

unfoldable pub spender : OutpointSpendStatus → Option BtcTxid
spender (OutpointSpendStatus.spent_unconfirmed s) = some s
spender (OutpointSpendStatus.spent_confirmed s h) = some s
spender _ = none

unfoldable pub spent_height : OutpointSpendStatus → Option ℕ
spent_height (OutpointSpendStatus.spent_confirmed s h) = some h
spent_height _ = none

pub data CellStatus : Type 0 where
  live pending_ckb spent time_locked : CellStatus

unfoldable pub derive_cell_status : Bool → OutpointSpendStatus → CellStatus
unfolding is_spent
derive_cell_status consumed_on_ckb btc =
    if consumed_on_ckb
    then CellStatus.spent
    else if is_spent btc
    then CellStatus.pending_ckb
    else CellStatus.live

pub data TransitionKind : Type 0 where
  issuance transfer leap_to_ckb btc_time_unlock exit : TransitionKind

pub data AnomalyKind : Type 0 where
  btc_spent_without_ckb commitment_mismatch unknown_btc_tx no_commitment_in_spender : AnomalyKind
