-- ===== src/Store/Observations/Status.antt =====
-- The status that is read from a row is the one that was observed.
use rgbpp_indexer.Common.{◌^◌, ◌<◌, ◌≡◌, refl, length, lt→ltb}
use mathlib.Core.Option
use rgbpp_indexer.Types.Error.{ok}
use rgbpp_indexer.Types.Bitcoin.{BtcTxid, from_display_slice}
use rgbpp_indexer.Types.State.{OutpointSpendStatus, spender, spent_height}
use rgbpp_indexer.Store.Observations.{
  ObservationRow, status_name, read_height, named_status, spend_status,
}

-- A status that the columns hold: ids of 32 bytes, and a height below 2 ^ 31.
abbrev pub Fits : OutpointSpendStatus → Type 0
Fits OutpointSpendStatus.unknown = Unit
Fits OutpointSpendStatus.unspent = Unit
Fits (OutpointSpendStatus.spent_unconfirmed t) = length t.bytes ≡ 32
Fits (OutpointSpendStatus.spent_confirmed t h) = (length t.bytes ≡ 32) × (h < 2 ^ 31)

from_display-bytes : (t : BtcTxid) → length t.bytes ≡ 32 → from_display_slice t.bytes ≡ ok t
unfolding from_display_slice
from_display-bytes t h = rw h refl

pub spend_status_lem :
    (s : OutpointSpendStatus) (row : ObservationRow)
    → Fits s
    → row.status ≡ status_name s
    → row.spender_txid ≡ Option.map (λ (t : BtcTxid). t.bytes) (spender s)
    → row.spent_height ≡ spent_height s
    → spend_status row ≡ ok s
unfolding spend_status named_status status_name spender spent_height read_height
spend_status_lem OutpointSpendStatus.unknown row fits a b c = rw (a, b) refl
spend_status_lem OutpointSpendStatus.unspent row fits a b c = rw (a, b) refl
spend_status_lem (OutpointSpendStatus.spent_unconfirmed t) row fits a b c =
    rw (a, b, from_display-bytes t fits) refl
spend_status_lem (OutpointSpendStatus.spent_confirmed t h) row fits a b c =
    rw (a, b, c, from_display-bytes t fits.0, lt→ltb h (2 ^ 31) fits.1) refl
