-- ===== src/Types/Text.antt =====
-- The text forms of the kinds and states of crates/types, which the tables and the API hold (`as_str`), and the reading of
-- two of them (`from_str_opt`).
use rgbpp_indexer.Common.{◌≡◌, refl, Option, none, some, if◌then◌else◌}
use Prim.Native.String.{String}
use rgbpp_indexer.Types.Json.{text_eq}
use rgbpp_indexer.Types.Ckb.{ScriptHashType, data_, type_, data1, data2}
use rgbpp_indexer.Types.Protocol.{LockKind}
use rgbpp_indexer.Types.Asset.{AssetKind}
use rgbpp_indexer.Types.State.{OutpointSpendStatus, CellStatus, TransitionKind, AnomalyKind}

abbrev pub hash_type_str : ScriptHashType → String
hash_type_str data_ = "data"
hash_type_str type_ = "type"
hash_type_str data1 = "data1"
hash_type_str data2 = "data2"

unfoldable pub hash_type_from_str : String → Option ScriptHashType
hash_type_from_str s =
    if text_eq s "data"
    then some data_
    else if text_eq s "type"
    then some type_
    else if text_eq s "data1"
    then some data1
    else if text_eq s "data2"
    then some data2
    else none

pub hash_type_from_str-str : (t : ScriptHashType) → hash_type_from_str (hash_type_str t) ≡ some t
unfolding hash_type_from_str text_eq
hash_type_from_str-str data_ = refl
hash_type_from_str-str type_ = refl
hash_type_from_str-str data1 = refl
hash_type_from_str-str data2 = refl

abbrev pub lock_kind_str : LockKind → String
lock_kind_str LockKind.rgbpp = "rgbpp"
lock_kind_str LockKind.btc_time = "btc_time"

unfoldable pub lock_kind_from_str : String → Option LockKind
lock_kind_from_str s =
    if text_eq s "rgbpp"
    then some LockKind.rgbpp
    else if text_eq s "btc_time"
    then some LockKind.btc_time
    else none

pub lock_kind_from_str-str : (k : LockKind) → lock_kind_from_str (lock_kind_str k) ≡ some k
unfolding lock_kind_from_str text_eq
lock_kind_from_str-str LockKind.rgbpp = refl
lock_kind_from_str-str LockKind.btc_time = refl

abbrev pub asset_kind_str : AssetKind → String
asset_kind_str AssetKind.xudt = "xudt"
asset_kind_str AssetKind.sudt = "sudt"
asset_kind_str AssetKind.spore = "spore"
asset_kind_str AssetKind.spore_cluster = "spore_cluster"
asset_kind_str AssetKind.unknown = "unknown"
asset_kind_str AssetKind.no_asset = "none"

abbrev pub spend_status_str : OutpointSpendStatus → String
spend_status_str OutpointSpendStatus.unknown = "unknown"
spend_status_str OutpointSpendStatus.unspent = "unspent"
spend_status_str (OutpointSpendStatus.spent_unconfirmed t) = "spent_unconfirmed"
spend_status_str (OutpointSpendStatus.spent_confirmed t h) = "spent_confirmed"

abbrev pub cell_status_str : CellStatus → String
cell_status_str CellStatus.live = "live"
cell_status_str CellStatus.pending_ckb = "pending_ckb"
cell_status_str CellStatus.spent = "spent"
cell_status_str CellStatus.time_locked = "time_locked"

abbrev pub transition_kind_str : TransitionKind → String
transition_kind_str TransitionKind.issuance = "issuance"
transition_kind_str TransitionKind.transfer = "transfer"
transition_kind_str TransitionKind.leap_to_ckb = "leap_to_ckb"
transition_kind_str TransitionKind.btc_time_unlock = "btc_time_unlock"
transition_kind_str TransitionKind.exit = "exit"

abbrev pub anomaly_kind_str : AnomalyKind → String
anomaly_kind_str AnomalyKind.btc_spent_without_ckb = "btc_spent_without_ckb"
anomaly_kind_str AnomalyKind.commitment_mismatch = "commitment_mismatch"
anomaly_kind_str AnomalyKind.unknown_btc_tx = "unknown_btc_tx"
anomaly_kind_str AnomalyKind.no_commitment_in_spender = "no_commitment_in_spender"
