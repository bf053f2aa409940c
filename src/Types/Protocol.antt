-- ===== src/Types/Protocol.antt =====
-- crates/types/src/protocol.rs: the two locks of the protocol, and what their args mean.
pub mod Args
pub mod TimeArgs
pub mod Placeholder
use rgbpp_indexer.Common.{
  ℕ, ◌+◌, ◌*◌, ◌%◌, ◌^◌, Option, none, some, Bool, List, [], ◌∷◌, ◌++◌, ◌==◌, ◌&&◌, length,
  replicate, le_bytes, from_le, if◌then◌else◌,
}
use rgbpp_indexer.Types.Error.{Result, ok, err, length_of, malformed, slice, ◌>>=◌}
use rgbpp_indexer.Types.Ckb.{H256, h256_eq, Script, ScriptHashType, hash_type_eq}
use rgbpp_indexer.Types.Bitcoin.{BtcTxid, BtcOutPoint, from_internal_bytes, to_internal_bytes}
use rgbpp_indexer.Types.Molecule.{
  as_u32, total_length, concat, offset_bytes, encode_script, read_table_fields, decode_script,
}

pub data LockKind : Type 0 where
  rgbpp btc_time : LockKind

pub record ScriptId : Type 0 where
  pub code_hash : H256
  pub hash_type : ScriptHashType

unfoldable pub matches : ScriptId → Script → Bool
matches id s = h256_eq s.code_hash id.code_hash && hash_type_eq s.hash_type id.hash_type

pub record ProtocolScripts : Type 0 where
  pub rgbpp_lock : ScriptId
  pub btc_time_lock : ScriptId

unfoldable pub classify : ProtocolScripts → Script → Option LockKind
classify p lock =
    if matches p.rgbpp_lock lock
    then some LockKind.rgbpp
    else if matches p.btc_time_lock lock
    then some LockKind.btc_time
    else none

pub record RgbppLockArgs : Type 0 where
  pub out_index : ℕ
  pub txid : BtcTxid

unfoldable pub rgbpp_parse : List ℕ → Result RgbppLockArgs
rgbpp_parse args =
    if length args == 36
    then (do
      index ← slice args 0 4
      internal ← slice args 4 36
      txid ← from_internal_bytes internal
      ok (record { out_index = from_le index; txid = txid }))
    else err (length_of "rgbpp lock args" 36 (length args))

unfoldable pub rgbpp_encode : RgbppLockArgs → List ℕ
rgbpp_encode a = le_bytes 4 a.out_index ++ to_internal_bytes a.txid

unfoldable pub rgbpp_out_point : RgbppLockArgs → BtcOutPoint
rgbpp_out_point a = record { txid = a.txid; vout = a.out_index }

pub record BtcTimeLockArgs : Type 0 where
  pub target_lock : Script
  pub after : ℕ
  pub txid : BtcTxid

-- What `BtcTimeLockArgs::parse` does with the fields of the table.
unfoldable pub btc_time_from_fields : List (List ℕ) → Result BtcTimeLockArgs
btc_time_from_fields (lock ∷ after ∷ internal ∷ []) = do
  target_lock ← decode_script lock
  if length after == 4
      then (do
        txid ← from_internal_bytes internal
        ok (record { target_lock = target_lock; after = from_le after; txid = txid }))
      else err (malformed "btc time lock args")
btc_time_from_fields fields = err (malformed "btc time lock args")

unfoldable pub btc_time_parse : List ℕ → Result BtcTimeLockArgs
btc_time_parse args = do fields ← read_table_fields args; btc_time_from_fields fields

abbrev pub btc_time_fields : BtcTimeLockArgs → List (List ℕ)
btc_time_fields a = encode_script a.target_lock ∷ le_bytes 4 a.after ∷ to_internal_bytes a.txid ∷ []

-- The source writes the assembly of the table out once more.
unfoldable pub btc_time_encode : BtcTimeLockArgs → List ℕ
btc_time_encode a =
    let fields = btc_time_fields a in
    let header_len = 4 + 4 * length fields in
    le_bytes 4 (as_u32 (header_len + total_length fields))
    ++ (offset_bytes header_len fields ++ concat fields)

unfoldable pub placeholder : BtcTxid
placeholder = record { bytes = replicate 32 0 }

unfoldable pub args_with_placeholder_txid : LockKind → List ℕ → Result (List ℕ)
args_with_placeholder_txid LockKind.rgbpp args = do
  parsed ← rgbpp_parse args
  ok (rgbpp_encode (record parsed { txid = placeholder }))
args_with_placeholder_txid LockKind.btc_time args = do
  parsed ← btc_time_parse args
  ok (btc_time_encode (record parsed { txid = placeholder }))

pub data LockBinding : Type 0 where
  rgbpp : RgbppLockArgs → LockBinding
  btc_time : BtcTimeLockArgs → LockBinding

unfoldable pub binding_kind : LockBinding → LockKind
binding_kind (LockBinding.rgbpp a) = LockKind.rgbpp
binding_kind (LockBinding.btc_time a) = LockKind.btc_time

unfoldable pub binding_txid : LockBinding → BtcTxid
binding_txid (LockBinding.rgbpp a) = a.txid
binding_txid (LockBinding.btc_time a) = a.txid

unfoldable pub binding_out_point : LockBinding → Option BtcOutPoint
unfolding rgbpp_out_point
binding_out_point (LockBinding.rgbpp a) = some (rgbpp_out_point a)
binding_out_point (LockBinding.btc_time a) = none

unfoldable pub binding_parse : LockKind → List ℕ → Result LockBinding
binding_parse LockKind.rgbpp args = do a ← rgbpp_parse args; ok (LockBinding.rgbpp a)
binding_parse LockKind.btc_time args = do a ← btc_time_parse args; ok (LockBinding.btc_time a)
