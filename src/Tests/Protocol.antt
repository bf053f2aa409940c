-- ===== src/Tests/Protocol.antt =====
-- The args of the two locks.
use rgbpp_indexer.Common.{◌≡◌, ◌≢◌, refl, true, [], ◌∷◌, le_bytes, arith}
use rgbpp_indexer.Types.Error.{ok, panic}
use rgbpp_indexer.Types.Ckb.{to_byte}
use rgbpp_indexer.Types.Bitcoin.{to_internal_bytes}
use rgbpp_indexer.Types.Molecule.{encode_script, encode_table, offset_bytes, encode_bytes}
use rgbpp_indexer.Types.Protocol.{
  LockKind, LockBinding, rgbpp_parse, rgbpp_encode, btc_time_parse, btc_time_encode, binding_parse,
  binding_kind, placeholder, args_with_placeholder_txid,
}
use rgbpp_indexer.Types.Protocol.Args.{IsRgbppArgs, rgbpp_parse-encode, rgbpp_encode-parse}
use rgbpp_indexer.Types.Protocol.TimeArgs.{
  IsTimeArgs, btc_time_parse-encode, btc_time_encode-parse, binding_parse-ne-panic,
}
use rgbpp_indexer.Types.Protocol.Placeholder.{
  binding_encode, with_txid, args_with_placeholder_txid_lem, args_with_placeholder_txid-with_txid,
}
use rgbpp_indexer.Tests.Data.{seal, time_args, txid, all_bytes, all_bytes→IsBytes}

pub seal_valid : IsRgbppArgs seal
seal_valid = (omega arith, refl)

time_args_valid : IsTimeArgs time_args
time_args_valid = record {
  code_hash_length = refl;
  fits = omega arith;
  after_lt = omega arith;
  txid_length = refl;
}

rgbpp_parse-encode_example : rgbpp_parse (rgbpp_encode seal) ≡ ok seal
rgbpp_parse-encode_example = rgbpp_parse-encode seal seal_valid

seal_bytes : all_bytes (rgbpp_encode seal) ≡ true
unfolding all_bytes rgbpp_encode le_bytes to_internal_bytes
seal_bytes = refl

rgbpp_encode-parse_example : (rgbpp_encode seal ≡ rgbpp_encode seal) × IsRgbppArgs seal
rgbpp_encode-parse_example =
    rgbpp_encode-parse (rgbpp_encode seal) seal (all_bytes→IsBytes (rgbpp_encode seal) seal_bytes)
      (rgbpp_parse-encode seal seal_valid)

btc_time_parse-encode_example : btc_time_parse (btc_time_encode time_args) ≡ ok time_args
btc_time_parse-encode_example = btc_time_parse-encode time_args time_args_valid

time_args_bytes : all_bytes (btc_time_encode time_args) ≡ true
unfolding all_bytes btc_time_encode le_bytes to_internal_bytes encode_script encode_table
    offset_bytes encode_bytes to_byte
time_args_bytes = refl

btc_time_encode-parse_example : btc_time_encode time_args ≡ btc_time_encode time_args
btc_time_encode-parse_example =
    btc_time_encode-parse (btc_time_encode time_args) time_args
      (all_bytes→IsBytes (btc_time_encode time_args) time_args_bytes)
      (btc_time_parse-encode time_args time_args_valid)

binding_parse-ne-panic_example : binding_parse LockKind.btc_time (1 ∷ 2 ∷ []) ≢ panic
binding_parse-ne-panic_example = binding_parse-ne-panic LockKind.btc_time (1 ∷ 2 ∷ [])

args_with_placeholder_txid_lem_example :
    args_with_placeholder_txid
      (binding_kind (LockBinding.btc_time time_args))
      (binding_encode (LockBinding.btc_time time_args))
    ≡ ok (binding_encode (with_txid placeholder (LockBinding.btc_time time_args)))
args_with_placeholder_txid_lem_example =
    args_with_placeholder_txid_lem (LockBinding.btc_time time_args) time_args_valid

args_with_placeholder_txid-with_txid_example :
    args_with_placeholder_txid
      (binding_kind (LockBinding.rgbpp seal))
      (binding_encode (with_txid (txid 1) (LockBinding.rgbpp seal)))
    ≡ args_with_placeholder_txid
        (binding_kind (LockBinding.rgbpp seal))
        (binding_encode (LockBinding.rgbpp seal))
args_with_placeholder_txid-with_txid_example =
    args_with_placeholder_txid-with_txid (txid 1) (LockBinding.rgbpp seal) refl seal_valid
