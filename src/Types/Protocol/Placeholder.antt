-- ===== src/Types/Protocol/Placeholder.antt =====
-- The rewrite of lock args that a commitment is computed over.
use rgbpp_indexer.Common.{◌≡◌, sym, ◌∙◌, length, List, ℕ}
use rgbpp_indexer.Types.Error.{ok}
use rgbpp_indexer.Types.Bitcoin.{BtcTxid}
use rgbpp_indexer.Types.Protocol.{
  LockBinding, rgbpp_encode, btc_time_encode, placeholder, args_with_placeholder_txid, binding_kind,
}
use rgbpp_indexer.Types.Protocol.Args.{IsRgbppArgs, rgbpp_parse-encode}
use rgbpp_indexer.Types.Protocol.TimeArgs.{IsTimeArgs, btc_time_parse-encode}

-- The args of a lock that carries this binding, and the ranges of its parts.
abbrev pub binding_encode : LockBinding → List ℕ
binding_encode (LockBinding.rgbpp a) = rgbpp_encode a
binding_encode (LockBinding.btc_time a) = btc_time_encode a

abbrev pub IsBinding : LockBinding → Type 0
IsBinding (LockBinding.rgbpp a) = IsRgbppArgs a
IsBinding (LockBinding.btc_time a) = IsTimeArgs a

-- The binding with another Bitcoin transaction id.
abbrev pub with_txid : BtcTxid → LockBinding → LockBinding
with_txid t (LockBinding.rgbpp a) = LockBinding.rgbpp (record a { txid = t })
with_txid t (LockBinding.btc_time a) = LockBinding.btc_time (record a { txid = t })

-- On the args of a binding with the ranges of its parts, of either lock, the rewrite succeeds,
-- replaces the transaction id by zeros and keeps everything else.
pub args_with_placeholder_txid_lem :
    (b : LockBinding)
    → IsBinding b
    → args_with_placeholder_txid (binding_kind b) (binding_encode b)
      ≡ ok (binding_encode (with_txid placeholder b))
unfolding args_with_placeholder_txid binding_kind
args_with_placeholder_txid_lem (LockBinding.rgbpp a) h = rw (rgbpp_parse-encode a h)
args_with_placeholder_txid_lem (LockBinding.btc_time a) h = rw (btc_time_parse-encode a h)

pub with_txid-IsBinding :
    (t : BtcTxid) (b : LockBinding) → length t.bytes ≡ 32 → IsBinding b → IsBinding (with_txid t b)
with_txid-IsBinding t (LockBinding.rgbpp a) n h = (h.0, n)
with_txid-IsBinding t (LockBinding.btc_time a) n h = record {
  code_hash_length = h.code_hash_length;
  fits = h.fits;
  after_lt = h.after_lt;
  txid_length = n;
}

-- For args with the ranges of their parts, and another transaction id of 32 bytes, the rewritten
-- args do not depend on the transaction id that the args carry.
pub args_with_placeholder_txid-with_txid :
    (t : BtcTxid) (b : LockBinding)
    → length t.bytes ≡ 32
    → IsBinding b
    → args_with_placeholder_txid (binding_kind b) (binding_encode (with_txid t b))
      ≡ args_with_placeholder_txid (binding_kind b) (binding_encode b)
unfolding binding_kind
args_with_placeholder_txid-with_txid t (LockBinding.rgbpp a) n h =
    args_with_placeholder_txid_lem (LockBinding.rgbpp (record a { txid = t })) (h.0, n)
    ∙ sym (args_with_placeholder_txid_lem (LockBinding.rgbpp a) h)
args_with_placeholder_txid-with_txid t (LockBinding.btc_time a) n h =
    args_with_placeholder_txid_lem (LockBinding.btc_time (record a { txid = t }))
      (with_txid-IsBinding t (LockBinding.btc_time a) n h)
    ∙ sym (args_with_placeholder_txid_lem (LockBinding.btc_time a) h)
