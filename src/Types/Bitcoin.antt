-- ===== src/Types/Bitcoin.antt =====
-- crates/types/src/bitcoin.rs: transaction ids in display order, and out points. Hex text, the block
-- hashes and the address validation (bech32 and base58 crates) are left out.
use rgbpp_indexer.Common.{
  ℕ, ◌≡◌, List, length, ◌==◌, if◌then◌else◌, reverse, Bool, true, ◌↔◌, bytes_eq, bytes_eq→eq,
  bytes_eq_refl, arith, length-reverse, ◌&&◌,
}
use mathlib.Core.List.{reverse-reverse}
use rgbpp_indexer.Types.Error.{Result, ok, err, length_of}
use rgbpp_indexer.Types.Ckb.{IsHash}

-- Bytes in display order.
pub record BtcTxid : Type 0 where
  pub bytes : List ℕ

unfoldable pub from_display_slice : List ℕ → Result BtcTxid
from_display_slice bs =
    if length bs == 32 then ok (record { bytes = bs }) else err (length_of "BtcTxid" 32 (length bs))

unfoldable pub from_internal_bytes : List ℕ → Result BtcTxid
unfolding from_display_slice
from_internal_bytes bs = from_display_slice (reverse bs)

unfoldable pub to_internal_bytes : BtcTxid → List ℕ
to_internal_bytes t = reverse t.bytes

abbrev pub IsTxid : BtcTxid → Type 0
IsTxid t = IsHash t.bytes

unfoldable pub txid_eq : BtcTxid → BtcTxid → Bool
txid_eq a b = bytes_eq a.bytes b.bytes

pub txid_eq_iff : (a b : BtcTxid) → (txid_eq a b ≡ true) ↔ (a ≡ b)
unfolding txid_eq
txid_eq_iff a b =
    (λ h. ground (arith, bytes_eq→eq a.bytes b.bytes h), λ e. rw e (bytes_eq_refl b.bytes))

pub record BtcOutPoint : Type 0 where
  pub txid : BtcTxid
  pub vout : ℕ

unfoldable pub out_point_eq : BtcOutPoint → BtcOutPoint → Bool
unfolding txid_eq
out_point_eq a b = txid_eq a.txid b.txid && (a.vout == b.vout)

pub out_point_eq_iff : (a b : BtcOutPoint) → (out_point_eq a b ≡ true) ↔ (a ≡ b)
unfolding out_point_eq
out_point_eq_iff a b = (
  λ h. ground (arith, bytes_eq→eq a.txid.bytes b.txid.bytes),
  λ e. rw e (ground (arith, bytes_eq_refl b.txid.bytes)),
)

-- The reversal is undone: what `to_internal_bytes` writes, `from_internal_bytes` reads back.
pub from_internal-to_internal :
    (t : BtcTxid) → length t.bytes ≡ 32 → from_internal_bytes (to_internal_bytes t) ≡ ok t
unfolding from_internal_bytes to_internal_bytes
from_internal-to_internal t h = rw (reverse-reverse t.bytes) (ground arith)

pub to_internal-from_internal :
    (bs : List ℕ) (t : BtcTxid) → from_internal_bytes bs ≡ ok t → to_internal_bytes t ≡ bs
unfolding from_internal_bytes to_internal_bytes
to_internal-from_internal bs t h = ground (arith, reverse-reverse bs)

pub from_internal-length :
    (bs : List ℕ) (t : BtcTxid) → from_internal_bytes bs ≡ ok t → length t.bytes ≡ 32
unfolding from_internal_bytes
from_internal-length bs t h = ground (arith, length-reverse bs)

pub length-to_internal : (t : BtcTxid) → length (to_internal_bytes t) ≡ length t.bytes
unfolding to_internal_bytes
length-to_internal t = length-reverse t.bytes
