-- ===== src/Types/Asset.antt =====
-- crates/types/src/asset.rs: which asset a type script stands for, and the amount in the cell data.
use rgbpp_indexer.Common.{
  ℕ, ◌^◌, ◌<◌, ◌≡◌, ap, Bool, true, false, Option, none, some, List, [], ◌∷◌, ◌++◌, ◌||◌, ltb,
  ltb-false, length, length-append, take, take-append, if◌then◌else◌, le_bytes, from_le,
  length-le_bytes, from_le-le_bytes, subst, arith,
}
use rgbpp_indexer.Types.Ckb.{Script}
use rgbpp_indexer.Types.Protocol.{ScriptId, matches}

-- `no_asset` is the source's `None`.
pub data AssetKind : Type 0 where
  xudt sudt spore spore_cluster unknown no_asset : AssetKind

unfoldable pub is_fungible : AssetKind → Bool
is_fungible AssetKind.xudt = true
is_fungible AssetKind.sudt = true
is_fungible _ = false

pub record AssetScripts : Type 0 where
  pub xudt : List ScriptId
  pub sudt : List ScriptId
  pub spore : List ScriptId
  pub spore_cluster : List ScriptId

unfoldable pub any_matches : List ScriptId → Script → Bool
any_matches [] s = false
any_matches (id ∷ ids) s = matches id s || any_matches ids s

unfoldable pub asset_classify : AssetScripts → Option Script → AssetKind
asset_classify a none = AssetKind.no_asset
asset_classify a (some s) =
    if any_matches a.xudt s
    then AssetKind.xudt
    else if any_matches a.sudt s
    then AssetKind.sudt
    else if any_matches a.spore s
    then AssetKind.spore
    else if any_matches a.spore_cluster s
    then AssetKind.spore_cluster
    else AssetKind.unknown

unfoldable pub parse_udt_amount : List ℕ → Option ℕ
parse_udt_amount bs = if ltb (length bs) 16 then none else some (from_le (take 16 bs))

-- An amount below 2 ^ 128, written in 16 bytes, is read back, whatever extension data follows.
pub parse_udt_amount-append :
    (amount : ℕ) (rest : List ℕ)
    → amount < 2 ^ 128
    → parse_udt_amount (le_bytes 16 amount ++ rest) ≡ some amount
unfolding parse_udt_amount
parse_udt_amount-append amount rest h = rw (long, cut) (ap some (from_le-le_bytes 16 amount h))
  where
    len : length (le_bytes 16 amount) ≡ 16
    len = length-le_bytes 16 amount

    long : ltb (length (le_bytes 16 amount ++ rest)) 16 ≡ false
    long = ltb-false _ 16 (omega (arith, length-append (le_bytes 16 amount) rest, len))

    cut : take 16 (le_bytes 16 amount ++ rest) ≡ le_bytes 16 amount
    cut =
        subst (λ j. take j (le_bytes 16 amount ++ rest) ≡ le_bytes 16 amount) len
          (take-append (le_bytes 16 amount) rest)
