-- ===== src/Types/Protocol/TimeArgs.antt =====
-- Parsing and encoding the args of a BTC time lock are inverse, and parsing never panics.
use rgbpp_indexer.Common.{
  ℕ, ◌+◌, ◌^◌, ◌<◌, ◌≡◌, ◌≢◌, refl, ap, subst, ◌∙◌, List, [], ◌∷◌, true, arith, length, le_bytes,
  length-le_bytes, from_le-le_bytes, le_bytes-from_le, IsBytes, All, ◌==◌, ==_iff,
}
use rgbpp_indexer.Types.Error.{
  ok, panic, ok-injective, >>=-eq-ok, >>=-ne-panic, guard_then-eq-ok, guard_then-ne-panic,
}
use rgbpp_indexer.Types.Bitcoin.{
  from_internal_bytes, from_internal-to_internal, to_internal-from_internal, length-to_internal,
}
use rgbpp_indexer.Types.Molecule.{encode_table, read_table_fields, decode_script}
use rgbpp_indexer.Types.Molecule.RoundTrip.{table_size, read_table_fields-encode_table}
use rgbpp_indexer.Types.Molecule.Unique.{read_table_fields-IsBytes, encode_table-read_table_fields}
use rgbpp_indexer.Types.Molecule.Scripts.{
  length-encode_script, decode_script-encode_script, encode_script-decode_script, list₃,
}
use rgbpp_indexer.Types.Molecule.Panics.{read_table_fields-ne-panic, decode_script-ne-panic}
use rgbpp_indexer.Types.Protocol.{
  rgbpp_parse, BtcTimeLockArgs, btc_time_from_fields, btc_time_parse, btc_time_fields,
  btc_time_encode, LockKind, binding_parse,
}
use rgbpp_indexer.Types.Protocol.Args.{rgbpp_parse-ne-panic, from_internal-ne-panic}

-- What Rust's types give, and room for the encoding in the u32 of the size header.
pub record IsTimeArgs (a : BtcTimeLockArgs) : Type 0 where
  pub code_hash_length : length a.target_lock.code_hash.bytes ≡ 32
  pub fits : length a.target_lock.args + 105 < 2 ^ 32
  pub after_lt : a.after < 2 ^ 32
  pub txid_length : length a.txid.bytes ≡ 32

btc_time_encode-table : (a : BtcTimeLockArgs) → btc_time_encode a ≡ encode_table (btc_time_fields a)
unfolding btc_time_encode encode_table
btc_time_encode-table a = refl

fields_fit : (a : BtcTimeLockArgs) → IsTimeArgs a → table_size (btc_time_fields a) < 2 ^ 32
fields_fit a h = omega (
  arith,
  length-encode_script a.target_lock (omega (arith, h)),
  length-le_bytes 4 a.after,
  length-to_internal a.txid,
  h,
)

fields-roundtrip :
    (a : BtcTimeLockArgs) → IsTimeArgs a → btc_time_from_fields (btc_time_fields a) ≡ ok a
unfolding btc_time_from_fields
fields-roundtrip a h = rw (
  decode_script-encode_script a.target_lock (omega (arith, h)),
  four,
  from_internal-to_internal a.txid h.txid_length,
  from_le-le_bytes 4 a.after (omega (arith, h)),
)
  where
    four : (length (le_bytes 4 a.after) == 4) ≡ true
    four = (==_iff _ 4).1 (length-le_bytes 4 a.after)

-- The args of a BTC time lock, with the ranges of Rust's types and an encoding that fits a u32,
-- are read back from their encoding.
pub btc_time_parse-encode :
    (a : BtcTimeLockArgs) → IsTimeArgs a → btc_time_parse (btc_time_encode a) ≡ ok a
unfolding btc_time_parse
btc_time_parse-encode a h =
    rw
      (btc_time_encode-table a, read_table_fields-encode_table (btc_time_fields a) (fields_fit a h))
      (fields-roundtrip a h)

fields-inv :
    (fs : List (List ℕ)) (a : BtcTimeLockArgs)
    → All IsBytes fs
    → btc_time_from_fields fs ≡ ok a
    → btc_time_fields a ≡ fs
unfolding btc_time_from_fields
fields-inv [] a v h = cc
fields-inv (x ∷ []) a v h = cc
fields-inv (x ∷ y ∷ []) a v h = cc
fields-inv (x ∷ y ∷ z ∷ w ∷ fs) a v h = cc
fields-inv (x ∷ y ∷ z ∷ []) a v h =
    let (lock, e1, k1) = >>=-eq-ok (decode_script x) _ h in
    let (c, k2) = guard_then-eq-ok (length y == 4) _ _ k1 in
    let (txid, e3, k3) = >>=-eq-ok (from_internal_bytes z) _ k2 in
    let four : length y ≡ 4 = (==_iff _ 4).0 c in
    subst (λ t. btc_time_fields t ≡ x ∷ y ∷ z ∷ []) (ok-injective k3)
      (list₃ (encode_script-decode_script x lock v.0 e1) (rw four at (le_bytes-from_le y v.1.0))
        (to_internal-from_internal z txid e3))

-- Bytes that parse as the args of a BTC time lock are the encoding of what they parse as.
pub btc_time_encode-parse :
    (bs : List ℕ) (a : BtcTimeLockArgs)
    → IsBytes bs
    → btc_time_parse bs ≡ ok a
    → btc_time_encode a ≡ bs
unfolding btc_time_parse
btc_time_encode-parse bs a v h =
    let (fs, e, k) = >>=-eq-ok (read_table_fields bs) _ h in
    btc_time_encode-table a
    ∙ ap encode_table (fields-inv fs a (read_table_fields-IsBytes bs fs v e) k)
    ∙ encode_table-read_table_fields bs fs v e

fields-ne-panic : (fs : List (List ℕ)) → btc_time_from_fields fs ≢ panic
unfolding btc_time_from_fields
fields-ne-panic [] = λ p. cc
fields-ne-panic (x ∷ []) = λ p. cc
fields-ne-panic (x ∷ y ∷ []) = λ p. cc
fields-ne-panic (x ∷ y ∷ z ∷ w ∷ fs) = λ p. cc
fields-ne-panic (x ∷ y ∷ z ∷ []) =
    >>=-ne-panic (decode_script x) _ (decode_script-ne-panic x) λ lock _.
      guard_then-ne-panic (length y == 4) _ _
        λ c. >>=-ne-panic (from_internal_bytes z) _ (from_internal-ne-panic z) (λ txid _ p. cc)

btc_time_parse-ne-panic : (bs : List ℕ) → btc_time_parse bs ≢ panic
unfolding btc_time_parse
btc_time_parse-ne-panic bs =
    >>=-ne-panic (read_table_fields bs) _ (read_table_fields-ne-panic bs)
      (λ fs _. fields-ne-panic fs)

-- Parsing the args of a lock of either kind never panics, whatever bytes a cell carries.
pub binding_parse-ne-panic : (kind : LockKind) (bs : List ℕ) → binding_parse kind bs ≢ panic
unfolding binding_parse
binding_parse-ne-panic LockKind.rgbpp bs =
    >>=-ne-panic (rgbpp_parse bs) _ (rgbpp_parse-ne-panic bs) (λ a _ p. cc)
binding_parse-ne-panic LockKind.btc_time bs =
    >>=-ne-panic (btc_time_parse bs) _ (btc_time_parse-ne-panic bs) (λ a _ p. cc)
