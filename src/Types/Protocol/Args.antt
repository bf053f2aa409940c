-- ===== src/Types/Protocol/Args.antt =====
-- Parsing and encoding the args of an RGB++ lock are inverse, and parsing never panics.
use rgbpp_indexer.Common.{
  ℕ, ◌^◌, ◌<◌, ◌≡◌, ◌≢◌, refl, sym, ap₂, subst, ◌∙◌, List, ◌++◌, true, arith, length, length-append,
  le_bytes, from_le, length-le_bytes, from_le-le_bytes, drop, take-append-drop, length-drop,
  IsBytes, ◌==◌, ==_iff,
}
use rgbpp_indexer.Types.Error.{
  ok, panic, slice, ok-injective, >>=-eq-ok, >>=-ne-panic, guard_then-eq-ok, guard_then-ne-panic,
}
use rgbpp_indexer.Types.Bitcoin.{
  from_internal_bytes, to_internal_bytes, from_internal-to_internal, to_internal-from_internal,
  from_internal-length, length-to_internal,
}
use rgbpp_indexer.Types.Molecule.Slices.{slice_head, slice_tail}
use rgbpp_indexer.Types.Molecule.Canonical.{slice-inv, slice_u32, slice-ne-panic, take_all}
use rgbpp_indexer.Types.Protocol.{RgbppLockArgs, rgbpp_parse, rgbpp_encode}

-- What Rust's types give: a u32 and 32 bytes.
abbrev pub IsRgbppArgs : RgbppLockArgs → Type 0
IsRgbppArgs a = (a.out_index < 2 ^ 32) × (length a.txid.bytes ≡ 32)

pub length-rgbpp_encode : (a : RgbppLockArgs) → IsRgbppArgs a → length (rgbpp_encode a) ≡ 36
unfolding rgbpp_encode
length-rgbpp_encode a h = omega (
  arith,
  length-append (le_bytes 4 a.out_index) (to_internal_bytes a.txid),
  length-le_bytes 4 a.out_index,
  length-to_internal a.txid,
  h,
)

-- The args of an RGB++ lock, with an index below 2 ^ 32 and a transaction id of 32 bytes, are read
-- back from their encoding.
pub rgbpp_parse-encode : (a : RgbppLockArgs) → IsRgbppArgs a → rgbpp_parse (rgbpp_encode a) ≡ ok a
unfolding rgbpp_parse
rgbpp_parse-encode a h = rw (size, head, tail_, from_internal-to_internal a.txid h.1, value) refl
  where
    size : (length (rgbpp_encode a) == 36) ≡ true
    size = (==_iff _ 36).1 (length-rgbpp_encode a h)

    head : slice (rgbpp_encode a) 0 4 ≡ ok (le_bytes 4 a.out_index)
    head = unfold rgbpp_encode in slice_head _ _ 4 (sym (length-le_bytes 4 a.out_index))

    tail_ : slice (rgbpp_encode a) 4 36 ≡ ok (to_internal_bytes a.txid)
    tail_ =
        unfold rgbpp_encode in
        slice_tail _ _ 4 36 (sym (length-le_bytes 4 a.out_index))
          (omega (arith, length-le_bytes 4 a.out_index, length-to_internal a.txid, h))

    value : from_le (le_bytes 4 a.out_index) ≡ a.out_index
    value = from_le-le_bytes 4 a.out_index (omega (arith, h))

-- Bytes that parse as the args of an RGB++ lock are the encoding of what they parse as, whose
-- index is below 2 ^ 32 and whose transaction id has 32 bytes.
pub rgbpp_encode-parse :
    (bs : List ℕ) (a : RgbppLockArgs)
    → IsBytes bs
    → rgbpp_parse bs ≡ ok a
    → (rgbpp_encode a ≡ bs) × IsRgbppArgs a
unfolding rgbpp_parse
rgbpp_encode-parse bs a v h =
    let (c, k1) = guard_then-eq-ok (length bs == 36) _ _ h in
    let (index, e1, k2) = >>=-eq-ok (slice bs 0 4) _ k1 in
    let (internal, e2, k3) = >>=-eq-ok (slice bs 4 36) _ k2 in
    let (txid, e3, k4) = >>=-eq-ok (from_internal_bytes internal) _ k3 in
    let (_, cut, back, small) = slice_u32 bs 0 index v e1 in
    let size : length bs ≡ 36 = (==_iff _ 36).0 c in
    let rest : internal ≡ drop 4 bs =
      sym (slice-inv bs 4 36 internal e2).2
      ∙ take_all 32 (drop 4 bs) (omega (arith, length-drop 4 bs)) in
    subst (λ x. (rgbpp_encode x ≡ bs) × IsRgbppArgs x) (ok-injective k4)
      (
        unfold rgbpp_encode in
            (ap₂ ◌++◌ (back ∙ sym cut) (to_internal-from_internal internal txid e3 ∙ rest)
              ∙ take-append-drop 4 bs),
        (small, from_internal-length internal txid e3),
      )

pub from_internal-ne-panic : (bs : List ℕ) → from_internal_bytes bs ≢ panic
unfolding from_internal_bytes
from_internal-ne-panic bs p = ground arith

pub rgbpp_parse-ne-panic : (bs : List ℕ) → rgbpp_parse bs ≢ panic
unfolding rgbpp_parse
rgbpp_parse-ne-panic bs = guard_then-ne-panic (length bs == 36) _ _ λ c.
    let size : length bs ≡ 36 = (==_iff _ 36).0 c in
    >>=-ne-panic (slice bs 0 4) _ (slice-ne-panic bs 0 4 (omega arith) (omega arith)) λ index _.
      >>=-ne-panic (slice bs 4 36) _ (slice-ne-panic bs 4 36 (omega arith) (omega arith))
        λ internal _.
          >>=-ne-panic (from_internal_bytes internal) _ (from_internal-ne-panic internal)
            (λ txid _ p. cc)
