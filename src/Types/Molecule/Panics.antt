-- ===== src/Types/Molecule/Panics.antt =====
-- The decoders of `molecule.rs` never slice out of bounds, whatever the input.
use rgbpp_indexer.Common.{
  ℕ, zero, suc, ◌+◌, ◌*◌, ◌-◌, ◌/◌, ◌≤◌, ◌≡◌, ◌≢◌, List, [], ◌∷◌, ◌++◌, arith, length, from_le, ltb,
  ltb-false→le, ◌==◌, ==_iff, ◌||◌, Bool-cases, inl, inr,
}
use rgbpp_indexer.Types.Error.{panic, slice, >>=-ne-panic, guard_else-ne-panic, guard_then-ne-panic}
use rgbpp_indexer.Types.Ckb.{h256_from_slice}
use rgbpp_indexer.Types.Molecule.{
  read_offsets, split_from, split_fields, implausible_offset, read_table_body, read_table_fields,
  read_bytes, hash_type_from_byte, one_byte, script_from_fields, decode_script,
}
use rgbpp_indexer.Types.Molecule.Canonical.{slice-ne-panic}
use rgbpp_indexer.Types.Molecule.Unique.{plausible-bounds}

read_offsets-ne-panic :
    (n i : ℕ) (bs : List ℕ) → 4 + i * 4 + 4 * n ≤ length bs → read_offsets n i bs ≢ panic
unfolding read_offsets
read_offsets-ne-panic zero i bs h = λ p. cc
read_offsets-ne-panic (suc n) i bs h =
    >>=-ne-panic (slice bs (4 + i * 4) (4 + i * 4 + 4)) _
      (slice-ne-panic bs (4 + i * 4) (4 + i * 4 + 4) (omega arith) (omega arith))
      λ b _.
        >>=-ne-panic (read_offsets n (i + 1) bs) _
          (read_offsets-ne-panic n (i + 1) bs (omega arith)) (λ r _ p. cc)

split_from-ne-panic :
    (es bs : List ℕ) (full start : ℕ) → full ≤ length bs → split_from bs full start es ≢ panic
unfolding split_from
split_from-ne-panic [] bs full start h = λ p. cc
split_from-ne-panic (e ∷ es) bs full start h =
    guard_else-ne-panic (ltb e start || ltb full e) _ _ λ c.
      >>=-ne-panic (slice bs start e) _ (slice-ne-panic bs start e (ground arith) (ground arith))
        λ f _.
          >>=-ne-panic (split_from bs full e es) _ (split_from-ne-panic es bs full e h)
            (λ r _ p. cc)

split_fields-ne-panic :
    (offs bs : List ℕ) (full : ℕ) → full ≤ length bs → split_fields bs full offs ≢ panic
unfolding split_fields
split_fields-ne-panic [] bs full h = λ p. cc
split_fields-ne-panic (o ∷ offs) bs full h = split_from-ne-panic offs bs full o h

read_table_body-ne-panic :
    (bs : List ℕ) (full : ℕ) → full ≡ length bs → read_table_body bs full ≢ panic
unfolding read_table_body
read_table_body-ne-panic bs full h = elim (Bool-cases (full == 4)) [
  | inl empty ↦ rw empty (λ p. cc)
  | inr more ↦ rw more (
      guard_else-ne-panic (ltb (length bs) 8) _ _ λ c.
        >>=-ne-panic (slice bs 4 8) _
          (slice-ne-panic bs 4 8 (omega arith) (ltb-false→le (length bs) 8 c))
          λ first _. guard_else-ne-panic (implausible_offset (from_le first) full) _ _ λ d.
            >>=-ne-panic (read_offsets ((from_le first - 4) / 4) 0 bs) _
              (read_offsets-ne-panic _ 0 bs
                (omega (arith, plausible-bounds (from_le first) full d, h)))
              λ offs _. split_fields-ne-panic (offs ++ (full ∷ [])) bs full (omega arith))
]

pub read_table_fields-ne-panic : (bs : List ℕ) → read_table_fields bs ≢ panic
unfolding read_table_fields
read_table_fields-ne-panic bs = guard_else-ne-panic (ltb (length bs) 4) _ _ λ c.
    >>=-ne-panic (slice bs 0 4) _
      (slice-ne-panic bs 0 4 (omega arith) (ltb-false→le (length bs) 4 c))
      λ size _.
        guard_then-ne-panic (from_le size == length bs) _ _
          λ d. read_table_body-ne-panic bs (from_le size) ((==_iff _ (length bs)).0 d)

read_bytes-ne-panic : (bs : List ℕ) → read_bytes bs ≢ panic
unfolding read_bytes
read_bytes-ne-panic bs = guard_else-ne-panic (ltb (length bs) 4) _ _ λ c.
    let four : 4 ≤ length bs = ltb-false→le (length bs) 4 c in
    >>=-ne-panic (slice bs 0 4) _ (slice-ne-panic bs 0 4 (omega arith) four) λ size _.
      guard_then-ne-panic (4 + from_le size == length bs) _ _
        λ d. slice-ne-panic bs 4 (length bs) four (omega arith)

script_from_fields-ne-panic : (fs : List (List ℕ)) → script_from_fields fs ≢ panic
unfolding script_from_fields
script_from_fields-ne-panic [] = λ p. cc
script_from_fields-ne-panic (a ∷ []) = λ p. cc
script_from_fields-ne-panic (a ∷ b ∷ []) = λ p. cc
script_from_fields-ne-panic (a ∷ b ∷ c ∷ d ∷ fs) = λ p. cc
script_from_fields-ne-panic (a ∷ b ∷ c ∷ []) =
    >>=-ne-panic (h256_from_slice a) _ (unfold h256_from_slice in λ p. ground arith) λ hash _.
      >>=-ne-panic (one_byte b) _ (one_byte-ne-panic b) λ byte _.
        >>=-ne-panic (hash_type_from_byte byte) _ (hash_type-ne-panic byte)
          λ kind _. >>=-ne-panic (read_bytes c) _ (read_bytes-ne-panic c) (λ args _ p. cc)
  where
    one_byte-ne-panic : (xs : List ℕ) → one_byte xs ≢ panic
    one_byte-ne-panic [] = unfold one_byte in λ p. cc
    one_byte-ne-panic (x ∷ []) = unfold one_byte in λ p. cc
    one_byte-ne-panic (x ∷ y ∷ xs) = unfold one_byte in λ p. cc

    hash_type-ne-panic : (n : ℕ) → hash_type_from_byte n ≢ panic
    hash_type-ne-panic n = unfold hash_type_from_byte in λ p. ground arith

-- Decoding a script ends with a script or an error on every byte string, never with a panic.
pub decode_script-ne-panic : (bs : List ℕ) → decode_script bs ≢ panic
unfolding decode_script
decode_script-ne-panic bs =
    >>=-ne-panic (read_table_fields bs) _ (read_table_fields-ne-panic bs)
      (λ fs _. script_from_fields-ne-panic fs)
