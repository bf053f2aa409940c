-- ===== src/Types/Molecule.antt =====
-- crates/types/src/molecule.rs: the molecule encoders, and the decoder of tables, `Bytes` and `Script`.
-- `(n as u32).to_le_bytes()` is `le_bytes 4 (as_u32 n)`. A `usize` is not bounded.
pub mod Slices
pub mod Tables
pub mod RoundTrip
pub mod Canonical
pub mod Unique
pub mod Panics
pub mod Scripts
use rgbpp_indexer.Common.{
  ℕ, zero, suc, ◌+◌, ◌*◌, ◌-◌, ◌/◌, ◌%◌, ◌^◌, Bool, not, Option, none, some, List, [], ◌∷◌, ◌++◌,
  ◌==◌, ◌||◌, ltb, length, if◌then◌else◌, le_bytes, from_le,
}
use rgbpp_indexer.Types.Error.{Result, ok, err, malformed, unsupported, slice, ◌>>=◌}
use rgbpp_indexer.Types.Ckb.{
  Script, ScriptHashType, data_, type_, data1, data2, CellOutput, CkbOutPoint, to_byte,
  h256_from_slice,
}

abbrev pub as_u32 : ℕ → ℕ
as_u32 n = n % 2 ^ 32

unfoldable pub encode_uint32 : ℕ → List ℕ
encode_uint32 v = le_bytes 4 v

unfoldable pub encode_uint64 : ℕ → List ℕ
encode_uint64 v = le_bytes 8 v

unfoldable pub encode_bytes : List ℕ → List ℕ
encode_bytes bs = le_bytes 4 (as_u32 (length bs)) ++ bs

-- `fields.iter().map(|f| f.len()).sum()`.
abbrev pub total_length : List (List ℕ) → ℕ
total_length [] = 0
total_length (f ∷ fs) = length f + total_length fs

abbrev pub concat : List (List ℕ) → List ℕ
concat [] = []
concat (f ∷ fs) = f ++ concat fs

-- The loop that writes the offsets, from the running `offset`.
unfoldable pub offset_bytes : ℕ → List (List ℕ) → List ℕ
offset_bytes offset [] = []
offset_bytes offset (f ∷ fs) = le_bytes 4 (as_u32 offset) ++ offset_bytes (offset + length f) fs

unfoldable pub encode_table : List (List ℕ) → List ℕ
encode_table fields =
    let header_len = 4 + 4 * length fields in
    le_bytes 4 (as_u32 (header_len + total_length fields))
    ++ (offset_bytes header_len fields ++ concat fields)

unfoldable pub encode_script : Script → List ℕ
encode_script s =
    encode_table (s.code_hash.bytes ∷ (to_byte s.hash_type ∷ []) ∷ encode_bytes s.args ∷ [])

unfoldable pub encode_script_opt : Option Script → List ℕ
encode_script_opt none = []
encode_script_opt (some s) = encode_script s

unfoldable pub encode_cell_output : CellOutput → List ℕ
encode_cell_output o =
    encode_table
      (encode_uint64 o.capacity ∷ encode_script o.lock ∷ encode_script_opt o.type_script ∷ [])

unfoldable pub encode_out_point : CkbOutPoint → List ℕ
encode_out_point o = o.tx_hash.bytes ++ le_bytes 4 o.index

-- The loop over `0..field_count` that reads the offsets: `n` rounds are left, `i` is the next.
unfoldable pub read_offsets : ℕ → ℕ → List ℕ → Result (List ℕ)
read_offsets zero i bs = ok []
read_offsets (suc n) i bs = do
  b ← slice bs (4 + i * 4) (4 + i * 4 + 4)
  rest ← read_offsets n (i + 1) bs
  ok (from_le b ∷ rest)

-- The loop that cuts the fields: `start` is `offsets[i]`, the list holds the offsets behind it.
unfoldable pub split_from : List ℕ → ℕ → ℕ → List ℕ → Result (List (List ℕ))
split_from bs full_size start [] = ok []
split_from bs full_size start (end ∷ rest) =
    if ltb end start || ltb full_size end
    then err (malformed "molecule table")
    else (do f ← slice bs start end; fs ← split_from bs full_size end rest; ok (f ∷ fs))

unfoldable pub split_fields : List ℕ → ℕ → List ℕ → Result (List (List ℕ))
split_fields bs full_size [] = ok []
split_fields bs full_size (start ∷ ends) = split_from bs full_size start ends

unfoldable pub implausible_offset : ℕ → ℕ → Bool
implausible_offset first_offset full_size =
    ltb first_offset 8 || (not (first_offset % 4 == 0) || ltb full_size first_offset)

-- The part of `read_table_fields` behind the check of the size header.
unfoldable pub read_table_body : List ℕ → ℕ → Result (List (List ℕ))
read_table_body bs full_size =
    if full_size == 4
    then ok []
    else if ltb (length bs) 8
    then err (malformed "molecule table")
    else (do
      first ← slice bs 4 8
      let first_offset = from_le first
      if implausible_offset first_offset full_size then err (malformed "molecule table") else (do
        offsets ← read_offsets ((first_offset - 4) / 4) 0 bs
        split_fields bs full_size (offsets ++ (full_size ∷ []))))

unfoldable pub read_table_fields : List ℕ → Result (List (List ℕ))
read_table_fields bs = if ltb (length bs) 4 then err (malformed "molecule table") else (do
  size ← slice bs 0 4
  let full_size = from_le size
  if full_size == length bs then read_table_body bs full_size else err (malformed "molecule table"))

unfoldable pub read_bytes : List ℕ → Result (List ℕ)
read_bytes bs = if ltb (length bs) 4 then err (malformed "molecule Bytes") else (do
  size ← slice bs 0 4
  if 4 + from_le size == length bs
      then slice bs 4 (length bs)
      else err (malformed "molecule Bytes"))

unfoldable pub hash_type_from_byte : ℕ → Result ScriptHashType
hash_type_from_byte b =
    if b == 0
    then ok data_
    else if b == 1
    then ok type_
    else if b == 2
    then ok data1
    else if b == 4
    then ok data2
    else err (unsupported "script hash_type byte" b)

-- `fields[1].len() != 1`, then `fields[1][0]`.
unfoldable pub one_byte : List ℕ → Result ℕ
one_byte (b ∷ []) = ok b
one_byte bs = err (malformed "molecule Script")

unfoldable pub script_from_fields : List (List ℕ) → Result Script
script_from_fields (code ∷ kind ∷ args ∷ []) = do
  code_hash ← h256_from_slice code
  b ← one_byte kind
  hash_type ← hash_type_from_byte b
  bs ← read_bytes args
  ok (record { code_hash = code_hash; hash_type = hash_type; args = bs })
script_from_fields fields = err (malformed "molecule Script")

unfoldable pub decode_script : List ℕ → Result Script
decode_script bs = do fields ← read_table_fields bs; script_from_fields fields
