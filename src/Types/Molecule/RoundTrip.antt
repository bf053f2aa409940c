-- ===== src/Types/Molecule/RoundTrip.antt =====
-- `read_table_fields` reads back what `encode_table` wrote.
use rgbpp_indexer.Common.{
  ℕ, ◌+◌, ◌*◌, ◌-◌, ◌/◌, ◌^◌, ◌≤◌, ◌<◌, ◌≡◌, refl, sym, ap, ◌∙◌, List, [], ◌∷◌, ◌++◌, arith, length,
  length-append, append_assoc, le_bytes, from_le, length-le_bytes, false,
}
use rgbpp_indexer.Types.Error.{ok, slice}
use rgbpp_indexer.Types.Molecule.{
  as_u32, total_length, concat, offset_bytes, encode_table, read_offsets, split_fields, split_from,
  implausible_offset, read_table_body, read_table_fields,
}
use rgbpp_indexer.Types.Molecule.Slices.{slice_mid, slice_head}
use rgbpp_indexer.Types.Molecule.Tables.{
  starts, ends, starts-ends, length-offset_bytes, length-concat, read_u32,
  read_offsets-offset_bytes, split_from-concat, read_table_fields_step, read_table_body_step,
}

abbrev pub table_size : List (List ℕ) → ℕ
table_size fs = 4 + 4 * length fs + total_length fs

module _ (fs : List (List ℕ)) (fits : table_size fs < 2 ^ 32) where
  size_bytes : List ℕ
  size_bytes = le_bytes 4 (as_u32 (table_size fs))

  offsets_part : List ℕ
  offsets_part = offset_bytes (4 + 4 * length fs) fs

  encode_table-parts : encode_table fs ≡ size_bytes ++ (offsets_part ++ concat fs)
  unfolding encode_table size_bytes offsets_part
  encode_table-parts = refl

  length-size_bytes : length size_bytes ≡ 4
  unfolding size_bytes
  length-size_bytes = length-le_bytes 4 (as_u32 (table_size fs))

  length-offsets_part : length offsets_part ≡ 4 * length fs
  unfolding offsets_part
  length-offsets_part = length-offset_bytes (4 + 4 * length fs) fs

  pub length-encode_table : length (encode_table fs) ≡ table_size fs
  length-encode_table =
      ap length encode_table-parts
      ∙ omega (
        arith,
        length-append size_bytes (offsets_part ++ concat fs),
        length-append offsets_part (concat fs),
        length-size_bytes,
        length-offsets_part,
        length-concat fs,
      )

  from_le-size_bytes : from_le size_bytes ≡ table_size fs
  unfolding size_bytes
  from_le-size_bytes = read_u32 (table_size fs) fits

  read_size :
      read_table_fields (encode_table fs) ≡ read_table_body (encode_table fs) (table_size fs)
  read_size =
      read_table_fields_step (encode_table fs) size_bytes (omega (arith, length-encode_table))
        (rw encode_table-parts (slice_head size_bytes _ 4 (sym length-size_bytes)))
        (from_le-size_bytes ∙ sym length-encode_table)
      ∙ ap (read_table_body (encode_table fs)) length-encode_table

plausible : (n full : ℕ) → 4 + 4 * n ≤ full → 1 ≤ n → implausible_offset (4 + 4 * n) full ≡ false
unfolding implausible_offset
plausible n full h k = ground arith

module _ (f : List ℕ) (fs : List (List ℕ)) (fits : table_size (f ∷ fs) < 2 ^ 32) where
  header : ℕ
  header = 4 + 4 * length (f ∷ fs)

  first_bytes : List ℕ
  first_bytes = le_bytes 4 (as_u32 header)

  read_first : slice (encode_table (f ∷ fs)) 4 8 ≡ ok first_bytes
  unfolding encode_table offset_bytes first_bytes header
  read_first =
      rw (append_assoc first_bytes (offset_bytes (header + length f) fs) (concat (f ∷ fs))) (
        slice_mid (le_bytes 4 (as_u32 (table_size (f ∷ fs)))) first_bytes _ 4 8
          (sym (length-le_bytes 4 _))
          (omega (
            arith,
            length-le_bytes 4 (as_u32 (table_size (f ∷ fs))),
            length-le_bytes 4 (as_u32 header),
          )))

  from_le-first : from_le first_bytes ≡ header
  unfolding first_bytes header
  from_le-first = read_u32 header (omega arith)

  full : ℕ
  full = table_size (f ∷ fs)

  read_all : read_offsets (length (f ∷ fs)) 0 (encode_table (f ∷ fs)) ≡ ok (starts header (f ∷ fs))
  unfolding header
  read_all = rw (encode_table-parts (f ∷ fs) fits) (
      unfold offsets_part in
      read_offsets-offset_bytes (f ∷ fs) 0 (4 + 4 * length (f ∷ fs)) (size_bytes (f ∷ fs) fits)
        (concat (f ∷ fs)) (length-size_bytes (f ∷ fs) fits) (omega arith))

  count : (from_le first_bytes - 4) / 4 ≡ length (f ∷ fs)
  unfolding header
  count = omega (arith, from_le-first)

  read_body :
      read_table_body (encode_table (f ∷ fs)) full
      ≡ split_fields (encode_table (f ∷ fs)) full (starts header (f ∷ fs) ++ (full ∷ []))
  unfolding full header
  read_body =
      read_table_body_step (encode_table (f ∷ fs)) full first_bytes (starts header (f ∷ fs))
        (omega arith) (omega (arith, length-encode_table (f ∷ fs) fits)) read_first
        (rw from_le-first (plausible (length (f ∷ fs)) full (omega arith) (omega arith)))
        (rw count read_all)

  split_all :
      split_fields (encode_table (f ∷ fs)) full (starts header (f ∷ fs) ++ (full ∷ []))
      ≡ ok (f ∷ fs)
  unfolding full header split_fields
  split_all =
      ap (split_fields (encode_table (f ∷ fs)) full)
        (starts-ends header full (f ∷ fs) (omega arith))
      ∙ ap (λ bs. split_from bs full header (ends header (f ∷ fs)))
          (encode_table-parts (f ∷ fs) fits ∙ sym (append_assoc _ _ (concat (f ∷ fs))))
      ∙ split_from-concat (f ∷ fs) header full _
          (omega (
            arith,
            length-append (size_bytes (f ∷ fs) fits) (offsets_part (f ∷ fs) fits),
            length-size_bytes (f ∷ fs) fits,
            length-offsets_part (f ∷ fs) fits,
          ))
          (omega arith)

-- A table whose size fits a u32 is read back field by field, the empty table included.
pub read_table_fields-encode_table :
    (fs : List (List ℕ)) → table_size fs < 2 ^ 32 → read_table_fields (encode_table fs) ≡ ok fs
unfolding full
read_table_fields-encode_table [] fits = read_size [] fits ∙ unfold read_table_body in refl
read_table_fields-encode_table (f ∷ fs) fits =
    read_size (f ∷ fs) fits ∙ read_body f fs fits ∙ split_all f fs fits
