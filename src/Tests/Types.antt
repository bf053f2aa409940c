-- ===== src/Tests/Types.antt =====
-- Molecule, amounts and settings.
use rgbpp_indexer.Common.{ℕ, ◌+◌, ◌≤◌, ◌≡◌, refl, true, List, [], ◌∷◌, ◌++◌, some, le_bytes, arith}
use rgbpp_indexer.Types.Error.{ok}
use rgbpp_indexer.Types.Molecule.{
  read_table_fields, encode_table, encode_script, decode_script, offset_bytes, encode_bytes,
}
use rgbpp_indexer.Types.Molecule.RoundTrip.{read_table_fields-encode_table}
use rgbpp_indexer.Types.Molecule.Unique.{encode_table-read_table_fields}
use rgbpp_indexer.Types.Molecule.Scripts.{decode_script-encode_script, encode_script-decode_script}
use rgbpp_indexer.Types.Ckb.{to_byte}
use rgbpp_indexer.Types.Asset.{parse_udt_amount, parse_udt_amount-append}
use rgbpp_indexer.Types.Config.{safe_ckb_target, safe_ckb_target-eq-some}
use rgbpp_indexer.Tests.Data.{owner, all_bytes, all_bytes→IsBytes, ckb_config}

abbrev fields : List (List ℕ)
fields = (1 ∷ []) ∷ (2 ∷ 3 ∷ []) ∷ []

read_table_fields-encode_table_example : read_table_fields (encode_table fields) ≡ ok fields
read_table_fields-encode_table_example = read_table_fields-encode_table fields (omega arith)

-- The same table as bytes: the size, two offsets, and the fields.
encode_fields :
    encode_table fields ≡ 15 ∷ 0 ∷ 0 ∷ 0 ∷ 12 ∷ 0 ∷ 0 ∷ 0 ∷ 13 ∷ 0 ∷ 0 ∷ 0 ∷ 1 ∷ 2 ∷ 3 ∷ []
unfolding encode_table offset_bytes le_bytes
encode_fields = refl

fields_bytes : all_bytes (encode_table fields) ≡ true
unfolding encode_table offset_bytes le_bytes all_bytes
fields_bytes = refl

encode_table-read_table_fields_example : encode_table fields ≡ encode_table fields
encode_table-read_table_fields_example =
    encode_table-read_table_fields (encode_table fields) fields
      (all_bytes→IsBytes (encode_table fields) fields_bytes)
      (read_table_fields-encode_table fields (omega arith))

decode_script-encode_script_example : decode_script (encode_script owner) ≡ ok owner
decode_script-encode_script_example = decode_script-encode_script owner (refl, omega arith)

owner_bytes : all_bytes (encode_script owner) ≡ true
unfolding encode_script encode_table offset_bytes encode_bytes le_bytes to_byte all_bytes
owner_bytes = refl

encode_script-decode_script_example : encode_script owner ≡ encode_script owner
encode_script-decode_script_example =
    encode_script-decode_script (encode_script owner) owner
      (all_bytes→IsBytes (encode_script owner) owner_bytes)
      (decode_script-encode_script owner (refl, omega arith))

parse_udt_amount-append_example :
    parse_udt_amount (le_bytes 16 1000000 ++ (1 ∷ 2 ∷ [])) ≡ some 1000000
parse_udt_amount-append_example = parse_udt_amount-append 1000000 (1 ∷ 2 ∷ []) (omega arith)

target_97 : safe_ckb_target ckb_config 100 ≡ some 97
unfolding safe_ckb_target
target_97 = refl

safe_ckb_target-eq-some_example : (97 + 3 ≡ 100) × (5 ≤ 97)
safe_ckb_target-eq-some_example = safe_ckb_target-eq-some ckb_config 100 97 target_97
