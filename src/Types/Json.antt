-- ===== src/Types/Json.antt =====
-- The JSON values that the tables hold, and hex text (`to_hex` and `from_hex` of crates/types/src/ckb.rs). A text that
-- reads as hex, with or without `0x`, is given by the bytes that it reads as: what serde_json and hex do is not modelled
-- beyond that.
use rgbpp_indexer.Common.{ℕ, Bool, true, false, Option, none, List, [], ◌∷◌, if◌then◌else◌}
use Prim.Native.Nat.{Ordering}
use Prim.Native.String.{String, compare}
use rgbpp_indexer.Types.Error.{Result, ok, err, hex}
use rgbpp_indexer.Types.Ckb.{H256, h256_from_slice}

unfoldable pub text_eq : String → String → Bool
text_eq a b = elim (compare a b) [ Ordering.eq ↦ true | Ordering.lt ↦ false | Ordering.gt ↦ false ]

pub data JsonText : Type 0 where
  hex_text : List ℕ → JsonText
  plain_text : String → JsonText

-- An object by its entries; a value that is no text is `none`.
pub data Json : Type 0 where
  object : List (String × Option JsonText) → Json
  no_object : Json

unfoldable pub find_text : String → List (String × Option JsonText) → Option JsonText
find_text key [] = none
find_text key ((k, v) ∷ entries) =
    let rest = find_text key entries in if text_eq k key then v else rest

-- `value.get(key).and_then(|v| v.as_str())`.
unfoldable pub get_text : Json → String → Option JsonText
unfolding find_text
get_text no_object key = none
get_text (object entries) key = find_text key entries

abbrev pub bytes_to_hex : List ℕ → JsonText
bytes_to_hex bs = hex_text bs

abbrev pub bytes_from_hex : JsonText → Result (List ℕ)
bytes_from_hex (hex_text bs) = ok bs
bytes_from_hex (plain_text s) = err hex

abbrev pub h256_to_hex : H256 → JsonText
h256_to_hex h = hex_text h.bytes

abbrev pub h256_from_hex : JsonText → Result H256
h256_from_hex (hex_text bs) = h256_from_slice bs
h256_from_hex (plain_text s) = err hex
