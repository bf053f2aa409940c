-- ===== src/Types/Commitment.antt =====
-- crates/types/src/commitment.rs: the pre-image of a commitment, and the search for one in the
-- outputs of a Bitcoin transaction. SHA-256 is a parameter.
pub mod OpReturn
pub mod Search
pub mod Preimage
pub mod Injective
use rgbpp_indexer.Common.{
  ℕ, ◌+◌, ◌%◌, Bool, true, false, Option, none, some, List, [], ◌∷◌, ◌++◌, ◌==◌, ◌&&◌, ltb, leb,
  length, take, drop, reverse, le_bytes, from_le, if◌then◌else◌,
}
use rgbpp_indexer.Types.Ckb.{CkbOutPoint, CellOutput}
use rgbpp_indexer.Types.Molecule.{encode_out_point, encode_cell_output, encode_bytes}

-- "RGB++" in ASCII.
abbrev pub rgbpp_tag : List ℕ
rgbpp_tag = 82 ∷ 71 ∷ 66 ∷ 43 ∷ 43 ∷ []

abbrev pub default_version : ℕ
default_version = 0

pub record CommitmentPreimage : Type 0 where
  pub version : ℕ
  pub inputs : List CkbOutPoint
  pub outputs : List (CellOutput × List ℕ)

unfoldable pub preimage_new : List CkbOutPoint → List (CellOutput × List ℕ) → CommitmentPreimage
preimage_new inputs outputs = record {
  version = default_version;
  inputs = inputs;
  outputs = outputs;
}

unfoldable pub encode_inputs : List CkbOutPoint → List ℕ
encode_inputs [] = []
encode_inputs (o ∷ os) = encode_out_point o ++ encode_inputs os

unfoldable pub encode_outputs : List (CellOutput × List ℕ) → List ℕ
encode_outputs [] = []
encode_outputs ((cell, bs) ∷ os) = encode_cell_output cell ++ (encode_bytes bs ++ encode_outputs os)

-- `version.to_be_bytes()`, and the two counts cut to a byte by `as u8`.
unfoldable pub preimage_encode : CommitmentPreimage → List ℕ
preimage_encode p =
    rgbpp_tag
    ++ (reverse (le_bytes 2 p.version)
        ++ ((length p.inputs % 256)
            ∷ (length p.outputs % 256)
            ∷ (encode_inputs p.inputs ++ encode_outputs p.outputs)))

module _ (sha256 : List ℕ → List ℕ) where
  unfoldable pub double_sha256 : List ℕ → List ℕ
  double_sha256 bs = sha256 (sha256 bs)

  unfoldable pub commitment : CommitmentPreimage → List ℕ
  unfolding double_sha256
  commitment p = double_sha256 (preimage_encode p)

-- The length and the rest are known: cut the payload.
unfoldable pub cut_payload : ℕ → List ℕ → Option (List ℕ)
cut_payload len rest = if ltb (length rest) len then none else some (take len rest)

-- OP_PUSHDATA with a length of `k` bytes; `get` refuses when they are not there.
unfoldable pub pushdata : ℕ → List ℕ → Option (List ℕ)
unfolding cut_payload
pushdata k rest =
    if leb k (length rest) then cut_payload (from_le (take k rest)) (drop k rest) else none

unfoldable pub push_payload : List ℕ → Option (List ℕ)
unfolding pushdata cut_payload
push_payload [] = none
push_payload (op ∷ rest) =
    if leb 0x01 op && leb op 0x4b
    then cut_payload op rest
    else if op == 0x4c
    then pushdata 1 rest
    else if op == 0x4d
    then pushdata 2 rest
    else if op == 0x4e
    then pushdata 4 rest
    else none

unfoldable pub op_return_payload : List ℕ → Option (List ℕ)
op_return_payload [] = none
op_return_payload (b ∷ script) = if b == 0x6a then push_payload script else none

unfoldable pub strip_prefix : List ℕ → List ℕ → Option (List ℕ)
strip_prefix [] bs = some bs
strip_prefix (p ∷ ps) [] = none
strip_prefix (p ∷ ps) (b ∷ bs) = if p == b then strip_prefix ps bs else none

-- The tagged commitment that a payload holds.
unfoldable pub tagged_commitment : List ℕ → Option (List ℕ)
tagged_commitment payload = elim (strip_prefix rgbpp_tag payload) [
  | none ↦ none
  | some tagged ↦ if length tagged == 32 then some tagged else none
]

-- The fallback after a payload that holds no tagged commitment.
unfoldable pub update_fallback : Option (List ℕ) → List ℕ → Option (List ℕ)
update_fallback (some f) payload = some f
update_fallback none payload = if length payload == 32 then some payload else none

-- The loop over the scripts, with the running `fallback`.
unfoldable pub find_loop : Option (List ℕ) → List (List ℕ) → Option (List ℕ)
find_loop fallback [] = fallback
find_loop fallback (script ∷ scripts) = elim (op_return_payload script) [
  | none ↦ find_loop fallback scripts
  | some payload ↦ elim (tagged_commitment payload) [
    | some c ↦ some c
    | none ↦ find_loop (update_fallback fallback payload) scripts
  ]
]

unfoldable pub find_commitment : List (List ℕ) → Option (List ℕ)
find_commitment scripts = find_loop none scripts
