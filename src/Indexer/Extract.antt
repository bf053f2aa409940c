-- ===== src/Indexer/Extract.antt =====
-- crates/indexer/src/extract.rs: turning a CKB transaction into the rows to write. The hash functions
-- are parameters; logging is left out; the conversion of an amount to NUMERIC does not fail.
pub mod Outputs
pub mod Kinds
pub mod Commitments
pub mod Rows
use rgbpp_indexer.Common.{
  ℕ, ◌+◌, ◌-◌, Bool, true, false, Option, none, some, List, [], ◌∷◌, map, length, get_elem?, ltb,
  ◌==◌, ◌&&◌, if◌then◌else◌, not,
}
use mathlib.Core.Option
use rgbpp_indexer.Types.Error.{Result, ok, err, panic, inconsistent, ◌>>=◌}
use rgbpp_indexer.Types.Json.{Json, object, plain_text, bytes_to_hex, h256_to_hex}
use rgbpp_indexer.Types.Text.{hash_type_str}
use rgbpp_indexer.Types.Ckb.{H256, Script, CellOutput, CkbOutPoint}
use rgbpp_indexer.Types.Bitcoin.{BtcTxid, txid_eq}
use rgbpp_indexer.Types.Molecule.{as_u32, encode_script}
use rgbpp_indexer.Types.Protocol.{
  LockKind, LockBinding, ProtocolScripts, classify, binding_kind, binding_txid, binding_parse,
  args_with_placeholder_txid,
}
use rgbpp_indexer.Types.Asset.{
  AssetKind, AssetScripts, is_fungible, asset_classify, parse_udt_amount,
}
use rgbpp_indexer.Types.State.{TransitionKind}
use rgbpp_indexer.Types.Commitment.{preimage_new, commitment}
use rgbpp_indexer.Store.Models.{NewCell, CellSpend, NewTransition}

pub record ResolvedInput : Type 0 where
  pub input_index : ℕ
  pub out_point : CkbOutPoint
  pub binding : LockBinding
  pub cell : CellOutput
  pub cell_data : List ℕ

pub record BlockContext : Type 0 where
  pub number : ℕ
  pub hash : H256
  pub timestamp : ℕ
  pub tx_index : ℕ

pub record ExtractedTx : Type 0 where
  pub cells : List NewCell
  pub spends : List CellSpend
  pub transition : Option NewTransition

pub record RgbppOutput : Type 0 where
  pub index : ℕ
  pub binding : LockBinding
  pub cell : CellOutput
  pub cell_data : List ℕ

-- `.get(index).cloned().unwrap_or_default()`.
unfoldable pub data_at : List (List ℕ) → ℕ → List ℕ
data_at datas index = elim (get_elem? datas index) [ some bs ↦ bs | none ↦ [] ]

-- The loop of `classify_outputs` over the outputs from `index` on.
unfoldable pub classify_from :
    ProtocolScripts → List (List ℕ) → ℕ → List CellOutput → Result (List RgbppOutput)
unfolding data_at
classify_from p datas index [] = ok []
classify_from p datas index (output ∷ outputs) =
    let rest = classify_from p datas (index + 1) outputs in
    elim (classify p output.lock) [
      | none ↦ rest
      | some kind ↦ elim (binding_parse kind output.lock.args) [
        | err e ↦ rest
        | panic ↦ panic
        | ok binding ↦ rest >>= λ found. ok (
            record {
              index = as_u32 index;
              binding = binding;
              cell = output;
              cell_data = data_at datas index;
            }
            ∷ found)
      ]
    ]

unfoldable pub classify_outputs :
    ProtocolScripts → List CellOutput → List (List ℕ) → Result (List RgbppOutput)
classify_outputs p outputs outputs_data = classify_from p outputs_data 0 outputs

unfoldable pub is_btc_time : LockBinding → Bool
unfolding binding_kind
is_btc_time b = elim (binding_kind b) [ LockKind.btc_time ↦ true | LockKind.rgbpp ↦ false ]

unfoldable pub count_btc_time : List ResolvedInput → ℕ
unfolding is_btc_time
count_btc_time [] = 0
count_btc_time (i ∷ is) =
    let rest = count_btc_time is in if is_btc_time i.binding then rest + 1 else rest

unfoldable pub count_rgbpp : List RgbppOutput → ℕ
unfolding is_btc_time
count_rgbpp [] = 0
count_rgbpp (o ∷ os) = let rest = count_rgbpp os in if is_btc_time o.binding then rest else rest + 1

unfoldable pub classify_transition : List ResolvedInput → List RgbppOutput → TransitionKind
classify_transition inputs outputs =
    let btc_time_in = count_btc_time inputs in
    let rgbpp_in = length inputs - btc_time_in in
    let rgbpp_out = count_rgbpp outputs in
    let btc_time_out = length outputs - rgbpp_out in
    if ltb 0 btc_time_in
    then TransitionKind.btc_time_unlock
    else if rgbpp_in == 0
    then TransitionKind.issuance
    else if (rgbpp_out == 0) && ltb 0 btc_time_out
    then TransitionKind.leap_to_ckb
    else if ltb 0 rgbpp_out
    then TransitionKind.transfer
    else TransitionKind.exit

-- The loop of `derive_btc_txid`, with the running `txid`.
unfoldable pub derive_loop : Option BtcTxid → List RgbppOutput → Option BtcTxid
derive_loop txid [] = txid
derive_loop none (o ∷ os) = derive_loop (some (binding_txid o.binding)) os
derive_loop (some existing) (o ∷ os) =
    let rest = derive_loop (some existing) os in
    if not (txid_eq existing (binding_txid o.binding)) then none else rest

unfoldable pub derive_btc_txid : List RgbppOutput → Option BtcTxid
derive_btc_txid outputs = derive_loop none outputs

-- The loop of `expected_commitment`: `.ok()?` ends it at the first output that cannot be rewritten.
unfoldable pub committed_outputs : List RgbppOutput → Option (List (CellOutput × List ℕ))
committed_outputs [] = some []
committed_outputs (o ∷ os) =
    let rest = committed_outputs os in
    elim (args_with_placeholder_txid (binding_kind o.binding) o.cell.lock.args) [
      | ok args ↦
          Option.map
            (λ pairs.
              (record o.cell { lock = record (o.cell.lock) { args = args } }, o.cell_data) ∷ pairs)
            rest
      | err e ↦ none
      | panic ↦ none
    ]

unfoldable pub is_empty {ℓ} : {A : Type ℓ} → List A → Bool
is_empty [] = true
is_empty (x ∷ xs) = false

unfoldable pub fungible_amount : AssetKind → List ℕ → Option ℕ
fungible_amount kind bs = if is_fungible kind then parse_udt_amount bs else none

unfoldable pub expected_commitment :
    (List ℕ → List ℕ) → List ResolvedInput → List RgbppOutput → Option (List ℕ)
unfolding is_empty
expected_commitment sha256 inputs outputs =
    if is_empty inputs && is_empty outputs
    then none
    else Option.map
        (λ pairs. commitment sha256 (preimage_new (map (λ i. i.out_point) inputs) pairs))
        (committed_outputs outputs)

unfoldable pub calc_hash : (List ℕ → List ℕ) → Script → List ℕ
calc_hash blake2b s = blake2b (encode_script s)

unfoldable pub btc_vout_of : LockBinding → Option ℕ
btc_vout_of (LockBinding.rgbpp a) = some a.out_index
btc_vout_of (LockBinding.btc_time a) = none

unfoldable pub btc_time_after_of : LockBinding → Option ℕ
btc_time_after_of (LockBinding.rgbpp a) = none
btc_time_after_of (LockBinding.btc_time a) = some a.after

unfoldable pub target_lock_of : LockBinding → Option Script
target_lock_of (LockBinding.rgbpp a) = none
target_lock_of (LockBinding.btc_time a) = some a.target_lock

unfoldable pub script_to_json : Script → Json
script_to_json s = object (
    ("code_hash", some (h256_to_hex s.code_hash))
    ∷ ("hash_type", some (plain_text (hash_type_str s.hash_type)))
    ∷ ("args", some (bytes_to_hex s.args))
    ∷ [])

unfoldable pub build_new_cell :
    (List ℕ → List ℕ) → AssetScripts → H256 → RgbppOutput → BlockContext → NewCell
unfolding calc_hash btc_vout_of btc_time_after_of target_lock_of fungible_amount
build_new_cell blake2b assets tx_hash o block =
    let asset_kind = asset_classify assets o.cell.type_script in
    record {
      ckb_tx_hash = tx_hash.bytes;
      output_index = o.index;
      lock_kind = binding_kind o.binding;
      btc_txid = (binding_txid o.binding).bytes;
      btc_vout = btc_vout_of o.binding;
      btc_time_after = btc_time_after_of o.binding;
      btc_time_target_lock_hash = Option.map (calc_hash blake2b) (target_lock_of o.binding);
      btc_time_target_lock = Option.map script_to_json (target_lock_of o.binding);
      lock_hash = calc_hash blake2b o.cell.lock;
      lock_args = o.cell.lock.args;
      type_hash = Option.map (calc_hash blake2b) o.cell.type_script;
      type_script = Option.map script_to_json o.cell.type_script;
      asset_kind = asset_kind;
      udt_amount = fungible_amount asset_kind o.cell_data;
      capacity = o.cell.capacity;
      cell_data = o.cell_data;
      created_block_number = block.number;
      created_block_hash = block.hash.bytes;
      created_tx_index = block.tx_index;
    }

unfoldable pub build_spend : H256 → BlockContext → ResolvedInput → CellSpend
build_spend tx_hash block i = record {
  ckb_tx_hash = i.out_point.tx_hash.bytes;
  output_index = i.out_point.index;
  consumed_block_number = block.number;
  consumed_block_hash = block.hash.bytes;
  consumed_tx_hash = tx_hash.bytes;
  consumed_tx_index = block.tx_index;
  consumed_input_index = i.input_index;
}

module _ (blake2b sha256 : List ℕ → List ℕ) where
  unfoldable pub build_transition :
      H256 → List RgbppOutput → List ResolvedInput → BlockContext → NewTransition
  build_transition tx_hash outputs inputs block = record {
    ckb_tx_hash = tx_hash.bytes;
    block_number = block.number;
    block_hash = block.hash.bytes;
    tx_index = block.tx_index;
    block_timestamp = some block.timestamp;
    kind = classify_transition inputs outputs;
    btc_txid = Option.map (λ t. t.bytes) (derive_btc_txid outputs);
    input_cell_count = length inputs;
    output_cell_count = length outputs;
    expected_commitment = expected_commitment sha256 inputs outputs;
  }

  unfoldable pub extract :
      ProtocolScripts
      → AssetScripts
      → H256
      → List CellOutput
      → List (List ℕ)
      → List ResolvedInput
      → BlockContext
      → Result ExtractedTx
  unfolding is_empty build_transition
  extract protocol assets tx_hash outputs outputs_data inputs block = do
    found ← classify_outputs protocol outputs outputs_data
    if is_empty found && is_empty inputs
        then err inconsistent
        else ok (record {
          cells = map (λ o. build_new_cell blake2b assets tx_hash o block) found;
          spends = map (build_spend tx_hash block) inputs;
          transition = some (build_transition tx_hash found inputs block);
        })
