-- ===== src/Indexer/Resolve.antt =====
-- crates/indexer/src/resolve.rs, and the part of scanner.rs that finds the consumed cells of a transaction and
-- processes it. The node is a parameter: `get_transaction`. The
-- time at which a cell is backfilled, which no row holds, is 0.
pub mod Cells
use rgbpp_indexer.Common.{
  ℕ, ◌+◌, ◌-◌, ◌^◌, Option, none, some, List, [], ◌∷◌, ◌++◌, ◌==◌, ◌&&◌, get_elem?, bytes_eq,
  if◌then◌else◌,
}
use rgbpp_indexer.Types.Error.{Result, ok, err, panic, inconsistent, upstream, ◌>>=◌}
use rgbpp_indexer.Client.{Transaction, TransactionWithStatus}
use rgbpp_indexer.Types.Json.{
  Json, JsonText, hex_text, plain_text, get_text, bytes_from_hex, h256_from_hex,
}
use rgbpp_indexer.Types.Text.{hash_type_from_str, lock_kind_str, lock_kind_from_str}
use rgbpp_indexer.Types.Ckb.{ScriptHashType, H256, h256_zero, Script, CellOutput, CkbOutPoint}
use rgbpp_indexer.Types.Protocol.{
  LockKind, LockBinding, ScriptId, ProtocolScripts, classify, binding_parse,
}
use rgbpp_indexer.Types.Asset.{AssetScripts}
use rgbpp_indexer.Store.Models.{NewCell, CellSpend, NewTransition, CellRow, CellKey}
use rgbpp_indexer.Indexer.Extract.{
  ResolvedInput, BlockContext, RgbppOutput, data_at, calc_hash, build_new_cell, extract,
  ExtractedTx,
}

-- The bit pattern of the i32 -1.
abbrev pub unknown_tx_index : ℕ
unknown_tx_index = 2 ^ 32 - 1

-- The lists of the `IndexBatch` that a round fills, and its count of backfilled cells.
pub record Pending : Type 0 where
  pub cells : List NewCell
  pub spends : List CellSpend
  pub transitions : List NewTransition
  pub backfilled_cells : ℕ

unfoldable pub script_id : ProtocolScripts → LockKind → ScriptId
script_id p LockKind.rgbpp = p.rgbpp_lock
script_id p LockKind.btc_time = p.btc_time_lock

unfoldable pub lock_of : ProtocolScripts → LockKind → List ℕ → Script
lock_of p kind args =
    let id = script_id p kind in
    record { code_hash = id.code_hash; hash_type = id.hash_type; args = args }

-- A field that `?` requires.
abbrev required : {A : Type 0} → Option A → Result A
required none = err inconsistent
required (some a) = ok a

abbrev hash_type_of_text : JsonText → Result ScriptHashType
hash_type_of_text (hex_text bs) = err inconsistent
hash_type_of_text (plain_text s) = required (hash_type_from_str s)

-- `unwrap_or("0x")`.
abbrev text_or_empty : Option JsonText → JsonText
text_or_empty none = hex_text []
text_or_empty (some t) = t

unfoldable pub script_from_json : Json → Result Script
script_from_json value = do
  code_hash_text ← required (get_text value "code_hash")
  hash_type_text ← required (get_text value "hash_type")
  code_hash ← h256_from_hex code_hash_text
  hash_type ← hash_type_of_text hash_type_text
  args ← bytes_from_hex (text_or_empty (get_text value "args"))
  ok (record { code_hash = code_hash; hash_type = hash_type; args = args })

-- `type_script.as_ref().map(script_from_json).transpose()`.
abbrev pub type_from_json : Option Json → Result (Option Script)
type_from_json none = ok none
type_from_json (some value) = script_from_json value >>= λ s. ok (some s)

-- `CellRow::lock_kind`: the column holds the text of the kind.
unfoldable pub row_lock_kind : NewCell → Result LockKind
row_lock_kind row = elim (lock_kind_from_str (lock_kind_str row.lock_kind)) [
  | none ↦ err upstream
  | some kind ↦ ok kind
]

unfoldable pub binding_from_row : NewCell → Result LockBinding
binding_from_row row = row_lock_kind row >>= λ kind. binding_parse kind row.lock_args

unfoldable pub cell_output_from_row :
    (List ℕ → List ℕ) → ProtocolScripts → NewCell → Result CellOutput
cell_output_from_row blake2b p row = row_lock_kind row >>= λ kind.
    let lock = lock_of p kind row.lock_args in
    if bytes_eq (calc_hash blake2b lock) row.lock_hash
    then (type_from_json row.type_script >>= λ type_script.
        ok (record { capacity = row.capacity; lock = lock; type_script = type_script }))
    else err inconsistent

unfoldable pub resolved_from_new_cell :
    ProtocolScripts → NewCell → CkbOutPoint → ℕ → Result ResolvedInput
resolved_from_new_cell p cell out_point input_index =
    type_from_json cell.type_script >>= λ type_script.
    binding_parse cell.lock_kind cell.lock_args >>= λ binding. ok (record {
      input_index = input_index;
      out_point = out_point;
      binding = binding;
      cell = record {
        capacity = cell.capacity;
        lock = lock_of p cell.lock_kind cell.lock_args;
        type_script = type_script;
      };
      cell_data = cell.cell_data;
    })

-- `batch.cells.iter().find(..)`.
unfoldable pub find_cell : CkbOutPoint → List NewCell → Option NewCell
find_cell o [] = none
find_cell o (c ∷ cs) =
    let rest = find_cell o cs in
    if bytes_eq c.ckb_tx_hash o.tx_hash.bytes && (c.output_index == o.index) then some c else rest

abbrev pub or_default {ℓ} : {A : Type ℓ} → A → Option A → A
or_default a none = a
or_default a (some b) = b

abbrev pub hash_or_empty : Option H256 → List ℕ
hash_or_empty none = []
hash_or_empty (some h) = h.bytes

-- The block that is given for a backfilled cell.
abbrev pub backfill_block : TransactionWithStatus → BlockContext
backfill_block ws = record {
  number = or_default 0 ws.block_number;
  hash = or_default h256_zero ws.block_hash;
  timestamp = 0;
  tx_index = 0;
}

module _ (get_transaction : H256 → Result (Option TransactionWithStatus))
    (blake2b sha256 : List ℕ → List ℕ) (p : ProtocolScripts) (assets : AssetScripts) where
  -- The row of a backfilled cell.
  unfoldable pub backfilled : TransactionWithStatus → CkbOutPoint → RgbppOutput → NewCell
  backfilled ws out_point output =
      record (build_new_cell blake2b assets out_point.tx_hash output (backfill_block ws)) {
        created_block_hash = hash_or_empty ws.block_hash;
        created_tx_index = unknown_tx_index;
      }

  -- The part of `backfill_input` behind the lookups.
  unfoldable pub backfill_output :
      CkbOutPoint
      → ℕ
      → Pending
      → TransactionWithStatus
      → CellOutput
      → List ℕ
      → Result (Pending × Option ResolvedInput)
  backfill_output out_point input_index batch ws cell bs = elim (classify p cell.lock) [
    | none ↦ ok (batch, none)
    | some kind ↦ binding_parse kind cell.lock.args >>= λ binding. ok (
      record batch {
        cells =
            batch.cells
            ++ (backfilled ws out_point (record {
              index = out_point.index;
              binding = binding;
              cell = cell;
              cell_data = bs;
            })
                ∷ []);
        backfilled_cells = batch.backfilled_cells + 1;
      },
      some (record {
        input_index = input_index;
        out_point = out_point;
        binding = binding;
        cell = cell;
        cell_data = bs;
      }),
    )
  ]

  unfoldable pub backfill_input :
      CkbOutPoint → ℕ → Pending → Result (Pending × Option ResolvedInput)
  backfill_input out_point input_index batch = get_transaction out_point.tx_hash >>= λ found.
      elim found [
        | none ↦ ok (batch, none)
        | some ws ↦ elim ws.transaction [
          | none ↦ ok (batch, none)
          | some tx ↦ elim (get_elem? tx.outputs out_point.index) [
            | none ↦ ok (batch, none)
            | some cell ↦
                backfill_output out_point input_index batch ws cell
                  (data_at tx.outputs_data out_point.index)
          ]
        ]
      ]

  -- A row of the database, as the consumed cell.
  unfoldable pub resolved_from_row : NewCell → CkbOutPoint → ℕ → Result ResolvedInput
  resolved_from_row row out_point input_index = binding_from_row row >>= λ binding.
      cell_output_from_row blake2b p row >>= λ cell. ok (record {
        input_index = input_index;
        out_point = out_point;
        binding = binding;
        cell = cell;
        cell_data = row.cell_data;
      })

  unfoldable pub resolve_input :
      (CellKey → Option CellRow)
      → CkbOutPoint
      → ℕ
      → Pending
      → Result (Pending × Option ResolvedInput)
  resolve_input rows out_point input_index batch = elim (find_cell out_point batch.cells) [
    | some pending ↦
        resolved_from_new_cell p pending out_point input_index >>= λ r. ok (batch, some r)
    | none ↦
        elim (rows
          (record { ckb_tx_hash = out_point.tx_hash.bytes; output_index = out_point.index })) [
            | some row ↦
                resolved_from_row row.cell out_point input_index >>= λ r. ok (batch, some r)
            | none ↦ backfill_input out_point input_index batch
          ]
  ]

  -- The loop over the matched inputs, given by their indices; an input that cannot be resolved is passed over.
  unfoldable pub resolve_inputs :
      (CellKey → Option CellRow)
      → Transaction
      → List ℕ
      → Pending
      → Result (Pending × List ResolvedInput)
  resolve_inputs rows tx [] batch = ok (batch, [])
  resolve_inputs rows tx (io_index ∷ matched) batch = elim (get_elem? tx.inputs io_index) [
    | none ↦ err inconsistent
    | some out_point ↦ resolve_input rows out_point io_index batch >>= λ found.
        resolve_inputs rows tx matched found.0 >>= λ rest. elim found.1 [
          | none ↦ ok rest
          | some r ↦ ok (rest.0, r ∷ rest.1)
        ]
  ]

  -- The three `extend`s.
  abbrev pub extend : Pending → ExtractedTx → Pending
  extend batch tx = record batch {
    cells = batch.cells ++ tx.cells;
    spends = batch.spends ++ tx.spends;
    transitions = batch.transitions ++ elim tx.transition [ none ↦ [] | some t ↦ t ∷ [] ];
  }

  -- A transaction that `extract` refuses is skipped.
  unfoldable pub process_transaction :
      (CellKey → Option CellRow)
      → H256
      → List ℕ
      → BlockContext
      → TransactionWithStatus
      → Pending
      → Result Pending
  process_transaction rows tx_hash matched block ws batch = elim ws.transaction [
    | none ↦ err inconsistent
    | some tx ↦ resolve_inputs rows tx matched batch >>= λ resolved.
        elim (extract blake2b sha256 p assets tx_hash tx.outputs tx.outputs_data resolved.1 block) [
          | ok extracted ↦ ok (extend resolved.0 extracted)
          | err e ↦ ok resolved.0
          | panic ↦ panic
        ]
  ]
