-- ===== src/Tests/Resolve.antt =====
-- The resolution of consumed cells.
use rgbpp_indexer.Common.{◌≡◌, refl, some, none, Option, [], ◌∷◌, bytes_eq}
use rgbpp_indexer.Types.Error.{Result, ok}
use rgbpp_indexer.Types.Ckb.{CellOutput, H256, h256_eq, hash_type_eq, to_byte}
use rgbpp_indexer.Types.Protocol.{LockKind, LockBinding, matches, classify, binding_parse}
use rgbpp_indexer.Types.Protocol.Args.{rgbpp_parse-encode}
use rgbpp_indexer.Indexer.Extract.{RgbppOutput, build_new_cell}
use rgbpp_indexer.Client.{TransactionWithStatus}
use rgbpp_indexer.Indexer.Resolve.{Pending, binding_from_row, cell_output_from_row}
use rgbpp_indexer.Indexer.Resolve.Cells.{cell_output_from_row-build_new_cell}
use rgbpp_indexer.Tests.Data.{protocol, assets, hash, seal, found, seal_cell, block, toy_hash}
use rgbpp_indexer.Tests.Protocol.{seal_valid}

seal_classified : classify protocol seal_cell.lock ≡ some LockKind.rgbpp
unfolding classify matches h256_eq hash_type_eq bytes_eq to_byte
seal_classified = refl

seal_parsed : binding_parse LockKind.rgbpp seal_cell.lock.args ≡ ok (LockBinding.rgbpp seal)
unfolding binding_parse
seal_parsed = rw (rgbpp_parse-encode seal seal_valid) refl

-- The cell with a type script.
abbrev typed_cell : CellOutput
typed_cell = record seal_cell { type_script = some seal_cell.lock }

abbrev typed : RgbppOutput
typed = record found { cell = typed_cell }

cell_output_from_row-build_new_cell_example :
    (binding_from_row (build_new_cell toy_hash assets (hash 4) typed block)
      ≡ ok (LockBinding.rgbpp seal))
    × (cell_output_from_row toy_hash protocol (build_new_cell toy_hash assets (hash 4) typed block)
        ≡ ok typed_cell)
cell_output_from_row-build_new_cell_example =
    cell_output_from_row-build_new_cell toy_hash protocol assets (hash 4) typed block LockKind.rgbpp
      seal_classified seal_parsed refl

-- A node that knows no transaction.
abbrev no_node : H256 → Result (Option TransactionWithStatus)
no_node h = ok none

abbrev pending : Pending
pending = record {
  cells = build_new_cell toy_hash assets (hash 4) typed block ∷ [];
  spends = [];
  transitions = [];
  backfilled_cells = 0;
}
