-- ===== src/Tests/Data.antt =====
-- Concrete values for the tests.
use rgbpp_indexer.Common.{
  ℕ, ◌≡◌, Bool, true, false, none, some, List, [], ◌∷◌, ◌&&◌, ltb, IsBytes, replicate, arith,
  length,
}
use rgbpp_indexer.Types.Ckb.{H256, Script, type_, CellOutput, CkbOutPoint}
use rgbpp_indexer.Types.Bitcoin.{BtcTxid}
use rgbpp_indexer.Types.Protocol.{
  ProtocolScripts, RgbppLockArgs, BtcTimeLockArgs, LockBinding, rgbpp_encode,
}
use rgbpp_indexer.Types.Asset.{AssetScripts}
use rgbpp_indexer.Types.Config.{CkbConfig}
use rgbpp_indexer.Store.Models.{BlockRecord, IndexBatch, StreamState, Database, CellRow, CellKey}
use rgbpp_indexer.Indexer.Extract.{
  ResolvedInput, BlockContext, RgbppOutput, build_new_cell, build_spend,
}

-- A test of byte strings, to be evaluated.
unfoldable pub all_bytes : List ℕ → Bool
all_bytes [] = true
all_bytes (b ∷ bs) = ltb b 256 && all_bytes bs

pub all_bytes→IsBytes : (bs : List ℕ) → all_bytes bs ≡ true → IsBytes bs
unfolding all_bytes
all_bytes→IsBytes [] h = tt
all_bytes→IsBytes (b ∷ bs) h = (ground arith, all_bytes→IsBytes bs (ground arith))

abbrev pub hash : ℕ → H256
hash b = record { bytes = replicate 32 b }

abbrev pub txid : ℕ → BtcTxid
txid b = record { bytes = replicate 32 b }

abbrev pub protocol : ProtocolScripts
protocol = record {
  rgbpp_lock = record { code_hash = hash 1; hash_type = type_ };
  btc_time_lock = record { code_hash = hash 2; hash_type = type_ };
}

abbrev pub assets : AssetScripts
assets = record { xudt = []; sudt = []; spore = []; spore_cluster = [] }

abbrev pub seal : RgbppLockArgs
seal = record { out_index = 3; txid = txid 9 }

abbrev pub owner : Script
owner = record { code_hash = hash 5; hash_type = type_; args = 1 ∷ 2 ∷ 3 ∷ [] }

abbrev pub time_args : BtcTimeLockArgs
time_args = record { target_lock = owner; after = 6; txid = txid 9 }

abbrev pub seal_cell : CellOutput
seal_cell = record {
  capacity = 1000;
  lock = record { code_hash = hash 1; hash_type = type_; args = rgbpp_encode seal };
  type_script = none;
}

abbrev pub found : RgbppOutput
found = record { index = 0; binding = LockBinding.rgbpp seal; cell = seal_cell; cell_data = 7 ∷ [] }

abbrev pub out_point : CkbOutPoint
out_point = record { tx_hash = hash 4; index = 0 }

abbrev pub resolved : ResolvedInput
resolved = record {
  input_index = 0;
  out_point = out_point;
  binding = LockBinding.rgbpp seal;
  cell = seal_cell;
  cell_data = 7 ∷ [];
}

abbrev pub block : BlockContext
block = record { number = 12; hash = hash 8; timestamp = 1000; tx_index = 1 }

-- A stand-in for a hash function.
abbrev pub toy_hash : List ℕ → List ℕ
toy_hash bs = (length bs ∷ [])

abbrev pub ckb_config : CkbConfig
ckb_config = record {
  start_block = 5;
  reorg_lag = 3;
  batch_blocks = 4;
  page_limit = 10;
  fetch_concurrency = 2;
  header_retention = 100;
}

abbrev pub state : StreamState
state = record {
  last_block_number = 9;
  last_block_hash = some (1 ∷ []);
  target_block_number = none;
  chain_tip_number = none;
  reorg_lag = 3;
  last_error = none;
  updated_at = 0;
}

abbrev pub activity_block : BlockRecord
activity_block = record {
  number = 12;
  hash = 8 ∷ [];
  parent_hash = 7 ∷ [];
  timestamp = 1000;
  has_rgbpp_activity = true;
}

abbrev pub batch : IndexBatch
batch = record {
  blocks = record activity_block { has_rgbpp_activity = false } ∷ [];
  cells = build_new_cell toy_hash assets (hash 4) found block ∷ [];
  spends = build_spend (hash 6) block resolved ∷ [];
  transitions = [];
  checkpoint_number = 13;
  checkpoint_hash = some (8 ∷ []);
  chain_tip = 100;
  target = 97;
  reorg_lag = 3;
}

abbrev pub row : CellRow
row = record { cell = build_new_cell toy_hash assets (hash 4) found block; consumed = none }

abbrev pub database : Database
database = record {
  blocks = λ n. some activity_block;
  cells = λ key. some row;
  transitions = λ h. none;
  state = some state;
  clock = 70;
}

abbrev pub cell_key : CellKey
cell_key = record { ckb_tx_hash = replicate 32 4; output_index = 0 }
