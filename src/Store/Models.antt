-- ===== src/Store/Models.antt =====
-- crates/store/src/models.rs: the rows and batches that are written. A `Vec<u8>` is a byte string. An i32 or i64 column
-- that holds an unsigned number is that number (its bit pattern). A column that holds a kind is the kind; its text stands
-- where it is read (`row_lock_kind` of Resolve). A timestamp is a number of milliseconds; an amount is a number.
use rgbpp_indexer.Common.{ℕ, Bool, Option, List}
use rgbpp_indexer.Types.Error.{Error}
use rgbpp_indexer.Types.Json.{Json}
use rgbpp_indexer.Types.Protocol.{LockKind}
use rgbpp_indexer.Types.Asset.{AssetKind}
use rgbpp_indexer.Types.State.{TransitionKind}

pub record BlockRecord : Type 0 where
  pub number : ℕ
  pub hash : List ℕ
  pub parent_hash : List ℕ
  pub timestamp : ℕ
  pub has_rgbpp_activity : Bool

pub record NewCell : Type 0 where
  pub ckb_tx_hash : List ℕ
  pub output_index : ℕ
  pub lock_kind : LockKind
  pub btc_txid : List ℕ
  pub btc_vout : Option ℕ
  pub btc_time_after : Option ℕ
  pub btc_time_target_lock_hash : Option (List ℕ)
  pub btc_time_target_lock : Option Json
  pub lock_hash : List ℕ
  pub lock_args : List ℕ
  pub type_hash : Option (List ℕ)
  pub type_script : Option Json
  pub asset_kind : AssetKind
  pub udt_amount : Option ℕ
  pub capacity : ℕ
  pub cell_data : List ℕ
  pub created_block_number : ℕ
  pub created_block_hash : List ℕ
  pub created_tx_index : ℕ

pub record CellSpend : Type 0 where
  pub ckb_tx_hash : List ℕ
  pub output_index : ℕ
  pub consumed_block_number : ℕ
  pub consumed_block_hash : List ℕ
  pub consumed_tx_hash : List ℕ
  pub consumed_tx_index : ℕ
  pub consumed_input_index : ℕ

pub data CommitmentStatus : Type 0 where
  unchecked match mismatch btc_unknown missing not_applicable : CommitmentStatus

pub record NewTransition : Type 0 where
  pub ckb_tx_hash : List ℕ
  pub block_number : ℕ
  pub block_hash : List ℕ
  pub tx_index : ℕ
  pub block_timestamp : Option ℕ
  pub kind : TransitionKind
  pub btc_txid : Option (List ℕ)
  pub input_cell_count : ℕ
  pub output_cell_count : ℕ
  pub expected_commitment : Option (List ℕ)

pub record IndexBatch : Type 0 where
  pub blocks : List BlockRecord
  pub cells : List NewCell
  pub spends : List CellSpend
  pub transitions : List NewTransition
  pub checkpoint_number : ℕ
  pub checkpoint_hash : Option (List ℕ)
  pub chain_tip : ℕ
  pub target : ℕ
  pub reorg_lag : ℕ

pub record ApplyStats : Type 0 where
  pub blocks : ℕ
  pub cells : ℕ
  pub spends : ℕ
  pub transitions : ℕ

-- The checkpoint row of the CKB stream.
pub record StreamState : Type 0 where
  pub last_block_number : ℕ
  pub last_block_hash : Option (List ℕ)
  pub target_block_number : Option ℕ
  pub chain_tip_number : Option ℕ
  pub reorg_lag : ℕ
  pub last_error : Option Error
  pub updated_at : ℕ

-- The rows of the tables, and the tables by their primary keys. The times of creation (`created_at`, `indexed_at`), which
-- only an insertion writes, are left out.
pub record Consumed : Type 0 where
  pub block_number : ℕ
  pub block_hash : List ℕ
  pub tx_hash : List ℕ
  pub tx_index : ℕ
  pub input_index : ℕ
  pub consumed_at : ℕ

pub record CellRow : Type 0 where
  pub cell : NewCell
  pub consumed : Option Consumed

pub record TransitionRow : Type 0 where
  pub transition : NewTransition
  pub observed_commitment : Option (List ℕ)
  pub commitment_status : CommitmentStatus

pub record CellKey : Type 0 where
  pub ckb_tx_hash : List ℕ
  pub output_index : ℕ

pub record Database : Type 0 where
  pub blocks : ℕ → Option BlockRecord
  pub cells : CellKey → Option CellRow
  pub transitions : List ℕ → Option TransitionRow
  pub state : Option StreamState
  -- What `now()` gives; no statement changes it.
  pub clock : ℕ
