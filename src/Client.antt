-- ===== src/Client.antt =====
-- crates/ckb/src/client.rs and types.rs: the calls of the CKB node and of the rich indexer, the answers that are
-- read, and the collection of the transactions of a range over pages. The two JSON-RPC endpoints are a parameter.
pub mod Order
pub mod Paging
use rgbpp_indexer.Common.{
  ◌%◌, ◌^◌, ℕ, suc, zero, ◌+◌, min, max, Bool, true, false, not, ◌||◌, Option, none, some, List, [],
  ◌∷◌, ◌++◌, length, ltb, ◌==◌, ◌&&◌, if◌then◌else◌,
}
use rgbpp_indexer.Types.Error.{Result, ok, err, panic, ◌>>=◌}
use rgbpp_indexer.Types.Ckb.{H256, Script, CellOutput, CkbOutPoint}

pub data IoType : Type 0 where
  input output : IoType

pub record MatchedCell : Type 0 where
  pub io_type : IoType
  pub io_index : ℕ

pub record TxRecord : Type 0 where
  pub tx_hash : H256
  pub block_number : ℕ
  pub tx_index : ℕ
  pub cells : List MatchedCell

pub record Page : Type 0 where
  pub objects : List TxRecord
  pub last_cursor : List ℕ

pub record RpcHeader : Type 0 where
  pub hash : H256
  pub parent_hash : H256
  pub timestamp : ℕ

-- The parts of a transaction of the node that are read.
pub record Transaction : Type 0 where
  pub inputs : List CkbOutPoint
  pub outputs : List CellOutput
  pub outputs_data : List (List ℕ)

pub record TransactionWithStatus : Type 0 where
  pub transaction : Option Transaction
  pub block_number : Option ℕ
  pub block_hash : Option H256

-- The answers of the endpoints. `page script from to limit after` is `get_transactions` in ascending order for the
-- transactions that touch a cell with this lock code in the blocks from `from` to below `to`.
pub record Node : Type 0 where
  pub tip_block_number : Result ℕ
  pub indexer_tip : Result (Option ℕ)
  pub header : ℕ → Result (Option RpcHeader)
  pub transaction : H256 → Result (Option TransactionWithStatus)
  pub page : Script → ℕ → ℕ → ℕ → Option (List ℕ) → Result Page

unfoldable pub synced_tip : Node → Result ℕ
synced_tip node = do
  node_tip ← node.tip_block_number
  indexer_tip ← node.indexer_tip
  ok (elim indexer_tip [ some n ↦ min node_tip n | none ↦ node_tip ])

unfoldable pub in_range : ℕ → ℕ → TxRecord → Bool
in_range from to r = not (ltb r.block_number from || ltb to r.block_number)

-- The loop over the objects of a page.
unfoldable pub keep_in_range : ℕ → ℕ → List TxRecord → List TxRecord
keep_in_range from to [] = []
keep_in_range from to (r ∷ rs) =
    let rest = keep_in_range from to rs in if in_range from to r then r ∷ rest else rest

abbrev pub no_bytes : List ℕ → Bool
no_bytes [] = true
no_bytes (b ∷ bs) = false

-- The loop over the pages; `none` says that the fuel has run out.
unfoldable pub page_loop :
    (Option (List ℕ) → Result Page)
    → ℕ
    → ℕ
    → ℕ
    → ℕ
    → Option (List ℕ)
    → List TxRecord
    → Option (Result (List TxRecord))
page_loop pages limit from to zero cursor out = none
page_loop pages limit from to (suc fuel) cursor out = elim (pages cursor) [
  | err e ↦ some (err e)
  | panic ↦ some panic
  | ok page ↦ elim (ltb (length page.objects) limit || no_bytes page.last_cursor) [
    | true ↦ some (ok (out ++ keep_in_range from to page.objects))
    | false ↦
        page_loop pages limit from to fuel (some page.last_cursor)
          (out ++ keep_in_range from to page.objects)
  ]
]

-- The key `(block_number, tx_index)`, compared from left to right.
unfoldable pub key_lt : TxRecord → TxRecord → Bool
key_lt a b =
    ltb a.block_number b.block_number
    || ((a.block_number == b.block_number) && ltb a.tx_index b.tx_index)

-- The stable `sort_by_key`.
unfoldable pub insert_record : TxRecord → List TxRecord → List TxRecord
insert_record r [] = r ∷ []
insert_record r (x ∷ xs) =
    let rest = insert_record r xs in if key_lt x r then x ∷ rest else r ∷ x ∷ xs

unfoldable pub sort_records : List TxRecord → List TxRecord
sort_records [] = []
sort_records (r ∷ rs) = insert_record r (sort_records rs)

abbrev pub sort_result : Result (List TxRecord) → Result (List TxRecord)
sort_result (ok rs) = ok (sort_records rs)
sort_result (err e) = err e
sort_result panic = panic

-- The loop is given `fuel` pages at most.
unfoldable pub collect_transactions_in_range :
    Node → ℕ → ℕ → Script → ℕ → ℕ → Option (Result (List TxRecord))
collect_transactions_in_range node page_limit fuel script from to =
    if ltb to from
    then some (ok [])
    else elim (page_loop (node.page script from ((to + 1) % 2 ^ 64) (max page_limit 1))
        (max page_limit 1) from to fuel none []) [ none ↦ none | some r ↦ some (sort_result r) ]
