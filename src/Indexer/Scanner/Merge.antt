-- ===== src/Indexer/Scanner/Merge.antt =====
-- crates/indexer/src/scanner.rs, `collect_range`: the matches of the two protocol locks, merged into one list of
-- transactions. The `BTreeMap` is the list of its values in the order of the keys.
pub mod Ordered
pub mod Union
use rgbpp_indexer.Common.{
  ℕ, Bool, true, false, ◌||◌, ◌&&◌, Option, none, some, List, [], ◌∷◌, ◌++◌, ltb, ◌==◌, bytes_eq,
  if◌then◌else◌,
}
use rgbpp_indexer.Types.Error.{Result, ok, err, panic}
use rgbpp_indexer.Types.Ckb.{Script}
use rgbpp_indexer.Types.Protocol.{LockKind, ProtocolScripts}
use rgbpp_indexer.Client.{
  IoType, input, output, MatchedCell, TxRecord, Node, collect_transactions_in_range,
}
use rgbpp_indexer.Indexer.Resolve.{lock_of}

-- The order of byte arrays.
unfoldable pub bytes_lt : List ℕ → List ℕ → Bool
bytes_lt [] [] = false
bytes_lt [] (y ∷ ys) = true
bytes_lt (x ∷ xs) [] = false
bytes_lt (x ∷ xs) (y ∷ ys) = ltb x y || ((x == y) && bytes_lt xs ys)

-- The key `(block_number, tx_index, tx_hash)`.
unfoldable pub same_key : TxRecord → TxRecord → Bool
same_key a b =
    (a.block_number == b.block_number)
    && ((a.tx_index == b.tx_index) && bytes_eq a.tx_hash.bytes b.tx_hash.bytes)

unfoldable pub before : TxRecord → TxRecord → Bool
before a b =
    ltb a.block_number b.block_number
    || ((a.block_number == b.block_number)
        && (ltb a.tx_index b.tx_index
            || ((a.tx_index == b.tx_index) && bytes_lt a.tx_hash.bytes b.tx_hash.bytes)))

abbrev pub io_eq : IoType → IoType → Bool
io_eq input input = true
io_eq output output = true
io_eq input output = false
io_eq output input = false

unfoldable pub cell_eq : MatchedCell → MatchedCell → Bool
cell_eq a b = io_eq a.io_type b.io_type && (a.io_index == b.io_index)

unfoldable pub contains_cell : List MatchedCell → MatchedCell → Bool
contains_cell [] c = false
contains_cell (x ∷ xs) c = cell_eq x c || contains_cell xs c

-- The loop that adds the cells that are not there yet.
unfoldable pub add_cells : List MatchedCell → List MatchedCell → List MatchedCell
add_cells existing [] = existing
add_cells existing (c ∷ cs) =
    add_cells (if contains_cell existing c then existing else existing ++ (c ∷ [])) cs

unfoldable pub merge_record : TxRecord → List TxRecord → List TxRecord
merge_record r [] = r ∷ []
merge_record r (x ∷ xs) =
    let rest = merge_record r xs in
    if same_key x r
    then record x { cells = add_cells x.cells r.cells } ∷ xs
    else if before r x
    then r ∷ x ∷ xs
    else x ∷ rest

unfoldable pub merge_records : List TxRecord → List TxRecord → List TxRecord
merge_records [] merged = merged
merge_records (r ∷ rs) merged = merge_records rs (merge_record r merged)

-- A computation with fuel: `none` says that it has run out.
abbrev pub and_then {ℓ κ} :
    {A : Type ℓ} {B : Type κ} → Option (Result A) → (A → Option (Result B)) → Option (Result B)
and_then none f = none
and_then (some (ok a)) f = f a
and_then (some (err e)) f = some (err e)
and_then (some panic) f = some panic

-- A lock of the protocol with no args: the prefix of all its scripts.
unfoldable pub lock_search_script : ProtocolScripts → LockKind → Script
lock_search_script p kind = lock_of p kind []

unfoldable pub collect_range :
    Node → ℕ → ℕ → ProtocolScripts → ℕ → ℕ → Option (Result (List TxRecord))
collect_range node page_limit fuel p from to =
    and_then
      (collect_transactions_in_range node page_limit fuel (lock_search_script p LockKind.rgbpp) from
        to)
      λ first.
        and_then
          (collect_transactions_in_range node page_limit fuel
            (lock_search_script p LockKind.btc_time) from to)
          λ second. some (ok (merge_records second (merge_records first [])))
