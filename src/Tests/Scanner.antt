-- ===== src/Tests/Scanner.antt =====
-- The witnesses of the searches, of a round and of the loop.
use rgbpp_indexer.Common.{
  ℕ, ◌+◌, ◌-◌, ◌*◌, ◌≡◌, refl, ◌↔◌, ◌⊎◌, false, Bool-cases, Option, none, some, List, [], ◌∷◌, take,
  drop, arith, ltb, inl, inr,
}
use rgbpp_indexer.Types.Error.{Result, ok}
use rgbpp_indexer.Types.Config.{Config}
use rgbpp_indexer.Client.{
  IoType, input, output, MatchedCell, TxRecord, Page, RpcHeader, Node,
  collect_transactions_in_range, page_loop, keep_in_range, synced_tip, sort_records,
}
use rgbpp_indexer.Client.Paging.{Serves, IsCollected, collect_transactions_in_range-IsCollected}
use rgbpp_indexer.Store.Apply.{init_stream}
use rgbpp_indexer.Indexer.Scanner.Merge.{merge_records}
use rgbpp_indexer.Indexer.Scanner.Merge.Union.{HasMatch, merge_records-union}
use rgbpp_indexer.Indexer.Scanner.Merge.Ordered.{IsOrdered}
use rgbpp_indexer.Indexer.Scanner.Round.{scan_once, catch_up}
use rgbpp_indexer.Indexer.Scanner.Round.Plans.{EndsPages}
use rgbpp_indexer.Indexer.Scanner.Round.Checkpoint.{scan_once-Outcome}
use rgbpp_indexer.Indexer.Scanner.Round.Tables.{Outcome}
use rgbpp_indexer.Indexer.Scanner.Round.CatchUp.{IsSettled, catch_up-IsSettled}
use rgbpp_indexer.Tests.Data.{hash, owner, protocol, assets, toy_hash, ckb_config, database}

abbrev matched : IoType → ℕ → MatchedCell
matched io_type index = record { io_type = io_type; io_index = index }

abbrev recorded : ℕ → ℕ → List MatchedCell → TxRecord
recorded number tx_index cells = record {
  tx_hash = hash tx_index;
  block_number = number;
  tx_index = tx_index;
  cells = cells;
}

abbrev seals : List TxRecord
seals =
    recorded 12 1 (matched input 0 ∷ [])
    ∷ recorded 11 2 (matched output 0 ∷ [])
    ∷ recorded 14 3 []
    ∷ []

abbrev time_locks : List TxRecord
time_locks = recorded 12 1 (matched output 1 ∷ matched input 0 ∷ []) ∷ []

merge_records-union_example :
    IsOrdered (merge_records time_locks (merge_records seals []))
    × ((k : TxRecord) (c : MatchedCell)
        → HasMatch k c (merge_records time_locks (merge_records seals []))
          ↔ (HasMatch k c seals ⊎ HasMatch k c time_locks))
merge_records-union_example = merge_records-union seals time_locks

-- A service that has `seals`, two to a page; a cursor is the position behind its page.
abbrev position : List ℕ → ℕ
position [] = 0
position (k ∷ ks) = k

abbrev page_from : ℕ → Page
page_from k = record { objects = take 2 (drop k seals); last_cursor = (k + 2) ∷ [] }

abbrev pages : Option (List ℕ) → Result Page
pages none = ok (page_from 0)
pages (some cursor) = ok (page_from (position cursor))

abbrev header : ℕ → RpcHeader
header n = record { hash = hash n; parent_hash = hash (n - 1); timestamp = 1000 * n }

abbrev node : Node
node = record {
  tip_block_number = ok 30;
  indexer_tip = ok (some 25);
  header = λ n. ok (some (header n));
  transaction = λ tx_hash. ok none;
  page = λ script from to limit after. pages after;
}

abbrev quiet : Node
quiet = record node {
  page = λ script from to limit after. ok (record { objects = []; last_cursor = [] });
}

seals-Serves : Serves pages 2 seals
seals-Serves = record {
  cursor = λ k. (k + 2) ∷ [];
  position = position;
  first_page = refl;
  next_page = λ c. refl;
  position_cursor = λ k h. refl;
  empty_cursor = λ k h. absurd (let j = h in cc);
}

collect_transactions_in_range-IsCollected_example :
    (rs : List TxRecord) × (collect_transactions_in_range node 2 4 owner 10 13 ≡ some (ok rs))
    × IsCollected 10 13 seals rs
collect_transactions_in_range-IsCollected_example =
    collect_transactions_in_range-IsCollected node 2 4 owner 10 13 seals seals-Serves (omega arith)
      (omega arith)

abbrev config : Config
config = record {
  database_url_empty = false;
  ckb_rpc_url_empty = false;
  btc_base_url_empty = false;
  ckb = ckb_config;
  protocol = protocol;
  assets = assets;
}

scan_once-Outcome_example :
    Outcome 5 quiet database
      (scan_once toy_hash toy_hash 3 config quiet database).0
      (scan_once toy_hash toy_hash 3 config quiet database).1
scan_once-Outcome_example = scan_once-Outcome toy_hash toy_hash 3 config quiet database

quiet-EndsPages : EndsPages quiet ckb_config.page_limit 3 protocol
unfolding collect_transactions_in_range page_loop keep_in_range sort_records
quiet-EndsPages kind from to = elim (Bool-cases (ltb to from)) [
  | inl e ↦ (ok [], rw e refl)
  | inr e ↦ (ok [], rw e refl)
]

catch_up-IsSettled_example :
    IsSettled toy_hash toy_hash 3 config quiet 25
      (catch_up toy_hash toy_hash 3 config quiet 30 database).0
      (catch_up toy_hash toy_hash 3 config quiet 30 database).1
unfolding synced_tip init_stream
catch_up-IsSettled_example =
    catch_up-IsSettled toy_hash toy_hash 3 config quiet 25 refl 30 database quiet-EndsPages
      (omega arith) (omega arith) (omega arith)
