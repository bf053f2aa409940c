-- ===== src/Store/Queue.antt =====
-- crates/store/src/queue.rs: the refresh queue. A claim goes through the rows in order, and passes over the rows that
-- another transaction has locked, which are an argument.
pub mod Attempts
pub mod Claims
use rgbpp_indexer.Common.{
  ℕ, ◌+◌, ◌^◌, min, ltb, leb, ◌==◌, Bool, true, false, not, ◌&&◌, ◌||◌, Option, none, some, List,
  [], ◌∷◌, ◌++◌, map, length, take, if◌then◌else◌, bytes_eq,
}
use mathlib.Core.Option
use Prim.Native.String.{String}
use rgbpp_indexer.Types.Error.{Error, Result, ok, err, panic, upstream, ◌>>=◌}
use rgbpp_indexer.Types.Bitcoin.{BtcTxid, BtcOutPoint, out_point_eq, txid_eq, from_display_slice}
use rgbpp_indexer.Types.State.{OutpointSpendStatus, is_spent, spender, spent_height, AnomalyKind}
use rgbpp_indexer.Store.Table.{upsert, update}
use rgbpp_indexer.Store.Observations.{
  StatusName, status_name, name_eq, ObservationRow, read_height, read_spender, named_status,
  spend_status, is_none, is_fresh, QueueRow, BtcTxRow, Subject, DedupKey, kind_eq, subject_eq,
  dedup_eq, AnomalyRow, BtcTables, coalesce, observed_row, status_changed, upsert_observation,
  merged_tx, upsert_btc_tx, address_row, upsert_address, record_binding_addresses,
}

abbrev pub on_demand : ℕ
on_demand = 10

abbrev pub pending_follow_up : ℕ
pending_follow_up = 50

abbrev pub sweep : ℕ
sweep = 100

abbrev pub new_queue_row : BtcOutPoint → String → ℕ → ℕ → QueueRow
new_queue_row o reason priority now = record {
  out_point = o;
  reason = reason;
  priority = priority;
  attempts = 0;
  next_attempt_at = now;
  last_error = none;
}

abbrev pub promoted : ℕ → ℕ → QueueRow → QueueRow
promoted priority now row = record row {
  priority = min row.priority priority;
  next_attempt_at = min row.next_attempt_at now;
}

-- The upsert of a queue row: `change` is what a conflict does.
unfoldable pub upsert_queue : QueueRow → (QueueRow → QueueRow) → List QueueRow → List QueueRow
upsert_queue new change [] = new ∷ []
upsert_queue new change (row ∷ rows) =
    let rest = upsert_queue new change rows in
    if out_point_eq new.out_point row.out_point then change row ∷ rows else row ∷ rest

unfoldable pub enqueue_refresh : BtcOutPoint → String → ℕ → ℕ → BtcTables → BtcTables
enqueue_refresh o reason priority now t = record t {
  queue =
      upsert_queue (new_queue_row o reason priority now)
        (λ row. record (promoted priority now row) { reason = reason }) t.queue;
}

unfoldable pub has_point : BtcOutPoint → List BtcOutPoint → Bool
has_point o [] = false
has_point o (p ∷ ps) = out_point_eq o p || has_point o ps

unfoldable pub has_repeated : List BtcOutPoint → Bool
has_repeated [] = false
has_repeated (o ∷ os) = has_point o os || has_repeated os

unfoldable pub upsert_points : String → ℕ → ℕ → List BtcOutPoint → List QueueRow → List QueueRow
upsert_points reason priority now [] rows = rows
upsert_points reason priority now (o ∷ os) rows =
    upsert_points reason priority now os
      (upsert_queue (new_queue_row o reason priority now) (promoted priority now) rows)

-- One statement for all: PostgreSQL refuses one that writes a row twice.
unfoldable pub enqueue_refresh_many :
    List BtcOutPoint → String → ℕ → ℕ → BtcTables → BtcTables × Result (Unit {0})
enqueue_refresh_many os reason priority now t =
    if has_repeated os
    then (t, err upstream)
    else (record t { queue = upsert_points reason priority now os t.queue }, ok tt)

-- The seconds until a row that was claimed is due again, by the attempts it has had before.
abbrev pub backoff : ℕ → ℕ
backoff attempts = min 300 (2 ^ (attempts + 1))

-- `ORDER BY priority, next_attempt_at`.
unfoldable pub due_before : QueueRow → QueueRow → Bool
due_before a b =
    ltb a.priority b.priority
    || ((a.priority == b.priority) && ltb a.next_attempt_at b.next_attempt_at)

unfoldable pub insert_due : QueueRow → List QueueRow → List QueueRow
insert_due r [] = r ∷ []
insert_due r (x ∷ xs) =
    let rest = insert_due r xs in if due_before x r then x ∷ rest else r ∷ x ∷ xs

unfoldable pub due_rows : ℕ → List QueueRow → List QueueRow
due_rows now [] = []
due_rows now (row ∷ rows) =
    let rest = due_rows now rows in
    if leb row.next_attempt_at now then insert_due row rest else rest

-- `FOR UPDATE SKIP LOCKED`.
unfoldable pub skip_locked : List BtcOutPoint → List QueueRow → List QueueRow
skip_locked locked [] = []
skip_locked locked (row ∷ rows) =
    let rest = skip_locked locked rows in
    if has_point row.out_point locked then rest else row ∷ rest

-- The out points of the rows that a claim picks, which it holds locked until its end.
unfoldable pub picked : List BtcOutPoint → ℕ → ℕ → List QueueRow → List BtcOutPoint
picked locked limit now rows =
    map (λ (r : QueueRow). r.out_point) (take limit (skip_locked locked (due_rows now rows)))

abbrev pub claimed : ℕ → QueueRow → QueueRow
claimed now row = record row {
  attempts = row.attempts + 1;
  next_attempt_at = now + backoff row.attempts;
}

-- The rows that are written, in the order that the statement returns them.
unfoldable pub update_picked : ℕ → List BtcOutPoint → List QueueRow → List QueueRow
update_picked now ps [] = []
update_picked now ps (row ∷ rows) =
    (if has_point row.out_point ps then claimed now row else row) ∷ update_picked now ps rows

unfoldable pub returned : ℕ → List BtcOutPoint → List QueueRow → List QueueRow
returned now ps [] = []
returned now ps (row ∷ rows) =
    let rest = returned now ps rows in
    if has_point row.out_point ps then claimed now row ∷ rest else rest

unfoldable pub claim_refresh_batch :
    List BtcOutPoint → ℕ → ℕ → BtcTables → BtcTables × List QueueRow
claim_refresh_batch locked limit now t =
    let ps = picked locked limit now t.queue in
    (record t { queue = update_picked now ps t.queue }, returned now ps t.queue)

-- `DELETE ... WHERE` the test holds.
unfoldable pub delete_where : (QueueRow → Bool) → List QueueRow → List QueueRow
delete_where test [] = []
delete_where test (row ∷ rows) =
    let rest = delete_where test rows in if test row then rest else row ∷ rest

unfoldable pub complete_refresh : BtcOutPoint → BtcTables → BtcTables
complete_refresh o t = record t {
  queue = delete_where (λ row. out_point_eq o row.out_point) t.queue;
}

unfoldable pub fail_refresh : BtcOutPoint → String → BtcTables → BtcTables
fail_refresh o error t = record t {
  queue =
      map
        (λ row.
          if out_point_eq o row.out_point then record row { last_error = some error } else row)
        t.queue;
}

unfoldable pub drop_exhausted_refreshes : ℕ → BtcTables → BtcTables
drop_exhausted_refreshes max_attempts t = record t {
  queue = delete_where (λ row. leb max_attempts row.attempts) t.queue;
}
