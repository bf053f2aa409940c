-- ===== src/Indexer/Diff.antt =====
-- crates/indexer/src/reconcile.rs: the diff of an address, and where a transition has got to. `live` are the out points of
-- the cells that are not consumed, in order and each once; `cells_at` is `get_cells` of the rich indexer for a lock.
pub mod Columns
pub mod Spent
pub mod Answered
use rgbpp_indexer.Common.{
  ℕ, suc, zero, ◌+◌, min, ltb, ◌==◌, Bool, true, false, not, ◌&&◌, ◌||◌, Option, none, some, List,
  [], ◌∷◌, ◌++◌, length, if◌then◌else◌, bytes_eq,
}
use Prim.Native.String.{String}
use rgbpp_indexer.Types.Json.{text_eq}
use rgbpp_indexer.Types.Error.{Error, Result, ok, err, panic, ◌>>=◌}
use rgbpp_indexer.Types.Ckb.{Script, CkbOutPoint}
use rgbpp_indexer.Types.Protocol.{LockKind, ProtocolScripts, rgbpp_encode}
use rgbpp_indexer.Types.Bitcoin.{BtcTxid, BtcOutPoint, txid_eq, out_point_eq}
use rgbpp_indexer.Types.State.{is_spent}
use rgbpp_indexer.Btc.{BtcBlockRef, BtcTxInfo, BtcDataSource}
use rgbpp_indexer.Store.Models.{TransitionRow, StreamState}
use rgbpp_indexer.Store.Observations.{
  BtcTables, ObservationRow, is_none, spend_status, upsert_address,
}
use rgbpp_indexer.Store.Queue.{has_point}
use rgbpp_indexer.Indexer.Resolve.{lock_of}
use rgbpp_indexer.Indexer.Scanner.Merge.{bytes_lt}
use rgbpp_indexer.Indexer.Reconcile.{
  OutpointRefresh, Run, then_run, refresh_outpoints, refresh_btc_tx,
}

pub record AddressReconcile : Type 0 where
  pub address : String
  pub source_utxo_count : ℕ
  pub disappeared : List BtcOutPoint
  pub contradicted : List BtcOutPoint
  pub refreshed : List OutpointRefresh

-- The set of the out points.
unfoldable pub point_set : List BtcOutPoint → List BtcOutPoint
point_set [] = []
point_set (o ∷ os) = let rest = point_set os in if has_point o rest then rest else o ∷ rest

-- The upserts of `record_outpoint_addresses`, for out points that stand once.
unfoldable pub record_outpoint_addresses :
    (BtcOutPoint → Bool) → ℕ → String → List BtcOutPoint → BtcTables → BtcTables
record_outpoint_addresses bound now address [] t = t
record_outpoint_addresses bound now address (o ∷ os) t =
    record_outpoint_addresses bound now address os
      (if bound o then upsert_address "address-lookup" now o address t else t)

abbrev pub has_address : String → Option ObservationRow → Bool
has_address address none = false
has_address address (some row) = elim row.address [ none ↦ false | some a ↦ text_eq a address ]

unfoldable pub live_bound_outpoints_for_address :
    String → List BtcOutPoint → BtcTables → List BtcOutPoint
live_bound_outpoints_for_address address [] t = []
live_bound_outpoints_for_address address (o ∷ live) t =
    let rest = live_bound_outpoints_for_address address live t in
    if has_address address (t.observations o) then o ∷ rest else rest

unfoldable pub disappeared_from : List BtcOutPoint → List BtcOutPoint → List BtcOutPoint
disappeared_from live_now [] = []
disappeared_from live_now (o ∷ os) =
    let rest = disappeared_from live_now os in if has_point o live_now then rest else o ∷ rest

abbrev pub is_contradicted : Option ObservationRow → Result Bool
is_contradicted none = ok false
is_contradicted (some row) = spend_status row >>= λ s. ok (is_spent s && is_none row.invalidated_at)

-- The out points that are listed as unspent, and whose valid row says that they are spent.
unfoldable pub contradicted_in : List BtcOutPoint → BtcTables → Result (List BtcOutPoint)
contradicted_in [] t = ok []
contradicted_in (o ∷ os) t = do
  spent ← is_contradicted (t.observations o)
  rest ← contradicted_in os t
  ok (if spent then o ∷ rest else rest)

unfoldable pub point_lt : BtcOutPoint → BtcOutPoint → Bool
point_lt a b = bytes_lt a.txid.bytes b.txid.bytes || (txid_eq a.txid b.txid && ltb a.vout b.vout)

-- `sort` and `dedup`.
unfoldable pub insert_point : BtcOutPoint → List BtcOutPoint → List BtcOutPoint
insert_point o [] = o ∷ []
insert_point o (p ∷ ps) =
    let rest = insert_point o ps in
    if out_point_eq o p then p ∷ ps else if point_lt o p then o ∷ p ∷ ps else p ∷ rest

unfoldable pub sorted_points : List BtcOutPoint → List BtcOutPoint
sorted_points [] = []
sorted_points (o ∷ os) = insert_point o (sorted_points os)

pub data TransitionResolution : Type 0 where
  unknown_btc_tx : TransitionResolution
  awaiting_ckb : Bool → Option ℕ → TransitionResolution
  ckb_seen_above_lag : List CkbOutPoint → ℕ → TransitionResolution
  indexed : List ℕ → ℕ → TransitionResolution

abbrev pub default_point_lookup_vouts : ℕ
default_point_lookup_vouts = 4

abbrev pub max_point_lookup_vouts : ℕ
max_point_lookup_vouts = 32

module _ (protocol : ProtocolScripts) (cells_at : Script → Result (List CkbOutPoint)) where
  -- The outputs from `vout` on, `count` of them.
  unfoldable pub lookup_from : BtcTxid → ℕ → ℕ → Result (List CkbOutPoint)
  lookup_from txid vout zero = ok []
  lookup_from txid vout (suc count) = do
    records ←
        cells_at (
          lock_of protocol LockKind.rgbpp (rgbpp_encode (record { out_index = vout; txid = txid })))
    rest ← lookup_from txid (vout + 1) count
    ok (records ++ rest)

  unfoldable pub point_lookup_cells : BtcTxid → ℕ → Result (List CkbOutPoint)
  point_lookup_cells txid vout_count =
      lookup_from txid 0 (if vout_count == 0 then default_point_lookup_vouts else vout_count)

module _ (source : BtcDataSource) (bound : BtcOutPoint → Bool) (now cap : ℕ) where
  -- The refresh of what differs.
  abbrev pub refresh_diff :
      String
      → List BtcOutPoint
      → List BtcOutPoint
      → Result (List BtcOutPoint)
      → BtcTables
      → Run AddressReconcile
  refresh_diff address live_now disappeared (err e) t = (t, err e)
  refresh_diff address live_now disappeared panic t = (t, panic)
  refresh_diff address live_now disappeared (ok contradicted) t =
      then_run
        (refresh_outpoints source bound now cap (sorted_points (disappeared ++ contradicted)) t)
        λ refreshed next. (
          next,
          ok (record {
            address = address;
            source_utxo_count = length live_now;
            disappeared = disappeared;
            contradicted = contradicted;
            refreshed = refreshed;
          }),
        )

  abbrev pub diff_with :
      List BtcOutPoint → String → Result (List BtcOutPoint) → BtcTables → Run AddressReconcile
  diff_with live address (err e) t = (t, err e)
  diff_with live address panic t = (t, panic)
  diff_with live address (ok utxos) t =
      let live_now = point_set utxos in
      let labelled = record_outpoint_addresses bound now address live_now t in
      refresh_diff address live_now
        (disappeared_from live_now (live_bound_outpoints_for_address address live labelled))
        (contradicted_in live_now labelled) labelled

  unfoldable pub reconcile_address : List BtcOutPoint → String → BtcTables → Run AddressReconcile
  reconcile_address live address t = diff_with live address (source.address_utxos address) t

  abbrev pub indexed_to : Option StreamState → ℕ
  indexed_to none = 0
  indexed_to (some state) = state.last_block_number

  abbrev pub place_of :
      Option StreamState
      → BtcTxInfo
      → Result (List CkbOutPoint)
      → BtcTables
      → Run TransitionResolution
  place_of state tx (err e) t = (t, err e)
  place_of state tx panic t = (t, panic)
  place_of state tx (ok []) t = elim tx.confirmation [
    | none ↦ (t, ok (awaiting_ckb false none))
    | some c ↦ (t, ok (awaiting_ckb true (some c.height)))
  ]
  place_of state tx (ok (cell ∷ cells)) t =
      (t, ok (ckb_seen_above_lag (cell ∷ cells) (indexed_to state)))

  abbrev pub resolve_fetched :
      (BtcTxid → ℕ → Result (List CkbOutPoint))
      → Option StreamState
      → BtcTxid
      → Option BtcTxInfo
      → BtcTables
      → Run TransitionResolution
  resolve_fetched lookup state txid none t = (t, ok unknown_btc_tx)
  resolve_fetched lookup state txid (some tx) t =
      then_run (refresh_outpoints source bound now cap tx.inputs t) λ _ next.
        place_of state tx (lookup txid (min (length tx.outputs) max_point_lookup_vouts)) next

  -- `transitions` are those of the table with this Bitcoin transaction, `state` is the row of the stream.
  unfoldable pub resolve_transition :
      (BtcTxid → ℕ → Result (List CkbOutPoint))
      → Option StreamState
      → List TransitionRow
      → BtcTxid
      → BtcTables
      → Run TransitionResolution
  resolve_transition lookup state (row ∷ rows) txid t =
      (t, ok (indexed row.transition.ckb_tx_hash row.transition.block_number))
  resolve_transition lookup state [] txid t =
      then_run (refresh_btc_tx source bound now txid t)
        λ tx next. resolve_fetched lookup state txid tx next
