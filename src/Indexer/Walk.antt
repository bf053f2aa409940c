-- ===== src/Indexer/Walk.antt =====
-- crates/indexer/src/sweeper.rs: the walk over the live bindings in pages behind a cursor (`sweep_inner`), with the
-- query of crates/store/src/cells.rs that reads a page. `live n` are the out points of the cells that are not consumed and
-- have an output index, each once and in the order of the query, at the time when a page is read with fuel for n more:
-- cells come and go during a walk. Their ids have 32 bytes, so that the reading of a page's rows as out points does not
-- fail.
pub mod Order
pub mod Pages
pub mod Covers
use rgbpp_indexer.Common.{
  ◌%◌, ◌^◌, ◌||◌, ◌&&◌, ltb, ℕ, suc, zero, ◌+◌, Bool, true, false, Option, none, some, List, [],
  ◌∷◌, length, take, if◌then◌else◌,
}
use rgbpp_indexer.Types.Error.{Error, Result, ok, err, panic}
use rgbpp_indexer.Types.Bitcoin.{BtcTxid, BtcOutPoint, from_display_slice, txid_eq}
use rgbpp_indexer.Btc.{BtcTxInfo, BtcDataSource}
use rgbpp_indexer.Store.Models.{Database}
use rgbpp_indexer.Store.Observations.{BtcTables, ObservationRow}
use rgbpp_indexer.Indexer.Reconcile.{
  OutpointRefresh, Run, then_run, refresh_outpoints, refresh_btc_tx,
}
use rgbpp_indexer.Indexer.Sweeper.{detect_misspends}
use rgbpp_indexer.Indexer.Scanner.Merge.{bytes_lt}

pub record SweepReport : Type 0 where
  pub outpoints_checked : ℕ
  pub status_changed : ℕ
  pub anomalies_found : ℕ

abbrev pub empty_report : SweepReport
empty_report = record { outpoints_checked = 0; status_changed = 0; anomalies_found = 0 }

-- The order of a signed INT column, which holds the bit pattern of the index.
abbrev pub lt_i32 : ℕ → ℕ → Bool
lt_i32 a b = ltb ((a + 2 ^ 31) % 2 ^ 32) ((b + 2 ^ 31) % 2 ^ 32)

-- The order of `(btc_txid, btc_vout)`.
unfoldable pub row_lt : BtcOutPoint → BtcOutPoint → Bool
row_lt a b = bytes_lt a.txid.bytes b.txid.bytes || (txid_eq a.txid b.txid && lt_i32 a.vout b.vout)

-- `(btc_txid, btc_vout) > cursor`, when there is one.
abbrev pub is_behind : Option BtcOutPoint → BtcOutPoint → Bool
is_behind none o = true
is_behind (some cursor) o = row_lt cursor o

unfoldable pub behind : Option BtcOutPoint → List BtcOutPoint → List BtcOutPoint
behind cursor [] = []
behind cursor (o ∷ os) =
    let rest = behind cursor os in if is_behind cursor o then o ∷ rest else rest

unfoldable pub live_bound_outpoints_after :
    List BtcOutPoint → Option BtcOutPoint → ℕ → List BtcOutPoint
live_bound_outpoints_after live cursor limit = take limit (behind cursor live)

-- `page.last()` of a page that is not empty.
unfoldable pub last_point : BtcOutPoint → List BtcOutPoint → BtcOutPoint
last_point o [] = o
last_point o (p ∷ ps) = last_point p ps

unfoldable pub changed_count : List OutpointRefresh → ℕ
changed_count [] = 0
changed_count (r ∷ rs) = if r.changed then suc (changed_count rs) else changed_count rs

abbrev pub counted_page : List OutpointRefresh → SweepReport → SweepReport
counted_page refreshed report = record report {
  outpoints_checked = report.outpoints_checked + length refreshed;
  status_changed = report.status_changed + changed_count refreshed;
}

-- `?` on a call, where what follows has fuel.
abbrev pub then_fuel : {A B : Type 0} → Run A → (A → BtcTables → Option (Run B)) → Option (Run B)
then_fuel (t, ok a) f = f a t
then_fuel (t, err e) f = some (t, err e)
then_fuel (t, panic) f = some (t, panic)

module _ (source : BtcDataSource) (bound : BtcOutPoint → Bool) (now cap batch_size : ℕ)
    (live : ℕ → List BtcOutPoint) where
  -- The loop over the pages; `none` says that the fuel has run out.
  unfoldable pub sweep_pages :
      ℕ → Option BtcOutPoint → SweepReport → BtcTables → Option (Run SweepReport)
  sweep_pages zero cursor report t = none
  sweep_pages (suc fuel) cursor report t =
      elim (live_bound_outpoints_after (live fuel) cursor batch_size) [
        | [] ↦ some (t, ok report)
        | o ∷ os ↦ then_fuel (refresh_outpoints source bound now cap (o ∷ os) t) λ refreshed next.
            sweep_pages fuel (some (last_point o os)) (counted_page refreshed report) next
      ]

  -- The detection follows the walk.
  unfoldable pub sweep_inner :
      (BtcTxid → Bool)
      → ℕ
      → ℕ
      → Database
      → (BtcTables → List (BtcOutPoint × ObservationRow))
      → ℕ
      → BtcTables
      → Option (Run SweepReport)
  sweep_inner has_transition allowed grace db pending fuel t =
      elim (sweep_pages fuel none empty_report t) [
        | none ↦ none
        | some run ↦ some (
            then_run run λ report next.
              then_run
                (detect_misspends source bound now has_transition allowed grace db (pending next)
                  next)
                λ found last. (last, ok (record report { anomalies_found = found })))
      ]
