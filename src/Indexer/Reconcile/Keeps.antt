-- ===== src/Indexer/Reconcile/Keeps.antt =====
-- What a call that follows a spend leaves as it is, and the calls one after the other.
use rgbpp_indexer.Common.{ℕ, ◌≡◌, refl, Bool, Option, none, some}
use rgbpp_indexer.Types.Error.{Result, ok, err, panic}
use rgbpp_indexer.Types.Bitcoin.{BtcTxid, BtcOutPoint}
use rgbpp_indexer.Btc.{BtcTxInfo, BtcDataSource}
use rgbpp_indexer.Store.Observations.{BtcTables}
use rgbpp_indexer.Indexer.Reconcile.{
  Run, then_run, record_addresses, cache_btc_tx, refresh_btc_tx, follow_up_spend, btc_tx_row,
  addressed,
}
use rgbpp_indexer.Indexer.Reconcile.Observed.{
  Keeps, Keeps-refl, Keeps-trans, upsert_btc_tx-Keeps, record_binding_addresses-Keeps,
}

pub then_run-Keeps :
    {A B : Type 0} (o : BtcOutPoint) (t : BtcTables) (m : Run A) (f : A → BtcTables → Run B)
    → Keeps o t m.0
    → ((a : A) (u : BtcTables) → Keeps o u (f a u).0)
    → Keeps o t (then_run m f).0
then_run-Keeps o t (u, ok a) f h k = Keeps-trans h (k a u)
then_run-Keeps o t (u, err e) f h k = h
then_run-Keeps o t (u, panic) f h k = h

-- What a state keeps through both calls.
pub then_run-Rests :
    {A B : Type 0} (P : BtcTables → Type 0) (m : Run A) (f : A → BtcTables → Run B)
    → P m.0
    → ((a : A) (u : BtcTables) → P u → P (f a u).0)
    → P (then_run m f).0
then_run-Rests P (u, ok a) f h k = k a u h
then_run-Rests P (u, err e) f h k = h
then_run-Rests P (u, panic) f h k = h

-- A call that ended with a value went on behind its first step.
pub then_run-inv :
    {A B : Type 0} (m : Run A) (f : A → BtcTables → Run B) (b : B)
    → (then_run m f).1 ≡ ok b
    → (a : A) × (m.1 ≡ ok a) × (then_run m f ≡ f a m.0)
then_run-inv (u, ok a) f b e = (a, refl, refl)
then_run-inv (u, err x) f b e = absurd (let k = e in cc)
then_run-inv (u, panic) f b e = absurd (let k = e in cc)

module _ (source : BtcDataSource) (bound : BtcOutPoint → Bool) (now : ℕ) where
  cache_btc_tx-Keeps :
      (o : BtcOutPoint) (txid : BtcTxid) (r : Result (Option BtcTxInfo)) (t : BtcTables)
      → Keeps o t (cache_btc_tx source bound now txid r t).0
  unfolding record_addresses
  cache_btc_tx-Keeps o txid (err e) t = Keeps-refl o t
  cache_btc_tx-Keeps o txid panic t = Keeps-refl o t
  cache_btc_tx-Keeps o txid (ok none) t = Keeps-refl o t
  cache_btc_tx-Keeps o txid (ok (some tx)) t =
      Keeps-trans
        (record_binding_addresses-Keeps o bound "funding-tx" now (addressed txid 0 tx.outputs) t)
        (upsert_btc_tx-Keeps o txid (btc_tx_row source.name tx) _)

  pub follow_up_spend-Keeps :
      (o : BtcOutPoint) (spender : Option BtcTxid) (t : BtcTables)
      → Keeps o t (follow_up_spend source bound now spender t).0
  unfolding refresh_btc_tx
  follow_up_spend-Keeps o none t = Keeps-refl o t
  follow_up_spend-Keeps o (some txid) t = cache_btc_tx-Keeps o txid (source.transaction txid) t
