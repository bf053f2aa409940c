-- ===== src/Indexer/Walk/Covers.antt =====
-- What a sweep asks for: all that is live during the walk.
use rgbpp_indexer.Common.{
  ℕ, suc, zero, ◌<◌, ◌≡◌, refl, sym, subst, ◌⊎◌, inl, inr, Bool, true, Option, none, some, List, [],
  ◌∷◌, ◌++◌, length, take, Occurs, Occurs-append, arith,
}
use rgbpp_indexer.Types.Error.{ok, err, panic}
use rgbpp_indexer.Types.Bitcoin.{BtcTxid, BtcOutPoint}
use rgbpp_indexer.Btc.{BtcDataSource}
use rgbpp_indexer.Store.Models.{Database}
use rgbpp_indexer.Store.Observations.{BtcTables, ObservationRow}
use rgbpp_indexer.Store.Queue.Claims.{Occurs-take}
use rgbpp_indexer.Indexer.Reconcile.{Run, then_run, refresh_outpoints}
use rgbpp_indexer.Indexer.Sweeper.{detect_misspends}
use rgbpp_indexer.Indexer.Walk.{
  SweepReport, empty_report, is_behind, behind, live_bound_outpoints_after, last_point,
  counted_page, then_fuel, sweep_pages, sweep_inner,
}
use rgbpp_indexer.Indexer.Walk.Order.{behind-lt, behind-is_behind, last_point-Occurs, behind-none}
use rgbpp_indexer.Indexer.Walk.Pages.{
  IsAscending, behind-Occurs, Occurs-behind, behind-IsAscending, take-split, page-cases,
  take-ne-empty,
}

abbrev pub points_of : List (List BtcOutPoint) → List BtcOutPoint
points_of [] = []
points_of (page ∷ pages) = page ++ points_of pages

module _ (source : BtcDataSource) (bound : BtcOutPoint → Bool) (now cap : ℕ) where
  -- The refreshes of given pages, one after the other, with the counts.
  unfoldable pub refresh_pages : List (List BtcOutPoint) → SweepReport → BtcTables → Run SweepReport
  refresh_pages [] report t = (t, ok report)
  refresh_pages (page ∷ pages) report t =
      then_run (refresh_outpoints source bound now cap page t)
        λ refreshed next. refresh_pages pages (counted_page refreshed report) next

  -- A sweep over given pages: their refreshes, and then, unless one has failed, the detection of misspends, whose
  -- count is reported.
  abbrev pub sweep_over :
      (BtcTxid → Bool)
      → ℕ
      → ℕ
      → Database
      → (BtcTables → List (BtcOutPoint × ObservationRow))
      → List (List BtcOutPoint)
      → BtcTables
      → Run SweepReport
  sweep_over has_transition allowed grace db pending pages t =
      then_run (refresh_pages pages empty_report t) λ report next.
        then_run
          (detect_misspends source bound now has_transition allowed grace db (pending next) next)
          λ found last. (last, ok (record report { anomalies_found = found }))

module _ (batch_size : ℕ) (live : ℕ → List BtcOutPoint) where
  -- The pages of a walk.
  unfoldable walk_pages : ℕ → Option BtcOutPoint → List (List BtcOutPoint)
  walk_pages zero cursor = []
  walk_pages (suc fuel) cursor = elim (live_bound_outpoints_after (live fuel) cursor batch_size) [
    | [] ↦ []
    | o ∷ os ↦ (o ∷ os) ∷ walk_pages fuel (some (last_point o os))
  ]

  -- The pages have every out point that is live at every reading of a page, and none that is never live.
  pub record Covers (pages : List (List BtcOutPoint)) : Type 0 where
    pub has_lasting : (x : BtcOutPoint) → ((n : ℕ) → Occurs x (live n)) → Occurs x (points_of pages)
    pub was_live : (x : BtcOutPoint) → Occurs x (points_of pages) → (n : ℕ) × Occurs x (live n)

  walk_pages-was_live :
      (fuel : ℕ) (cursor : Option BtcOutPoint) (x : BtcOutPoint)
      → Occurs x (points_of (walk_pages fuel cursor))
      → (n : ℕ) × Occurs x (live n)
  unfolding walk_pages live_bound_outpoints_after
  walk_pages-was_live zero cursor x h = absurd h
  walk_pages-was_live (suc fuel) cursor x h =
      elim (page-cases (take batch_size (behind cursor (live fuel)))) [
        | inl e ↦ absurd (rw (e, walk_pages) at h)
        | inr (o, os, e) ↦
            elim ((Occurs-append x (o ∷ os)
                (points_of (walk_pages fuel (some (last_point o os))))).0
              (rw (e, walk_pages) at h)) [
                | inl a ↦ (
                  fuel,
                  Occurs-behind cursor x (live fuel)
                      (Occurs-take batch_size x _ (subst (Occurs x) (sym e) a)),
                )
                | inr b ↦ walk_pages-was_live fuel (some (last_point o os)) x b
              ]
      ]

  module _ (all : List BtcOutPoint)
      (within : (n : ℕ) (x : BtcOutPoint) → Occurs x (live n) → Occurs x all) where
    nearer :
        (fuel : ℕ) (cursor : Option BtcOutPoint) (o : BtcOutPoint) (os : List BtcOutPoint)
        → take batch_size (behind cursor (live fuel)) ≡ o ∷ os
        → length (behind (some (last_point o os)) all) < length (behind cursor all)
    nearer fuel cursor o os e =
        let last = last_point o os in
        let occurs : Occurs last (behind cursor (live fuel)) =
          Occurs-take batch_size last _ (subst (Occurs last) (sym e) (last_point-Occurs o os)) in
        let after = behind-is_behind cursor last (live fuel) occurs in
        behind-lt cursor last all
          (behind-Occurs cursor last all
            (within fuel last (Occurs-behind cursor last (live fuel) occurs)) after)
          after

    walk_pages-has_lasting :
        (positive : 0 < batch_size) (sorted : (n : ℕ) → IsAscending (live n)) (fuel : ℕ)
        (cursor : Option BtcOutPoint) (x : BtcOutPoint)
        → length (behind cursor all) < fuel
        → ((n : ℕ) → Occurs x (live n))
        → is_behind cursor x ≡ true
        → Occurs x (points_of (walk_pages fuel cursor))
    unfolding walk_pages live_bound_outpoints_after
    walk_pages-has_lasting positive sorted zero cursor x m h b = absurd (omega (arith, m))
    walk_pages-has_lasting positive sorted (suc fuel) cursor x m h b =
        let here = behind-Occurs cursor x (live fuel) (h fuel) b in
        elim (page-cases (take batch_size (behind cursor (live fuel)))) [
          | inl e ↦ absurd (take-ne-empty batch_size x _ positive here e)
          | inr (o, os, e) ↦
              let rest = walk_pages fuel (some (last_point o os)) in
              let both : Occurs x (o ∷ os) ⊎ Occurs x (points_of rest) =
                elim (take-split batch_size x _
                  (behind-IsAscending cursor (live fuel) (sorted fuel)) here) [
                    | inl k ↦ inl (subst (Occurs x) e k)
                    | inr f ↦
                        let after =
                          f (last_point o os)
                            (subst (Occurs (last_point o os)) (sym e) (last_point-Occurs o os)) in
                        let less = nearer fuel cursor o os e in
                        inr (
                          walk_pages-has_lasting positive sorted fuel (some (last_point o os)) x
                            (omega (arith, less, m)) h after)
                  ] in
              rw (e, walk_pages) ((Occurs-append x (o ∷ os) (points_of rest)).1 both)
        ]

    module _ (source : BtcDataSource) (bound : BtcOutPoint → Bool) (now cap : ℕ) where
      then_fuel-some :
          {A B : Type 0} (run : Run A) (f : A → BtcTables → Option (Run B))
          (g : A → BtcTables → Run B)
          → ((a : A) (t : BtcTables) → f a t ≡ some (g a t))
          → then_fuel run f ≡ some (then_run run g)
      then_fuel-some (t, ok a) f g h = h a t
      then_fuel-some (t, err e) f g h = refl
      then_fuel-some (t, panic) f g h = refl

      sweep_pages-walk :
          (fuel : ℕ) (cursor : Option BtcOutPoint) (report : SweepReport) (t : BtcTables)
          → length (behind cursor all) < fuel
          → sweep_pages source bound now cap batch_size live fuel cursor report t
            ≡ some (refresh_pages source bound now cap (walk_pages fuel cursor) report t)
      unfolding sweep_pages live_bound_outpoints_after walk_pages refresh_pages
      sweep_pages-walk zero cursor report t m = absurd (omega (arith, m))
      sweep_pages-walk (suc fuel) cursor report t m =
          elim (page-cases (take batch_size (behind cursor (live fuel)))) [
            | inl e ↦ rw (e, sweep_pages, walk_pages, refresh_pages) refl
            | inr (o, os, e) ↦
                let less = nearer fuel cursor o os e in
                rw (e, sweep_pages, walk_pages, refresh_pages)
                  (then_fuel-some (refresh_outpoints source bound now cap (o ∷ os) t) _ _
                    λ refreshed next.
                      sweep_pages-walk fuel (some (last_point o os)) (counted_page refreshed report)
                        next (omega (arith, less, m)))
          ]

      -- While cells come and go, as long as all that is ever live is in a finite list, with more fuel than it has out
      -- points, a positive page size, and each query's answer in order: a sweep ends. It is the sweep over some pages
      -- that have every out point which is live throughout and none which never is: their refreshes one after the
      -- other, and then, unless one has failed, the detection of misspends.
      pub sweep_inner-Covers :
          (has_transition : BtcTxid → Bool) (allowed grace : ℕ) (db : Database)
          (pending : BtcTables → List (BtcOutPoint × ObservationRow)) (fuel : ℕ) (t : BtcTables)
          → 0 < batch_size
          → ((n : ℕ) → IsAscending (live n))
          → length all < fuel
          → (pages : List (List BtcOutPoint)) × Covers pages
            × (sweep_inner source bound now cap batch_size live has_transition allowed grace db
                  pending fuel t
                ≡ some (
                    sweep_over source bound now cap has_transition allowed grace db pending pages
                      t))
      unfolding sweep_inner
      sweep_inner-Covers has_transition allowed grace db pending fuel t positive sorted m =
          let enough : length (behind none all) < fuel = rw (behind-none all) m in
          (
            walk_pages fuel none,
            record {
              has_lasting = λ x h. walk_pages-has_lasting positive sorted fuel none x enough h refl;
              was_live = walk_pages-was_live fuel none;
            },
            rw (sweep_pages-walk fuel none empty_report t enough, sweep_inner) refl,
          )
