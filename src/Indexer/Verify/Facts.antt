-- ===== src/Indexer/Verify/Facts.antt =====
-- A pass of the verifier judges every row that has a Bitcoin transaction, and changes no indexed fact.
use rgbpp_indexer.Common.{
  ℕ, ◌≡◌, refl, sym, ap, ◌∙◌, subst, inl, inr, Bool, some, List, [], ◌∷◌, map, Occurs, All,
  Distinct,
}
use rgbpp_indexer.Types.Error.{Result, ok, err, panic}
use rgbpp_indexer.Types.Bitcoin.{BtcOutPoint}
use rgbpp_indexer.Btc.{BtcDataSource}
use rgbpp_indexer.Store.Models.{TransitionRow, Database}
use rgbpp_indexer.Indexer.Verify.{Pass, judged_row, verify_row, then_pass, verify_once}
use rgbpp_indexer.Indexer.Verify.Verdicts.{Step, judged, unbound, failed, panicked, verify_row-Step}
use rgbpp_indexer.Indexer.Verify.Rows.{
  hash_of, SameFacts, IsVerified, set-SameFacts, set-other, set-same,
}

module _ (source : BtcDataSource) (bound : BtcOutPoint → Bool) (now : ℕ) where
  Step-SameFacts :
      {row : TransitionRow} (old new : Database) (r : Result (Unit {0}))
      → Step source bound now row old new r
      → SameFacts old new
  Step-SameFacts {row} old _ _ (judged observed status j) =
      set-SameFacts row.transition.ckb_tx_hash observed status old
  Step-SameFacts old _ _ (unbound e) = record {
    blocks_eq = refl;
    cells_eq = refl;
    state_eq = refl;
    transitions_eq = λ k. refl;
  }
  Step-SameFacts old _ _ (failed e) = record {
    blocks_eq = refl;
    cells_eq = refl;
    state_eq = refl;
    transitions_eq = λ k. refl;
  }
  Step-SameFacts old _ _ panicked = record {
    blocks_eq = refl;
    cells_eq = refl;
    state_eq = refl;
    transitions_eq = λ k. refl;
  }

  Step-other :
      {row : TransitionRow} (key : List ℕ) (old new : Database) (r : Result (Unit {0}))
      → Step source bound now row old new r
      → (key ≡ row.transition.ckb_tx_hash → ⊥)
      → new.transitions key ≡ old.transitions key
  Step-other {row} key old _ _ (judged observed status j) ne =
      set-other row.transition.ckb_tx_hash key observed status old ne
  Step-other key old _ _ (unbound e) ne = refl
  Step-other key old _ _ (failed e) ne = refl
  Step-other key old _ _ panicked ne = refl

  SameFacts-trans : {a b c : Database} → SameFacts a b → SameFacts b c → SameFacts a c
  SameFacts-trans h k = record {
    blocks_eq = k.blocks_eq ∙ h.blocks_eq;
    cells_eq = k.cells_eq ∙ h.cells_eq;
    state_eq = k.state_eq ∙ h.state_eq;
    transitions_eq = λ key. k.transitions_eq key ∙ h.transitions_eq key;
  }

  then_pass-SameFacts :
      (old : Database) (m : Pass × Result (Unit {0})) (f : Pass → Pass × Result (Unit {0}))
      → SameFacts old m.0.db
      → ((p : Pass) → SameFacts p.db (f p).0.db)
      → SameFacts old (then_pass source bound now m f).0.db
  then_pass-SameFacts old (p, ok a) f h k = SameFacts-trans h (k p)
  then_pass-SameFacts old (p, err e) f h k = h
  then_pass-SameFacts old (p, panic) f h k = h

  verify_once-SameFacts :
      (rows : List TransitionRow) (p : Pass)
      → SameFacts p.db (verify_once source bound now rows p).0.db
  unfolding verify_once
  verify_once-SameFacts [] p = record {
    blocks_eq = refl;
    cells_eq = refl;
    state_eq = refl;
    transitions_eq = λ k. refl;
  }
  verify_once-SameFacts (row ∷ rows) p =
      then_pass-SameFacts p.db (verify_row source bound now row p) _
        (Step-SameFacts p.db _ _ (verify_row-Step source bound now row p))
        λ next. verify_once-SameFacts rows next

  then_pass-inv :
      (m : Pass × Result (Unit {0})) (f : Pass → Pass × Result (Unit {0}))
      → (then_pass source bound now m f).1 ≡ ok tt
      → (m.1 ≡ ok tt) × (then_pass source bound now m f ≡ f m.0)
  then_pass-inv (p, ok tt) f e = (refl, refl)
  then_pass-inv (p, err x) f e = absurd (let k = e in cc)
  then_pass-inv (p, panic) f e = absurd (let k = e in cc)

  verify_once-other :
      (key : List ℕ) (rows : List TransitionRow) (p : Pass)
      → (verify_once source bound now rows p).1 ≡ ok tt
      → (Occurs key (map hash_of rows) → ⊥)
      → (verify_once source bound now rows p).0.db.transitions key ≡ p.db.transitions key
  unfolding verify_once
  verify_once-other key [] p e ne = refl
  verify_once-other key (row ∷ rows) p e ne =
      let step = verify_row source bound now row p in
      let (first, all) = then_pass-inv step _ e in
      ap (λ (m : Pass × Result (Unit {0})). m.0.db.transitions key) all
      ∙ verify_once-other key rows step.0 (sym (ap (λ (m : Pass × Result (Unit {0})). m.1) all) ∙ e)
          (λ o. ne (inr o))
      ∙ Step-other key p.db step.0.db step.1 (verify_row-Step source bound now row p)
          (λ o. ne (inl o))

  -- What `unchecked_transitions` selects: rows of the table that have a Bitcoin transaction.
  pub record IsSelected (db : Database) (row : TransitionRow) : Type 0 where
    pub btc_txid : List ℕ
    pub bound_eq : row.transition.btc_txid ≡ some btc_txid
    pub stored : TransitionRow
    pub stored_eq : db.transitions row.transition.ckb_tx_hash ≡ some stored

  Step-IsVerified :
      {row : TransitionRow} (old new : Database) (r : Result (Unit {0}))
      → Step source bound now row old new r
      → r ≡ ok tt
      → IsSelected old row
      → IsVerified source row new
  Step-IsVerified {row} old _ _ (judged observed status j) e sel = record {
    observed = observed;
    status = status;
    written = judged_row observed status sel.stored;
    written_eq = set-same row.transition.ckb_tx_hash observed status old sel.stored sel.stored_eq;
    observed_eq = refl;
    status_eq = refl;
    is_judged = j;
  }
  Step-IsVerified old _ _ (unbound free) e sel = absurd (let k = sym free ∙ sel.bound_eq in cc)
  Step-IsVerified old _ _ (failed x) e sel = absurd (let k = e in cc)
  Step-IsVerified old _ _ panicked e sel = absurd (let k = e in cc)

  moved :
      {row : TransitionRow} {a b : Database}
      → b.transitions row.transition.ckb_tx_hash ≡ a.transitions row.transition.ckb_tx_hash
      → IsVerified source row a
      → IsVerified source row b
  moved e v = record {
    observed = v.observed;
    status = v.status;
    written = v.written;
    written_eq = e ∙ v.written_eq;
    observed_eq = v.observed_eq;
    status_eq = v.status_eq;
    is_judged = v.is_judged;
  }

  still-IsSelected :
      (row : TransitionRow) (p : Pass) (rows : List TransitionRow)
      → (Occurs (hash_of row) (map hash_of rows) → ⊥)
      → All (IsSelected p.db) rows
      → All (IsSelected (verify_row source bound now row p).0.db) rows
  still-IsSelected row p [] apart h = tt
  still-IsSelected row p (other ∷ rows) apart (h, k) = (
    record {
      btc_txid = h.btc_txid;
      bound_eq = h.bound_eq;
      stored = h.stored;
      stored_eq =
          Step-other (hash_of other) p.db _ _ (verify_row-Step source bound now row p)
            (λ e. apart (inl (sym e)))
          ∙ h.stored_eq;
    },
    still-IsSelected row p rows (λ o. apart (inr o)) k,
  )

  verify_once-All :
      (rows : List TransitionRow) (p : Pass)
      → Distinct (map hash_of rows)
      → All (IsSelected p.db) rows
      → (verify_once source bound now rows p).1 ≡ ok tt
      → All (λ row. IsVerified source row (verify_once source bound now rows p).0.db) rows
  unfolding verify_once
  verify_once-All [] p d h e = tt
  verify_once-All (row ∷ rows) p d h e =
      let step = verify_row source bound now row p in
      let (first, all) = then_pass-inv step _ e in
      let done = sym (ap (λ (m : Pass × Result (Unit {0})). m.1) all) ∙ e in
      subst (λ (m : Pass × Result (Unit {0})). All (λ r. IsVerified source r m.0.db) (row ∷ rows))
        (sym all)
        (
          moved (verify_once-other (hash_of row) rows step.0 done d.0) (
              Step-IsVerified p.db step.0.db step.1 (verify_row-Step source bound now row p) first
                h.0),
          verify_once-All rows step.0 d.1 (still-IsSelected row p rows d.0 h.1) done,
        )

  abbrev pub VerifyOutcome : List TransitionRow → Database → Database → Result (Unit {0}) → Type 0
  VerifyOutcome rows old new (ok a) =
      SameFacts old new × All (λ row. IsVerified source row new) rows
  VerifyOutcome rows old new (err e) = SameFacts old new
  VerifyOutcome rows old new panic = SameFacts old new

  outcome_of :
      (rows : List TransitionRow) (p : Pass) (r : Result (Unit {0}))
      → Distinct (map hash_of rows)
      → All (IsSelected p.db) rows
      → (verify_once source bound now rows p).1 ≡ r
      → VerifyOutcome rows p.db (verify_once source bound now rows p).0.db r
  outcome_of rows p (ok tt) d h e = (verify_once-SameFacts rows p, verify_once-All rows p d h e)
  outcome_of rows p (err x) d h e = verify_once-SameFacts rows p
  outcome_of rows p panic d h e = verify_once-SameFacts rows p

  -- For rows of the table with different transactions, each with a Bitcoin transaction: a pass changes no block, no cell,
  -- no checkpoint and nothing of a transition but what it is judged as, however it ends; and when it ends with a
  -- value, every row is judged by its kind, the commitment that it expects and the answer of the source alone.
  pub verify_once-VerifyOutcome :
      (rows : List TransitionRow) (p : Pass)
      → Distinct (map hash_of rows)
      → All (IsSelected p.db) rows
      → VerifyOutcome rows p.db
          (verify_once source bound now rows p).0.db
          (verify_once source bound now rows p).1
  verify_once-VerifyOutcome rows p d h =
      outcome_of rows p (verify_once source bound now rows p).1 d h refl
