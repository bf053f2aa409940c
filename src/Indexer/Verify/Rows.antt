-- ===== src/Indexer/Verify/Rows.antt =====
-- What the statement that writes a judgement does to the tables.
use rgbpp_indexer.Common.{
  ℕ, ◌≡◌, refl, sym, inl, inr, Bool, true, false, Bool-cases, Option, none, some, List,
  if◌then◌else◌, bytes_eq, bytes_eq_iff,
}
use mathlib.Core.Option
use rgbpp_indexer.Btc.{BtcDataSource}
use rgbpp_indexer.Store.Table.{update}
use rgbpp_indexer.Store.Models.{CommitmentStatus, NewTransition, TransitionRow, Database}
use rgbpp_indexer.Indexer.Verify.{judged_row, set_commitment_result}
use rgbpp_indexer.Indexer.Verify.Verdicts.{IsJudged}

abbrev pub hash_of : TransitionRow → List ℕ
hash_of row = row.transition.ckb_tx_hash

-- The facts of a transition, without what it was judged as.
abbrev pub facts_at : Database → List ℕ → Option NewTransition
facts_at db key = Option.map (λ (row : TransitionRow). row.transition) (db.transitions key)

pub record SameFacts (old new : Database) : Type 0 where
  pub blocks_eq : new.blocks ≡ old.blocks
  pub cells_eq : new.cells ≡ old.cells
  pub state_eq : new.state ≡ old.state
  pub transitions_eq : (key : List ℕ) → facts_at new key ≡ facts_at old key

-- A row that a pass has judged.
pub record IsVerified (source : BtcDataSource) (row : TransitionRow) (db : Database) : Type 0 where
  pub observed : Option (List ℕ)
  pub status : CommitmentStatus
  pub written : TransitionRow
  pub written_eq : db.transitions row.transition.ckb_tx_hash ≡ some written
  pub observed_eq : written.observed_commitment ≡ observed
  pub status_eq : written.commitment_status ≡ status
  pub is_judged : IsJudged source row observed status

pub set-SameFacts :
    (key : List ℕ) (observed : Option (List ℕ)) (status : CommitmentStatus) (db : Database)
    → SameFacts db (set_commitment_result key observed status db)
unfolding set_commitment_result update
set-SameFacts key observed status db = record {
  blocks_eq = refl;
  cells_eq = refl;
  state_eq = refl;
  transitions_eq = λ k. same (bytes_eq key k) (db.transitions k);
}
  where
    same :
        (b : Bool) (row : Option TransitionRow)
        → Option.map
            (λ (row : TransitionRow). row.transition)
            (if b then Option.map (judged_row observed status) row else row)
          ≡ Option.map (λ (row : TransitionRow). row.transition) row
    same false row = refl
    same true none = refl
    same true (some row) = refl

pub set-other :
    (key other : List ℕ) (observed : Option (List ℕ)) (status : CommitmentStatus) (db : Database)
    → (other ≡ key → ⊥)
    → (set_commitment_result key observed status db).transitions other ≡ db.transitions other
unfolding set_commitment_result update
set-other key other observed status db ne = elim (Bool-cases (bytes_eq key other)) [
  | inl e ↦ absurd (ne (sym ((bytes_eq_iff key other).0 e)))
  | inr e ↦ rw e refl
]

pub set-same :
    (key : List ℕ) (observed : Option (List ℕ)) (status : CommitmentStatus) (db : Database)
    (row : TransitionRow)
    → db.transitions key ≡ some row
    → (set_commitment_result key observed status db).transitions key
      ≡ some (judged_row observed status row)
unfolding set_commitment_result update
set-same key observed status db row e = rw ((bytes_eq_iff key key).1 refl, e) refl
