-- ===== src/Indexer/Extract/Rows.antt =====
-- `extract`: which rows a transaction gives.
use rgbpp_indexer.Common.{
  Occurs, Occurs-map, and_inv, ℕ, ◌≡◌, refl, subst, ◌⊎◌, inl, inr, List, [], ◌∷◌, All, map,
  get_elem?, true, ◌&&◌, Bool-cases, some, arith,
}
use rgbpp_indexer.Types.Error.{Result, ok, err, inconsistent}
use rgbpp_indexer.Types.Ckb.{H256, CellOutput}
use rgbpp_indexer.Types.Protocol.{LockBinding, ProtocolScripts}
use rgbpp_indexer.Types.Asset.{AssetScripts}
use rgbpp_indexer.Store.Models.{NewCell}
use rgbpp_indexer.Indexer.Extract.{
  ResolvedInput, BlockContext, ExtractedTx, RgbppOutput, is_empty, build_new_cell, build_spend,
  build_transition, extract,
}
use rgbpp_indexer.Indexer.Extract.Outputs.{
  IsReadable, IsFound, FindsAll, found_at, classify_outputs_lem,
}

is_empty-inv : {A : Type 0} (xs : List A) → is_empty xs ≡ true → xs ≡ []
unfolding is_empty
is_empty-inv [] h = refl
is_empty-inv (x ∷ xs) h = cc

module _ (p : ProtocolScripts) (datas : List (List ℕ)) where
  from_zero :
      (outputs : List CellOutput) (found : List RgbppOutput)
      → FindsAll p datas 0 outputs found
      → (k : ℕ) (c : CellOutput) (b : LockBinding) → get_elem? outputs k ≡ some c
      → IsReadable p datas c b
      → Occurs (found_at p datas k c b) found
  from_zero outputs found h k c b e r =
      subst (λ n. Occurs (found_at p datas n c b) found) (omega arith) (h k c b e r)

module _ (blake2b sha256 : List ℕ → List ℕ) (p : ProtocolScripts) (assets : AssetScripts)
    (tx_hash : H256) (outputs : List CellOutput) (datas : List (List ℕ))
    (inputs : List ResolvedInput) (block : BlockContext) where
  abbrev pub row : RgbppOutput → NewCell
  row o = build_new_cell blake2b assets tx_hash o block

  abbrev pub run : Result ExtractedTx
  run = extract blake2b sha256 p assets tx_hash outputs datas inputs block

  -- The rows of `tx` are those of the readable outputs and of the resolved inputs.
  pub record IsExtracted (tx : ExtractedTx) : Type 0 where
    pub found : List RgbppOutput
    pub cells_eq : tx.cells ≡ map row found
    pub found_only : All (IsFound p datas 0 outputs) found
    pub rows_complete :
        (k : ℕ) (c : CellOutput) (b : LockBinding)
        → get_elem? outputs k ≡ some c
        → IsReadable p datas c b
        → Occurs (row (found_at p datas k c b)) tx.cells
    pub spends_eq : tx.spends ≡ map (build_spend tx_hash block) inputs
    pub transition_eq :
        tx.transition ≡ some (build_transition blake2b sha256 tx_hash found inputs block)

  -- The transaction has nothing of the protocol.
  abbrev pub HasNothing : Type 0
  HasNothing =
      (inputs ≡ [])
      × ((k : ℕ) (c : CellOutput) (b : LockBinding)
          → get_elem? outputs k ≡ some c
          → IsReadable p datas c b
          → ⊥)

  -- Every transaction either has nothing of the protocol and is refused as inconsistent, or gives a row for each
  -- readable output and no other, a spend for each resolved input, and one transition.
  pub extract_lem :
      (HasNothing × (run ≡ err inconsistent))
      ⊎ ((tx : ExtractedTx) × (run ≡ ok tx) × IsExtracted tx)
  unfolding extract
  extract_lem =
      let (found, e, only, all_from) = classify_outputs_lem p datas outputs in
      let all_found = from_zero p datas outputs found all_from in
      elim (Bool-cases (is_empty found && is_empty inputs)) [
        | inl q ↦
            let (q1, q2) = and_inv (is_empty found) (is_empty inputs) q in
            inl (
              (
                is_empty-inv inputs q2,
                λ k c b h r.
                    subst (Occurs (found_at p datas k c b)) (is_empty-inv found q1)
                      (all_found k c b h r),
              ),
              rw (e, q),
            )
        | inr q ↦ inr (
          _,
          rw (e, q) refl,
          record {
            found = found;
            cells_eq = refl;
            found_only = only;
            rows_complete =
                λ k c b h r. Occurs-map row (found_at p datas k c b) found (all_found k c b h r);
            spends_eq = refl;
            transition_eq = refl;
          },
        )
      ]
