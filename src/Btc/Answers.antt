-- ===== src/Btc/Answers.antt =====
-- Every out point that is asked for is answered once, with what the source says of it.
use rgbpp_indexer.Common.{
  ◌⊎◌, ℕ, ◌≡◌, refl, sym, ◌∙◌, subst, ◌↔◌, inl, inr, ltb, Bool-cases, Option, none, some, List, [],
  ◌∷◌, ◌++◌, map, length, number_set, Distinct, Occurs, All, All-append, ap₂,
}
use rgbpp_indexer.Types.Error.{Error, Result, ok}
use rgbpp_indexer.Types.Bitcoin.{BtcTxid, BtcOutPoint}
use rgbpp_indexer.Types.State.{OutpointSpendStatus}
use rgbpp_indexer.Btc.{
  BtcDataSource, out_point_of, by_txid, status_at, batched, single, answer_batch, answer_group,
  answer_groups, observe_many,
}
use rgbpp_indexer.Btc.Groups.{
  Answer, points, map-map, map-append, points-InGroups, by_txid-InGroups, by_txid-Distinct,
  points-Distinct,
}

module _ (source : BtcDataSource) where
  -- The status that a data source gives for an out point: of its own, or in the list of its transaction, where an
  -- output that the list lacks is unknown.
  pub data IsAnswer (o : BtcOutPoint) : Result OutpointSpendStatus → Type 0 where
    single_answer : IsAnswer o (source.outpoint_status o)
    batch_answer :
        (statuses : List OutpointSpendStatus)
        → source.tx_outspends o.txid ≡ inr (some statuses)
        → IsAnswer o (ok (status_at statuses o.vout))

  abbrev IsAnswered : Answer → Type 0
  IsAnswered a = IsAnswer a.0 a.1

  single-All : (txid : BtcTxid) (vouts : List ℕ) → All IsAnswered (single source txid vouts)
  single-All txid [] = tt
  single-All txid (v ∷ vouts) = (single_answer, single-All txid vouts)

  batched-All :
      (txid : BtcTxid) (statuses : List OutpointSpendStatus) (vouts : List ℕ)
      → source.tx_outspends txid ≡ inr (some statuses)
      → All IsAnswered (batched source txid statuses vouts)
  batched-All txid statuses [] e = tt
  batched-All txid statuses (v ∷ vouts) e =
      (batch_answer statuses e, batched-All txid statuses vouts e)

  answer_batch-All :
      (txid : BtcTxid) (vouts : List ℕ) (r : Error ⊎ Option (List OutpointSpendStatus))
      → source.tx_outspends txid ≡ r
      → All IsAnswered (answer_batch source txid vouts r)
  answer_batch-All txid vouts (inr (some statuses)) e = batched-All txid statuses vouts e
  answer_batch-All txid vouts (inr none) e = single-All txid vouts
  answer_batch-All txid vouts (inl x) e = single-All txid vouts

  answer_batch-points :
      (txid : BtcTxid) (vouts : List ℕ) (r : Error ⊎ Option (List OutpointSpendStatus))
      → map (λ (a : Answer). a.0) (answer_batch source txid vouts r) ≡ map (out_point_of txid) vouts
  answer_batch-points txid vouts (inr (some statuses)) = map-map _ _ vouts
  answer_batch-points txid vouts (inr none) = map-map _ _ vouts
  answer_batch-points txid vouts (inl x) = map-map _ _ vouts

  answer_group-All :
      (txid : BtcTxid) (vouts : List ℕ) → All IsAnswered (answer_group source txid vouts)
  unfolding answer_group
  answer_group-All txid vouts = elim (Bool-cases (ltb 1 (length (number_set vouts)))) [
    | inl e ↦ rw e (answer_batch-All txid (number_set vouts) (source.tx_outspends txid) refl)
    | inr e ↦ rw e (single-All txid (number_set vouts))
  ]

  answer_group-points :
      (txid : BtcTxid) (vouts : List ℕ)
      → map (λ (a : Answer). a.0) (answer_group source txid vouts)
        ≡ map (out_point_of txid) (number_set vouts)
  unfolding answer_group
  answer_group-points txid vouts = elim (Bool-cases (ltb 1 (length (number_set vouts)))) [
    | inl e ↦ rw e (answer_batch-points txid (number_set vouts) (source.tx_outspends txid))
    | inr e ↦ rw e (map-map _ _ (number_set vouts))
  ]

  answer_groups-All :
      (groups : List (BtcTxid × List ℕ)) → All IsAnswered (answer_groups source groups)
  unfolding answer_groups
  answer_groups-All [] = tt
  answer_groups-All ((t, vouts) ∷ groups) =
      All-append IsAnswered (answer_group source t vouts) (answer_groups source groups)
        (answer_group-All t vouts) (answer_groups-All groups)

  answer_groups-points :
      (groups : List (BtcTxid × List ℕ))
      → map (λ (a : Answer). a.0) (answer_groups source groups) ≡ points groups
  unfolding answer_groups
  answer_groups-points [] = refl
  answer_groups-points ((t, vouts) ∷ groups) =
      map-append _ (answer_group source t vouts) (answer_groups source groups)
      ∙ ap₂ (λ xs ys. xs ++ ys) (answer_group-points t vouts) (answer_groups-points groups)

  -- What is answered is what was asked for.
  pub record AnswersAll (outpoints : List BtcOutPoint) (answers : List Answer) : Type 0 where
    pub once : Distinct (map (λ (a : Answer). a.0) answers)
    pub same_points :
        (o : BtcOutPoint) → Occurs o (map (λ (a : Answer). a.0) answers) ↔ Occurs o outpoints
    pub from_source : All IsAnswered answers

  -- Every out point that is asked for, and no other, is answered exactly once, also when it is asked for repeatedly; and
  -- each answer is the source's for this out point alone, or its place in the source's list for the transaction.
  pub observe_many-AnswersAll :
      (outpoints : List BtcOutPoint) → AnswersAll outpoints (observe_many source outpoints)
  unfolding observe_many
  observe_many-AnswersAll outpoints =
      let groups = by_txid outpoints [] in
      let all = answer_groups-points groups in
      record {
        once = subst Distinct (sym all) (points-Distinct groups (by_txid-Distinct outpoints [] tt));
        same_points = λ o.
            let (down, up) = points-InGroups o groups in
            let (d, u) = by_txid-InGroups o outpoints [] in
            (
              λ h. elim (d (down (subst (Occurs o) all h))) [ inl a ↦ a | inr z ↦ absurd z ],
              λ h. subst (Occurs o) (sym all) (up (u (inl h))),
            );
        from_source = answer_groups-All groups;
      }
