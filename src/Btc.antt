-- ===== src/Btc.antt =====
-- crates/btc/src/source.rs: what a Bitcoin data source answers, and the observation of many out points. The source
-- itself (Esplora or Blockbook over HTTP) is a parameter. The groups are asked one after the other; the source asks
-- several at once, which only changes the order of the answers.
pub mod Groups
pub mod Answers
use rgbpp_indexer.Common.{
  ◌⊎◌, inl, inr, ℕ, ltb, Bool, true, false, Option, none, some, List, [], ◌∷◌, ◌++◌, map, length,
  get_elem?, if◌then◌else◌, number_set,
}
use mathlib.Core.Option
use Prim.Native.String.{String}
use rgbpp_indexer.Types.Error.{Error, Result, ok, err, panic}
use rgbpp_indexer.Types.Bitcoin.{BtcTxid, BtcOutPoint, txid_eq}
use rgbpp_indexer.Types.State.{OutpointSpendStatus, unknown}
use rgbpp_indexer.Types.Commitment.{find_commitment}

-- A block's hash is its bytes; a missing reference is the mempool.
pub record BtcBlockRef : Type 0 where
  pub height : ℕ
  pub hash : List ℕ
  pub time : ℕ

pub record BtcTxOutput : Type 0 where
  pub value : ℕ
  pub script_pubkey : List ℕ
  pub address : Option String

pub record BtcTxInfo : Type 0 where
  pub txid : BtcTxid
  pub confirmation : Option BtcBlockRef
  pub inputs : List BtcOutPoint
  pub outputs : List BtcTxOutput
  pub fee : Option ℕ

unfoldable pub tx_commitment : BtcTxInfo → Option (List ℕ)
tx_commitment tx = find_commitment (map (λ (o : BtcTxOutput). o.script_pubkey) tx.outputs)

-- The answers of a data source.
pub record BtcDataSource : Type 0 where
  pub name : String
  pub tip_height : Result ℕ
  pub transaction : BtcTxid → Result (Option BtcTxInfo)
  pub outpoint_status : BtcOutPoint → Result OutpointSpendStatus
  -- An error, or what the batched call answers; the call does not panic.
  pub tx_outspends : BtcTxid → Error ⊎ Option (List OutpointSpendStatus)
  pub address_utxos : String → Result (List BtcOutPoint)

abbrev pub out_point_of : BtcTxid → ℕ → BtcOutPoint
out_point_of txid vout = record { txid = txid; vout = vout }

-- `by_txid.entry(txid).or_default().push(vout)`.
unfoldable pub group_point : BtcTxid → ℕ → List (BtcTxid × List ℕ) → List (BtcTxid × List ℕ)
group_point txid vout [] = (txid, vout ∷ []) ∷ []
group_point txid vout ((t, vouts) ∷ groups) =
    let rest = group_point txid vout groups in
    if txid_eq txid t then (t, vouts ++ (vout ∷ [])) ∷ groups else (t, vouts) ∷ rest

unfoldable pub by_txid : List BtcOutPoint → List (BtcTxid × List ℕ) → List (BtcTxid × List ℕ)
by_txid [] groups = groups
by_txid (o ∷ os) groups = by_txid os (group_point o.txid o.vout groups)

abbrev pub status_at : List OutpointSpendStatus → ℕ → OutpointSpendStatus
status_at statuses vout = elim (get_elem? statuses vout) [ none ↦ unknown | some s ↦ s ]

module _ (source : BtcDataSource) where
  -- The answers from one call for the whole transaction.
  abbrev pub batched :
      BtcTxid → List OutpointSpendStatus → List ℕ → List (BtcOutPoint × Result OutpointSpendStatus)
  batched txid statuses vouts =
      map (λ vout. (out_point_of txid vout, ok (status_at statuses vout))) vouts

  abbrev pub single : BtcTxid → List ℕ → List (BtcOutPoint × Result OutpointSpendStatus)
  single txid vouts =
      map (λ vout. (out_point_of txid vout, source.outpoint_status (out_point_of txid vout))) vouts

  -- What the batched call gives, or the fall back to one call each.
  abbrev pub answer_batch :
      BtcTxid
      → List ℕ
      → Error ⊎ Option (List OutpointSpendStatus)
      → List (BtcOutPoint × Result OutpointSpendStatus)
  answer_batch txid vouts (inr (some statuses)) = batched txid statuses vouts
  answer_batch txid vouts (inr none) = single txid vouts
  answer_batch txid vouts (inl e) = single txid vouts

  unfoldable pub answer_group : BtcTxid → List ℕ → List (BtcOutPoint × Result OutpointSpendStatus)
  answer_group txid vouts =
      let wanted = number_set vouts in
      if ltb 1 (length wanted)
      then answer_batch txid wanted (source.tx_outspends txid)
      else single txid wanted

  unfoldable pub answer_groups :
      List (BtcTxid × List ℕ) → List (BtcOutPoint × Result OutpointSpendStatus)
  answer_groups [] = []
  answer_groups ((txid, vouts) ∷ groups) = answer_group txid vouts ++ answer_groups groups

  unfoldable pub observe_many : List BtcOutPoint → List (BtcOutPoint × Result OutpointSpendStatus)
  observe_many outpoints = answer_groups (by_txid outpoints [])
