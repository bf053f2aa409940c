-- ===== src/Indexer/Extract/Commitments.antt =====
-- The expected commitment does not depend on the Bitcoin transaction that the outputs are bound to.
use rgbpp_indexer.Common.{ℕ, ◌≡◌, refl, ap, ◌∙◌, List, [], ◌∷◌, All, map, length, some, ◌&&◌, false}
use rgbpp_indexer.Types.Error.{ok}
use rgbpp_indexer.Types.Ckb.{CellOutput}
use rgbpp_indexer.Types.Bitcoin.{BtcTxid}
use rgbpp_indexer.Types.Protocol.{
  LockBinding, binding_kind, placeholder, args_with_placeholder_txid,
}
use rgbpp_indexer.Types.Protocol.Placeholder.{
  binding_encode, IsBinding, with_txid, args_with_placeholder_txid_lem,
  args_with_placeholder_txid-with_txid,
}
use rgbpp_indexer.Types.Commitment.{preimage_new, commitment}
use rgbpp_indexer.Indexer.Extract.{
  ResolvedInput, RgbppOutput, is_empty, committed_outputs, expected_commitment,
}

-- The args of the cell's lock are those of its binding. Whatever `classify_outputs` finds is so.
pub record IsBound (o : RgbppOutput) : Type 0 where
  pub args_eq : o.cell.lock.args ≡ binding_encode o.binding
  pub binding_valid : IsBinding o.binding

abbrev pub with_args : CellOutput → List ℕ → CellOutput
with_args c args = record c { lock = record (c.lock) { args = args } }

-- The same output, bound to another Bitcoin transaction.
abbrev pub rebind : BtcTxid → RgbppOutput → RgbppOutput
rebind t o = record o {
  binding = with_txid t o.binding;
  cell = with_args o.cell (binding_encode (with_txid t o.binding));
}

-- The pair that an output adds to the pre-image.
abbrev pub committed_pair : RgbppOutput → CellOutput × List ℕ
committed_pair o =
    (with_args o.cell (binding_encode (with_txid placeholder o.binding)), o.cell_data)

kind-with_txid : (t : BtcTxid) (b : LockBinding) → binding_kind (with_txid t b) ≡ binding_kind b
unfolding binding_kind
kind-with_txid t (LockBinding.rgbpp a) = refl
kind-with_txid t (LockBinding.btc_time a) = refl

committed_outputs-nil : committed_outputs [] ≡ some []
unfolding committed_outputs
committed_outputs-nil = refl

committed_outputs-step :
    (o : RgbppOutput) (os : List RgbppOutput) {args : List ℕ} {pairs : List (CellOutput × List ℕ)}
    → args_with_placeholder_txid (binding_kind o.binding) o.cell.lock.args ≡ ok args
    → committed_outputs os ≡ some pairs
    → committed_outputs (o ∷ os) ≡ some ((with_args o.cell args, o.cell_data) ∷ pairs)
unfolding committed_outputs
committed_outputs-step o os e h = rw (e, h, committed_outputs)

pub committed_outputs-bound :
    (os : List RgbppOutput) → All IsBound os → committed_outputs os ≡ some (map committed_pair os)
committed_outputs-bound [] h = committed_outputs-nil
committed_outputs-bound (o ∷ os) h =
    committed_outputs-step o os
      (ap (args_with_placeholder_txid (binding_kind o.binding)) h.0.args_eq
        ∙ args_with_placeholder_txid_lem o.binding h.0.binding_valid)
      (committed_outputs-bound os h.1)

rebound :
    (t : BtcTxid) (o : RgbppOutput)
    → length t.bytes ≡ 32
    → IsBound o
    → args_with_placeholder_txid
        (binding_kind (with_txid t o.binding))
        (binding_encode (with_txid t o.binding))
      ≡ ok (binding_encode (with_txid placeholder o.binding))
rebound t o n h = rw (kind-with_txid t o.binding) (
    args_with_placeholder_txid-with_txid t o.binding n h.binding_valid
    ∙ args_with_placeholder_txid_lem o.binding h.binding_valid)

committed_outputs-rebind :
    (t : BtcTxid) (os : List RgbppOutput)
    → length t.bytes ≡ 32
    → All IsBound os
    → committed_outputs (map (rebind t) os) ≡ some (map committed_pair os)
committed_outputs-rebind t [] n h = committed_outputs-nil
committed_outputs-rebind t (o ∷ os) n h =
    committed_outputs-step (rebind t o) (map (rebind t) os) (rebound t o n h.0)
      (committed_outputs-rebind t os n h.1)

module _ (sha256 : List ℕ → List ℕ) (inputs : List ResolvedInput) where
  -- For outputs whose lock args are those of their bindings, and where there is an input or an
  -- output, the expected commitment is the double hash of the pre-image of the inputs and of the
  -- outputs with the placeholder in their args.
  pub expected_commitment-bound :
      (os : List RgbppOutput)
      → All IsBound os
      → (is_empty inputs && is_empty os) ≡ false
      → expected_commitment sha256 inputs os
        ≡ some (
            commitment sha256
              (preimage_new (map (λ i. i.out_point) inputs) (map committed_pair os)))
  unfolding expected_commitment
  expected_commitment-bound os h e = rw (e, committed_outputs-bound os h)

  is_empty-rebind :
      (t : BtcTxid) (os : List RgbppOutput) → is_empty (map (rebind t) os) ≡ is_empty os
  unfolding is_empty
  is_empty-rebind t [] = refl
  is_empty-rebind t (o ∷ os) = refl

  -- For outputs whose lock args are those of their bindings, binding all of them to another
  -- Bitcoin transaction id of 32 bytes leaves the expected commitment as it is.
  pub expected_commitment-rebind :
      (t : BtcTxid) (os : List RgbppOutput)
      → length t.bytes ≡ 32
      → All IsBound os
      → expected_commitment sha256 inputs (map (rebind t) os) ≡ expected_commitment sha256 inputs os
  unfolding expected_commitment
  expected_commitment-rebind t os n h =
      rw (is_empty-rebind t os, committed_outputs-rebind t os n h, committed_outputs-bound os h)
