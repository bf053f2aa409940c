-- ===== src/Tests/Commitments.antt =====
-- Commitments, in transactions of both chains.
use rgbpp_indexer.Common.{
  ℕ, ◌≡◌, ◌≢◌, ◌↔◌, refl, true, false, some, none, List, [], ◌∷◌, ◌++◌, ◌&&◌, All, map, length,
  replicate, arith,
}
use rgbpp_indexer.Types.Ckb.{CellOutput}
use rgbpp_indexer.Types.Molecule.{encode_script_opt}
use rgbpp_indexer.Types.Molecule.Scripts.{length-encode_script}
use rgbpp_indexer.Types.Commitment.{
  CommitmentPreimage, preimage_new, commitment, op_return_payload, find_commitment, rgbpp_tag,
}
use rgbpp_indexer.Types.Commitment.OpReturn.{
  direct, push_header, Pushes, op_return_payload-append, op_return_payload-inv,
}
use rgbpp_indexer.Types.Commitment.Search.{
  first_some, or_else, tagged_in, bare_in, find_commitment_lem,
}
use rgbpp_indexer.Types.Commitment.Injective.{IsPreimage, preimage_encode-injective}
use rgbpp_indexer.Types.State.{TransitionKind}
use rgbpp_indexer.Indexer.Extract.{
  is_empty, expected_commitment, classify_transition, derive_btc_txid,
}
use rgbpp_indexer.Indexer.Extract.Kinds.{
  Describes, BoundTo, classify_transition_iff, derive_btc_txid_iff,
}
use rgbpp_indexer.Indexer.Extract.Commitments.{
  IsBound, committed_pair, rebind, expected_commitment-bound, expected_commitment-rebind,
}
use rgbpp_indexer.Tests.Data.{
  found, resolved, out_point, owner, txid, toy_hash, all_bytes, all_bytes→IsBytes,
}
use rgbpp_indexer.Tests.Protocol.{seal_valid}

abbrev payload : List ℕ
payload = rgbpp_tag ++ replicate 32 9

op_return_payload-append_example :
    op_return_payload (0x6a ∷ (push_header direct (length payload) ++ (payload ++ (1 ∷ 2 ∷ []))))
    ≡ some payload
op_return_payload-append_example =
    op_return_payload-append direct payload (1 ∷ 2 ∷ []) (omega arith, omega arith)

abbrev script : List ℕ
script = 0x6a ∷ (push_header direct (length payload) ++ (payload ++ []))

script_bytes : all_bytes script ≡ true
unfolding all_bytes
script_bytes = refl

op_return_payload-inv_example : Pushes script payload
op_return_payload-inv_example =
    op_return_payload-inv script payload (all_bytes→IsBytes script script_bytes)
      (op_return_payload-append direct payload [] (omega arith, omega arith))

abbrev bare : List ℕ
bare = 0x6a ∷ (32 ∷ replicate 32 1)

find_commitment_lem_example :
    find_commitment (bare ∷ script ∷ [])
    ≡ or_else (first_some tagged_in (bare ∷ script ∷ [])) (first_some bare_in (bare ∷ script ∷ []))
find_commitment_lem_example = find_commitment_lem (bare ∷ script ∷ [])

abbrev owned : CellOutput
owned = record { capacity = 1000; lock = owner; type_script = none }

abbrev preimage : CommitmentPreimage
preimage = preimage_new (out_point ∷ []) ((owned, 7 ∷ []) ∷ [])

preimage_valid : IsPreimage preimage
unfolding preimage_new encode_script_opt
preimage_valid = record {
  version_lt = omega arith;
  inputs_lt = omega arith;
  outputs_lt = omega arith;
  inputs_valid = ((refl, omega arith), tt);
  outputs_valid = (
    record {
      capacity_lt = omega arith;
      lock_fits = (refl, omega arith);
      type_fits = tt;
      size_fits = omega (arith, length-encode_script owner (refl, omega arith));
      data_fits = omega arith;
    },
    tt,
  );
}

preimage_encode-injective_example : preimage ≡ preimage
preimage_encode-injective_example =
    preimage_encode-injective preimage preimage preimage_valid preimage_valid refl

found-IsBound : All IsBound (found ∷ [])
found-IsBound = (record { args_eq = refl; binding_valid = seal_valid }, tt)

some_output : (is_empty (resolved ∷ []) && is_empty (found ∷ [])) ≡ false
unfolding is_empty
some_output = refl

expected_commitment-bound_example :
    expected_commitment toy_hash (resolved ∷ []) (found ∷ [])
    ≡ some (
        commitment toy_hash
          (preimage_new (map (λ i. i.out_point) (resolved ∷ [])) (map committed_pair (found ∷ []))))
expected_commitment-bound_example =
    expected_commitment-bound toy_hash (resolved ∷ []) (found ∷ []) found-IsBound some_output

expected_commitment-rebind_example :
    expected_commitment toy_hash (resolved ∷ []) (map (rebind (txid 1)) (found ∷ []))
    ≡ expected_commitment toy_hash (resolved ∷ []) (found ∷ [])
expected_commitment-rebind_example =
    expected_commitment-rebind toy_hash (resolved ∷ []) (txid 1) (found ∷ []) refl found-IsBound

classify_transition_iff_example :
    (classify_transition (resolved ∷ []) (found ∷ []) ≡ TransitionKind.transfer)
    ↔ Describes TransitionKind.transfer (resolved ∷ []) (found ∷ [])
classify_transition_iff_example =
    classify_transition_iff (resolved ∷ []) (found ∷ []) TransitionKind.transfer

derive_btc_txid_iff_example :
    (derive_btc_txid (found ∷ []) ≡ some (txid 9))
    ↔ (((found ∷ []) ≢ []) × All (BoundTo (txid 9)) (found ∷ []))
derive_btc_txid_iff_example = derive_btc_txid_iff (found ∷ []) (txid 9)
