-- ===== src/Types/Commitment/Injective.antt =====
-- The pre-image determines the committed cells: two pre-images with the same bytes are equal.
use rgbpp_indexer.Common.{
  ℕ, ◌%◌, ◌^◌, ◌<◌, ◌≡◌, refl, sym, ap, ap₂, ◌∙◌, List, [], ◌∷◌, ◌++◌, arith, length, append_assoc,
  append-nil, All, reverse, le_bytes, length-le_bytes, length-reverse,
}
use mathlib.Core.List.{reverse-reverse}
use rgbpp_indexer.Types.Ckb.{CkbOutPoint, CellOutput}
use rgbpp_indexer.Types.Molecule.{encode_bytes, encode_cell_output, encode_out_point}
use rgbpp_indexer.Types.Commitment.{
  rgbpp_tag, CommitmentPreimage, encode_inputs, encode_outputs, preimage_encode,
}
use rgbpp_indexer.Types.Commitment.Preimage.{
  append_cancel, le_bytes-injective, table-cancel, bytes-cancel, IsInput, IsOutput, cell_fields,
  cell_size, fields-injective,
}

out_point-cancel :
    (o p : CkbOutPoint) (r s : List ℕ)
    → IsInput o
    → IsInput p
    → encode_out_point o ++ r ≡ encode_out_point p ++ s
    → (o ≡ p) × (r ≡ s)
unfolding encode_out_point
out_point-cancel o p r s h g e =
    let (a, b) =
      append_cancel o.tx_hash.bytes p.tx_hash.bytes (le_bytes 4 o.index ++ r)
        (le_bytes 4 p.index ++ s) (h.0 ∙ sym g.0)
        (sym (append_assoc o.tx_hash.bytes _ r) ∙ e ∙ append_assoc p.tx_hash.bytes _ s) in
    let (c, d) =
      append_cancel (le_bytes 4 o.index) (le_bytes 4 p.index) r s
        (length-le_bytes 4 _ ∙ sym (length-le_bytes 4 _)) b in
    let index = le_bytes-injective 4 o.index p.index (omega (arith, h)) (omega (arith, g)) c in
    ((λ i. record { tx_hash = record { bytes = a i }; index = index i }), d)

inputs-cancel :
    (os ps : List CkbOutPoint) (r s : List ℕ)
    → All IsInput os
    → All IsInput ps
    → length os ≡ length ps
    → encode_inputs os ++ r ≡ encode_inputs ps ++ s
    → (os ≡ ps) × (r ≡ s)
unfolding encode_inputs
inputs-cancel [] [] r s h g n e = (refl, e)
inputs-cancel [] (p ∷ ps) r s h g n e = absurd (omega arith)
inputs-cancel (o ∷ os) [] r s h g n e = absurd (omega arith)
inputs-cancel (o ∷ os) (p ∷ ps) r s h g n e =
    let (a, b) =
      out_point-cancel o p (encode_inputs os ++ r) (encode_inputs ps ++ s) h.0 g.0
        (sym (append_assoc (encode_out_point o) _ r) ∙ e ∙ append_assoc (encode_out_point p) _ s) in
    let (c, d) = inputs-cancel os ps r s h.1 g.1 (omega arith) b in (ap₂ ◌∷◌ a c, d)

output-cancel :
    (o p : CellOutput × List ℕ) (r s : List ℕ)
    → IsOutput o
    → IsOutput p
    → encode_cell_output o.0 ++ (encode_bytes o.1 ++ r)
      ≡ encode_cell_output p.0 ++ (encode_bytes p.1 ++ s)
    → (o ≡ p) × (r ≡ s)
unfolding encode_cell_output
output-cancel o p r s h g e =
    let (a, b) =
      table-cancel (cell_fields o.0) (cell_fields p.0) (encode_bytes o.1 ++ r)
        (encode_bytes p.1 ++ s) (cell_size o h) (cell_size p g) e in
    let (c, d) = bytes-cancel o.1 p.1 r s h.data_fits g.data_fits b in
    ((λ i. (fields-injective o p h g a i, c i)), d)

outputs-cancel :
    (os ps : List (CellOutput × List ℕ)) (r s : List ℕ)
    → All IsOutput os
    → All IsOutput ps
    → length os ≡ length ps
    → encode_outputs os ++ r ≡ encode_outputs ps ++ s
    → (os ≡ ps) × (r ≡ s)
unfolding encode_outputs
outputs-cancel [] [] r s h g n e = (refl, e)
outputs-cancel [] (p ∷ ps) r s h g n e = absurd (omega arith)
outputs-cancel (o ∷ os) [] r s h g n e = absurd (omega arith)
outputs-cancel ((oc, od) ∷ os) ((pc, pd) ∷ ps) r s h g n e =
    let (a, b) =
      output-cancel (oc, od) (pc, pd) (encode_outputs os ++ r) (encode_outputs ps ++ s) h.0 g.0
        (sym (split oc od (encode_outputs os) r) ∙ e ∙ split pc pd (encode_outputs ps) s) in
    let (c, d) = outputs-cancel os ps r s h.1 g.1 (omega arith) b in (ap₂ ◌∷◌ a c, d)
  where
    split :
        (c : CellOutput) (bs xs ys : List ℕ)
        → (encode_cell_output c ++ (encode_bytes bs ++ xs)) ++ ys
          ≡ encode_cell_output c ++ (encode_bytes bs ++ (xs ++ ys))
    split c bs xs ys =
        append_assoc (encode_cell_output c) _ ys
        ∙ ap (◌++◌ (encode_cell_output c)) (append_assoc (encode_bytes bs) xs ys)

-- A pre-image with the ranges that Rust's types give, and counts that a byte holds.
pub record IsPreimage (p : CommitmentPreimage) : Type 0 where
  pub version_lt : p.version < 2 ^ 16
  pub inputs_lt : length p.inputs < 256
  pub outputs_lt : length p.outputs < 256
  pub inputs_valid : All IsInput p.inputs
  pub outputs_valid : All IsOutput p.outputs

abbrev body : CommitmentPreimage → List ℕ
body p = encode_inputs p.inputs ++ encode_outputs p.outputs

-- Two pre-images with the ranges of Rust's types, at most 255 inputs and 255 outputs each, and
-- parts whose sizes fit a u32, are the same when they have the same bytes.
pub preimage_encode-injective :
    (p q : CommitmentPreimage)
    → IsPreimage p
    → IsPreimage q
    → preimage_encode p ≡ preimage_encode q
    → p ≡ q
unfolding preimage_encode
preimage_encode-injective p q h g e =
    λ i. record { version = version i; inputs = ins.0 i; outputs = outs.0 i }
  where
    head :
        (reverse (le_bytes 2 p.version) ≡ reverse (le_bytes 2 q.version))
        × (((length p.inputs % 256) ∷ (length p.outputs % 256) ∷ body p)
            ≡ ((length q.inputs % 256) ∷ (length q.outputs % 256) ∷ body q))
    head =
        append_cancel (reverse (le_bytes 2 p.version)) (reverse (le_bytes 2 q.version)) _ _
          (omega (
            arith,
            length-reverse (le_bytes 2 p.version),
            length-reverse (le_bytes 2 q.version),
            length-le_bytes 2 p.version,
            length-le_bytes 2 q.version,
          ))
          (append_cancel rgbpp_tag rgbpp_tag _ _ refl e).1

    version : p.version ≡ q.version
    version = le_bytes-injective 2 p.version q.version (omega (arith, h)) (omega (arith, g)) (
        sym (reverse-reverse (le_bytes 2 p.version))
        ∙ ap reverse head.0
        ∙ reverse-reverse (le_bytes 2 q.version))

    counts :
        (length p.inputs % 256 ≡ length q.inputs % 256)
        × (length p.outputs % 256 ≡ length q.outputs % 256)
        × (body p ≡ body q)
    counts = (cc (head.1), cc (head.1), cc (head.1))

    ins : (p.inputs ≡ q.inputs) × (encode_outputs p.outputs ≡ encode_outputs q.outputs)
    ins =
        inputs-cancel p.inputs q.inputs (encode_outputs p.outputs) (encode_outputs q.outputs)
          h.inputs_valid g.inputs_valid (omega (arith, counts.0, h.inputs_lt, g.inputs_lt)) counts.2

    outs : (p.outputs ≡ q.outputs) × (◌≡◌ {A = List ℕ} [] [])
    outs =
        outputs-cancel p.outputs q.outputs [] [] h.outputs_valid g.outputs_valid
          (omega (arith, counts.1, h.outputs_lt, g.outputs_lt))
          (append-nil (encode_outputs p.outputs)
            ∙ ins.1
            ∙ sym (append-nil (encode_outputs q.outputs)))
