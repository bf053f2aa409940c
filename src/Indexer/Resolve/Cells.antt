-- ===== src/Indexer/Resolve/Cells.antt =====
-- Consumed cells are resolved to the cells that were written.
use rgbpp_indexer.Common.{
  length, none, ==_iff, and_inv, ℕ, ◌≡◌, refl, sym, ap, subst, ◌∙◌, inl, inr, Bool-cases, true,
  Option, some, List, bytes_eq_refl,
}
use rgbpp_indexer.Types.Error.{ok, >>=-eq-ok, ok-injective}
use mathlib.Core.Option
use rgbpp_indexer.Types.Json.{get_text, find_text, text_eq}
use rgbpp_indexer.Types.Text.{hash_type_from_str-str, lock_kind_from_str-str}
use rgbpp_indexer.Types.Ckb.{
  h256_from_slice, H256, h256_eq, h256_eq_iff, Script, hash_type_eq, hash_type_eq_iff, CkbOutPoint,
}
use rgbpp_indexer.Types.Protocol.{
  LockKind, LockBinding, ScriptId, ProtocolScripts, matches, classify, binding_kind, binding_parse,
  rgbpp_parse, btc_time_parse,
}
use rgbpp_indexer.Types.Asset.{AssetScripts}
use rgbpp_indexer.Store.Models.{NewCell}
use rgbpp_indexer.Indexer.Extract.{
  ResolvedInput, BlockContext, RgbppOutput, build_new_cell, calc_hash, script_to_json,
}
use rgbpp_indexer.Indexer.Resolve.{
  script_from_json, type_from_json, row_lock_kind, script_id, lock_of, binding_from_row,
  cell_output_from_row,
}

matches-inv :
    (id : ScriptId) (s : Script)
    → matches id s ≡ true
    → (s.code_hash ≡ id.code_hash) × (s.hash_type ≡ id.hash_type)
unfolding matches
matches-inv id s h =
    let (a, b) =
      and_inv (h256_eq s.code_hash id.code_hash) (hash_type_eq s.hash_type id.hash_type) h in
    ((h256_eq_iff s.code_hash id.code_hash).0 a, (hash_type_eq_iff s.hash_type id.hash_type).0 b)

classify-inv :
    (p : ProtocolScripts) (s : Script) (kind : LockKind)
    → classify p s ≡ some kind
    → matches (script_id p kind) s ≡ true
unfolding classify script_id
classify-inv p s kind h = elim (Bool-cases (matches p.rgbpp_lock s)) [
  | inl e ↦
      let k = rw (e, classify) at h in
      let q : LockKind.rgbpp ≡ kind = cc in subst (λ kind. matches (script_id p kind) s ≡ true) q e
  | inr e ↦ elim (Bool-cases (matches p.btc_time_lock s)) [
    | inl f ↦
        let k = rw (e, f, classify) at h in
        let q : LockKind.btc_time ≡ kind = cc in
        subst (λ kind. matches (script_id p kind) s ≡ true) q f
    | inr f ↦ absurd (let k = rw (e, f, classify) at h in cc)
  ]
]

-- The lock is known from its kind and its args.
lock_of-classify :
    (p : ProtocolScripts) (s : Script) (kind : LockKind)
    → classify p s ≡ some kind
    → lock_of p kind s.args ≡ s
unfolding lock_of
lock_of-classify p s kind h =
    let (a, b) = matches-inv (script_id p kind) s (classify-inv p s kind h) in
    λ i. record { code_hash = sym a i; hash_type = sym b i; args = s.args }

binding_kind-parse :
    (kind : LockKind) (bs : List ℕ) (b : LockBinding)
    → binding_parse kind bs ≡ ok b
    → binding_kind b ≡ kind
unfolding binding_parse binding_kind
binding_kind-parse LockKind.rgbpp bs b h =
    let (a, _, k) = >>=-eq-ok (rgbpp_parse bs) _ h in
    subst (λ b. binding_kind b ≡ LockKind.rgbpp) (ok-injective k) refl
binding_kind-parse LockKind.btc_time bs b h =
    let (a, _, k) = >>=-eq-ok (btc_time_parse bs) _ h in
    subst (λ b. binding_kind b ≡ LockKind.btc_time) (ok-injective k) refl

-- The code hash has the length of its type.
abbrev pub HasHashes : Option Script → Type 0
HasHashes none = Unit {0}
HasHashes (some s) = length s.code_hash.bytes ≡ 32

script_from_json-script_to_json :
    (s : Script) → length s.code_hash.bytes ≡ 32 → script_from_json (script_to_json s) ≡ ok s
unfolding script_from_json script_to_json get_text find_text text_eq h256_from_slice
script_from_json-script_to_json s h =
    rw ((==_iff (length s.code_hash.bytes) 32).1 h, hash_type_from_str-str s.hash_type) refl

type_from_json-script_to_json :
    (t : Option Script) → HasHashes t → type_from_json (Option.map script_to_json t) ≡ ok t
type_from_json-script_to_json none h = refl
type_from_json-script_to_json (some s) h = rw (script_from_json-script_to_json s h) refl

row_lock_kind-eq-ok : (row : NewCell) → row_lock_kind row ≡ ok row.lock_kind
unfolding row_lock_kind
row_lock_kind-eq-ok row = rw (lock_kind_from_str-str row.lock_kind, row_lock_kind) refl

module _ (blake2b : List ℕ → List ℕ) (p : ProtocolScripts) (assets : AssetScripts) where
  module _ (tx_hash : H256) (o : RgbppOutput) (block : BlockContext) (kind : LockKind)
      (c : classify p o.cell.lock ≡ some kind)
      (b : binding_parse kind o.cell.lock.args ≡ ok o.binding)
      (hashes : HasHashes o.cell.type_script) where
    abbrev written_row : NewCell
    written_row = build_new_cell blake2b assets tx_hash o block

    row_kind : written_row.lock_kind ≡ kind
    unfolding build_new_cell
    row_kind = binding_kind-parse kind o.cell.lock.args o.binding b

    row_lock : lock_of p written_row.lock_kind written_row.lock_args ≡ o.cell.lock
    unfolding build_new_cell
    row_lock =
        ap (λ kind. lock_of p kind o.cell.lock.args) row_kind
        ∙ lock_of-classify p o.cell.lock kind c

    row_binding : binding_parse written_row.lock_kind written_row.lock_args ≡ ok o.binding
    unfolding build_new_cell
    row_binding = ap (λ kind. binding_parse kind o.cell.lock.args) row_kind ∙ b

    row_type : type_from_json written_row.type_script ≡ ok o.cell.type_script
    unfolding build_new_cell
    row_type = type_from_json-script_to_json o.cell.type_script hashes

    -- The row that is written for an output whose lock is of the protocol, whose args parse as its binding, and whose
    -- type script has a code hash of 32 bytes, is read back, through the texts of its columns, as that binding and
    -- that cell, with the type script and the whole lock, whose code hash the row does not hold.
    pub cell_output_from_row-build_new_cell :
        (binding_from_row (build_new_cell blake2b assets tx_hash o block) ≡ ok o.binding)
        × (cell_output_from_row blake2b p (build_new_cell blake2b assets tx_hash o block)
            ≡ ok o.cell)
    unfolding binding_from_row cell_output_from_row build_new_cell
    cell_output_from_row-build_new_cell = (
      rw (row_lock_kind-eq-ok written_row) row_binding,
      rw
          (
            row_lock_kind-eq-ok written_row,
            row_lock,
            bytes_eq_refl (calc_hash blake2b o.cell.lock),
            row_type,
          )
          refl,
    )

    abbrev resolved_output : CkbOutPoint → ℕ → ResolvedInput
    resolved_output out_point input_index = record {
      input_index = input_index;
      out_point = out_point;
      binding = o.binding;
      cell = o.cell;
      cell_data = o.cell_data;
    }
