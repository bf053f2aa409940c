-- ===== src/Types/Commitment/Preimage.antt =====
-- The parts of a pre-image tell their own length, and the bytes of a part determine it.
use rgbpp_indexer.Common.{
  ℕ, ◌+◌, ◌^◌, ◌<◌, ◌≡◌, refl, sym, ap, ap₂, ◌∙◌, List, [], ◌∷◌, ◌++◌, Option, none, some, arith,
  length, append_assoc, le_bytes, from_le, length-le_bytes, from_le-le_bytes,
}
use rgbpp_indexer.Types.Error.{ok-injective}
use rgbpp_indexer.Types.Ckb.{Script, CkbOutPoint, CellOutput}
use rgbpp_indexer.Types.Molecule.{
  as_u32, encode_table, encode_bytes, encode_script, encode_script_opt, encode_uint64,
  read_table_fields, decode_script,
}
use rgbpp_indexer.Types.Molecule.Tables.{read_u32}
use rgbpp_indexer.Types.Molecule.RoundTrip.{
  table_size, length-encode_table, read_table_fields-encode_table,
}
use rgbpp_indexer.Types.Molecule.Scripts.{
  FitsScript, length-encode_script, decode_script-encode_script,
}

pub append_cancel :
    (xs ys r s : List ℕ) → length xs ≡ length ys → xs ++ r ≡ ys ++ s → (xs ≡ ys) × (r ≡ s)
append_cancel [] [] r s n h = (refl, h)
append_cancel [] (y ∷ ys) r s n h = absurd (omega arith)
append_cancel (x ∷ xs) [] r s n h = absurd (omega arith)
append_cancel (x ∷ xs) (y ∷ ys) r s n h =
    let (a, b) = append_cancel xs ys r s (omega arith) (cc) in (ap₂ ◌∷◌ (cc) a, b)

pub le_bytes-injective :
    (k a b : ℕ) → a < 256 ^ k → b < 256 ^ k → le_bytes k a ≡ le_bytes k b → a ≡ b
le_bytes-injective k a b h g e =
    sym (from_le-le_bytes k a h) ∙ ap from_le e ∙ from_le-le_bytes k b g

as_u32-injective :
    (a b : ℕ) → a < 2 ^ 32 → b < 2 ^ 32 → le_bytes 4 (as_u32 a) ≡ le_bytes 4 (as_u32 b) → a ≡ b
as_u32-injective a b h g e = sym (read_u32 a h) ∙ ap from_le e ∙ read_u32 b g

-- The size header of a table, in front of whatever follows it.
table-header :
    (fs : List (List ℕ)) (r : List ℕ)
    → (rest : List ℕ) × (encode_table fs ++ r ≡ le_bytes 4 (as_u32 (table_size fs)) ++ rest)
unfolding encode_table
table-header fs r = (_, append_assoc (le_bytes 4 (as_u32 (table_size fs))) _ r)

-- A table tells its own length, so it can be cut off the front of what follows it.
pub table-cancel :
    (fs gs : List (List ℕ)) (r s : List ℕ)
    → table_size fs < 2 ^ 32
    → table_size gs < 2 ^ 32
    → encode_table fs ++ r ≡ encode_table gs ++ s
    → (fs ≡ gs) × (r ≡ s)
table-cancel fs gs r s h g e =
    let (x, ex) = table-header fs r in
    let (y, ey) = table-header gs s in
    let heads =
      append_cancel (le_bytes 4 (as_u32 (table_size fs))) (le_bytes 4 (as_u32 (table_size gs))) x y
        (length-le_bytes 4 _ ∙ sym (length-le_bytes 4 _)) (sym ex ∙ e ∙ ey) in
    let size = as_u32-injective (table_size fs) (table_size gs) h g heads.0 in
    let (a, b) =
      append_cancel (encode_table fs) (encode_table gs) r s
        (omega (arith, length-encode_table fs h, length-encode_table gs g, size)) e in
    (
      ok-injective (
          sym (read_table_fields-encode_table fs h)
          ∙ ap read_table_fields a
          ∙ read_table_fields-encode_table gs g),
      b,
    )

pub bytes-cancel :
    (xs ys r s : List ℕ)
    → length xs < 2 ^ 32
    → length ys < 2 ^ 32
    → encode_bytes xs ++ r ≡ encode_bytes ys ++ s
    → (xs ≡ ys) × (r ≡ s)
unfolding encode_bytes
bytes-cancel xs ys r s h g e =
    let (a, b) =
      append_cancel (le_bytes 4 (as_u32 (length xs))) (le_bytes 4 (as_u32 (length ys))) (xs ++ r)
        (ys ++ s) (length-le_bytes 4 _ ∙ sym (length-le_bytes 4 _))
        (sym (append_assoc _ xs r) ∙ e ∙ append_assoc _ ys s) in
    append_cancel xs ys r s (as_u32-injective (length xs) (length ys) h g a) b

abbrev pub FitsScriptOpt : Option Script → Type 0
FitsScriptOpt none = Unit
FitsScriptOpt (some s) = FitsScript s

-- What Rust's types give for a cell and its data, and room in the u32 size headers.
pub record IsOutput (o : CellOutput × List ℕ) : Type 0 where
  pub capacity_lt : o.0.capacity < 2 ^ 64
  pub lock_fits : FitsScript o.0.lock
  pub type_fits : FitsScriptOpt o.0.type_script
  pub size_fits :
      24 + length (encode_script o.0.lock) + length (encode_script_opt o.0.type_script) < 2 ^ 32
  pub data_fits : length o.1 < 2 ^ 32

abbrev pub IsInput : CkbOutPoint → Type 0
IsInput o = (length o.tx_hash.bytes ≡ 32) × (o.index < 2 ^ 32)

script-injective :
    (s t : Script) → FitsScript s → FitsScript t → encode_script s ≡ encode_script t → s ≡ t
script-injective s t h g e =
    ok-injective
      (sym (decode_script-encode_script s h) ∙ ap decode_script e ∙ decode_script-encode_script t g)

script_opt-injective :
    (s t : Option Script)
    → FitsScriptOpt s
    → FitsScriptOpt t
    → encode_script_opt s ≡ encode_script_opt t
    → s ≡ t
unfolding encode_script_opt
script_opt-injective none none h g e = refl
script_opt-injective none (some t) h g e =
    absurd (omega (arith, ap length e, length-encode_script t g))
script_opt-injective (some s) none h g e =
    absurd (omega (arith, ap length e, length-encode_script s h))
script_opt-injective (some s) (some t) h g e = ap some (script-injective s t h g e)

abbrev pub cell_fields : CellOutput → List (List ℕ)
cell_fields o =
    encode_uint64 o.capacity ∷ encode_script o.lock ∷ encode_script_opt o.type_script ∷ []

pub cell_size : (o : CellOutput × List ℕ) → IsOutput o → table_size (cell_fields o.0) < 2 ^ 32
unfolding encode_uint64
cell_size o h = omega (arith, length-le_bytes 8 o.0.capacity, h)

pub fields-injective :
    (o p : CellOutput × List ℕ)
    → IsOutput o
    → IsOutput p
    → cell_fields o.0 ≡ cell_fields p.0
    → o.0 ≡ p.0
unfolding encode_uint64
fields-injective o p h g e =
    λ i. record { capacity = capacity i; lock = lock i; type_script = type_script i }
  where
    capacity : o.0.capacity ≡ p.0.capacity
    capacity =
        le_bytes-injective 8 o.0.capacity p.0.capacity (omega (arith, h)) (omega (arith, g)) (cc)

    lock : o.0.lock ≡ p.0.lock
    lock = script-injective o.0.lock p.0.lock h.lock_fits g.lock_fits (cc)

    type_script : o.0.type_script ≡ p.0.type_script
    type_script = script_opt-injective o.0.type_script p.0.type_script h.type_fits g.type_fits (cc)
