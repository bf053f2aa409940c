-- ===== src/Types/Molecule/Scripts.antt =====
-- `decode_script` and `encode_script` are inverse to one another.
use rgbpp_indexer.Common.{
  ℕ, ◌+◌, ◌-◌, ◌^◌, ◌<◌, ◌≡◌, refl, sym, ap, ap₂, subst, ◌∙◌, List, [], ◌∷◌, ◌++◌, true, false,
  arith, length, length-append, le_bytes, from_le, length-le_bytes, drop, take-append-drop, IsBytes,
  ltb, ltb-false, ◌==◌, ==_iff, All, length-drop,
}
use rgbpp_indexer.Types.Error.{
  ok, slice, ok-injective, >>=-eq-ok, guard_else-eq-ok, guard_then-eq-ok,
}
use rgbpp_indexer.Types.Ckb.{
  H256, Script, ScriptHashType, data_, type_, data1, data2, to_byte, h256_from_slice,
}
use rgbpp_indexer.Types.Molecule.{
  as_u32, encode_bytes, encode_table, encode_script, read_table_fields, read_bytes,
  hash_type_from_byte, one_byte, script_from_fields, decode_script,
}
use rgbpp_indexer.Types.Molecule.Slices.{slice_head, slice_tail}
use rgbpp_indexer.Types.Molecule.Tables.{read_u32}
use rgbpp_indexer.Types.Molecule.RoundTrip.{
  table_size, length-encode_table, read_table_fields-encode_table,
}
use rgbpp_indexer.Types.Molecule.Canonical.{slice-inv, slice_u32, take_all}
use rgbpp_indexer.Types.Molecule.Unique.{read_table_fields-IsBytes, encode_table-read_table_fields}

pub length-encode_bytes : (bs : List ℕ) → length (encode_bytes bs) ≡ 4 + length bs
unfolding encode_bytes
length-encode_bytes bs = omega (
  arith,
  length-append (le_bytes 4 (as_u32 (length bs))) bs,
  length-le_bytes 4 (as_u32 (length bs)),
)

pub read_bytes-encode_bytes :
    (bs : List ℕ) → length bs < 2 ^ 32 → read_bytes (encode_bytes bs) ≡ ok bs
unfolding read_bytes le_bytes slice encode_bytes
read_bytes-encode_bytes bs h =
    rw (short, size, whole)
      (slice_tail (le_bytes 4 (as_u32 (length bs))) bs 4 _ (sym prefix)
        (omega (arith, len, prefix)))
  where
    len : length (encode_bytes bs) ≡ 4 + length bs
    len = length-encode_bytes bs

    prefix : length (le_bytes 4 (as_u32 (length bs))) ≡ 4
    prefix = length-le_bytes 4 (as_u32 (length bs))

    short : ltb (length (encode_bytes bs)) 4 ≡ false
    short = ltb-false _ 4 (omega (arith, len))

    size : slice (encode_bytes bs) 0 4 ≡ ok (le_bytes 4 (as_u32 (length bs)))
    size = unfold encode_bytes in slice_head _ bs 4 (sym prefix)

    whole : (4 + from_le (le_bytes 4 (as_u32 (length bs))) == length (encode_bytes bs)) ≡ true
    whole = (==_iff _ _).1 (omega (arith, len, read_u32 (length bs) h))

pub encode_bytes-read_bytes :
    (bs out : List ℕ) → IsBytes bs → read_bytes bs ≡ ok out → encode_bytes out ≡ bs
unfolding read_bytes encode_bytes
encode_bytes-read_bytes bs out v h =
    let (_, k) = guard_else-eq-ok (ltb (length bs) 4) _ _ h in
    let (size, e, m) = >>=-eq-ok (slice bs 0 4) _ k in
    let (c, r) = guard_then-eq-ok (4 + from_le size == length bs) _ _ m in
    let total : 4 + from_le size ≡ length bs = (==_iff _ (length bs)).0 c in
    let (four, cut, back, small) = slice_u32 bs 0 size v e in
    let rest : out ≡ drop 4 bs =
      sym (slice-inv bs 4 (length bs) out r).2
      ∙ take_all (length bs - 4) (drop 4 bs) (sym (length-drop 4 bs)) in
    let len : as_u32 (length out) ≡ from_le size =
      omega (arith, ap length rest, length-drop 4 bs, total, small) in
    ap₂ ◌++◌ (ap (le_bytes 4) len ∙ back ∙ sym cut) rest ∙ take-append-drop 4 bs

pub list₃ {ℓ} :
    {A : Type ℓ} {a b c x y z : A}
    → a ≡ x
    → b ≡ y
    → c ≡ z
    → ◌≡◌ {A = List A} (a ∷ b ∷ c ∷ []) (x ∷ y ∷ z ∷ [])
list₃ p q r = λ i. p i ∷ q i ∷ r i ∷ []

hash_type-roundtrip : (t : ScriptHashType) → hash_type_from_byte (to_byte t) ≡ ok t
unfolding hash_type_from_byte to_byte
hash_type-roundtrip data_ = refl
hash_type-roundtrip type_ = refl
hash_type-roundtrip data1 = refl
hash_type-roundtrip data2 = refl

to_byte-hash_type : (b : ℕ) (t : ScriptHashType) → hash_type_from_byte b ≡ ok t → to_byte t ≡ b
unfolding hash_type_from_byte to_byte
to_byte-hash_type b t h = ground arith

-- The ranges under which a script's encoding fits the u32 of its size header.
abbrev pub FitsScript : Script → Type 0
FitsScript s = (length s.code_hash.bytes ≡ 32) × (length s.args + 53 < 2 ^ 32)

abbrev script_fields : Script → List (List ℕ)
script_fields s = s.code_hash.bytes ∷ (to_byte s.hash_type ∷ []) ∷ encode_bytes s.args ∷ []

script_fits : (s : Script) → FitsScript s → table_size (script_fields s) ≡ 53 + length s.args
script_fits s f = omega (arith, length-encode_bytes s.args, f)

pub length-encode_script :
    (s : Script) → FitsScript s → length (encode_script s) ≡ 53 + length s.args
unfolding encode_script
length-encode_script s f =
    length-encode_table (script_fields s) (omega (arith, script_fits s f, f)) ∙ script_fits s f

fields-roundtrip : (s : Script) → FitsScript s → script_from_fields (script_fields s) ≡ ok s
unfolding script_from_fields h256_from_slice one_byte
fields-roundtrip s f =
    rw (f.0, hash_type-roundtrip s.hash_type, read_bytes-encode_bytes s.args (omega (arith, f)))

-- A script with a code hash of 32 bytes, whose encoding fits a u32 size header, is decoded from
-- its encoding.
pub decode_script-encode_script :
    (s : Script) → FitsScript s → decode_script (encode_script s) ≡ ok s
unfolding decode_script encode_script
decode_script-encode_script s f =
    rw (read_table_fields-encode_table (script_fields s) (omega (arith, script_fits s f, f)))
      (fields-roundtrip s f)

one_byte-inv : (bs : List ℕ) (b : ℕ) → one_byte bs ≡ ok b → bs ≡ b ∷ []
unfolding one_byte
one_byte-inv [] b h = cc
one_byte-inv (x ∷ []) b h = cc
one_byte-inv (x ∷ y ∷ bs) b h = cc

h256-inv : (bs : List ℕ) (h : H256) → h256_from_slice bs ≡ ok h → (h.bytes ≡ bs) × (length bs ≡ 32)
unfolding h256_from_slice
h256-inv bs h e = ground arith

pub script_from_fields-inv :
    (fs : List (List ℕ)) (s : Script)
    → All IsBytes fs
    → script_from_fields fs ≡ ok s
    → (script_fields s ≡ fs) × (length s.code_hash.bytes ≡ 32)
unfolding script_from_fields
script_from_fields-inv [] s v h = cc
script_from_fields-inv (a ∷ []) s v h = cc
script_from_fields-inv (a ∷ b ∷ []) s v h = cc
script_from_fields-inv (a ∷ b ∷ c ∷ d ∷ fs) s v h = cc
script_from_fields-inv (a ∷ b ∷ c ∷ []) s v h =
    let (hash, e1, k1) = >>=-eq-ok (h256_from_slice a) _ h in
    let (byte, e2, k2) = >>=-eq-ok (one_byte b) _ k1 in
    let (kind, e3, k3) = >>=-eq-ok (hash_type_from_byte byte) _ k2 in
    let (args, e4, k4) = >>=-eq-ok (read_bytes c) _ k3 in
    let (eq_hash, len) = h256-inv a hash e1 in
    let made : Script = record { code_hash = hash; hash_type = kind; args = args } in
    subst (λ t. (script_fields t ≡ a ∷ b ∷ c ∷ []) × (length t.code_hash.bytes ≡ 32))
      (ok-injective k4)
      (
        list₃ eq_hash
            (ap (λ x. x ∷ []) (to_byte-hash_type byte kind e3) ∙ sym (one_byte-inv b byte e2))
            (encode_bytes-read_bytes c args v.1.1.0 e4),
        ap length eq_hash ∙ len,
      )

-- A byte string that decodes to a script is the encoding of that script.
pub encode_script-decode_script :
    (bs : List ℕ) (s : Script) → IsBytes bs → decode_script bs ≡ ok s → encode_script s ≡ bs
unfolding decode_script encode_script
encode_script-decode_script bs s v h =
    let (fs, e, k) = >>=-eq-ok (read_table_fields bs) _ h in
    ap encode_table (script_from_fields-inv fs s (read_table_fields-IsBytes bs fs v e) k).0
    ∙ encode_table-read_table_fields bs fs v e
