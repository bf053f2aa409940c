-- ===== src/Types/Ckb.antt =====
-- crates/types/src/ckb.rs: hashes, scripts, cells and out points. Hex text, serde and Display are
-- left out. A `[u8; 32]` is a byte string; `IsHash` says that it has 32 bytes.
use rgbpp_indexer.Common.{
  ℕ, ◌<◌, ◌^◌, ◌≡◌, Bool, true, Option, List, ◌==◌, length, replicate, if◌then◌else◌, bytes_eq,
  bytes_eq→eq, bytes_eq_refl, IsBytes, arith, ◌↔◌,
}
use rgbpp_indexer.Types.Error.{Result, ok, err, length_of}

pub record H256 : Type 0 where
  pub bytes : List ℕ

abbrev pub IsHash : List ℕ → Type 0
IsHash bs = (length bs ≡ 32) × IsBytes bs

unfoldable pub h256_zero : H256
h256_zero = record { bytes = replicate 32 0 }

unfoldable pub h256_from_slice : List ℕ → Result H256
h256_from_slice bs =
    if length bs == 32 then ok (record { bytes = bs }) else err (length_of "H256" 32 (length bs))

unfoldable pub h256_eq : H256 → H256 → Bool
h256_eq a b = bytes_eq a.bytes b.bytes

pub h256_eq_iff : (a b : H256) → (h256_eq a b ≡ true) ↔ (a ≡ b)
unfolding h256_eq
h256_eq_iff a b =
    (λ h. ground (arith, bytes_eq→eq a.bytes b.bytes h), λ e. rw e (bytes_eq_refl b.bytes))

-- `data_` is the source's `Data`.
pub data ScriptHashType : Type 0 where
  data_ type_ data1 data2 : ScriptHashType

unfoldable pub to_byte : ScriptHashType → ℕ
to_byte data_ = 0
to_byte type_ = 1
to_byte data1 = 2
to_byte data2 = 4

pub record Script : Type 0 where
  pub code_hash : H256
  pub hash_type : ScriptHashType
  pub args : List ℕ

unfoldable pub hash_type_eq : ScriptHashType → ScriptHashType → Bool
unfolding to_byte
hash_type_eq a b = to_byte a == to_byte b

pub hash_type_eq_iff : (a b : ScriptHashType) → (hash_type_eq a b ≡ true) ↔ (a ≡ b)
unfolding hash_type_eq
hash_type_eq_iff a b = (λ h. ground arith, λ e. ground arith)

pub record CkbOutPoint : Type 0 where
  pub tx_hash : H256
  pub index : ℕ

pub record CellOutput : Type 0 where
  pub capacity : ℕ
  pub lock : Script
  pub type_script : Option Script

-- The ranges that Rust's types give: bytes, 32-byte hashes, u32, u64.
pub record IsScript (s : Script) : Type 0 where
  pub code_hash_IsHash : IsHash s.code_hash.bytes
  pub args_IsBytes : IsBytes s.args

pub record IsOutPoint (o : CkbOutPoint) : Type 0 where
  pub tx_hash_IsHash : IsHash o.tx_hash.bytes
  pub index_lt : o.index < 2 ^ 32
