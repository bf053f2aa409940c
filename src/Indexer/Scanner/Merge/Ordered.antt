-- ===== src/Indexer/Scanner/Merge/Ordered.antt =====
-- The merged list is in the order of the keys.
use rgbpp_indexer.Common.{
  ℕ, ◌≡◌, refl, ◌⊎◌, inl, inr, true, false, Bool-cases, List, [], ◌∷◌, bytes_eq, arith, All,
  All-imp,
}
use rgbpp_indexer.Client.{TxRecord}
use rgbpp_indexer.Indexer.Scanner.Merge.{
  bytes_lt, same_key, before, add_cells, merge_record, merge_records,
}

pub bytes_lt_trans :
    (a b c : List ℕ) → bytes_lt a b ≡ true → bytes_lt b c ≡ true → bytes_lt a c ≡ true
unfolding bytes_lt
bytes_lt_trans [] [] [] h k = cc
bytes_lt_trans [] (y ∷ b) [] h k = cc
bytes_lt_trans [] b (z ∷ c) h k = refl
bytes_lt_trans (x ∷ a) [] c h k = cc
bytes_lt_trans (x ∷ a) (y ∷ b) [] h k = cc
bytes_lt_trans (x ∷ a) (y ∷ b) (z ∷ c) h k = ground (arith, bytes_lt_trans a b c)

bytes_lt_total : (a b : List ℕ) → bytes_lt a b ≡ false → bytes_eq b a ≡ false → bytes_lt b a ≡ true
unfolding bytes_lt bytes_eq
bytes_lt_total [] [] h k = cc
bytes_lt_total [] (y ∷ b) h k = cc
bytes_lt_total (x ∷ a) [] h k = refl
bytes_lt_total (x ∷ a) (y ∷ b) h k = ground (arith, bytes_lt_total a b)

pub before_trans : (a b c : TxRecord) → before a b ≡ true → before b c ≡ true → before a c ≡ true
unfolding before
before_trans a b c h k =
    ground (arith, bytes_lt_trans a.tx_hash.bytes b.tx_hash.bytes c.tx_hash.bytes)

before_total : (a b : TxRecord) → same_key b a ≡ false → before a b ≡ false → before b a ≡ true
unfolding before same_key
before_total a b h k = ground (arith, bytes_lt_total a.tx_hash.bytes b.tx_hash.bytes)

-- The keys increase: no key stands twice.
abbrev pub IsOrdered : List TxRecord → Type 0
IsOrdered [] = Unit
IsOrdered (x ∷ xs) = All (λ y. before x y ≡ true) xs × IsOrdered xs

abbrev pub merged_into : TxRecord → TxRecord → TxRecord
merged_into r x = record x { cells = add_cells x.cells r.cells }

pub merge_record-cases :
    (r x : TxRecord) (xs : List TxRecord)
    → ((same_key x r ≡ true) × (merge_record r (x ∷ xs) ≡ merged_into r x ∷ xs))
      ⊎ (((before r x ≡ true) × (merge_record r (x ∷ xs) ≡ r ∷ x ∷ xs))
          ⊎ ((before x r ≡ true) × (merge_record r (x ∷ xs) ≡ x ∷ merge_record r xs)))
unfolding merge_record
merge_record-cases r x xs = elim (Bool-cases (same_key x r)) [
  | inl e ↦ inl (e, rw e refl)
  | inr e ↦ elim (Bool-cases (before r x)) [
    | inl f ↦ inr (inl (f, rw (e, f) refl))
    | inr f ↦ inr (inr (before_total r x e f, rw (e, f) refl))
  ]
]

-- A property of the keys alone.
abbrev KeyOnly : (TxRecord → Type 0) → Type 0
KeyOnly P = (r x : TxRecord) → P x → P (merged_into r x)

merge_record-All :
    (P : TxRecord → Type 0) (r : TxRecord) (xs : List TxRecord)
    → KeyOnly P
    → P r
    → All P xs
    → All P (merge_record r xs)
unfolding merge_record
merge_record-All P r [] keys h k = (h, tt)
merge_record-All P r (x ∷ xs) keys h k = elim (merge_record-cases r x xs) [
  | inl (_, e) ↦ rw e (keys r x k.0, k.1)
  | inr (inl (_, e)) ↦ rw e (h, k)
  | inr (inr (_, e)) ↦ rw e (k.0, merge_record-All P r xs keys h k.1)
]

before-KeyOnly : (x : TxRecord) → KeyOnly (λ y. before x y ≡ true)
unfolding before
before-KeyOnly x r y h = h

before_merged : (r x y : TxRecord) → before x y ≡ true → before (merged_into r x) y ≡ true
unfolding before
before_merged r x y h = h

merge_record-IsOrdered :
    (r : TxRecord) (xs : List TxRecord) → IsOrdered xs → IsOrdered (merge_record r xs)
unfolding merge_record
merge_record-IsOrdered r [] h = (tt, tt)
merge_record-IsOrdered r (x ∷ xs) h = elim (merge_record-cases r x xs) [
  | inl (_, e) ↦ rw e (All-imp (λ y k. before_merged r x y k) xs h.0, h.1)
  | inr (inl (c, e)) ↦ rw e ((c, All-imp (λ y k. before_trans r x y c k) xs h.0), h)
  | inr (inr (c, e)) ↦ rw e (
    merge_record-All (λ y. before x y ≡ true) r xs (before-KeyOnly x) c h.0,
    merge_record-IsOrdered r xs h.1,
  )
]

pub merge_records-IsOrdered :
    (rs merged : List TxRecord) → IsOrdered merged → IsOrdered (merge_records rs merged)
unfolding merge_records
merge_records-IsOrdered [] merged h = h
merge_records-IsOrdered (r ∷ rs) merged h =
    merge_records-IsOrdered rs (merge_record r merged) (merge_record-IsOrdered r merged h)
