-- ===== src/Client/Order.antt =====
-- The order of the records of a range: `sort_records` puts them in order and keeps them all.
use rgbpp_indexer.Common.{
  ◌≡◌, refl, ◌↔◌, ◌⊎◌, inl, inr, true, false, Bool-cases, List, [], ◌∷◌, arith, All, All-imp,
  Occurs,
}
use rgbpp_indexer.Client.{TxRecord, key_lt, insert_record, sort_records}

-- No record stands in front of one with a smaller key.
abbrev pub IsSorted : List TxRecord → Type 0
IsSorted [] = Unit
IsSorted (x ∷ xs) = All (λ y. key_lt y x ≡ false) xs × IsSorted xs

key_lt_asym : (a b : TxRecord) → key_lt a b ≡ true → key_lt b a ≡ false
unfolding key_lt
key_lt_asym a b h = ground arith

not_key_lt_trans : (a b c : TxRecord) → key_lt a b ≡ false → key_lt b c ≡ false → key_lt a c ≡ false
unfolding key_lt
not_key_lt_trans a b c h k = ground arith

insert_record-cases :
    (r x : TxRecord) (xs : List TxRecord)
    → ((key_lt x r ≡ true) × (insert_record r (x ∷ xs) ≡ x ∷ insert_record r xs))
      ⊎ ((key_lt x r ≡ false) × (insert_record r (x ∷ xs) ≡ r ∷ x ∷ xs))
unfolding insert_record
insert_record-cases r x xs = elim (Bool-cases (key_lt x r)) [
  | inl e ↦ inl (e, rw e refl)
  | inr e ↦ inr (e, rw e refl)
]

insert_record-All :
    (P : TxRecord → Type 0) (r : TxRecord) (xs : List TxRecord)
    → P r
    → All P xs
    → All P (insert_record r xs)
unfolding insert_record
insert_record-All P r [] h k = (h, tt)
insert_record-All P r (x ∷ xs) h k = elim (insert_record-cases r x xs) [
  | inl (_, e) ↦ rw e (k.0, insert_record-All P r xs h k.1)
  | inr (_, e) ↦ rw e (h, k)
]

insert_record-IsSorted :
    (r : TxRecord) (xs : List TxRecord) → IsSorted xs → IsSorted (insert_record r xs)
unfolding insert_record
insert_record-IsSorted r [] h = (tt, tt)
insert_record-IsSorted r (x ∷ xs) h = elim (insert_record-cases r x xs) [
  | inl (c, e) ↦ rw e (
    insert_record-All (λ y. key_lt y x ≡ false) r xs (key_lt_asym x r c) h.0,
    insert_record-IsSorted r xs h.1,
  )
  | inr (c, e) ↦ rw e ((c, All-imp (λ y k. not_key_lt_trans y x r k c) xs h.0), h)
]

-- Sorting gives a list in order.
pub sort_records-IsSorted : (xs : List TxRecord) → IsSorted (sort_records xs)
unfolding sort_records
sort_records-IsSorted [] = tt
sort_records-IsSorted (x ∷ xs) =
    insert_record-IsSorted x (sort_records xs) (sort_records-IsSorted xs)

swap : {A B C : Type 0} → A ⊎ (B ⊎ C) → B ⊎ (A ⊎ C)
swap (inl a) = inr (inl a)
swap (inr (inl b)) = inl b
swap (inr (inr c)) = inr (inr c)

insert_record-Occurs :
    (y r : TxRecord) (xs : List TxRecord) → Occurs y (insert_record r xs) ↔ ((y ≡ r) ⊎ Occurs y xs)
unfolding insert_record
insert_record-Occurs y r [] = (λ h. h, λ h. h)
insert_record-Occurs y r (x ∷ xs) = elim (insert_record-cases r x xs) [
  | inl (_, e) ↦ rw e (
    λ h. elim h [ inl a ↦ inr (inl a) | inr k ↦ swap (inr ((insert_record-Occurs y r xs).0 k)) ],
    λ h. elim (swap h) [ inl a ↦ inl a | inr k ↦ inr ((insert_record-Occurs y r xs).1 k) ],
  )
  | inr (_, e) ↦ rw e (λ h. h, λ h. h)
]

-- Sorting keeps the records.
pub sort_records-Occurs :
    (y : TxRecord) (xs : List TxRecord) → Occurs y (sort_records xs) ↔ Occurs y xs
unfolding sort_records
sort_records-Occurs y [] = (λ h. h, λ h. h)
sort_records-Occurs y (x ∷ xs) =
    let (to, from) = insert_record-Occurs y x (sort_records xs) in
    let (to', from') = sort_records-Occurs y xs in
    (
      λ h. elim (to h) [ inl a ↦ inl a | inr k ↦ inr (to' k) ],
      λ h. from (elim h [ inl a ↦ inl a | inr k ↦ inr (from' k) ]),
    )
