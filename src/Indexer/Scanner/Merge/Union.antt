-- ===== src/Indexer/Scanner/Merge/Union.antt =====
-- The merged list is the union of the lists that are merged.
use rgbpp_indexer.Common.{
  ◌≡◌, refl, sym, ◌∙◌, subst, ◌↔◌, ◌⊎◌, inl, inr, true, Bool-cases, List, [], ◌∷◌, ◌++◌, ◌==◌,
  ==_iff, bytes_eq_iff, if◌then◌else◌, Occurs, Occurs-append, and_inv, or_true,
}
use rgbpp_indexer.Client.{IoType, input, output, MatchedCell, TxRecord}
use rgbpp_indexer.Indexer.Scanner.Merge.{
  same_key, io_eq, cell_eq, contains_cell, add_cells, merge_record, merge_records,
}
use rgbpp_indexer.Indexer.Scanner.Merge.Ordered.{
  IsOrdered, merged_into, merge_record-cases, merge_records-IsOrdered,
}

-- The same key, as equations.
pub record SameKey (a b : TxRecord) : Type 0 where
  pub block_eq : a.block_number ≡ b.block_number
  pub index_eq : a.tx_index ≡ b.tx_index
  pub hash_eq : a.tx_hash.bytes ≡ b.tx_hash.bytes

same_key→SameKey : (a b : TxRecord) → same_key a b ≡ true → SameKey a b
unfolding same_key
same_key→SameKey a b h =
    let (x, r) = and_inv (a.block_number == b.block_number) _ h in
    let (y, z) = and_inv (a.tx_index == b.tx_index) _ r in
    record {
      block_eq = (==_iff a.block_number b.block_number).0 x;
      index_eq = (==_iff a.tx_index b.tx_index).0 y;
      hash_eq = (bytes_eq_iff a.tx_hash.bytes b.tx_hash.bytes).0 z;
    }

SameKey-trans : {a b c : TxRecord} → SameKey a b → SameKey b c → SameKey a c
SameKey-trans h k = record {
  block_eq = h.block_eq ∙ k.block_eq;
  index_eq = h.index_eq ∙ k.index_eq;
  hash_eq = h.hash_eq ∙ k.hash_eq;
}

SameKey-sym : {a b : TxRecord} → SameKey a b → SameKey b a
SameKey-sym h = record {
  block_eq = sym h.block_eq;
  index_eq = sym h.index_eq;
  hash_eq = sym h.hash_eq;
}

-- The list has a record with the key of `k` that matched the cell `c`.
abbrev pub HasMatch : TxRecord → MatchedCell → List TxRecord → Type 0
HasMatch k c [] = ⊥
HasMatch k c (x ∷ xs) = (SameKey x k × Occurs c x.cells) ⊎ HasMatch k c xs

cell_eq→eq : (a b : MatchedCell) → cell_eq a b ≡ true → a ≡ b
unfolding cell_eq
cell_eq→eq a b h =
    let (x, y) = and_inv (io_eq a.io_type b.io_type) _ h in
    let p = io_eq→eq a.io_type b.io_type x in
    let q = (==_iff a.io_index b.io_index).0 y in λ i. record { io_type = p i; io_index = q i }
  where
    io_eq→eq : (a b : IoType) → io_eq a b ≡ true → a ≡ b
    io_eq→eq input input h = refl
    io_eq→eq output output h = refl
    io_eq→eq input output h = cc
    io_eq→eq output input h = cc

contains_cell-Occurs :
    (xs : List MatchedCell) (c : MatchedCell) → contains_cell xs c ≡ true → Occurs c xs
unfolding contains_cell
contains_cell-Occurs [] c h = cc
contains_cell-Occurs (x ∷ xs) c h = elim (or_true (cell_eq x c) (contains_cell xs c) h) [
  | inl e ↦ inl (sym (cell_eq→eq x c e))
  | inr e ↦ inr (contains_cell-Occurs xs c e)
]

-- One cell is added, or was there.
add_one :
    (existing : List MatchedCell) (c d : MatchedCell)
    → Occurs d (if contains_cell existing c then existing else existing ++ (c ∷ []))
      ↔ (Occurs d existing ⊎ (d ≡ c))
add_one existing c d = elim (Bool-cases (contains_cell existing c)) [
  | inl e ↦ rw e (
    λ h. inl h,
    λ h. elim h [
      | inl a ↦ a
      | inr q ↦ subst (λ z. Occurs z existing) (sym q) (contains_cell-Occurs existing c e)
    ],
  )
  | inr e ↦ rw e (
    λ h. elim ((Occurs-append d existing (c ∷ [])).0 h) [
      | inl a ↦ inl a
      | inr k ↦ elim k [ inl q ↦ inr q | inr z ↦ absurd z ]
    ],
    λ h. (Occurs-append d existing (c ∷ [])).1 (elim h [ inl a ↦ inl a | inr q ↦ inr (inl q) ]),
  )
]

add_cells-Occurs :
    (existing cs : List MatchedCell) (d : MatchedCell)
    → Occurs d (add_cells existing cs) ↔ (Occurs d existing ⊎ Occurs d cs)
unfolding add_cells
add_cells-Occurs existing [] d = (λ h. inl h, λ h. elim h [ inl a ↦ a | inr z ↦ absurd z ])
add_cells-Occurs existing (c ∷ cs) d =
    let (down, up) =
      add_cells-Occurs (if contains_cell existing c then existing else existing ++ (c ∷ [])) cs d in
    let (d1, u1) = add_one existing c d in
    (
      λ h. elim (down h) [
        | inl a ↦ elim (d1 a) [ inl x ↦ inl x | inr q ↦ inr (inl q) ]
        | inr k ↦ inr (inr k)
      ],
      λ h. up (elim h [
        | inl a ↦ inl (u1 (inl a))
        | inr k ↦ elim k [ inl q ↦ inl (u1 (inr q)) | inr o ↦ inr o ]
      ]),
    )

module _ (k : TxRecord) (c : MatchedCell) where
  merged_match :
      (r x : TxRecord)
      → SameKey x r
      → (SameKey (merged_into r x) k × Occurs c (add_cells x.cells r.cells))
        ↔ ((SameKey r k × Occurs c r.cells) ⊎ (SameKey x k × Occurs c x.cells))
  merged_match r x s =
      let (down, up) = add_cells-Occurs x.cells r.cells c in
      (
        λ h.
            let here : SameKey x k = record {
              block_eq = h.0.block_eq;
              index_eq = h.0.index_eq;
              hash_eq = h.0.hash_eq;
            } in
            elim (down h.1) [
              | inl a ↦ inr (here, a)
              | inr b ↦ inl (SameKey-trans (SameKey-sym s) here, b)
            ],
        λ h. elim h [
          | inl (q, b) ↦
              let here = SameKey-trans s q in
              (
                record {
                  block_eq = here.block_eq;
                  index_eq = here.index_eq;
                  hash_eq = here.hash_eq;
                },
                up (inr b),
              )
          | inr (q, a) ↦ (
            record { block_eq = q.block_eq; index_eq = q.index_eq; hash_eq = q.hash_eq },
            up (inl a),
          )
        ],
      )

  merge_record-HasMatch :
      (r : TxRecord) (xs : List TxRecord)
      → HasMatch k c (merge_record r xs) ↔ ((SameKey r k × Occurs c r.cells) ⊎ HasMatch k c xs)
  unfolding merge_record
  merge_record-HasMatch r [] = (λ h. h, λ h. h)
  merge_record-HasMatch r (x ∷ xs) = elim (merge_record-cases r x xs) [
    | inl (s, e) ↦
        let (down, up) = merged_match r x (same_key→SameKey x r s) in
        rw e (
          λ h. elim h [
            | inl a ↦ elim (down a) [ inl p ↦ inl p | inr q ↦ inr (inl q) ]
            | inr o ↦ inr (inr o)
          ],
          λ h. elim h [
            | inl p ↦ inl (up (inl p))
            | inr o ↦ elim o [ inl q ↦ inl (up (inr q)) | inr z ↦ inr z ]
          ],
        )
    | inr (inl (_, e)) ↦ rw e (λ h. h, λ h. h)
    | inr (inr (_, e)) ↦
        let (down, up) = merge_record-HasMatch r xs in
        rw e (
          λ h. elim h [
            | inl a ↦ inr (inl a)
            | inr o ↦ elim (down o) [ inl p ↦ inl p | inr q ↦ inr (inr q) ]
          ],
          λ h. elim h [
            | inl p ↦ inr (up (inl p))
            | inr o ↦ elim o [ inl q ↦ inl q | inr z ↦ inr (up (inr z)) ]
          ],
        )
  ]

  merge_records-HasMatch :
      (rs merged : List TxRecord)
      → HasMatch k c (merge_records rs merged) ↔ (HasMatch k c rs ⊎ HasMatch k c merged)
  unfolding merge_records
  merge_records-HasMatch [] merged = (λ h. inr h, λ h. elim h [ inl z ↦ absurd z | inr o ↦ o ])
  merge_records-HasMatch (r ∷ rs) merged =
      let (down, up) = merge_records-HasMatch rs (merge_record r merged) in
      let (d1, u1) = merge_record-HasMatch r merged in
      (
        λ h. elim (down h) [
          | inl o ↦ inl (inr o)
          | inr o ↦ elim (d1 o) [ inl p ↦ inl (inl p) | inr q ↦ inr q ]
        ],
        λ h. up (elim h [
          | inl o ↦ elim o [ inl p ↦ inr (u1 (inl p)) | inr q ↦ inl q ]
          | inr q ↦ inr (u1 (inr q))
        ]),
      )

-- The two searches, merged as `collect_range` does: the transactions stand in the order of block, index and hash,
-- none twice, and a transaction has a matched cell exactly when it has it in one of the searches.
pub merge_records-union :
    (first second : List TxRecord)
    → IsOrdered (merge_records second (merge_records first []))
      × ((k : TxRecord) (c : MatchedCell)
          → HasMatch k c (merge_records second (merge_records first []))
            ↔ (HasMatch k c first ⊎ HasMatch k c second))
merge_records-union first second = (
  merge_records-IsOrdered second _ (merge_records-IsOrdered first [] tt),
  λ k c.
      let (d2, u2) = merge_records-HasMatch k c second (merge_records first []) in
      let (d1, u1) = merge_records-HasMatch k c first [] in
      (
        λ h. elim (d2 h) [
          | inl o ↦ inr o
          | inr o ↦ elim (d1 o) [ inl p ↦ inl p | inr z ↦ absurd z ]
        ],
        λ h. u2 (elim h [ inl p ↦ inr (u1 (inl p)) | inr o ↦ inl o ]),
      ),
)
