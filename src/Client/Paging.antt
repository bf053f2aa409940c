-- ===== src/Client/Paging.antt =====
-- The collection of a range: it ends, and it has every transaction.
use rgbpp_indexer.Common.{
  ◌%◌, ◌^◌, subst, ltb-false, or_true, or_false, Occurs, ℕ, suc, zero, ◌+◌, ◌-◌, ◌≤◌, ◌<◌, max, ◌≡◌,
  refl, sym, ap, ◌∙◌, ◌↔◌, inl, inr, true, false, ◌||◌, Bool-cases, Option, none, some, List, [],
  ◌∷◌, ◌++◌, append_assoc, length, take, drop, take-append-drop, length-drop, length-take-le,
  take_whole, ltb→lt, ltb, ltb-false→le, arith, drop-drop,
}
use rgbpp_indexer.Types.Error.{Result, ok}
use rgbpp_indexer.Types.Ckb.{Script}
use rgbpp_indexer.Client.Order.{IsSorted, sort_records-IsSorted, sort_records-Occurs}
use rgbpp_indexer.Client.{
  TxRecord, Page, Node, in_range, keep_in_range, no_bytes, page_loop, sort_records,
  collect_transactions_in_range,
}

pub keep_in_range-append :
    (from to : ℕ) (xs ys : List TxRecord)
    → keep_in_range from to (xs ++ ys) ≡ keep_in_range from to xs ++ keep_in_range from to ys
unfolding keep_in_range
keep_in_range-append from to [] ys = refl
keep_in_range-append from to (x ∷ xs) ys = elim (Bool-cases (in_range from to x)) [
  | inl e ↦ rw (e, keep_in_range-append from to xs ys) refl
  | inr e ↦ rw (e, keep_in_range-append from to xs ys) refl
]

-- An indexer that serves the list `all` in pages of `limit`: the cursor that ends the page from position `k` is
-- `cursor k`, it leads to the position behind the page, and it is empty only at the end of the list.
pub record Serves (pages : Option (List ℕ) → Result Page) (limit : ℕ) (all : List TxRecord)
    : Type 0 where
  pub cursor : ℕ → List ℕ
  pub position : List ℕ → ℕ
  pub first_page : pages none ≡ ok (record { objects = take limit all; last_cursor = cursor 0 })
  pub next_page :
      (c : List ℕ)
      → pages (some c)
        ≡ ok (record {
          objects = take limit (drop (position c) all);
          last_cursor = cursor (position c);
        })
  pub position_cursor : (k : ℕ) → k + limit ≤ length all → position (cursor k) ≡ k + limit
  pub empty_cursor : (k : ℕ) → no_bytes (cursor k) ≡ true → length all ≤ k + limit

-- A page that is short, or that ends with the list, holds all that is left.
short_page : (limit : ℕ) (xs : List TxRecord) → length (take limit xs) < limit → take limit xs ≡ xs
short_page zero xs h = absurd (omega arith)
short_page (suc n) [] h = refl
short_page (suc n) (x ∷ xs) h = ap (◌∷◌ x) (short_page n xs (omega arith))

module _ {pages : Option (List ℕ) → Result Page} {limit : ℕ} {all : List TxRecord}
    (serves : Serves pages limit all) (positive : 0 < limit) (from to : ℕ) where
  abbrev page_at : ℕ → Page
  page_at k = record { objects = take limit (drop k all); last_cursor = serves.cursor k }

  last_page :
      (k : ℕ)
      → (ltb (length (take limit (drop k all))) limit || no_bytes (serves.cursor k)) ≡ true
      → k ≤ length all
      → take limit (drop k all) ≡ drop k all
  last_page k e h =
      elim (or_true (ltb (length (take limit (drop k all))) limit) (no_bytes (serves.cursor k)) e) [
        | inl short ↦ short_page limit (drop k all) (ltb→lt _ _ short)
        | inr ends ↦
            take_whole limit (drop k all)
              (omega (arith, length-drop k all, serves.empty_cursor k ends))
      ]

  full_page :
      (k : ℕ)
      → (ltb (length (take limit (drop k all))) limit || no_bytes (serves.cursor k)) ≡ false
      → k ≤ length all
      → k + limit ≤ length all
  full_page k e h =
      let (short, _) =
        or_false (ltb (length (take limit (drop k all))) limit) (no_bytes (serves.cursor k)) e in
      omega (
        arith,
        ltb-false→le (length (take limit (drop k all))) limit short,
        length-take-le limit (drop k all),
        length-drop k all,
      )

  step_end :
      (fuel k : ℕ) (cursor : Option (List ℕ)) (out : List TxRecord)
      → pages cursor ≡ ok (page_at k)
      → (ltb (length (take limit (drop k all))) limit || no_bytes (serves.cursor k)) ≡ true
      → page_loop pages limit from to (suc fuel) cursor out
        ≡ some (ok (out ++ keep_in_range from to (take limit (drop k all))))
  unfolding page_loop
  step_end fuel k cursor out e t = rw (e, t, page_loop) refl

  step_on :
      (fuel k : ℕ) (cursor : Option (List ℕ)) (out : List TxRecord)
      → pages cursor ≡ ok (page_at k)
      → (ltb (length (take limit (drop k all))) limit || no_bytes (serves.cursor k)) ≡ false
      → page_loop pages limit from to (suc fuel) cursor out
        ≡ page_loop pages limit from to fuel
            (some (serves.cursor k))
            (out ++ keep_in_range from to (take limit (drop k all)))
  unfolding page_loop
  step_on fuel k cursor out e t = rw (e, t, page_loop) refl

  page_loop-from :
      (fuel k : ℕ) (cursor : Option (List ℕ)) (out : List TxRecord)
      → pages cursor ≡ ok (page_at k)
      → k ≤ length all
      → length all - k < fuel
      → page_loop pages limit from to fuel cursor out
        ≡ some (ok (out ++ keep_in_range from to (drop k all)))
  page_loop-from zero k cursor out e h f = absurd (omega arith)
  page_loop-from (suc fuel) k cursor out e h f =
      elim (Bool-cases
        (ltb (length (take limit (drop k all))) limit || no_bytes (serves.cursor k))) [
          | inl t ↦
              step_end fuel k cursor out e t
              ∙ ap (λ xs. some (ok (out ++ keep_in_range from to xs))) (last_page k t h)
          | inr t ↦
              let more = full_page k t h in
              let here = serves.position_cursor k more in
              let next = serves.next_page (serves.cursor k) ∙ ap (λ j. ok (page_at j)) here in
              step_on fuel k cursor out e t
              ∙ page_loop-from fuel (k + limit) (some (serves.cursor k)) _ next more (omega arith)
              ∙ ap (λ xs. some (ok xs)) (append_assoc out _ _)
              ∙ ap (λ xs. some (ok (out ++ xs))) (joined k)
        ]
    where
      joined :
          (k : ℕ)
          → keep_in_range from to (take limit (drop k all))
              ++ keep_in_range from to (drop (k + limit) all)
            ≡ keep_in_range from to (drop k all)
      joined k =
          sym (keep_in_range-append from to (take limit (drop k all)) (drop (k + limit) all))
          ∙ ap (λ xs. keep_in_range from to (take limit (drop k all) ++ xs))
              (sym (drop-drop k limit (k + limit) all refl))
          ∙ ap (keep_in_range from to) (take-append-drop limit (drop k all))

abbrev pub InRange : ℕ → ℕ → TxRecord → Type 0
InRange from to r = (from ≤ r.block_number) × (r.block_number ≤ to)

in_range_iff : (from to : ℕ) (r : TxRecord) → (in_range from to r ≡ true) ↔ InRange from to r
unfolding in_range
in_range_iff from to r = (λ h. ground arith, λ h. ground arith)

keep_in_range-Occurs :
    (from to : ℕ) (y : TxRecord) (xs : List TxRecord)
    → Occurs y (keep_in_range from to xs) ↔ (Occurs y xs × InRange from to y)
unfolding keep_in_range
keep_in_range-Occurs from to y [] = (λ h. absurd h, λ h. absurd h.0)
keep_in_range-Occurs from to y (x ∷ xs) =
    let (down, up) = keep_in_range-Occurs from to y xs in
    elim (Bool-cases (in_range from to x)) [
      | inl e ↦ rw e (
        λ h. elim h [
          | inl a ↦ (inl a, subst (InRange from to) (sym a) ((in_range_iff from to x).0 e))
          | inr k ↦ (inr (down k).0, (down k).1)
        ],
        λ h. elim h.0 [ inl a ↦ inl a | inr k ↦ inr (up (k, h.1)) ],
      )
      | inr e ↦ rw e (
        λ h. (inr (down h).0, (down h).1),
        λ h. elim h.0 [
          | inl a ↦ absurd (
              let k = (in_range_iff from to x).1 (subst (InRange from to) a h.1) in
              let j = sym k ∙ e in cc)
          | inr k ↦ up (k, h.1)
        ],
      )
    ]

-- What `collect_transactions_in_range` is to return for the list that the indexer serves.
abbrev pub IsCollected : ℕ → ℕ → List TxRecord → List TxRecord → Type 0
IsCollected from to all rs =
    IsSorted rs × ((y : TxRecord) → Occurs y rs ↔ (Occurs y all × InRange from to y))

-- From an indexer that serves a list in pages, for a range that is not empty and with more fuel than the list has
-- records, the collection ends, with exactly the records of the range, in the order of block and index.
pub collect_transactions_in_range-IsCollected :
    (node : Node) (page_limit fuel : ℕ) (script : Script) (from to : ℕ) (all : List TxRecord)
    → Serves (node.page script from ((to + 1) % 2 ^ 64) (max page_limit 1)) (max page_limit 1) all
    → from ≤ to
    → length all < fuel
    → (rs : List TxRecord) × (collect_transactions_in_range node page_limit fuel script from to
        ≡ some (ok rs))
      × IsCollected from to all rs
unfolding collect_transactions_in_range
collect_transactions_in_range-IsCollected node page_limit fuel script from to all serves h f =
    let run =
      page_loop-from serves (omega arith) from to fuel 0 none [] serves.first_page (omega arith)
        (omega arith) in
    (
      sort_records (keep_in_range from to all),
      rw (ltb-false to from h, run, collect_transactions_in_range) refl,
      (
        sort_records-IsSorted (keep_in_range from to all),
        λ y.
            let (a, b) = sort_records-Occurs y (keep_in_range from to all) in
            let (c, d) = keep_in_range-Occurs from to y all in (λ o. c (a o), λ o. b (d o)),
      ),
    )
