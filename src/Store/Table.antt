-- ===== src/Store/Table.antt =====
-- A table with a primary key, as the function from keys to rows, and PostgreSQL's statements on it. Writes in
-- which the last one wins are replayed without effect.
use rgbpp_indexer.Common.{
  ◌≡◌, refl, sym, ap, ◌∙◌, ◌⊎◌, inl, inr, Bool, true, false, Bool-cases, Option, none, some, List,
  [], ◌∷◌, ◌++◌, if◌then◌else◌, fun_ext, Option-cases, Occurs,
}
use mathlib.Core.Option

module _ {K R : Type 0} where
  -- `INSERT ... ON CONFLICT (key) DO UPDATE`: `hit` are the keys equal to the row's.
  unfoldable pub upsert : (K → Bool) → R → (R → R) → (K → Option R) → K → Option R
  upsert hit new change t key =
      let row = t key in
      if hit key then some (elim row [ none ↦ new | some old ↦ change old ]) else row

  -- `UPDATE ... WHERE key = ...`.
  unfoldable pub update : (K → Bool) → (R → R) → (K → Option R) → K → Option R
  update hit change t key = let row = t key in if hit key then Option.map change row else row

-- Writes in order.
module _ {Op R : Type 0} (g : Op → R → R) where
  abbrev pub word : List Op → R → R
  word [] r = r
  word (p ∷ ps) r = word ps (g p r)

  word-append : (ps us : List Op) (r : R) → word (ps ++ us) r ≡ word us (word ps r)
  word-append [] us r = refl
  word-append (p ∷ ps) us r = word-append ps us (g p r)

  pub word-preserves :
      {P : R → Type 0}
      → ((p : Op) (r : R) → P r → P (g p r))
      → (ps : List Op) (r : R) → P r
      → P (word ps r)
  word-preserves h [] r x = x
  word-preserves h (p ∷ ps) r x = word-preserves h ps (g p r) (h p r x)

-- A map that turns each write into another turns the words into each other.
pub word-map :
    {Op R S : Type 0} (g : Op → R → R) (k : Op → S → S) (f : R → S)
    → ((p : Op) (r : R) → f (g p r) ≡ k p (f r))
    → (ps : List Op) (r : R) → f (word g ps r) ≡ word k ps (f r)
word-map g k f h [] r = refl
word-map g k f h (p ∷ ps) r = word-map g k f h ps (g p r) ∙ ap (word k ps) (h p r)

-- What each of the writes keeps.
pub word-keeps :
    {Op R : Type 0} (g : Op → R → R) {P : R → Type 0} (ps : List Op)
    → ((p : Op) (r : R) → Occurs p ps → P r → P (g p r))
    → (r : R) → P r
    → P (word g ps r)
word-keeps g [] h r x = x
word-keeps g {P} (p ∷ ps) h r x =
    word-keeps g {P = P} ps (λ q s o. h q s (inr o)) (g p r) (h p r (inl refl) x)

-- A write undoes all that an earlier one like it has done.
pub record LastWins {Op R : Type 0} (g : Op → R → R) : Type 0 where
  pub again : (p : Op) (r : R) → g p (g p r) ≡ g p r
  pub absorbs : (p q : Op) (r : R) → g p (g q (g p r)) ≡ g p (g q r)

module _ {Op R : Type 0} (g : Op → R → R) (law : LastWins g) where
  absorb : (p : Op) (us : List Op) (r : R) → g p (word g us (g p r)) ≡ g p (word g us r)
  absorb p [] r = law.again p r
  absorb p (u ∷ us) r =
      sym (absorb p us (g u (g p r)))
      ∙ ap (λ x. g p (word g us x)) (law.absorbs p u r)
      ∙ absorb p us (g u r)

  absorb_words :
      (ps us : List Op) (r : R) → word g ps (word g us (word g ps r)) ≡ word g ps (word g us r)
  absorb_words [] us r = refl
  absorb_words (p ∷ ps) us r =
      ap (λ x. word g ps (g p x)) (sym (word-append g ps us (g p r)))
      ∙ ap (word g ps) (absorb p (ps ++ us) r)
      ∙ ap (λ x. word g ps (g p x)) (word-append g ps us r)
      ∙ ap (word g ps) (sym (word-append g us (p ∷ []) (word g ps r)))
      ∙ absorb_words ps (us ++ p ∷ []) r
      ∙ ap (word g ps) (word-append g us (p ∷ []) r)

  -- Writing twice is writing once.
  pub word_twice : (ps : List Op) (r : R) → word g ps (word g ps r) ≡ word g ps r
  word_twice ps r = absorb_words ps [] r

-- The same writes, where each applies to some keys.
module _ {Op K R : Type 0} (hit : Op → K → Bool) (f : Op → R → R) where
  abbrev pub write_at : K → Op → R → R
  write_at key p r = if hit p key then f p r else r

  pub write_at-LastWins : LastWins f → (key : K) → LastWins (write_at key)
  write_at-LastWins law key = record {
    again = λ p r. elim (Bool-cases (hit p key)) [
      | inl e ↦ rw (e) (law.again p r)
      | inr e ↦ rw (e) refl
    ];
    absorbs = λ p q r. elim (Bool-cases (hit p key)) [
      | inl e ↦ elim (Bool-cases (hit q key)) [
        | inl k ↦ rw (e, k) (law.absorbs p q r)
        | inr k ↦ rw (e, k) (law.again p r)
      ]
      | inr e ↦ rw (e) refl
    ];
  }

module _ {Op K R : Type 0} (hit : Op → K → Bool) (new : Op → R) (f : Op → R → R) where
  -- What an insertion does to the row of `key`.
  abbrev pub insert_at : K → Op → Option R → Option R
  insert_at key p none = if hit p key then some (new p) else none
  insert_at key p (some r) = some (write_at hit f key p r)

  pub insert_at-some :
      (key : K) (ps : List Op) (r : R)
      → word (insert_at key) ps (some r) ≡ some (word (write_at hit f key) ps r)
  insert_at-some key [] r = refl
  insert_at-some key (p ∷ ps) r = insert_at-some key ps (write_at hit f key p r)

  -- The rows inserted are those of an update of some row, or no row is inserted.
  pub insert_at-cases :
      ((p : Op) → f p (new p) ≡ new p)
      → (key : K) (ps : List Op) (x : Option R)
      → ((x ≡ none) × (word (insert_at key) ps none ≡ none))
        ⊎ ((r : R) × (word (insert_at key) ps x ≡ some (word (write_at hit f key) ps r)))
  insert_at-cases same key ps (some r) = inr (r, insert_at-some key ps r)
  insert_at-cases same key [] none = inl (refl, refl)
  insert_at-cases same key (p ∷ ps) none = elim (Bool-cases (hit p key)) [
    | inl e ↦ inr (
      new p,
      rw (e) (
          insert_at-some key ps (new p)
          ∙ ap (λ r. some (word (write_at hit f key) ps r)) (sym (same p))),
    )
    | inr e ↦ elim (insert_at-cases same key ps none) [
      | inl h ↦ inl (refl, rw (e) h.1)
      | inr (r, h) ↦ inr (r, rw (e) h)
    ]
  ]

-- A loop of upserts.
module _ {Op K R : Type 0} (hit : Op → K → Bool) (new : Op → R) (f : Op → R → R) where
  abbrev pub upsert_op : Op → (K → Option R) → K → Option R
  upsert_op p = upsert (hit p) (new p) (f p)

  upsert_op-at :
      (p : Op) (t : K → Option R) (key : K) → upsert_op p t key ≡ insert_at hit new f key p (t key)
  unfolding upsert
  upsert_op-at p t key = elim (Option-cases (t key)) [
    | inl e ↦ rw (e) refl
    | inr (r, e) ↦ rw (e) (some_if (hit p key) (f p r) r)
  ]
    where
      some_if : (b : Bool) (x y : R) → (if b then some x else some y) ≡ some (if b then x else y)
      some_if true x y = refl
      some_if false x y = refl

  pub upserts-at :
      (ps : List Op) (t : K → Option R) (key : K)
      → word upsert_op ps t key ≡ word (insert_at hit new f key) ps (t key)
  upserts-at [] t key = refl
  upserts-at (p ∷ ps) t key =
      upserts-at ps (upsert_op p t) key
      ∙ ap (word (insert_at hit new f key) ps) (upsert_op-at p t key)

  module _ (law : LastWins f) (same : (p : Op) → f p (new p) ≡ new p) where
    pub inserts_twice :
        (key : K) (ps : List Op) (x : Option R)
        → word (insert_at hit new f key) ps (word (insert_at hit new f key) ps x)
          ≡ word (insert_at hit new f key) ps x
    inserts_twice key ps x = elim (insert_at-cases hit new f same key ps x) [
      | inl (e, h) ↦ rw (e, h) h
      | inr (r, h) ↦
          ap (word (insert_at hit new f key) ps) h
          ∙ insert_at-some hit new f key ps (word (write_at hit f key) ps r)
          ∙ ap some (word_twice (write_at hit f key) (write_at-LastWins hit f law key) ps r)
          ∙ sym h
    ]

    -- A loop of upserts, run again, changes nothing.
    pub upserts_twice :
        (ps : List Op) (t : K → Option R)
        → word upsert_op ps (word upsert_op ps t) ≡ word upsert_op ps t
    upserts_twice ps t = fun_ext λ key.
        upserts-at ps (word upsert_op ps t) key
        ∙ ap (word (insert_at hit new f key) ps) (upserts-at ps t key)
        ∙ inserts_twice key ps (t key)
        ∙ sym (upserts-at ps t key)
