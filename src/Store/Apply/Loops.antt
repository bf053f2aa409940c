-- ===== src/Store/Apply/Loops.antt =====
-- The loops of `apply_batch`, one by one: what they do at a key, and that running one again changes nothing.
use rgbpp_indexer.Common.{
  ℕ, ◌+◌, ◌≡◌, refl, sym, ap, ap₂, ◌∙◌, inl, inr, Bool, true, false, Option, none, some, List, [],
  ◌∷◌, if◌then◌else◌, fun_ext, ◌||◌, Option-cases,
}
use mathlib.Core.Option
use rgbpp_indexer.Store.Models.{
  BlockRecord, CellSpend, NewTransition, CellRow, TransitionRow, CellKey,
}
use rgbpp_indexer.Store.Table.{
  update, word, LastWins, word_twice, write_at, write_at-LastWins, upserts_twice,
}
use rgbpp_indexer.Store.Apply.{
  block_hit, block_change, upsert_block, cell_change, spend_key, spend_hit, spend_change, rows_of,
  apply_spend, transition_hit, new_transition_row, transition_change, insert_transition,
  upsert_blocks, apply_spends, insert_transitions,
}

or_same : (a : Bool) → (a || a) ≡ a
or_same true = refl
or_same false = refl

or_twice : (a b : Bool) → ((a || b) || b) ≡ (a || b)
or_twice true b = refl
or_twice false b = or_same b

or_absorbs : (a b c : Bool) → (((a || b) || c) || b) ≡ ((a || c) || b)
or_absorbs true b c = refl
or_absorbs false true true = refl
or_absorbs false true false = refl
or_absorbs false false c = refl

pub block_change-LastWins : LastWins block_change
block_change-LastWins = record { again = again; absorbs = absorbs }
  where
    again : (p r : BlockRecord) → block_change p (block_change p r) ≡ block_change p r
    again p r =
        ap (λ x. record p { has_rgbpp_activity = x })
          (or_twice r.has_rgbpp_activity p.has_rgbpp_activity)

    absorbs :
        (p q r : BlockRecord)
        → block_change p (block_change q (block_change p r)) ≡ block_change p (block_change q r)
    absorbs p q r =
        ap (λ x. record p { has_rgbpp_activity = x })
          (or_absorbs r.has_rgbpp_activity p.has_rgbpp_activity q.has_rgbpp_activity)

pub cell_change-LastWins : LastWins cell_change
cell_change-LastWins = record { again = λ p r. refl; absorbs = λ p q r. refl }

pub spend_change-LastWins : (now : ℕ) → LastWins (spend_change now)
spend_change-LastWins now = record { again = λ p r. refl; absorbs = λ p q r. refl }

transition_change-LastWins : LastWins transition_change
transition_change-LastWins = record { again = λ p r. refl; absorbs = λ p q r. refl }

block_change-new : (b : BlockRecord) → block_change b b ≡ b
block_change-new b = ap (λ x. record b { has_rgbpp_activity = x }) (or_same b.has_rgbpp_activity)

pub upsert_blocks_twice :
    (bs : List BlockRecord) (t : ℕ → Option BlockRecord)
    → upsert_blocks bs (upsert_blocks bs t) ≡ upsert_blocks bs t
unfolding upsert_blocks upsert_block
upsert_blocks_twice =
    upserts_twice block_hit (λ b. b) block_change block_change-LastWins block_change-new

pub insert_transitions_twice :
    (xs : List NewTransition) (t : List ℕ → Option TransitionRow)
    → insert_transitions xs (insert_transitions xs t) ≡ insert_transitions xs t
unfolding insert_transitions insert_transition
insert_transitions_twice =
    upserts_twice transition_hit new_transition_row transition_change transition_change-LastWins
      (λ p. refl)

-- The loop of spends, seen at one key.
abbrev pub spends_at : ℕ → CellKey → List CellSpend → CellRow → CellRow
spends_at now key = word (write_at spend_hit (spend_change now) key)

apply_spend-at :
    (now : ℕ) (s : CellSpend) (t : CellKey → Option CellRow) (key : CellKey)
    → (apply_spend now s t).0 key ≡ Option.map (write_at spend_hit (spend_change now) key s) (t key)
unfolding apply_spend update
apply_spend-at now s t key = elim (Option-cases (t key)) [
  | inl e ↦ rw (e) (same_if (spend_hit s key) none)
  | inr (r, e) ↦ rw (e) (some_if (spend_hit s key) (spend_change now s r) r)
]
  where
    same_if : (b : Bool) (x : Option CellRow) → (if b then x else x) ≡ x
    same_if true x = refl
    same_if false x = refl

    some_if :
        (b : Bool) (x y : CellRow) → (if b then some x else some y) ≡ some (if b then x else y)
    some_if true x y = refl
    some_if false x y = refl

pub map-map :
    (f g : CellRow → CellRow) (x : Option CellRow)
    → Option.map g (Option.map f x) ≡ Option.map (λ r. g (f r)) x
map-map f g none = refl
map-map f g (some r) = refl

map_same : (x : Option CellRow) → x ≡ Option.map (λ r. r) x
map_same none = refl
map_same (some r) = refl

pub apply_spends-at :
    (now : ℕ) (ss : List CellSpend) (t : CellKey → Option CellRow) (key : CellKey)
    → (apply_spends now ss t).0 key ≡ Option.map (spends_at now key ss) (t key)
unfolding apply_spends
apply_spends-at now [] t key = map_same (t key)
apply_spends-at now (s ∷ ss) t key =
    apply_spends-at now ss (apply_spend now s t).0 key
    ∙ ap (Option.map (spends_at now key ss)) (apply_spend-at now s t key)
    ∙ map-map (write_at spend_hit (spend_change now) key s) (spends_at now key ss) (t key)

pub rows_of-map :
    (f : CellRow → CellRow) (x : Option CellRow) → rows_of (Option.map f x) ≡ rows_of x
rows_of-map f none = refl
rows_of-map f (some r) = refl

-- The rows updated depend only on the keys that the table has.
pub apply_spends-count :
    (now later : ℕ) (ss : List CellSpend) (t u : CellKey → Option CellRow)
    → ((key : CellKey) → rows_of (t key) ≡ rows_of (u key))
    → (apply_spends now ss t).1 ≡ (apply_spends later ss u).1
unfolding apply_spends apply_spend
apply_spends-count now later [] t u h = refl
apply_spends-count now later (s ∷ ss) t u h = ap₂ (◌+◌) (h (spend_key s)) (
    apply_spends-count now later ss (apply_spend now s t).0 (apply_spend later s u).0 λ key.
      ap rows_of (apply_spend-at now s t key)
      ∙ rows_of-map (write_at spend_hit (spend_change now) key s) (t key)
      ∙ h key
      ∙ sym (rows_of-map (write_at spend_hit (spend_change later) key s) (u key))
      ∙ ap rows_of (sym (apply_spend-at later s u key)))

pub spends_twice :
    (now : ℕ) (ss : List CellSpend) (t : CellKey → Option CellRow)
    → apply_spends now ss (apply_spends now ss t).0 ≡ apply_spends now ss t
spends_twice now ss t =
    ap₂ (λ a b. (a, b))
      (fun_ext λ key.
        apply_spends-at now ss (apply_spends now ss t).0 key
        ∙ ap (Option.map (spends_at now key ss)) (apply_spends-at now ss t key)
        ∙ map-map (spends_at now key ss) (spends_at now key ss) (t key)
        ∙ ap (λ f. Option.map f (t key))
            (fun_ext λ r.
              word_twice (write_at spend_hit (spend_change now) key)
                (write_at-LastWins spend_hit (spend_change now) (spend_change-LastWins now) key) ss
                r)
        ∙ sym (apply_spends-at now ss t key))
      (apply_spends-count now now ss (apply_spends now ss t).0 t λ key.
        ap rows_of (apply_spends-at now ss t key) ∙ rows_of-map (spends_at now key ss) (t key))
