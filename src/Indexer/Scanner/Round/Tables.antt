-- ===== src/Indexer/Scanner/Round/Tables.antt =====
-- What the steps of a round leave of the tables, and the headers that they fetch.
use rgbpp_indexer.Common.{
  ℕ, ◌≡◌, refl, sym, ap, ◌∙◌, subst, ◌⊎◌, inl, inr, true, false, Bool-cases, Option, none, some,
  Option-cases, List, [], ◌∷◌, All, ◌==◌, ==_iff, some-injective,
}
use rgbpp_indexer.Types.Error.{Result, ok, err, panic, ok-injective, >>=-eq-ok}
use rgbpp_indexer.Client.{RpcHeader, Node}
use rgbpp_indexer.Store.Models.{StreamState, Database}
use rgbpp_indexer.Store.Apply.{init_stream, record_chain_progress, set_progress}
use rgbpp_indexer.Indexer.Scanner.Round.{
  ScanRound, header_at, fetch_numbers, checkpoint_header, find_header,
}

module _ (node : Node) where
  -- The node has the header `h` at the height `n`.
  abbrev pub HasHeader : ℕ → RpcHeader → Type 0
  HasHeader n h = node.header n ≡ ok (some h)

  pub header_at-inv : (n : ℕ) (h : RpcHeader) → header_at node n ≡ ok h → HasHeader n h
  unfolding header_at
  header_at-inv n h e =
      let (found, q, k) = >>=-eq-ok (node.header n) _ e in
      elim (Option-cases found) [
        | inl z ↦ absurd (let j = rw z at k in cc)
        | inr (g, z) ↦ let j = rw z at k in q ∙ ap ok z ∙ ap (λ x. ok (some x)) (ok-injective j)
      ]

  pub fetch_numbers-All :
      (ns : List ℕ) (hs : List (ℕ × RpcHeader))
      → fetch_numbers node ns ≡ ok hs
      → All (λ p. HasHeader p.0 p.1) hs
  unfolding fetch_numbers
  fetch_numbers-All [] hs e = subst (All (λ p. HasHeader p.0 p.1)) (ok-injective e) tt
  fetch_numbers-All (n ∷ ns) hs e =
      let (h, q, k) = >>=-eq-ok (header_at node n) _ e in
      let (rest, r, j) = >>=-eq-ok (fetch_numbers node ns) _ k in
      subst (All (λ p. HasHeader p.0 p.1)) (ok-injective j)
        (header_at-inv n h q, fetch_numbers-All ns rest r)

  find_header-HasHeader :
      (hs : List (ℕ × RpcHeader)) (n : ℕ) (h : RpcHeader)
      → All (λ p. HasHeader p.0 p.1) hs
      → find_header hs n ≡ some h
      → HasHeader n h
  unfolding find_header
  find_header-HasHeader [] n h k e = cc
  find_header-HasHeader ((m, g) ∷ hs) n h k e = elim (Bool-cases (m == n)) [
    | inl q ↦
        let j = rw q at e in
        subst (λ m. HasHeader m h) ((==_iff m n).0 q)
          (k.0 ∙ ap (λ x. ok (some x)) (some-injective j))
    | inr q ↦ find_header-HasHeader hs n h k.1 (rw q at e)
  ]

  pub checkpoint_header-HasHeader :
      (hs : List (ℕ × RpcHeader)) (to : ℕ) (h : RpcHeader)
      → All (λ p. HasHeader p.0 p.1) hs
      → checkpoint_header node hs to ≡ ok h
      → HasHeader to h
  unfolding checkpoint_header
  checkpoint_header-HasHeader hs to h k e = elim (Option-cases (find_header hs to)) [
    | inl z ↦ header_at-inv to h (rw (z, checkpoint_header) at e)
    | inr (g, z) ↦
        let j = rw (z, checkpoint_header) at e in
        find_header-HasHeader hs to h k (z ∙ ap some (ok-injective j))
  ]

-- The checkpoint that the next round starts from.
abbrev pub checkpoint_of : ℕ → Database → ℕ × Option (List ℕ)
checkpoint_of start_block db =
    let state = (init_stream start_block db).1 in (state.last_block_number, state.last_block_hash)

-- Nothing of what was indexed has changed, nor the checkpoint.
pub record SameFacts (start_block : ℕ) (old new : Database) : Type 0 where
  pub blocks_eq : new.blocks ≡ old.blocks
  pub cells_eq : new.cells ≡ old.cells
  pub transitions_eq : new.transitions ≡ old.transitions
  pub checkpoint_eq : checkpoint_of start_block new ≡ checkpoint_of start_block old

pub checkpoint_of-some :
    (n : ℕ) (db : Database) (s : StreamState)
    → db.state ≡ some s
    → checkpoint_of n db ≡ (s.last_block_number, s.last_block_hash)
unfolding init_stream
checkpoint_of-some n db s e = rw (e, init_stream) refl

pub init_stream-state :
    (n : ℕ) (db : Database) → (init_stream n db).0.state ≡ some (init_stream n db).1
unfolding init_stream
init_stream-state n db = elim (Option-cases db.state) [
  | inl e ↦ rw (e, init_stream) refl
  | inr (s, e) ↦ rw (e, init_stream) e
]

pub init_stream-SameFacts : (n : ℕ) (db : Database) → SameFacts n db (init_stream n db).0
init_stream-SameFacts n db = record {
  blocks_eq = elim (Option-cases db.state) [
    | inl e ↦ unfold init_stream in rw (e, init_stream) refl
    | inr (s, e) ↦ unfold init_stream in rw (e, init_stream) refl
  ];
  cells_eq = elim (Option-cases db.state) [
    | inl e ↦ unfold init_stream in rw (e, init_stream) refl
    | inr (s, e) ↦ unfold init_stream in rw (e, init_stream) refl
  ];
  transitions_eq = elim (Option-cases db.state) [
    | inl e ↦ unfold init_stream in rw (e, init_stream) refl
    | inr (s, e) ↦ unfold init_stream in rw (e, init_stream) refl
  ];
  checkpoint_eq =
      checkpoint_of-some n (init_stream n db).0 (init_stream n db).1 (init_stream-state n db);
}

pub unchanged : {n : ℕ} (db : Database) → SameFacts n db db
unchanged db = record {
  blocks_eq = refl;
  cells_eq = refl;
  transitions_eq = refl;
  checkpoint_eq = refl;
}

SameFacts-trans : {n : ℕ} {a b d : Database} → SameFacts n a b → SameFacts n b d → SameFacts n a d
SameFacts-trans h k = record {
  blocks_eq = k.blocks_eq ∙ h.blocks_eq;
  cells_eq = k.cells_eq ∙ h.cells_eq;
  transitions_eq = k.transitions_eq ∙ h.transitions_eq;
  checkpoint_eq = k.checkpoint_eq ∙ h.checkpoint_eq;
}

pub progress-state :
    (tip target lag : ℕ) (db : Database) (s : StreamState)
    → db.state ≡ some s
    → (record_chain_progress tip target lag db).state
      ≡ some (set_progress db.clock tip target lag s)
unfolding record_chain_progress
progress-state tip target lag db s e = rw e refl

pub progress-SameFacts :
    (n tip target lag : ℕ) (db : Database) (s : StreamState)
    → db.state ≡ some s
    → SameFacts n db (record_chain_progress tip target lag db)
progress-SameFacts n tip target lag db s e = record {
  blocks_eq = unfold record_chain_progress in refl;
  cells_eq = unfold record_chain_progress in refl;
  transitions_eq = unfold record_chain_progress in refl;
  checkpoint_eq =
      checkpoint_of-some n _ _ (progress-state tip target lag db s e)
      ∙ sym (checkpoint_of-some n db s e);
}

module _ (start_block : ℕ) (node : Node) where
  -- The round has moved the checkpoint to its last block, with the hash that the node has there.
  pub record Advances (db : Database) (round : ScanRound) : Type 0 where
    pub header : RpcHeader
    pub has_header : HasHeader node round.to header
    pub checkpoint_eq : checkpoint_of start_block db ≡ (round.to, some header.hash.bytes)

  abbrev pub Outcome : Database → Database → Option (Result ScanRound) → Type 0
  Outcome old new none = SameFacts start_block old new
  Outcome old new (some (err e)) = SameFacts start_block old new
  Outcome old new (some panic) = SameFacts start_block old new
  Outcome old new (some (ok round)) =
      ((round.is_idle ≡ true) × SameFacts start_block old new)
      ⊎ ((round.is_idle ≡ false) × Advances new round)

  pub Outcome-after :
      (a b d : Database) (m : Option (Result ScanRound))
      → SameFacts start_block a b
      → Outcome b d m
      → Outcome a d m
  Outcome-after a b d none h k = SameFacts-trans h k
  Outcome-after a b d (some (err e)) h k = SameFacts-trans h k
  Outcome-after a b d (some panic) h k = SameFacts-trans h k
  Outcome-after a b d (some (ok round)) h (inl (i, k)) = inl (i, SameFacts-trans h k)
  Outcome-after a b d (some (ok round)) h (inr k) = inr k
