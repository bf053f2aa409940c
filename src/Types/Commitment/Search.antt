-- ===== src/Types/Commitment/Search.antt =====
-- `find_commitment` against a description that does not loop.
use rgbpp_indexer.Common.{
  ℕ, ◌≡◌, refl, List, [], ◌∷◌, Option, none, some, Option-cases, inl, inr, ◌==◌, length,
  if◌then◌else◌, arith,
}
use rgbpp_indexer.Types.Commitment.{
  op_return_payload, tagged_commitment, update_fallback, find_loop, find_commitment,
}

-- The first script for which `f` has an answer.
abbrev pub first_some : (List ℕ → Option (List ℕ)) → List (List ℕ) → Option (List ℕ)
first_some f [] = none
first_some f (x ∷ xs) = elim (f x) [ some c ↦ some c | none ↦ first_some f xs ]

abbrev pub or_else : Option (List ℕ) → Option (List ℕ) → Option (List ℕ)
or_else (some c) d = some c
or_else none d = d

-- The two kinds of commitment that one script can carry.
abbrev pub tagged_in : List ℕ → Option (List ℕ)
tagged_in script = elim (op_return_payload script) [
  | none ↦ none
  | some payload ↦ tagged_commitment payload
]

abbrev pub bare_in : List ℕ → Option (List ℕ)
bare_in script = elim (op_return_payload script) [
  | none ↦ none
  | some payload ↦ if length payload == 32 then some payload else none
]

find_loop_lem :
    (scripts : List (List ℕ)) (fallback : Option (List ℕ))
    → find_loop fallback scripts
      ≡ or_else (first_some tagged_in scripts) (or_else fallback (first_some bare_in scripts))
unfolding find_loop update_fallback
find_loop_lem [] none = refl
find_loop_lem [] (some f) = refl
find_loop_lem (s ∷ scripts) none = elim (Option-cases (op_return_payload s)) [
  | inl e ↦ ground (arith, e, find_loop_lem scripts none)
  | inr (p, e) ↦ ground (arith, e, find_loop_lem scripts none, find_loop_lem scripts (some p))
]
find_loop_lem (s ∷ scripts) (some f) = ground (arith, find_loop_lem scripts (some f))

-- The first tagged commitment wins, wherever it stands; only where no script carries a tagged one is
-- the first bare payload of 32 bytes taken.
pub find_commitment_lem :
    (scripts : List (List ℕ))
    → find_commitment scripts ≡ or_else (first_some tagged_in scripts) (first_some bare_in scripts)
unfolding find_commitment
find_commitment_lem scripts = find_loop_lem scripts none
