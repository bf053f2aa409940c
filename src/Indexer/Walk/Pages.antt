-- ===== src/Indexer/Walk/Pages.antt =====
-- A page, and what comes behind it.
use rgbpp_indexer.Common.{
  ℕ, suc, zero, ◌<◌, ◌≡◌, refl, sym, ap, ◌∙◌, subst, ◌⊎◌, inl, inr, true, Bool-cases, Option, List,
  [], ◌∷◌, take, Occurs, All, All-Occurs, arith,
}
use rgbpp_indexer.Types.Bitcoin.{BtcOutPoint}
use rgbpp_indexer.Indexer.Walk.{row_lt, is_behind, behind}

-- In the order of the query, and each once.
abbrev pub IsAscending : List BtcOutPoint → Type 0
IsAscending [] = Unit {0}
IsAscending (o ∷ os) = All (λ p. row_lt o p ≡ true) os × IsAscending os

pub behind-Occurs :
    (cursor : Option BtcOutPoint) (x : BtcOutPoint) (os : List BtcOutPoint)
    → Occurs x os
    → is_behind cursor x ≡ true
    → Occurs x (behind cursor os)
unfolding behind
behind-Occurs cursor x [] h b = absurd h
behind-Occurs cursor x (o ∷ os) (inl e) b = rw (ap (is_behind cursor) (sym e) ∙ b) (inl e)
behind-Occurs cursor x (o ∷ os) (inr h) b = elim (Bool-cases (is_behind cursor o)) [
  | inl e ↦ rw e (inr (behind-Occurs cursor x os h b))
  | inr e ↦ rw e (behind-Occurs cursor x os h b)
]

pub Occurs-behind :
    (cursor : Option BtcOutPoint) (x : BtcOutPoint) (os : List BtcOutPoint)
    → Occurs x (behind cursor os)
    → Occurs x os
unfolding behind
Occurs-behind cursor x [] h = absurd h
Occurs-behind cursor x (o ∷ os) h = elim (Bool-cases (is_behind cursor o)) [
  | inl e ↦ elim (rw e at h) [ inl k ↦ inl k | inr k ↦ inr (Occurs-behind cursor x os k) ]
  | inr e ↦ inr (Occurs-behind cursor x os (rw e at h))
]

pub All-behind :
    (P : BtcOutPoint → Type 0) (cursor : Option BtcOutPoint) (os : List BtcOutPoint)
    → All P os
    → All P (behind cursor os)
unfolding behind
All-behind P cursor [] h = tt
All-behind P cursor (o ∷ os) h = elim (Bool-cases (is_behind cursor o)) [
  | inl e ↦ rw e (h.0, All-behind P cursor os h.1)
  | inr e ↦ rw e (All-behind P cursor os h.1)
]

pub behind-IsAscending :
    (cursor : Option BtcOutPoint) (os : List BtcOutPoint)
    → IsAscending os
    → IsAscending (behind cursor os)
unfolding behind
behind-IsAscending cursor [] h = tt
behind-IsAscending cursor (o ∷ os) h = elim (Bool-cases (is_behind cursor o)) [
  | inl e ↦
      rw e (All-behind (λ p. row_lt o p ≡ true) cursor os h.0, behind-IsAscending cursor os h.1)
  | inr e ↦ rw e (behind-IsAscending cursor os h.1)
]

-- What a page does not hold comes behind all of it.
pub take-split :
    (n : ℕ) (x : BtcOutPoint) (os : List BtcOutPoint)
    → IsAscending os
    → Occurs x os
    → Occurs x (take n os) ⊎ ((y : BtcOutPoint) → Occurs y (take n os) → row_lt y x ≡ true)
take-split zero x os a h = inr (λ y k. absurd k)
take-split (suc n) x [] a h = absurd h
take-split (suc n) x (o ∷ os) a (inl e) = inl (inl e)
take-split (suc n) x (o ∷ os) a (inr h) = elim (take-split n x os a.1 h) [
  | inl k ↦ inl (inr k)
  | inr f ↦ inr λ y k. elim k [
    | inl e ↦
        subst (λ z. row_lt z x ≡ true) (sym e) (All-Occurs (λ p. row_lt o p ≡ true) os x a.0 h)
    | inr j ↦ f y j
  ]
]

pub take-ne-empty :
    (n : ℕ) (x : BtcOutPoint) (os : List BtcOutPoint) → 0 < n → Occurs x os → take n os ≡ [] → ⊥
take-ne-empty zero x os p h e = omega (arith, p)
take-ne-empty (suc n) x [] p h e = h
take-ne-empty (suc n) x (o ∷ os) p h e = cc

pub page-cases :
    (page : List BtcOutPoint)
    → (page ≡ []) ⊎ ((o : BtcOutPoint) × (os : List BtcOutPoint) × (page ≡ o ∷ os))
page-cases [] = inl refl
page-cases (o ∷ os) = inr (o, os, refl)
