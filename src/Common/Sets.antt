-- ===== src/Common/Sets.antt =====
-- Lists without a repetition, and the ordered set of numbers that `BTreeSet` and `sort_unstable` with `dedup` give.
use Prim.Native.Nat.{ℕ, ◌<◌}
use mathlib.Core.Path.{◌≡◌, refl, sym, subst, ◌∙◌}
use mathlib.Core.Logic.{◌⊎◌, inl, inr, ◌↔◌}
use mathlib.Core.List.{List, [], ◌∷◌, ◌++◌, map}
use native.Mathlib.Omega.{arith}
use rgbpp_indexer.Common.Tests.{ltb, ◌==◌, if◌then◌else◌, Bool-cases, ==_iff, ltb→lt}
use rgbpp_indexer.Common.Lists.{Occurs, Occurs-append}

-- A number is put at its place, unless it is there.
unfoldable pub insert_number : ℕ → List ℕ → List ℕ
insert_number n [] = n ∷ []
insert_number n (m ∷ ms) =
    let rest = insert_number n ms in
    if n == m then m ∷ ms else if ltb n m then n ∷ m ∷ ms else m ∷ rest

unfoldable pub number_set : List ℕ → List ℕ
number_set [] = []
number_set (n ∷ ns) = insert_number n (number_set ns)

-- No element stands twice.
abbrev pub Distinct : {A : Type 0} → List A → Type 0
Distinct [] = Unit
Distinct (x ∷ xs) = (Occurs x xs → ⊥) × Distinct xs

pub Distinct-append :
    {A : Type 0} (xs ys : List A)
    → Distinct xs
    → Distinct ys
    → ((z : A) → Occurs z xs → Occurs z ys → ⊥)
    → Distinct (xs ++ ys)
Distinct-append [] ys h k apart = k
Distinct-append (x ∷ xs) ys h k apart = (
  λ o. elim ((Occurs-append x xs ys).0 o) [ inl a ↦ h.0 a | inr b ↦ apart x (inl refl) b ],
  Distinct-append xs ys h.1 k (λ z a b. apart z (inr a) b),
)

pub Occurs-map_inv :
    {A B : Type 0} (f : A → B) (y : B) (xs : List A)
    → Occurs y (map f xs)
    → (x : A) × Occurs x xs × (y ≡ f x)
Occurs-map_inv f y [] o = absurd o
Occurs-map_inv f y (x ∷ xs) (inl e) = (x, inl refl, e)
Occurs-map_inv f y (x ∷ xs) (inr o) = let (z, a, e) = Occurs-map_inv f y xs o in (z, inr a, e)

pub Distinct-map :
    {A B : Type 0} (f : A → B)
    → ((a b : A) → f a ≡ f b → a ≡ b)
    → (xs : List A) → Distinct xs
    → Distinct (map f xs)
Distinct-map f inj [] h = tt
Distinct-map f inj (x ∷ xs) h = (
  λ o.
      let (z, a, e) = Occurs-map_inv f (f x) xs o in
      h.0 (subst (λ w. Occurs w xs) (sym (inj x z e)) a),
  Distinct-map f inj xs h.1,
)

insert_number-cases :
    (n m : ℕ) (ms : List ℕ)
    → ((n ≡ m) × (insert_number n (m ∷ ms) ≡ m ∷ ms))
      ⊎ (((n < m) × (insert_number n (m ∷ ms) ≡ n ∷ m ∷ ms))
          ⊎ ((m < n) × (insert_number n (m ∷ ms) ≡ m ∷ insert_number n ms)))
unfolding insert_number
insert_number-cases n m ms = elim (Bool-cases (n == m)) [
  | inl e ↦ inl ((==_iff n m).0 e, rw e refl)
  | inr e ↦ elim (Bool-cases (ltb n m)) [
    | inl l ↦ inr (inl (ltb→lt n m l, rw (e, l) refl))
    | inr l ↦ inr (inr (ground arith, rw (e, l) refl))
  ]
]

pub insert_number-Occurs :
    (n x : ℕ) (ms : List ℕ) → Occurs x (insert_number n ms) ↔ ((x ≡ n) ⊎ Occurs x ms)
unfolding insert_number
insert_number-Occurs n x [] = (λ o. o, λ o. o)
insert_number-Occurs n x (m ∷ ms) =
    let (down, up) = insert_number-Occurs n x ms in
    elim (insert_number-cases n m ms) [
      | inl (e, q) ↦ (
        λ o. inr (subst (Occurs x) q o),
        λ h. subst (Occurs x) (sym q) (elim h [ inl a ↦ inl (a ∙ e) | inr o ↦ o ]),
      )
      | inr (inl (_, q)) ↦ (λ o. subst (Occurs x) q o, λ h. subst (Occurs x) (sym q) h)
      | inr (inr (_, q)) ↦ (
        λ o. elim (subst (Occurs x) q o) [
          | inl a ↦ inr (inl a)
          | inr b ↦ elim (down b) [ inl a ↦ inl a | inr c ↦ inr (inr c) ]
        ],
        λ h. subst (Occurs x) (sym q) (elim h [
          | inl a ↦ inr (up (inl a))
          | inr o ↦ elim o [ inl a ↦ inl a | inr c ↦ inr (up (inr c)) ]
        ]),
      )
    ]

-- Every number is below those behind it.
abbrev pub IsAscending : List ℕ → Type 0
IsAscending [] = Unit
IsAscending (n ∷ ns) = ((x : ℕ) → Occurs x ns → n < x) × IsAscending ns

insert_number-IsAscending :
    (n : ℕ) (ms : List ℕ) → IsAscending ms → IsAscending (insert_number n ms)
unfolding insert_number
insert_number-IsAscending n [] h = (λ x o. absurd o, tt)
insert_number-IsAscending n (m ∷ ms) h = elim (insert_number-cases n m ms) [
  | inl (_, q) ↦ subst IsAscending (sym q) h
  | inr (inl (l, q)) ↦
      subst IsAscending (sym q)
        (λ x o. elim o [ inl e ↦ omega arith | inr a ↦ omega (arith, h.0 x a) ], h)
  | inr (inr (l, q)) ↦ subst IsAscending (sym q) (
    λ x o. elim ((insert_number-Occurs n x ms).0 o) [ inl e ↦ omega arith | inr a ↦ h.0 x a ],
    insert_number-IsAscending n ms h.1,
  )
]

IsAscending-Distinct : (ns : List ℕ) → IsAscending ns → Distinct ns
IsAscending-Distinct [] h = tt
IsAscending-Distinct (n ∷ ns) h =
    (λ o. absurd (omega (arith, h.0 n o)), IsAscending-Distinct ns h.1)

number_set-IsAscending : (ns : List ℕ) → IsAscending (number_set ns)
unfolding number_set
number_set-IsAscending [] = tt
number_set-IsAscending (n ∷ ns) =
    insert_number-IsAscending n (number_set ns) (number_set-IsAscending ns)

pub number_set-Distinct : (ns : List ℕ) → Distinct (number_set ns)
number_set-Distinct ns = IsAscending-Distinct (number_set ns) (number_set-IsAscending ns)

pub number_set-Occurs : (x : ℕ) (ns : List ℕ) → Occurs x (number_set ns) ↔ Occurs x ns
unfolding number_set
number_set-Occurs x [] = (λ o. o, λ o. o)
number_set-Occurs x (n ∷ ns) =
    let (down, up) = number_set-Occurs x ns in
    let (d, u) = insert_number-Occurs n x (number_set ns) in
    (
      λ o. elim (d o) [ inl e ↦ inl e | inr a ↦ inr (down a) ],
      λ o. u (elim o [ inl e ↦ inl e | inr a ↦ inr (up a) ]),
    )
