-- ===== src/Types/Commitment/OpReturn.antt =====
-- Which scripts carry a payload, and which payload.
use rgbpp_indexer.Common.{
  ℕ, ◌^◌, ◌≤◌, ◌<◌, ◌≡◌, sym, ap, ap₂, subst, from_le_lt, ◌∙◌, List, [], ◌∷◌, ◌++◌, some, true,
  Bool-cases, inl, inr, ltb, ltb-false, ltb-false→le, leb, ◌==◌, ◌&&◌, length, length-append, take,
  drop, take-append, drop-append, take-append-drop, length-take_le, le_bytes, from_le,
  length-le_bytes, from_le-le_bytes, le_bytes-from_le, IsBytes, IsByte, All-take, arith,
}
use rgbpp_indexer.Types.Commitment.{cut_payload, pushdata, push_payload, op_return_payload}

-- The four ways to push a payload, with the header that each writes in front of `n` bytes.
pub data Push : Type 0 where
  direct pushdata1 pushdata2 pushdata4 : Push

abbrev pub push_header : Push → ℕ → List ℕ
push_header direct n = n ∷ []
push_header pushdata1 n = 0x4c ∷ le_bytes 1 n
push_header pushdata2 n = 0x4d ∷ le_bytes 2 n
push_header pushdata4 n = 0x4e ∷ le_bytes 4 n

abbrev pub CanPush : Push → ℕ → Type 0
CanPush direct n = (1 ≤ n) × (n ≤ 75)
CanPush pushdata1 n = n < 256
CanPush pushdata2 n = n < 2 ^ 16
CanPush pushdata4 n = n < 2 ^ 32

cut_payload-append : (p rest : List ℕ) → cut_payload (length p) (p ++ rest) ≡ some p
unfolding cut_payload
cut_payload-append p rest =
    rw (ltb-false (length (p ++ rest)) (length p) (omega (arith, length-append p rest)))
      (ap some (take-append p rest))

pushdata-append :
    (k : ℕ) (p rest : List ℕ)
    → length p < 256 ^ k
    → pushdata k (le_bytes k (length p) ++ (p ++ rest)) ≡ some p
unfolding pushdata
pushdata-append k p rest h =
    rw (enough, cut, from_le-le_bytes k (length p) h, left) (cut_payload-append p rest)
  where
    len : length (le_bytes k (length p)) ≡ k
    len = length-le_bytes k (length p)

    enough : leb k (length (le_bytes k (length p) ++ (p ++ rest))) ≡ true
    enough = ground (arith, length-append (le_bytes k (length p)) (p ++ rest), len)

    cut : take k (le_bytes k (length p) ++ (p ++ rest)) ≡ le_bytes k (length p)
    cut =
        subst (λ j. take j (le_bytes k (length p) ++ (p ++ rest)) ≡ le_bytes k (length p)) len
          (take-append (le_bytes k (length p)) (p ++ rest))

    left : drop k (le_bytes k (length p) ++ (p ++ rest)) ≡ p ++ rest
    left =
        subst (λ j. drop j (le_bytes k (length p) ++ (p ++ rest)) ≡ p ++ rest) len
          (drop-append (le_bytes k (length p)) (p ++ rest))

-- A payload of a length that the push form can hold is read from each of the four forms, and bytes
-- behind it are ignored.
pub op_return_payload-append :
    (push : Push) (p rest : List ℕ)
    → CanPush push (length p)
    → op_return_payload (0x6a ∷ (push_header push (length p) ++ (p ++ rest))) ≡ some p
unfolding op_return_payload push_payload
op_return_payload-append direct p rest h = ground (arith, cut_payload-append p rest)
op_return_payload-append pushdata1 p rest h = pushdata-append 1 p rest (omega arith)
op_return_payload-append pushdata2 p rest h = pushdata-append 2 p rest (omega arith)
op_return_payload-append pushdata4 p rest h = pushdata-append 4 p rest (omega arith)

cut_payload-inv :
    (n : ℕ) (r p : List ℕ) → cut_payload n r ≡ some p → (length p ≡ n) × (p ++ drop n r ≡ r)
unfolding cut_payload
cut_payload-inv n r p h = elim (Bool-cases (ltb (length r) n)) [
  | inl short ↦ absurd (let k = rw short at h in cc)
  | inr fine ↦
      let e : some (take n r) ≡ some p = rw fine at h in
      let cut : take n r ≡ p = cc in
      (
        sym (ap length cut) ∙ length-take_le n r (ltb-false→le (length r) n fine),
        ap (λ q. q ++ drop n r) (sym cut) ∙ take-append-drop n r,
      )
]

pushdata-inv :
    (k : ℕ) (r p : List ℕ)
    → IsBytes r
    → pushdata k r ≡ some p
    → (rest : List ℕ) × (length p < 256 ^ k) × (r ≡ le_bytes k (length p) ++ (p ++ rest))
unfolding pushdata
pushdata-inv k r p v h = elim (Bool-cases (leb k (length r))) [
  | inr short ↦ absurd (let e = rw short at h in cc)
  | inl fine ↦
      let (len, rest) = cut_payload-inv (from_le (take k r)) (drop k r) p (rw fine at h) in
      let four : length (take k r) ≡ k = length-take_le k r (ground arith) in
      let bytes : IsBytes (take k r) = All-take IsByte k r v in
      (
        drop (from_le (take k r)) (drop k r),
        omega (
          arith,
          len,
          subst (λ (j : ℕ). from_le (take k r) < 256 ^ j) four (from_le_lt (take k r) bytes),
        ),
        sym (
            ap₂ ◌++◌
              (ap (le_bytes k) len
                ∙ subst (λ (j : ℕ). le_bytes j (from_le (take k r)) ≡ take k r) four
                    (le_bytes-from_le (take k r) bytes))
              rest
            ∙ take-append-drop k r),
      )
]

-- A script, byte by byte, that pushes `p` behind OP_RETURN.
abbrev pub Pushes : List ℕ → List ℕ → Type 0
Pushes script p =
    (push : Push) × (rest : List ℕ) × CanPush push (length p)
    × (script ≡ 0x6a ∷ (push_header push (length p) ++ (p ++ rest)))

push_payload-inv :
    (op : ℕ) (r p : List ℕ) → IsBytes r → push_payload (op ∷ r) ≡ some p → Pushes (0x6a ∷ op ∷ r) p
unfolding push_payload
push_payload-inv op r p v h = elim (Bool-cases (leb 0x01 op && leb op 0x4b)) [
  | inl d ↦
      let (len, rest) = cut_payload-inv op r p (rw d at h) in
      (
        direct,
        drop op r,
        (ground arith, ground arith),
        ap (◌∷◌ 0x6a) (ap₂ ◌∷◌ (sym len) (sym rest)),
      )
  | inr d ↦ elim (Bool-cases (op == 0x4c)) [
    | inl one ↦
        let (rest, n, e) = pushdata-inv 1 r p v (rw (d, one) at h) in
        (pushdata1, rest, omega arith, ap (◌∷◌ 0x6a) (ap₂ ◌∷◌ (ground arith) e))
    | inr n1 ↦ elim (Bool-cases (op == 0x4d)) [
      | inl two ↦
          let (rest, n, e) = pushdata-inv 2 r p v (rw (d, n1, two) at h) in
          (pushdata2, rest, omega arith, ap (◌∷◌ 0x6a) (ap₂ ◌∷◌ (ground arith) e))
      | inr n2 ↦ elim (Bool-cases (op == 0x4e)) [
        | inl four ↦
            let (rest, n, e) = pushdata-inv 4 r p v (rw (d, n1, n2, four) at h) in
            (pushdata4, rest, omega arith, ap (◌∷◌ 0x6a) (ap₂ ◌∷◌ (ground arith) e))
        | inr n4 ↦ absurd (let k = rw (d, n1, n2, n4) at h in cc)
      ]
    ]
  ]
]

-- A payload is only read from a string of bytes that pushes it, in one of the four forms, behind
-- OP_RETURN.
pub op_return_payload-inv :
    (script p : List ℕ) → IsBytes script → op_return_payload script ≡ some p → Pushes script p
unfolding op_return_payload
op_return_payload-inv [] p v h = cc
op_return_payload-inv (b ∷ r) p v h = elim (Bool-cases (b == 0x6a)) [
  | inr other ↦ absurd (let k = rw other at h in cc)
  | inl ret ↦ subst (λ x. Pushes (x ∷ r) p) (ground arith) (behind r v.1 (rw ret at h))
]
  where
    behind : (xs : List ℕ) → IsBytes xs → push_payload xs ≡ some p → Pushes (0x6a ∷ xs) p
    behind [] w k = absurd (unfold push_payload in cc)
    behind (op ∷ xs) w k = push_payload-inv op xs p w.1 k
