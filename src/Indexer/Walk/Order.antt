-- ===== src/Indexer/Walk/Order.antt =====
-- The order of the walk.
use rgbpp_indexer.Common.{
  ℕ, ◌≤◌, ◌<◌, ◌≡◌, refl, sym, ap, ◌∙◌, subst, inl, inr, true, false, ◌&&◌, Bool-cases, Option,
  none, some, List, [], ◌∷◌, length, and_inv, or_true, Occurs, arith,
}
use rgbpp_indexer.Types.Bitcoin.{BtcOutPoint, txid_eq, txid_eq_iff}
use rgbpp_indexer.Indexer.Scanner.Merge.{bytes_lt}
use rgbpp_indexer.Indexer.Scanner.Merge.Ordered.{bytes_lt_trans}
use rgbpp_indexer.Indexer.Walk.{lt_i32, row_lt, is_behind, behind, last_point}

bytes_lt_irrefl : (a : List ℕ) → bytes_lt a a ≡ false
unfolding bytes_lt
bytes_lt_irrefl [] = refl
bytes_lt_irrefl (x ∷ a) = ground (arith, bytes_lt_irrefl a)

row_lt_irrefl : (o : BtcOutPoint) → row_lt o o ≡ false
unfolding row_lt
row_lt_irrefl o = ground (arith, bytes_lt_irrefl o.txid.bytes)

row_lt_trans : (a b c : BtcOutPoint) → row_lt a b ≡ true → row_lt b c ≡ true → row_lt a c ≡ true
unfolding row_lt
row_lt_trans a b c h k =
    elim (or_true (bytes_lt a.txid.bytes b.txid.bytes)
      (txid_eq a.txid b.txid && lt_i32 a.vout b.vout) h) [
        | inl lt ↦
            elim (or_true (bytes_lt b.txid.bytes c.txid.bytes)
              (txid_eq b.txid c.txid && lt_i32 b.vout c.vout) k) [
                | inl more ↦ rw (bytes_lt_trans a.txid.bytes b.txid.bytes c.txid.bytes lt more) refl
                | inr same ↦
                    let e =
                      (txid_eq_iff b.txid c.txid).0
                        (and_inv (txid_eq b.txid c.txid) (lt_i32 b.vout c.vout) same).0 in
                    rw (subst (λ x. bytes_lt a.txid.bytes x.bytes ≡ true) e lt) refl
              ]
        | inr same ↦
            let (t, v) = and_inv (txid_eq a.txid b.txid) (lt_i32 a.vout b.vout) same in
            let e = (txid_eq_iff a.txid b.txid).0 t in
            elim (or_true (bytes_lt b.txid.bytes c.txid.bytes)
              (txid_eq b.txid c.txid && lt_i32 b.vout c.vout) k) [
                | inl more ↦
                    rw (subst (λ x. bytes_lt x.bytes c.txid.bytes ≡ true) (sym e) more) refl
                | inr again ↦
                    let (u, w) = and_inv (txid_eq b.txid c.txid) (lt_i32 b.vout c.vout) again in
                    let both =
                      (txid_eq_iff a.txid c.txid).1 (e ∙ (txid_eq_iff b.txid c.txid).0 u) in
                    let less : lt_i32 a.vout c.vout ≡ true = ground (arith, v, w) in
                    ground (arith, both, less)
              ]
      ]

is_behind_trans :
    (cursor : Option BtcOutPoint) (a b : BtcOutPoint)
    → is_behind cursor a ≡ true
    → row_lt a b ≡ true
    → is_behind cursor b ≡ true
is_behind_trans none a b h k = refl
is_behind_trans (some c) a b h k = row_lt_trans c a b h k

-- What stands behind a point that stands behind the cursor is less.
behind-le :
    (cursor : Option BtcOutPoint) (l : BtcOutPoint) (os : List BtcOutPoint)
    → is_behind cursor l ≡ true
    → length (behind (some l) os) ≤ length (behind cursor os)
unfolding behind
behind-le cursor l [] h = omega arith
behind-le cursor l (o ∷ os) h =
    let rest = behind-le cursor l os h in
    elim (Bool-cases (row_lt l o)) [
      | inl e ↦ rw (e, is_behind_trans cursor l o h e) (omega (arith, rest))
      | inr e ↦ elim (Bool-cases (is_behind cursor o)) [
        | inl b ↦ rw (e, b) (omega (arith, rest))
        | inr b ↦ rw (e, b) rest
      ]
    ]

pub behind-lt :
    (cursor : Option BtcOutPoint) (l : BtcOutPoint) (os : List BtcOutPoint)
    → Occurs l (behind cursor os)
    → is_behind cursor l ≡ true
    → length (behind (some l) os) < length (behind cursor os)
unfolding behind
behind-lt cursor l [] o h = absurd o
behind-lt cursor l (p ∷ os) o h = elim (Bool-cases (is_behind cursor p)) [
  | inr b ↦
      let not_behind : row_lt l p ≡ false = elim (Bool-cases (row_lt l p)) [
        | inl e ↦ absurd (let k = sym (is_behind_trans cursor l p h e) ∙ b in cc)
        | inr e ↦ e
      ] in
      rw (b, not_behind) (behind-lt cursor l os (rw b at o) h)
  | inl b ↦ elim (rw b at o) [
    | inl e ↦
        rw (b, ap (row_lt l) (sym e) ∙ row_lt_irrefl l) (omega (arith, behind-le cursor l os h))
    | inr k ↦ elim (Bool-cases (row_lt l p)) [
      | inl e ↦ rw (b, e) (omega (arith, behind-lt cursor l os k h))
      | inr e ↦ rw (b, e) (omega (arith, behind-le cursor l os h))
    ]
  ]
]

pub behind-is_behind :
    (cursor : Option BtcOutPoint) (l : BtcOutPoint) (os : List BtcOutPoint)
    → Occurs l (behind cursor os)
    → is_behind cursor l ≡ true
unfolding behind
behind-is_behind cursor l [] h = absurd h
behind-is_behind cursor l (o ∷ os) h = elim (Bool-cases (is_behind cursor o)) [
  | inr b ↦ behind-is_behind cursor l os (rw b at h)
  | inl b ↦ elim (rw b at h) [ inl e ↦ rw e b | inr k ↦ behind-is_behind cursor l os k ]
]

pub last_point-Occurs :
    (o : BtcOutPoint) (os : List BtcOutPoint) → Occurs (last_point o os) (o ∷ os)
unfolding last_point
last_point-Occurs o [] = inl refl
last_point-Occurs o (p ∷ ps) = inr (last_point-Occurs p ps)

pub behind-none : (os : List BtcOutPoint) → behind none os ≡ os
unfolding behind
behind-none [] = refl
behind-none (o ∷ os) = ap (λ rest. o ∷ rest) (behind-none os)
