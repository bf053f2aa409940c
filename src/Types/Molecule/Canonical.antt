-- ===== src/Types/Molecule/Canonical.antt =====
-- What the loops of the table decoder tell when they succeed.
use rgbpp_indexer.Common.{
  drop-drop, ℕ, zero, suc, ◌+◌, ◌*◌, ◌-◌, ◌^◌, ◌≤◌, ◌<◌, ◌≡◌, ◌≢◌, refl, sym, ap, ap₂, subst, ◌∙◌,
  List, [], ◌∷◌, ◌++◌, map, Bool-cases, inl, inr, arith, length, le_bytes, from_le,
  le_bytes-from_le, from_le_lt, take, drop, length-take_le, length-drop, take-length, IsBytes,
  IsByte, All-take, All-drop, ltb, ◌||◌,
}
use rgbpp_indexer.Types.Error.{ok, panic, slice, >>=-eq-ok}
use rgbpp_indexer.Types.Molecule.{total_length, concat, offset_bytes, read_offsets, split_from}
use rgbpp_indexer.Types.Molecule.Tables.{starts, ends, starts-ends}

pub slice-inv :
    (bs : List ℕ) (s e : ℕ) (f : List ℕ)
    → slice bs s e ≡ ok f
    → (s ≤ e) × (e ≤ length bs) × (take (e - s) (drop s bs) ≡ f)
unfolding slice
slice-inv bs s e f h = ground arith

pub slice-ne-panic : (bs : List ℕ) (s e : ℕ) → s ≤ e → e ≤ length bs → slice bs s e ≢ panic
unfolding slice
slice-ne-panic bs s e h k p = ground arith

take_split : (m n k : ℕ) (xs : List ℕ) → k ≡ m + n → take k xs ≡ take m xs ++ take n (drop m xs)
take_split zero n k xs h = ap (λ (j : ℕ). take j xs) (omega arith)
take_split (suc m) n zero xs h = absurd (omega arith)
take_split (suc m) zero (suc k) [] h = refl
take_split (suc m) (suc n) (suc k) [] h = refl
take_split (suc m) n (suc k) (x ∷ xs) h = ap (◌∷◌ x) (take_split m n k xs (omega arith))

pub take_all : (n : ℕ) (xs : List ℕ) → n ≡ length xs → take n xs ≡ xs
take_all n xs h = rw h (take-length xs)

append_last : (xs ys : List ℕ) (a b : ℕ) → xs ++ (a ∷ []) ≡ ys ++ (b ∷ []) → (xs ≡ ys) × (a ≡ b)
append_last [] [] a b h = (refl, cc)
append_last [] (y ∷ []) a b h = cc
append_last [] (y ∷ z ∷ ys) a b h = cc
append_last (x ∷ []) [] a b h = cc
append_last (x ∷ z ∷ xs) [] a b h = cc
append_last (x ∷ xs) (y ∷ ys) a b h =
    let ih = append_last xs ys a b (cc) in (ap₂ ◌∷◌ (cc) ih.0, ih.1)

-- A slice of four bytes is the encoding of the number that it is read as.
pub slice_u32 :
    (bs : List ℕ) (s : ℕ) (b : List ℕ)
    → IsBytes bs
    → slice bs s (s + 4) ≡ ok b
    → (s + 4 ≤ length bs)
      × (take 4 (drop s bs) ≡ b)
      × (le_bytes 4 (from_le b) ≡ b)
      × (from_le b < 2 ^ 32)
slice_u32 bs s b v h = (
  inv.1,
  cut,
  rw four at (le_bytes-from_le b bytes),
  omega (arith, rw four at (from_le_lt b bytes)),
)
  where
    inv : (s ≤ s + 4) × (s + 4 ≤ length bs) × (take (s + 4 - s) (drop s bs) ≡ b)
    inv = slice-inv bs s (s + 4) b h

    cut : take 4 (drop s bs) ≡ b
    cut = let n : s + 4 - s ≡ 4 = omega arith in rw n at (inv.2)

    four : length b ≡ 4
    four = rw (sym cut) (length-take_le 4 (drop s bs) (omega (arith, length-drop s bs, inv.1)))

    bytes : IsBytes b
    bytes = subst IsBytes cut (All-take IsByte 4 (drop s bs) (All-drop IsByte s bs v))

pub read_offsets-suc-inv :
    (n i : ℕ) (bs offs : List ℕ)
    → read_offsets (suc n) i bs ≡ ok offs
    → (b : List ℕ) × (rest : List ℕ) × (slice bs (4 + i * 4) (4 + i * 4 + 4) ≡ ok b)
      × (read_offsets n (i + 1) bs ≡ ok rest)
      × (from_le b ∷ rest ≡ offs)
unfolding read_offsets
read_offsets-suc-inv n i bs offs h =
    let (b, e, k) = >>=-eq-ok (slice bs (4 + i * 4) (4 + i * 4 + 4)) _ h in
    let (rest, r, o) = >>=-eq-ok (read_offsets n (i + 1) bs) _ k in (b, rest, e, r, cc)

pub read_offsets-inv :
    (n i : ℕ) (bs offs : List ℕ)
    → IsBytes bs
    → read_offsets n i bs ≡ ok offs
    → (length offs ≡ n) × (concat (map (le_bytes 4) offs) ≡ take (4 * n) (drop (4 + i * 4) bs))
read_offsets-inv zero i bs [] v h = (refl, refl)
read_offsets-inv zero i bs (o ∷ offs) v h = unfold read_offsets in cc
read_offsets-inv (suc n) i bs offs v h =
    let (b, rest, e, r, o) = read_offsets-suc-inv n i bs offs h in
    let (_, cut, back, _) = slice_u32 bs (4 + i * 4) b v e in
    let (len, all) = read_offsets-inv n (i + 1) bs rest v r in
    subst
      (λ xs.
        (length xs ≡ suc n)
        × (concat (map (le_bytes 4) xs) ≡ take (4 * suc n) (drop (4 + i * 4) bs)))
      o
      (
        ap suc len,
        ap₂ ◌++◌ (back ∙ sym cut) (
              all
              ∙ ap (take (4 * n))
                  (sym (drop-drop (4 + i * 4) 4 (4 + (i + 1) * 4) bs (omega arith))))
            ∙ sym (take_split 4 (4 * n) (4 * suc n) (drop (4 + i * 4) bs) (omega arith)),
      )

split_from_cons-inv :
    (e : ℕ) (es bs : List ℕ) (full start : ℕ) (fs : List (List ℕ))
    → split_from bs full start (e ∷ es) ≡ ok fs
    → (f : List ℕ) × (rest : List (List ℕ)) × (start ≤ e)
      × (slice bs start e ≡ ok f)
      × (split_from bs full e es ≡ ok rest)
      × (f ∷ rest ≡ fs)
unfolding split_from
split_from_cons-inv e es bs full start fs h = elim (Bool-cases (ltb e start || ltb full e)) [
  | inl bad ↦ absurd (let k = rw bad at h in cc)
  | inr fine ↦
      let (f, a, k) = >>=-eq-ok (slice bs start e) _ (rw fine at h) in
      let (rest, r, o) = >>=-eq-ok (split_from bs full e es) _ k in
      (f, rest, ground arith, a, r, cc)
]

abbrev pub Splits : List ℕ → List ℕ → ℕ → List (List ℕ) → Type 0
Splits bs es start fs = (es ≡ ends start fs) × (concat fs ≡ take (total_length fs) (drop start bs))

Splits-cons :
    (bs es f : List ℕ) (start e : ℕ) (rest : List (List ℕ))
    → start ≤ e
    → e ≤ length bs
    → take (e - start) (drop start bs) ≡ f
    → Splits bs es e rest
    → Splits bs (e ∷ es) start (f ∷ rest)
Splits-cons bs es f start e rest le in_range cut (es_eq, parts) = (
  rw end (ap (◌∷◌ e) es_eq),
  ap₂ ◌++◌ (sym (rw len at cut))
        (parts ∙ ap (take (total_length rest)) (sym (drop-drop start (length f) e bs (sym end))))
      ∙ sym (take_split (length f) (total_length rest) _ (drop start bs) refl),
)
  where
    len : e - start ≡ length f
    len =
        sym (length-take_le (e - start) (drop start bs) (omega (arith, length-drop start bs)))
        ∙ ap length cut

    end : start + length f ≡ e
    end = omega (arith, len)

pub split_from-inv :
    (es : List ℕ) (bs : List ℕ) (full start : ℕ) (fs : List (List ℕ))
    → split_from bs full start es ≡ ok fs
    → Splits bs es start fs
split_from-inv [] bs full start [] h = (refl, refl)
split_from-inv [] bs full start (f ∷ fs) h = unfold split_from in cc
split_from-inv (e ∷ es) bs full start fs h =
    let (f, rest, le, a, r, o) = split_from_cons-inv e es bs full start fs h in
    let (_, in_range, cut) = slice-inv bs start e f a in
    subst (Splits bs (e ∷ es) start) o
      (Splits-cons bs es f start e rest le in_range cut (split_from-inv es bs full e rest r))

pub offset_bytes-starts :
    (off : ℕ) (fs : List (List ℕ))
    → off + total_length fs < 2 ^ 32
    → offset_bytes off fs ≡ concat (map (le_bytes 4) (starts off fs))
unfolding offset_bytes
offset_bytes-starts off [] h = refl
offset_bytes-starts off (f ∷ fs) h =
    ap₂ ◌++◌ (ap (le_bytes 4) (omega arith)) (offset_bytes-starts (off + length f) fs (omega arith))

pub ends-last :
    (off full : ℕ) (offs : List ℕ) (fs : List (List ℕ))
    → offs ++ (full ∷ []) ≡ off ∷ ends off fs
    → (offs ≡ starts off fs) × (full ≡ off + total_length fs)
ends-last off full offs fs h =
    append_last offs (starts off fs) full (off + total_length fs)
      (h ∙ sym (starts-ends off (off + total_length fs) fs refl))

pub length-starts : (off : ℕ) (fs : List (List ℕ)) → length (starts off fs) ≡ length fs
length-starts off [] = refl
length-starts off (f ∷ fs) = ap suc (length-starts (off + length f) fs)
