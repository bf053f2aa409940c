-- ===== src/Types/Molecule/Unique.antt =====
-- The table decoder accepts only what the encoder writes.
use rgbpp_indexer.Common.{
  drop-drop, ℕ, zero, suc, ◌+◌, ◌*◌, ◌-◌, ◌/◌, ◌≤◌, ◌≡◌, sym, ap, ap₂, subst, ◌∙◌, ◌⊎◌, List, [],
  ◌∷◌, ◌++◌, map, false, Bool-cases, inl, inr, arith, length, append-nil, le_bytes, from_le, take,
  drop, length-drop, take-append-drop, IsBytes, ltb, ◌==◌, ==_iff, All, All-append_inv, IsByte,
}
use rgbpp_indexer.Types.Error.{ok, slice, >>=-eq-ok, guard_else-eq-ok, guard_then-eq-ok}
use rgbpp_indexer.Types.Molecule.{
  as_u32, total_length, concat, offset_bytes, encode_table, read_offsets, split_from, split_fields,
  implausible_offset, read_table_body, read_table_fields,
}
use rgbpp_indexer.Types.Molecule.Tables.{starts}
use rgbpp_indexer.Types.Molecule.Canonical.{
  slice_u32, read_offsets-inv, read_offsets-suc-inv, split_from-inv, offset_bytes-starts, ends-last,
  length-starts, take_all,
}

pub read_table_fields-inv :
    (bs : List ℕ) (fs : List (List ℕ))
    → read_table_fields bs ≡ ok fs
    → (size : List ℕ) × (slice bs 0 4 ≡ ok size)
      × (from_le size ≡ length bs)
      × (read_table_body bs (from_le size) ≡ ok fs)
unfolding read_table_fields
read_table_fields-inv bs fs h =
    let (_, k) = guard_else-eq-ok (ltb (length bs) 4) _ _ h in
    let (size, e, m) = >>=-eq-ok (slice bs 0 4) _ k in
    let (c, r) = guard_then-eq-ok (from_le size == length bs) _ _ m in
    (size, e, (==_iff (from_le size) (length bs)).0 c, r)

-- What a table with fields satisfies: the first offset, the offsets and the split.
record Body (bs : List ℕ) (full : ℕ) (fs : List (List ℕ)) : Type 0 where
  first : List ℕ
  offsets : List ℕ
  first_slice : slice bs 4 8 ≡ ok first
  plausible : implausible_offset (from_le first) full ≡ false
  offsets_read : read_offsets ((from_le first - 4) / 4) 0 bs ≡ ok offsets
  split : split_fields bs full (offsets ++ (full ∷ [])) ≡ ok fs

read_table_body-inv :
    (bs : List ℕ) (full : ℕ) (fs : List (List ℕ))
    → read_table_body bs full ≡ ok fs
    → ((full ≡ 4) × (fs ≡ [])) ⊎ Body bs full fs
unfolding read_table_body
read_table_body-inv bs full fs h = elim (Bool-cases (full == 4)) [
  | inl empty ↦ inl ((==_iff full 4).0 empty, let k = rw empty at h in cc)
  | inr more ↦
      let (_, k) = guard_else-eq-ok (ltb (length bs) 8) _ _ (rw more at h) in
      let (first, e, m) = >>=-eq-ok (slice bs 4 8) _ k in
      let (c, d) = guard_else-eq-ok (implausible_offset (from_le first) full) _ _ m in
      let (offsets, r, s) = >>=-eq-ok (read_offsets ((from_le first - 4) / 4) 0 bs) _ d in
      inr (record {
        first = first;
        offsets = offsets;
        first_slice = e;
        plausible = c;
        offsets_read = r;
        split = s;
      })
]

pub plausible-bounds :
    (off full : ℕ)
    → implausible_offset off full ≡ false
    → (8 ≤ off) × (off ≤ full) × (4 + 4 * ((off - 4) / 4) ≡ off)
unfolding implausible_offset
plausible-bounds off full h = ground arith

-- At least one offset is read, and the first is the one that was checked.
offsets-head :
    (n : ℕ) (bs first offsets : List ℕ)
    → 1 ≤ n
    → slice bs 4 8 ≡ ok first
    → read_offsets n 0 bs ≡ ok offsets
    → (rest : List ℕ) × (offsets ≡ from_le first ∷ rest)
offsets-head zero bs first offsets h e r = absurd (omega arith)
offsets-head (suc n) bs first offsets h e r =
    let (b, rest, e', _, o) = read_offsets-suc-inv n 0 bs offsets r in
    (rest, sym o ∙ ap (λ x. from_le x ∷ rest) (cc))

split_fields-inv :
    (bs : List ℕ) (full off : ℕ) (offsets rest : List ℕ) (fs : List (List ℕ))
    → offsets ≡ off ∷ rest
    → split_fields bs full (offsets ++ (full ∷ [])) ≡ ok fs
    → (offsets ≡ starts off fs)
      × (full ≡ off + total_length fs)
      × (concat fs ≡ take (total_length fs) (drop off bs))
unfolding split_fields
split_fields-inv bs full off offsets rest fs o h =
    let k : split_from bs full off (rest ++ (full ∷ [])) ≡ ok fs = rw o at h in
    let (es, parts) = split_from-inv (rest ++ (full ∷ [])) bs full off fs k in
    let (a, b) = ends-last off full offsets fs (ap (λ xs. xs ++ (full ∷ [])) o ∙ ap (◌∷◌ off) es) in
    (a, b, parts)

module _ (bs : List ℕ) (v : IsBytes bs) (size : List ℕ) (at_size : slice bs 0 4 ≡ ok size)
    (is_size : from_le size ≡ length bs) where
  as_u32-size : as_u32 (length bs) ≡ from_le size
  as_u32-size = omega (arith, (slice_u32 bs 0 size v at_size).3, is_size)

  size-take : le_bytes 4 (as_u32 (length bs)) ≡ take 4 bs
  size-take =
      ap (le_bytes 4) as_u32-size
      ∙ (slice_u32 bs 0 size v at_size).2
      ∙ sym (slice_u32 bs 0 size v at_size).1

  empty_unique : from_le size ≡ 4 → encode_table [] ≡ bs
  unfolding encode_table offset_bytes
  empty_unique e =
      let n : length bs ≡ 4 = omega (arith, is_size) in
      append-nil _
      ∙ ap (λ (k : ℕ). le_bytes 4 (as_u32 k)) (sym n)
      ∙ size-take
      ∙ take_all 4 bs (sym n)

  tail_unique : (fs : List (List ℕ)) → Body bs (from_le size) fs → encode_table fs ≡ bs
  unfolding encode_table
  tail_unique fs b =
      ap₂ ◌++◌ (ap (λ (k : ℕ). le_bytes 4 (as_u32 k)) whole ∙ size-take) (
        ap₂ ◌++◌ (ap (λ (k : ℕ). offset_bytes k fs) header ∙ offs) (parts.2 ∙ tail_)
        ∙ take-append-drop (4 * n) (drop 4 bs))
      ∙ take-append-drop 4 bs
    where
      off : ℕ
      off = from_le b.first

      n : ℕ
      n = (off - 4) / 4

      range : (8 ≤ off) × (off ≤ from_le size) × (4 + 4 * n ≡ off)
      range = plausible-bounds off (from_le size) b.plausible

      read :
          (length b.offsets ≡ n) × (concat (map (le_bytes 4) b.offsets) ≡ take (4 * n) (drop 4 bs))
      read = read_offsets-inv n 0 bs b.offsets v b.offsets_read

      parts :
          (b.offsets ≡ starts off fs)
          × (from_le size ≡ off + total_length fs)
          × (concat fs ≡ take (total_length fs) (drop off bs))
      parts =
          let (rest, o) =
            offsets-head n bs b.first b.offsets (omega (arith, range)) b.first_slice
              b.offsets_read in
          split_fields-inv bs (from_le size) off b.offsets rest fs o b.split

      count : length fs ≡ n
      count = sym (length-starts off fs) ∙ ap length (sym parts.0) ∙ read.0

      header : 4 + 4 * length fs ≡ off
      header = omega (arith, count, range)

      whole : 4 + 4 * length fs + total_length fs ≡ length bs
      whole = omega (arith, header, parts.1, is_size)

      offs : offset_bytes off fs ≡ take (4 * n) (drop 4 bs)
      offs =
          offset_bytes-starts off fs (omega (arith, parts.1, (slice_u32 bs 0 size v at_size).3))
          ∙ ap (λ xs. concat (map (le_bytes 4) xs)) (sym parts.0)
          ∙ read.1

      tail_ : take (total_length fs) (drop off bs) ≡ drop (4 * n) (drop 4 bs)
      tail_ =
          take_all (total_length fs) (drop off bs)
            (omega (arith, length-drop off bs, parts.1, is_size))
          ∙ sym (drop-drop 4 (4 * n) off bs (omega (arith, range)))

-- A string of bytes that reads as a table is the encoding of the fields read.
pub encode_table-read_table_fields :
    (bs : List ℕ) (fs : List (List ℕ))
    → IsBytes bs
    → read_table_fields bs ≡ ok fs
    → encode_table fs ≡ bs
encode_table-read_table_fields bs fs v h =
    let (size, at_size, is_size, r) = read_table_fields-inv bs fs h in
    elim (read_table_body-inv bs (from_le size) fs r) [
      | inl (e, none) ↦ ap encode_table none ∙ empty_unique bs v size at_size is_size e
      | inr b ↦ tail_unique bs v size at_size is_size fs b
    ]

concat-IsBytes : (fs : List (List ℕ)) → IsBytes (concat fs) → All IsBytes fs
concat-IsBytes [] h = tt
concat-IsBytes (f ∷ fs) h =
    let (a, b) = All-append_inv IsByte f (concat fs) h in (a, concat-IsBytes fs b)

-- The fields that are read from a byte string are byte strings.
pub read_table_fields-IsBytes :
    (bs : List ℕ) (fs : List (List ℕ)) → IsBytes bs → read_table_fields bs ≡ ok fs → All IsBytes fs
unfolding encode_table
read_table_fields-IsBytes bs fs v h =
    let w = subst IsBytes (sym (encode_table-read_table_fields bs fs v h)) v in
    let (_, x) = All-append_inv IsByte (le_bytes 4 _) _ w in
    let (_, y) = All-append_inv IsByte (offset_bytes (4 + 4 * length fs) fs) (concat fs) x in
    concat-IsBytes fs y
