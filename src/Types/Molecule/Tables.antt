-- ===== src/Types/Molecule/Tables.antt =====
-- The steps of the table decoder, and its loops on what the encoder's loops wrote.
use rgbpp_indexer.Common.{
  ℕ, ◌+◌, ◌*◌, ◌-◌, ◌/◌, ◌^◌, ◌≤◌, ◌<◌, ◌≡◌, refl, sym, ap, ◌∙◌, false, List, [], ◌∷◌, ◌++◌, arith,
  length, length-append, append_assoc, le_bytes, from_le, length-le_bytes, suc, ltb-false, ==_refl,
  ◌==◌, ◌≢◌, from_le-le_bytes,
}
use rgbpp_indexer.Types.Error.{ok, slice}
use rgbpp_indexer.Types.Molecule.{
  as_u32, total_length, concat, offset_bytes, read_offsets, split_from, split_fields,
  implausible_offset, read_table_body, read_table_fields,
}
use rgbpp_indexer.Types.Molecule.Slices.{slice_mid}

-- The offsets of the fields, and the same list shifted by one with the end of the last field.
abbrev pub starts : ℕ → List (List ℕ) → List ℕ
starts off [] = []
starts off (f ∷ fs) = off ∷ starts (off + length f) fs

abbrev pub ends : ℕ → List (List ℕ) → List ℕ
ends off [] = []
ends off (f ∷ fs) = (off + length f) ∷ ends (off + length f) fs

pub starts-ends :
    (off full : ℕ) (fs : List (List ℕ))
    → off + total_length fs ≡ full
    → starts off fs ++ (full ∷ []) ≡ off ∷ ends off fs
starts-ends off full [] h = ap (λ (n : ℕ). n ∷ []) (omega arith)
starts-ends off full (f ∷ fs) h = ap (◌∷◌ off) (starts-ends (off + length f) full fs (omega arith))

pub length-offset_bytes :
    (off : ℕ) (fs : List (List ℕ)) → length (offset_bytes off fs) ≡ 4 * length fs
unfolding offset_bytes
length-offset_bytes off [] = omega arith
length-offset_bytes off (f ∷ fs) = omega (
  arith,
  length-append (le_bytes 4 (as_u32 off)) (offset_bytes (off + length f) fs),
  length-le_bytes 4 (as_u32 off),
  length-offset_bytes (off + length f) fs,
)

pub length-concat : (fs : List (List ℕ)) → length (concat fs) ≡ total_length fs
length-concat [] = refl
length-concat (f ∷ fs) = omega (arith, length-append f (concat fs), length-concat fs)

pub read_u32 : (n : ℕ) → n < 2 ^ 32 → from_le (le_bytes 4 (as_u32 n)) ≡ n
read_u32 n h = let e : as_u32 n ≡ n = omega arith in rw e (from_le-le_bytes 4 n (omega arith))

read_offsets_step :
    (n i : ℕ) (bs b rest : List ℕ)
    → slice bs (4 + i * 4) (4 + i * 4 + 4) ≡ ok b
    → read_offsets n (i + 1) bs ≡ ok rest
    → read_offsets (suc n) i bs ≡ ok (from_le b ∷ rest)
unfolding read_offsets
read_offsets_step n i bs b rest e r = rw (e, r)

pub split_from_step :
    (bs : List ℕ) (full start end : ℕ) (rest f : List ℕ) (fs : List (List ℕ))
    → start ≤ end
    → end ≤ full
    → slice bs start end ≡ ok f
    → split_from bs full end rest ≡ ok fs
    → split_from bs full start (end ∷ rest) ≡ ok (f ∷ fs)
unfolding split_from
split_from_step bs full start end rest f fs h k e r =
    rw (ltb-false end start h, ltb-false full end k, e, r)

module _ (off : ℕ) (f : List ℕ) (fs : List (List ℕ)) (pre post : List ℕ) where
  offset_head : List ℕ
  offset_head = le_bytes 4 (as_u32 off)

  offset_tail : List ℕ
  offset_tail = offset_bytes (off + length f) fs

  regroup :
      pre ++ (offset_bytes off (f ∷ fs) ++ post) ≡ (pre ++ offset_head) ++ (offset_tail ++ post)
  unfolding offset_bytes offset_head offset_tail
  regroup =
      ap (◌++◌ pre) (append_assoc _ _ post)
      ∙ sym (append_assoc pre offset_head (offset_tail ++ post))

  slice_offset :
      (start end : ℕ)
      → start ≡ length pre
      → end ≡ length pre + 4
      → slice (pre ++ (offset_bytes off (f ∷ fs) ++ post)) start end ≡ ok offset_head
  unfolding offset_bytes offset_head
  slice_offset start end s e =
      rw (append_assoc offset_head (offset_bytes (off + length f) fs) post)
        (slice_mid pre offset_head _ start end s (omega (arith, length-le_bytes 4 (as_u32 off))))

  length-pre_head : length (pre ++ offset_head) ≡ length pre + 4
  unfolding offset_head
  length-pre_head = omega (arith, length-append pre offset_head, length-le_bytes 4 (as_u32 off))

pub read_offsets-offset_bytes :
    (fs : List (List ℕ)) (i off : ℕ) (pre post : List ℕ)
    → length pre ≡ 4 + i * 4
    → off + total_length fs < 2 ^ 32
    → read_offsets (length fs) i (pre ++ (offset_bytes off fs ++ post)) ≡ ok (starts off fs)
unfolding offset_tail offset_bytes
read_offsets-offset_bytes [] i off pre post p h = unfold read_offsets in refl
read_offsets-offset_bytes (f ∷ fs) i off pre post p h =
    read_offsets_step (length fs) i _ _ (starts (off + length f) fs)
      (slice_offset off f fs pre post _ _ (omega arith) (omega arith))
      (rw (regroup off f fs pre post) (
        read_offsets-offset_bytes fs (i + 1) (off + length f) (pre ++ offset_head off f fs pre post)
          post (omega (arith, length-pre_head off f fs pre post)) (omega arith)))
    ∙ ap (λ n. ok (n ∷ starts (off + length f) fs))
        (unfold offset_head in read_u32 off (omega arith))

pub split_from-concat :
    (fs : List (List ℕ)) (off full : ℕ) (pre : List ℕ)
    → length pre ≡ off
    → off + total_length fs ≡ full
    → split_from (pre ++ concat fs) full off (ends off fs) ≡ ok fs
split_from-concat [] off full pre p h = unfold split_from in refl
split_from-concat (f ∷ fs) off full pre p h =
    split_from_step (pre ++ (f ++ concat fs)) full off (off + length f) (ends (off + length f) fs) f
      fs (omega arith) (omega arith)
      (slice_mid pre f (concat fs) off (off + length f) (omega arith) (omega arith))
      (rw (sym (append_assoc pre f (concat fs))) (
        split_from-concat fs (off + length f) full (pre ++ f) (omega (arith, length-append pre f))
          (omega arith)))

module _ (bs : List ℕ) where
  pub read_table_fields_step :
      (size : List ℕ)
      → 4 ≤ length bs
      → slice bs 0 4 ≡ ok size
      → from_le size ≡ length bs
      → read_table_fields bs ≡ read_table_body bs (length bs)
  unfolding read_table_fields
  read_table_fields_step size h e v = rw (ltb-false (length bs) 4 h, e, v, ==_refl (length bs))

  pub read_table_body_step :
      (full : ℕ) (first offsets : List ℕ)
      → full ≢ 4
      → 8 ≤ length bs
      → slice bs 4 8 ≡ ok first
      → implausible_offset (from_le first) full ≡ false
      → read_offsets ((from_le first - 4) / 4) 0 bs ≡ ok offsets
      → read_table_body bs full ≡ split_fields bs full (offsets ++ (full ∷ []))
  unfolding read_table_body
  read_table_body_step full first offsets n h e p r = rw (ne, ltb-false (length bs) 8 h, e, p, r)
    where
      ne : (full == 4) ≡ false
      ne = ground arith
