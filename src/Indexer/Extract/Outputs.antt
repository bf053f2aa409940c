-- ===== src/Indexer/Extract/Outputs.antt =====
-- `classify_outputs`: which outputs of a transaction are found.
use rgbpp_indexer.Common.{
  Occurs, some-injective, All-imp, ℕ, suc, zero, ◌+◌, ◌≡◌, refl, sym, ap, ap₂, subst, ◌∙◌, inl, inr,
  none, some, List, [], ◌∷◌, All, get_elem?, Option-cases, arith,
}
use rgbpp_indexer.Types.Error.{ok, err, ok-injective, Result-cases}
use rgbpp_indexer.Types.Ckb.{CellOutput}
use rgbpp_indexer.Types.Molecule.{as_u32}
use rgbpp_indexer.Types.Protocol.{LockKind, LockBinding, ProtocolScripts, classify, binding_parse}
use rgbpp_indexer.Types.Protocol.TimeArgs.{binding_parse-ne-panic}
use rgbpp_indexer.Indexer.Extract.{RgbppOutput, data_at, classify_from, classify_outputs}

module _ (p : ProtocolScripts) (datas : List (List ℕ)) where
  -- The lock of the output is of the protocol, and its args have a meaning.
  abbrev pub IsReadable : CellOutput → LockBinding → Type 0
  IsReadable c b =
      (kind : LockKind) × (classify p c.lock ≡ some kind) × (binding_parse kind c.lock.args ≡ ok b)

  abbrev pub found_at : ℕ → CellOutput → LockBinding → RgbppOutput
  found_at i c b = record { index = as_u32 i; binding = b; cell = c; cell_data = data_at datas i }

  -- `o` is what `classify_outputs` makes of a readable output of the list that starts at `start`.
  abbrev pub IsFound : ℕ → List CellOutput → RgbppOutput → Type 0
  IsFound start cs o =
      (k : ℕ) × (c : CellOutput) × (b : LockBinding) × (get_elem? cs k ≡ some c)
      × IsReadable c b
      × (o ≡ found_at (start + k) c b)

  -- Every readable output is in `found`.
  abbrev pub FindsAll : ℕ → List CellOutput → List RgbppOutput → Type 0
  FindsAll start cs found =
      (k : ℕ) (c : CellOutput) (b : LockBinding)
      → get_elem? cs k ≡ some c
      → IsReadable c b
      → Occurs (found_at (start + k) c b) found

  abbrev pub Classified : ℕ → List CellOutput → Type 0
  Classified start cs =
      (found : List RgbppOutput) × (classify_from p datas start cs ≡ ok found)
      × All (IsFound start cs) found
      × FindsAll start cs found

  step-none :
      (i : ℕ) (c : CellOutput) (cs : List CellOutput)
      → classify p c.lock ≡ none
      → classify_from p datas i (c ∷ cs) ≡ classify_from p datas (i + 1) cs
  unfolding classify_from
  step-none i c cs e = rw (e, classify_from)

  step-err :
      (i : ℕ) (c : CellOutput) (cs : List CellOutput) {kind : LockKind} {x : _}
      → classify p c.lock ≡ some kind
      → binding_parse kind c.lock.args ≡ err x
      → classify_from p datas i (c ∷ cs) ≡ classify_from p datas (i + 1) cs
  unfolding classify_from
  step-err i c cs e k = rw (e, k, classify_from)

  step-ok :
      (i : ℕ) (c : CellOutput) (cs : List CellOutput) {kind : LockKind} {b : LockBinding}
      {found : List RgbppOutput}
      → classify p c.lock ≡ some kind
      → binding_parse kind c.lock.args ≡ ok b
      → classify_from p datas (i + 1) cs ≡ ok found
      → classify_from p datas i (c ∷ cs) ≡ ok (found_at i c b ∷ found)
  unfolding classify_from
  step-ok i c cs e k h = rw (e, k, h, classify_from)

  nothing_readable :
      (c : CellOutput) → classify p c.lock ≡ none → (b : LockBinding) → IsReadable c b → ⊥
  nothing_readable c e b r = let h = sym e ∙ r.1 in cc

  args_unreadable :
      (c : CellOutput) {kind : LockKind} {x : _}
      → classify p c.lock ≡ some kind
      → binding_parse kind c.lock.args ≡ err x
      → (b : LockBinding) → IsReadable c b
      → ⊥
  args_unreadable c e k b r =
      let same = some-injective (sym e ∙ r.1) in
      let h = sym k ∙ ap (λ kind. binding_parse kind c.lock.args) same ∙ r.2 in cc

  IsFound-suc :
      (i : ℕ) (c : CellOutput) (cs : List CellOutput) (o : RgbppOutput)
      → IsFound (i + 1) cs o
      → IsFound i (c ∷ cs) o
  IsFound-suc i c cs o (k, d, b, e, r, q) =
      (suc k, d, b, e, r, q ∙ ap (λ n. found_at n d b) (omega arith))

  found_later :
      (i k : ℕ) (c : CellOutput) (b : LockBinding) (found : List RgbppOutput)
      → Occurs (found_at (i + 1 + k) c b) found
      → Occurs (found_at (i + suc k) c b) found
  found_later i k c b found h = subst (λ n. Occurs (found_at n c b) found) (omega arith) h

  same_binding :
      (c d : CellOutput) (b x : LockBinding) (kind : LockKind)
      → c ≡ d
      → classify p c.lock ≡ some kind
      → binding_parse kind c.lock.args ≡ ok b
      → IsReadable d x
      → x ≡ b
  same_binding c d b x kind q e k r =
      let r1 = subst (λ d. IsReadable d x) (sym q) r in
      let same = some-injective (sym e ∙ r1.1) in
      ok-injective (sym r1.2 ∙ ap (λ kind. binding_parse kind c.lock.args) (sym same) ∙ k)

  -- An output that is not readable is passed over.
  Classified-skip :
      (i : ℕ) (c : CellOutput) (cs : List CellOutput)
      → classify_from p datas i (c ∷ cs) ≡ classify_from p datas (i + 1) cs
      → ((b : LockBinding) → IsReadable c b → ⊥)
      → Classified (i + 1) cs
      → Classified i (c ∷ cs)
  Classified-skip i c cs e unreadable (found, q, sound, complete) =
      (found, e ∙ q, All-imp (IsFound-suc i c cs) found sound, later)
    where
      later : FindsAll i (c ∷ cs) found
      later zero d b h r =
          absurd (unreadable b (subst (λ x. IsReadable x b) (sym (some-injective h)) r))
      later (suc k) d b h r = found_later i k d b found (complete k d b h r)

  -- A readable output is found, in front of the later ones.
  Classified-take :
      (i : ℕ) (c : CellOutput) (cs : List CellOutput) (kind : LockKind) (b : LockBinding)
      → classify p c.lock ≡ some kind
      → binding_parse kind c.lock.args ≡ ok b
      → Classified (i + 1) cs
      → Classified i (c ∷ cs)
  Classified-take i c cs kind b e k (found, q, sound, complete) = (
    found_at i c b ∷ found,
    step-ok i c cs e k q,
    (
      (0, c, b, refl, (kind, e, k), ap (λ n. found_at n c b) (omega arith)),
      All-imp (IsFound-suc i c cs) found sound,
    ),
    later,
  )
    where
      later : FindsAll i (c ∷ cs) (found_at i c b ∷ found)
      later zero d x h r = inl (
          ap₂ (λ c b. found_at (i + 0) c b) (sym (some-injective h))
            (same_binding c d b x kind (some-injective h) e k r)
          ∙ ap (λ n. found_at n c b) (omega arith))
      later (suc k) d x h r = inr (found_later i k d x found (complete k d x h r))

  classified : (i : ℕ) (cs : List CellOutput) → Classified i cs
  unfolding classify_from
  classified i [] = ([], refl, tt, λ k c b h _. cc)
  classified i (c ∷ cs) =
      let rest = classified (i + 1) cs in
      elim (Option-cases (classify p c.lock)) [
        | inl e ↦ Classified-skip i c cs (step-none i c cs e) (nothing_readable c e) rest
        | inr (kind, e) ↦ elim (Result-cases (binding_parse kind c.lock.args)) [
          | inl (b, k) ↦ Classified-take i c cs kind b e k rest
          | inr (inl (x, k)) ↦
              Classified-skip i c cs (step-err i c cs e k) (args_unreadable c e k) rest
          | inr (inr k) ↦ absurd (binding_parse-ne-panic kind c.lock.args k)
        ]
      ]

  -- Whatever cells a transaction has, `classify_outputs` neither fails nor panics; what it returns is made of
  -- readable outputs only, each with its own index, cell and data, and it has every readable output.
  pub classify_outputs_lem :
      (cs : List CellOutput)
      → (found : List RgbppOutput) × (classify_outputs p cs datas ≡ ok found)
        × All (IsFound 0 cs) found
        × FindsAll 0 cs found
  unfolding classify_outputs
  classify_outputs_lem cs = classified 0 cs
