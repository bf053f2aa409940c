-- ===== src/Indexer/Extract/Kinds.antt =====
-- What `classify_transition` and `derive_btc_txid` say of a transaction.
use rgbpp_indexer.Common.{
  ℕ, ◌≤◌, ◌<◌, ◌≡◌, ◌≢◌, refl, ◌↔◌, List, [], ◌∷◌, All, some, length, true, false, Bool-cases, inl,
  inr, arith, sym, subst,
}
use rgbpp_indexer.Types.Bitcoin.{BtcTxid, txid_eq, txid_eq_iff}
use rgbpp_indexer.Types.Protocol.{LockKind, LockBinding, binding_kind, binding_txid}
use rgbpp_indexer.Types.State.{TransitionKind}
use rgbpp_indexer.Indexer.Extract.{
  ResolvedInput, RgbppOutput, is_btc_time, count_btc_time, count_rgbpp, classify_transition,
  derive_loop, derive_btc_txid,
}

abbrev pub InputIs : LockKind → ResolvedInput → Type 0
InputIs k i = binding_kind i.binding ≡ k

abbrev pub OutputIs : LockKind → RgbppOutput → Type 0
OutputIs k o = binding_kind o.binding ≡ k

is_btc_time_iff : (b : LockBinding) → (is_btc_time b ≡ false) ↔ (binding_kind b ≡ LockKind.rgbpp)
unfolding is_btc_time binding_kind
is_btc_time_iff (LockBinding.rgbpp a) = (λ h. refl, λ h. refl)
is_btc_time_iff (LockBinding.btc_time a) = (λ h. cc, λ h. cc)

is_btc_time_iff' : (b : LockBinding) → (is_btc_time b ≡ true) ↔ (binding_kind b ≡ LockKind.btc_time)
unfolding is_btc_time binding_kind
is_btc_time_iff' (LockBinding.rgbpp a) = (λ h. cc, λ h. cc)
is_btc_time_iff' (LockBinding.btc_time a) = (λ h. refl, λ h. refl)

count_btc_time-zero :
    (is : List ResolvedInput) → (count_btc_time is ≡ 0) ↔ All (InputIs LockKind.rgbpp) is
unfolding count_btc_time
count_btc_time-zero [] = (λ h. tt, λ h. refl)
count_btc_time-zero (i ∷ is) = (
  λ h. ground (arith, is_btc_time_iff i.binding, count_btc_time-zero is),
  λ h. ground (arith, is_btc_time_iff i.binding, count_btc_time-zero is),
)

count_btc_time-le : (is : List ResolvedInput) → count_btc_time is ≤ length is
unfolding count_btc_time
count_btc_time-le [] = omega arith
count_btc_time-le (i ∷ is) = ground (arith, count_btc_time-le is)

count_rgbpp-zero :
    (os : List RgbppOutput) → (count_rgbpp os ≡ 0) ↔ All (OutputIs LockKind.btc_time) os
unfolding count_rgbpp
count_rgbpp-zero [] = (λ h. tt, λ h. refl)
count_rgbpp-zero (o ∷ os) = (
  λ h. ground (arith, is_btc_time_iff' o.binding, count_rgbpp-zero os),
  λ h. ground (arith, is_btc_time_iff' o.binding, count_rgbpp-zero os),
)

count_rgbpp-le : (os : List RgbppOutput) → count_rgbpp os ≤ length os
unfolding count_rgbpp
count_rgbpp-le [] = omega arith
count_rgbpp-le (o ∷ os) = ground (arith, count_rgbpp-le os)

pos_iff : (n : ℕ) → (0 < n) ↔ (n ≢ 0)
pos_iff n = (λ h e. omega arith, λ h. omega arith)

length-zero {ℓ} : {A : Type ℓ} (xs : List A) → (length xs ≡ 0) ↔ (xs ≡ [])
length-zero [] = (λ h. refl, λ h. refl)
length-zero (x ∷ xs) = (λ h. absurd (omega arith), λ h. cc)

nonempty_iff {ℓ} : {A : Type ℓ} (xs : List A) → (0 < length xs) ↔ (xs ≢ [])
nonempty_iff xs = (
  λ h e. omega (arith, (length-zero xs).1 e),
  λ h. (pos_iff (length xs)).1 (λ e. h ((length-zero xs).0 e)),
)

-- The kinds described by the locks on both sides.
abbrev pub Describes : TransitionKind → List ResolvedInput → List RgbppOutput → Type 0
Describes TransitionKind.btc_time_unlock is os = ¬ All (InputIs LockKind.rgbpp) is
Describes TransitionKind.issuance is os = is ≡ []
Describes TransitionKind.leap_to_ckb is os =
    (is ≢ []) × All (InputIs LockKind.rgbpp) is × (os ≢ []) × All (OutputIs LockKind.btc_time) os
Describes TransitionKind.transfer is os =
    (is ≢ []) × All (InputIs LockKind.rgbpp) is × ¬ All (OutputIs LockKind.btc_time) os
Describes TransitionKind.exit is os = (is ≢ []) × All (InputIs LockKind.rgbpp) is × (os ≡ [])

-- The same, counted.
Counted : TransitionKind → ℕ → ℕ → ℕ → ℕ → Type 0
Counted TransitionKind.btc_time_unlock bt ni rg out = 0 < bt
Counted TransitionKind.issuance bt ni rg out = ni ≡ 0
Counted TransitionKind.leap_to_ckb bt ni rg out = (0 < ni) × (bt ≡ 0) × (0 < out) × (rg ≡ 0)
Counted TransitionKind.transfer bt ni rg out = (0 < ni) × (bt ≡ 0) × (0 < rg)
Counted TransitionKind.exit bt ni rg out = (0 < ni) × (bt ≡ 0) × (out ≡ 0)

module _ (is : List ResolvedInput) (os : List RgbppOutput) where
  counted :
      (k : TransitionKind)
      → classify_transition is os ≡ k
      → Counted k (count_btc_time is) (length is) (count_rgbpp os) (length os)
  unfolding classify_transition Counted
  counted TransitionKind.btc_time_unlock h = ground (arith, count_btc_time-le is, count_rgbpp-le os)
  counted TransitionKind.issuance h = ground (arith, count_btc_time-le is, count_rgbpp-le os)
  counted TransitionKind.leap_to_ckb h = ground (arith, count_btc_time-le is, count_rgbpp-le os)
  counted TransitionKind.transfer h = ground (arith, count_btc_time-le is, count_rgbpp-le os)
  counted TransitionKind.exit h = ground (arith, count_btc_time-le is, count_rgbpp-le os)

  classify-Counted :
      (k : TransitionKind)
      → Counted k (count_btc_time is) (length is) (count_rgbpp os) (length os)
      → classify_transition is os ≡ k
  unfolding classify_transition Counted
  classify-Counted TransitionKind.btc_time_unlock h =
      ground (arith, count_btc_time-le is, count_rgbpp-le os)
  classify-Counted TransitionKind.issuance h =
      ground (arith, count_btc_time-le is, count_rgbpp-le os)
  classify-Counted TransitionKind.leap_to_ckb h =
      ground (arith, count_btc_time-le is, count_rgbpp-le os)
  classify-Counted TransitionKind.transfer h =
      ground (arith, count_btc_time-le is, count_rgbpp-le os)
  classify-Counted TransitionKind.exit h = ground (arith, count_btc_time-le is, count_rgbpp-le os)

  Describes-Counted :
      (k : TransitionKind)
      → Counted k (count_btc_time is) (length is) (count_rgbpp os) (length os) ↔ Describes k is os
  unfolding Counted
  Describes-Counted TransitionKind.btc_time_unlock = (
    λ h all. omega (arith, (count_btc_time-zero is).1 all),
    λ h. (pos_iff (count_btc_time is)).1 (λ e. h ((count_btc_time-zero is).0 e)),
  )
  Describes-Counted TransitionKind.issuance = length-zero is
  Describes-Counted TransitionKind.leap_to_ckb = (
    λ h. (
      (nonempty_iff is).0 h.0,
      (count_btc_time-zero is).0 h.1,
      (nonempty_iff os).0 h.2,
      (count_rgbpp-zero os).0 h.3,
    ),
    λ h. (
      (nonempty_iff is).1 h.0,
      (count_btc_time-zero is).1 h.1,
      (nonempty_iff os).1 h.2,
      (count_rgbpp-zero os).1 h.3,
    ),
  )
  Describes-Counted TransitionKind.transfer = (
    λ h. (
      (nonempty_iff is).0 h.0,
      (count_btc_time-zero is).0 h.1,
      λ all. omega (arith, h.2, (count_rgbpp-zero os).1 all),
    ),
    λ h. (
      (nonempty_iff is).1 h.0,
      (count_btc_time-zero is).1 h.1,
      (pos_iff (count_rgbpp os)).1 (λ e. h.2 ((count_rgbpp-zero os).0 e)),
    ),
  )
  Describes-Counted TransitionKind.exit = (
    λ h. ((nonempty_iff is).0 h.0, (count_btc_time-zero is).0 h.1, (length-zero os).0 h.2),
    λ h. ((nonempty_iff is).1 h.0, (count_btc_time-zero is).1 h.1, (length-zero os).1 h.2),
  )

-- A transaction gets a kind exactly when the locks of its RGB++ inputs and outputs are as the kind
-- describes: an unlock has a BTC time lock input; an issuance has no input; of the other three, which
-- have inputs and those all RGB++, a leap has outputs and those all BTC time locks, a transfer has an
-- RGB++ output, and an exit has no output.
pub classify_transition_iff :
    (is : List ResolvedInput) (os : List RgbppOutput) (k : TransitionKind)
    → (classify_transition is os ≡ k) ↔ Describes k is os
classify_transition_iff is os k = (
  λ h. (Describes-Counted is os k).0 (counted is os k h),
  λ h. classify-Counted is os k ((Describes-Counted is os k).1 h),
)

abbrev pub BoundTo : BtcTxid → RgbppOutput → Type 0
BoundTo t o = binding_txid o.binding ≡ t

derive_loop-some :
    (e t : BtcTxid) (os : List RgbppOutput)
    → (derive_loop (some e) os ≡ some t) ↔ ((e ≡ t) × All (BoundTo e) os)
unfolding derive_loop
derive_loop-some e t [] = (λ h. (cc, tt), λ h. cc (h.0))
derive_loop-some e t (o ∷ os) = elim (Bool-cases (txid_eq e (binding_txid o.binding))) [
  | inl same ↦
      let eq : binding_txid o.binding ≡ e = sym ((txid_eq_iff e (binding_txid o.binding)).0 same) in
      (
        λ h. let (a, b) = (derive_loop-some e t os).0 (rw (same, derive_loop) at h) in (a, (eq, b)),
        λ h. rw (same, derive_loop) ((derive_loop-some e t os).1 (h.0, h.1.1)),
      )
  | inr other ↦ (
    λ h. absurd (let k = rw other at h in cc),
    λ h. absurd (let k = (txid_eq_iff e (binding_txid o.binding)).1 (sym h.1.0) in cc),
  )
]

-- A transaction id is derived exactly when there is an RGB++ output and all of them name that id.
pub derive_btc_txid_iff :
    (os : List RgbppOutput) (t : BtcTxid)
    → (derive_btc_txid os ≡ some t) ↔ ((os ≢ []) × All (BoundTo t) os)
unfolding derive_btc_txid derive_loop
derive_btc_txid_iff [] t = (λ h. cc, λ h. absurd (h.0 refl))
derive_btc_txid_iff (o ∷ os) t = (
  λ h.
      let (a, b) = (derive_loop-some (binding_txid o.binding) t os).0 h in
      ((λ e. cc), (a, subst (λ x. All (BoundTo x) os) a b)),
  λ h.
      (derive_loop-some (binding_txid o.binding) t os).1
        (h.1.0, subst (λ x. All (BoundTo x) os) (sym h.1.0) h.1.1),
)
