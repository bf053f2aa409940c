-- ===== src/Store/Queue/Claims.antt =====
-- A row of the queue that was claimed is not due for a while.
use rgbpp_indexer.Common.{
  ◌++◌, refl, ℕ, zero, suc, ◌+◌, ◌^◌, ◌≤◌, ◌<◌, ◌≡◌, sym, ap, ◌∙◌, subst, ◌⊎◌, inl, inr, true,
  false, Bool-cases, List, [], ◌∷◌, map, Occurs, Occurs-map_inv, take, leb, leb→le, or_true, arith,
}
use native.Mathlib.Nat.{pow-suc}
use rgbpp_indexer.Types.Bitcoin.{BtcOutPoint, out_point_eq, out_point_eq_iff}
use rgbpp_indexer.Store.Observations.{BtcTables, QueueRow}
use rgbpp_indexer.Store.Queue.{
  has_point, backoff, due_before, insert_due, due_rows, skip_locked, picked, update_picked,
  returned, claim_refresh_batch,
}

pub Occurs-take : {A : Type 0} (n : ℕ) (x : A) (xs : List A) → Occurs x (take n xs) → Occurs x xs
Occurs-take zero x xs h = absurd h
Occurs-take (suc n) x [] h = absurd h
Occurs-take (suc n) x (y ∷ ys) (inl e) = inl e
Occurs-take (suc n) x (y ∷ ys) (inr h) = inr (Occurs-take n x ys h)

has_point-Occurs : (o : BtcOutPoint) (ps : List BtcOutPoint) → has_point o ps ≡ true → Occurs o ps
unfolding has_point
has_point-Occurs o [] h = absurd (let k = h in cc)
has_point-Occurs o (p ∷ ps) h = elim (or_true (out_point_eq o p) (has_point o ps) h) [
  | inl e ↦ inl ((out_point_eq_iff o p).0 e)
  | inr k ↦ inr (has_point-Occurs o ps k)
]

has_point-append :
    (o : BtcOutPoint) (ps others : List BtcOutPoint)
    → has_point o ps ≡ true
    → has_point o (ps ++ others) ≡ true
unfolding has_point
has_point-append o [] others h = absurd (let k = h in cc)
has_point-append o (p ∷ ps) others h = elim (or_true (out_point_eq o p) (has_point o ps) h) [
  | inl e ↦ rw e refl
  | inr k ↦ rw (has_point-append o ps others k) (ground (arith, Bool-cases (out_point_eq o p)))
]

insert_due-Occurs :
    (x r : QueueRow) (rows : List QueueRow) → Occurs x (insert_due r rows) → (x ≡ r) ⊎ Occurs x rows
unfolding insert_due
insert_due-Occurs x r [] h = h
insert_due-Occurs x r (y ∷ ys) h = elim (Bool-cases (due_before y r)) [
  | inl e ↦
      let k : Occurs x (y ∷ insert_due r ys) = rw e at h in
      elim k [
        | inl a ↦ inr (inl a)
        | inr b ↦ elim (insert_due-Occurs x r ys b) [ inl a ↦ inl a | inr c ↦ inr (inr c) ]
      ]
  | inr e ↦ rw e at h
]

due_rows-inv :
    (now : ℕ) (x : QueueRow) (rows : List QueueRow)
    → Occurs x (due_rows now rows)
    → Occurs x rows × (x.next_attempt_at ≤ now)
unfolding due_rows
due_rows-inv now x [] h = absurd h
due_rows-inv now x (row ∷ rows) h = elim (Bool-cases (leb row.next_attempt_at now)) [
  | inl e ↦ elim (insert_due-Occurs x row (due_rows now rows) (rw e at h)) [
    | inl a ↦ (
      inl a,
      subst (λ (r : QueueRow). r.next_attempt_at ≤ now) (sym a) (leb→le row.next_attempt_at now e),
    )
    | inr b ↦ let (k, l) = due_rows-inv now x rows b in (inr k, l)
  ]
  | inr e ↦ let (k, l) = due_rows-inv now x rows (rw e at h) in (inr k, l)
]

pow_positive : (a : ℕ) → 0 < 2 ^ a
pow_positive zero = omega arith
pow_positive (suc a) = omega (arith, pow-suc 2 a, pow_positive a)

backoff_positive : (a : ℕ) → 0 < backoff a
backoff_positive a = omega (arith, pow_positive (a + 1))

update_picked-inv :
    (now : ℕ) (ps : List BtcOutPoint) (x : QueueRow) (rows : List QueueRow)
    → Occurs x (update_picked now ps rows)
    → x.next_attempt_at ≤ now
    → has_point x.out_point ps ≡ false
unfolding update_picked
update_picked-inv now ps x [] h due = absurd h
update_picked-inv now ps x (row ∷ rows) (inr h) due = update_picked-inv now ps x rows h due
update_picked-inv now ps x (row ∷ rows) (inl h) due =
    elim (Bool-cases (has_point row.out_point ps)) [
      | inl e ↦
          let same = ap (λ (r : QueueRow). r.next_attempt_at) (rw e at h) in
          absurd (omega (arith, backoff_positive row.attempts, same))
      | inr e ↦ ap (λ (r : QueueRow). has_point r.out_point ps) (rw e at h) ∙ e
    ]

returned-inv :
    (now : ℕ) (ps : List BtcOutPoint) (o : BtcOutPoint) (rows : List QueueRow)
    → Occurs o (map (λ (r : QueueRow). r.out_point) (returned now ps rows))
    → has_point o ps ≡ true
unfolding returned
returned-inv now ps o [] h = absurd h
returned-inv now ps o (row ∷ rows) h = elim (Bool-cases (has_point row.out_point ps)) [
  | inl e ↦ elim (rw e at h) [
    | inl a ↦ ap (λ p. has_point p ps) a ∙ e
    | inr b ↦ returned-inv now ps o rows b
  ]
  | inr e ↦ returned-inv now ps o rows (rw e at h)
]

skip_locked-inv :
    (locked : List BtcOutPoint) (x : QueueRow) (rows : List QueueRow)
    → Occurs x (skip_locked locked rows)
    → Occurs x rows × (has_point x.out_point locked ≡ false)
unfolding skip_locked
skip_locked-inv locked x [] h = absurd h
skip_locked-inv locked x (row ∷ rows) h = elim (Bool-cases (has_point row.out_point locked)) [
  | inl e ↦ let (k, l) = skip_locked-inv locked x rows (rw e at h) in (inr k, l)
  | inr e ↦ elim (rw e at h) [
    | inl a ↦ (inl a, ap (λ (r : QueueRow). has_point r.out_point locked) a ∙ e)
    | inr b ↦ let (k, l) = skip_locked-inv locked x rows b in (inr k, l)
  ]
]

-- What a claim returns stands in a row that is due and that nobody else has locked.
returned-row :
    (locked : List BtcOutPoint) (limit now : ℕ) (rows : List QueueRow) (o : BtcOutPoint)
    → Occurs o
        (map (λ (r : QueueRow). r.out_point) (returned now (picked locked limit now rows) rows))
    → (row : QueueRow) × (o ≡ row.out_point)
      × Occurs row rows
      × (row.next_attempt_at ≤ now)
      × (has_point row.out_point locked ≡ false)
unfolding picked
returned-row locked limit now rows o h =
    let taken = returned-inv now (picked locked limit now rows) o rows h in
    let (row, occurs, same) =
      Occurs-map_inv _ o (take limit (skip_locked locked (due_rows now rows)))
        (has_point-Occurs o _ taken) in
    let (due_row, free) =
      skip_locked-inv locked row (due_rows now rows) (Occurs-take limit row _ occurs) in
    let (in_rows, due) = due_rows-inv now row rows due_row in (row, same, in_rows, due, free)

-- What a second claim finds while or after another claim is made on `t`: the rows that the other has picked are
-- locked, and what it writes is not seen yet; or it is committed, and its locks are gone (a row that is committed while
-- the second claim goes on is read anew, by PostgreSQL's rule for rows that it locks). Further locks are possible.
pub data Finds (locked : List BtcOutPoint) (limit now : ℕ) (t : BtcTables)
    : List BtcOutPoint → BtcTables → Type 0 where
  in_flight :
      (others : List BtcOutPoint)
      → Finds locked limit now t (picked locked limit now t.queue ++ others) t
  committed :
      (others : List BtcOutPoint)
      → Finds locked limit now t others (claim_refresh_batch locked limit now t).0

abbrev pub claimed_points : BtcTables × List QueueRow → List BtcOutPoint
claimed_points claim = map (λ (r : QueueRow). r.out_point) claim.1

-- Two claims at one time never return the same out point, also when they overlap: while the first is not committed, the
-- second passes over what it has locked, and afterwards what the first has taken is not due, by its backoff.
pub claim_refresh_batch-apart :
    (locked : List BtcOutPoint) (limit again now : ℕ) (t : BtcTables) (o : BtcOutPoint)
    (held : List BtcOutPoint) (found : BtcTables)
    → Finds locked limit now t held found
    → Occurs o (claimed_points (claim_refresh_batch locked limit now t))
    → ¬ (Occurs o (claimed_points (claim_refresh_batch held again now found)))
unfolding claim_refresh_batch
claim_refresh_batch-apart locked limit again now t o _ _ (in_flight others) h = λ k.
    let ps = picked locked limit now t.queue in
    let taken = returned-inv now ps o t.queue h in
    let (row, same, _, _, free) = returned-row (ps ++ others) again now t.queue o k in
    absurd (
      let z =
        sym (has_point-append o ps others taken)
        ∙ ap (λ p. has_point p (ps ++ others)) same
        ∙ free in
      cc)
claim_refresh_batch-apart locked limit again now t o _ _ (committed others) h = λ k.
    let ps = picked locked limit now t.queue in
    let taken = returned-inv now ps o t.queue h in
    let (row, same, in_rows, due, _) =
      returned-row others again now (update_picked now ps t.queue) o k in
    let free = update_picked-inv now ps row t.queue in_rows due in
    absurd (let z = sym taken ∙ ap (λ p. has_point p ps) same ∙ free in cc)
