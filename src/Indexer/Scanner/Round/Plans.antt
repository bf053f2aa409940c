-- ===== src/Indexer/Scanner/Round/Plans.antt =====
-- How a round ends, from what it was planned as.
use rgbpp_indexer.Common.{
  ℕ, ◌^◌, ◌<◌, arith, or_true, ◌≤◌, ◌≡◌, refl, sym, ap, ◌∙◌, subst, ◌⊎◌, inl, inr, true, false,
  Bool-cases, Option, none, some, Option-cases, List, leb, some-injective, leb→le,
}
use rgbpp_indexer.Types.Error.{Result, ok, err, panic, ok-injective, >>=-eq-ok}
use rgbpp_indexer.Types.Protocol.{LockKind, ProtocolScripts}
use rgbpp_indexer.Types.Config.{Config, CkbConfig, safe_ckb_target, safe_ckb_target-eq-some}
use rgbpp_indexer.Client.{Node, collect_transactions_in_range}
use rgbpp_indexer.Store.Models.{StreamState, Database}
use rgbpp_indexer.Indexer.Scanner.{
  ScanPlan, no_target, idle, scan, scan_plan, reaches, assert_checkpoint_still_canonical,
}
use rgbpp_indexer.Indexer.Scanner.Merge.{and_then, collect_range, lock_search_script}
use rgbpp_indexer.Indexer.Scanner.Round.{
  ScanRound, Collected, commit_round, collect_scan, finish_scan, scan_planned,
}

-- A computation with fuel that had enough of it.
abbrev pub HasResult {ℓ} : {A : Type ℓ} → Option (Result A) → Type ℓ
HasResult {A = A} m = (r : Result A) × (m ≡ some r)

-- The collection of the pages ends, for each of the two locks and every range.
abbrev pub EndsPages : Node → ℕ → ℕ → ProtocolScripts → Type 0
EndsPages node page_limit fuel p =
    (kind : LockKind) (from to : ℕ)
    → HasResult
        (collect_transactions_in_range node page_limit fuel (lock_search_script p kind) from to)

and_then-HasResult {ℓ κ} :
    {A : Type ℓ} {B : Type κ} (m : Option (Result A)) (f : A → Option (Result B))
    → HasResult m
    → ((a : A) → HasResult (f a))
    → HasResult (and_then m f)
and_then-HasResult none f (r, e) k = absurd (let j = e in cc)
and_then-HasResult (some (ok a)) f h k = k a
and_then-HasResult (some (err e)) f h k = (err e, refl)
and_then-HasResult (some panic) f h k = (panic, refl)

-- A target below 2 ^ 63 that the checkpoint reaches.
reaches-le :
    (c : CkbConfig) (state : StreamState) (tip u : ℕ)
    → tip < 2 ^ 63
    → safe_ckb_target c tip ≡ some u
    → reaches state.last_block_number u ≡ true
    → u ≤ state.last_block_number
reaches-le c state tip u m q b =
    let (lag, _) = safe_ckb_target-eq-some c tip u q in
    elim (or_true (leb (2 ^ 63) u) (leb u state.last_block_number) b) [
      | inl e ↦ absurd (omega (arith, leb→le (2 ^ 63) u e, lag, m))
      | inr e ↦ leb→le u state.last_block_number e
    ]

module _ (blake2b sha256 : List ℕ → List ℕ) (fuel : ℕ) (c : Config) (node : Node) where
  finish_scan-HasResult :
      (from to tip target : ℕ) (m : Option (Result Collected)) (db : Database)
      → HasResult m
      → HasResult (finish_scan blake2b sha256 fuel c node from to tip target m db).1
  unfolding finish_scan
  finish_scan-HasResult from to tip target none db (r, e) = absurd (let j = e in cc)
  finish_scan-HasResult from to tip target (some (err e)) db h = (err e, refl)
  finish_scan-HasResult from to tip target (some panic) db h = (panic, refl)
  finish_scan-HasResult from to tip target (some (ok out)) db h = (ok _, refl)

  pub scan_planned-HasResult :
      (tip : ℕ) (plan : Result ScanPlan) (db : Database)
      → EndsPages node c.ckb.page_limit fuel c.protocol
      → HasResult (scan_planned blake2b sha256 fuel c node tip plan db).1
  unfolding scan_planned collect_range
  scan_planned-HasResult tip (err e) db ends = (err e, refl)
  scan_planned-HasResult tip panic db ends = (panic, refl)
  scan_planned-HasResult tip (ok no_target) db ends = (ok _, refl)
  scan_planned-HasResult tip (ok (idle target)) db ends = (ok _, refl)
  scan_planned-HasResult tip (ok (scan from to target)) db ends =
      finish_scan-HasResult from to tip target
        (collect_scan blake2b sha256 fuel c node from to tip target db) db
        (and_then-HasResult (collect_range node c.ckb.page_limit fuel c.protocol from to) _
          (and_then-HasResult _ _ (ends LockKind.rgbpp from to)
            λ first. and_then-HasResult _ _ (ends LockKind.btc_time from to) λ second. (ok _, refl))
          λ records. (_, refl))

  finish_scan-round :
      (from to tip target : ℕ) (m : Option (Result Collected)) (db : Database) (round : ScanRound)
      → (finish_scan blake2b sha256 fuel c node from to tip target m db).1 ≡ some (ok round)
      → (from ≡ round.from) × (to ≡ round.to) × (target ≡ round.target) × (round.is_idle ≡ false)
  unfolding finish_scan commit_round
  finish_scan-round from to tip target none db round q = absurd (let k = q in cc)
  finish_scan-round from to tip target (some (err e)) db round q =
      absurd (let k = some-injective q in cc)
  finish_scan-round from to tip target (some panic) db round q =
      absurd (let k = some-injective q in cc)
  finish_scan-round from to tip target (some (ok out)) db round q =
      let k = ok-injective (some-injective q) in
      (
        ap (λ (r : ScanRound). r.from) k,
        ap (λ (r : ScanRound). r.to) k,
        ap (λ (r : ScanRound). r.target) k,
        sym (ap (λ (r : ScanRound). r.is_idle) k),
      )

  -- What a round that ends with a value was planned as.
  pub scan_planned-idle :
      (tip : ℕ) (plan : Result ScanPlan) (db : Database) (round : ScanRound)
      → (scan_planned blake2b sha256 fuel c node tip plan db).1 ≡ some (ok round)
      → round.is_idle ≡ true
      → (plan ≡ ok no_target) ⊎ ((t : ℕ) × (plan ≡ ok (idle t)))
  unfolding scan_planned
  scan_planned-idle tip (err e) db round q i = absurd (let k = some-injective q in cc)
  scan_planned-idle tip panic db round q i = absurd (let k = some-injective q in cc)
  scan_planned-idle tip (ok no_target) db round q i = inl refl
  scan_planned-idle tip (ok (idle target)) db round q i = inr (target, refl)
  scan_planned-idle tip (ok (scan from to target)) db round q i =
      let collected = collect_scan blake2b sha256 fuel c node from to tip target db in
      let (_, _, _, busy) = finish_scan-round from to tip target collected db round q in
      absurd (let k = sym i ∙ busy in cc)

  pub scan_planned-scan :
      (tip : ℕ) (plan : Result ScanPlan) (db : Database) (round : ScanRound)
      → (scan_planned blake2b sha256 fuel c node tip plan db).1 ≡ some (ok round)
      → round.is_idle ≡ false
      → plan ≡ ok (scan round.from round.to round.target)
  unfolding scan_planned
  scan_planned-scan tip (err e) db round q i = absurd (let k = some-injective q in cc)
  scan_planned-scan tip panic db round q i = absurd (let k = some-injective q in cc)
  scan_planned-scan tip (ok no_target) db round q i =
      absurd (let k = ap (λ (r : ScanRound). r.is_idle) (ok-injective (some-injective q)) ∙ i in cc)
  scan_planned-scan tip (ok (idle target)) db round q i =
      absurd (let k = ap (λ (r : ScanRound). r.is_idle) (ok-injective (some-injective q)) ∙ i in cc)
  scan_planned-scan tip (ok (scan from to target)) db round q i =
      let collected = collect_scan blake2b sha256 fuel c node from to tip target db in
      let (a, b, t, _) = finish_scan-round from to tip target collected db round q in
      ap ok (rw (a, b, t) refl)

  idle-injective : {a b : ℕ} → idle a ≡ idle b → a ≡ b
  idle-injective h = cc

  -- What a plan to rest says of the target.
  pub plan-idle :
      (hash : ℕ → Result (Option (List ℕ))) (state : StreamState) (tip t : ℕ)
      → tip < 2 ^ 63
      → scan_plan hash c.ckb state tip ≡ ok (idle t)
      → (safe_ckb_target c.ckb tip ≡ some t) × (t ≤ state.last_block_number)
  unfolding scan_plan
  plan-idle hash state tip t m e = elim (Option-cases (safe_ckb_target c.ckb tip)) [
    | inl q ↦ absurd (let k = ok-injective (rw (q, scan_plan) at e) in cc)
    | inr (u, q) ↦
        let k = rw (q, scan_plan) at e in
        elim (Bool-cases (reaches state.last_block_number u)) [
          | inl b ↦
              let same = idle-injective (ok-injective (rw b at k)) in
              (
                q ∙ ap some same,
                subst (λ n. n ≤ state.last_block_number) same (reaches-le c.ckb state tip u m q b),
              )
          | inr b ↦
              let (_, _, j) =
                >>=-eq-ok (assert_checkpoint_still_canonical hash state) _ (rw b at k) in
              absurd (let l = ok-injective j in cc)
        ]
  ]

  pub plan-no_target :
      (hash : ℕ → Result (Option (List ℕ))) (state : StreamState) (tip : ℕ)
      → scan_plan hash c.ckb state tip ≡ ok no_target
      → safe_ckb_target c.ckb tip ≡ none
  unfolding scan_plan
  plan-no_target hash state tip e = elim (Option-cases (safe_ckb_target c.ckb tip)) [
    | inl q ↦ q
    | inr (u, q) ↦
        let k = rw (q, scan_plan) at e in
        elim (Bool-cases (reaches state.last_block_number u)) [
          | inl b ↦ absurd (let l = ok-injective (rw b at k) in cc)
          | inr b ↦
              let (_, _, j) =
                >>=-eq-ok (assert_checkpoint_still_canonical hash state) _ (rw b at k) in
              absurd (let l = ok-injective j in cc)
        ]
  ]
