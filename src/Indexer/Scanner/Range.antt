-- ===== src/Indexer/Scanner/Range.antt =====
-- The range of heights that a round scans.
use rgbpp_indexer.Common.{
  ℕ, ◌+◌, ◌-◌, ◌^◌, ◌≤◌, ◌<◌, min, max, ◌≡◌, ◌≢◌, refl, sym, ap, ◌∙◌, ◌⊎◌, inl, inr, Option, some,
  List, leb, bytes_eq, bytes_eq→eq, Bool-cases, false, Option-cases, lt→ltb, leb_false→lt, leb→le,
  or_false, arith,
}
use rgbpp_indexer.Types.Error.{Result, ok, err, reorg, >>=-eq-ok}
use rgbpp_indexer.Types.Config.{CkbConfig, safe_ckb_target, safe_ckb_target-eq-some}
use rgbpp_indexer.Store.Models.{StreamState, IndexBatch}
use rgbpp_indexer.Store.Apply.{set_checkpoint}
use rgbpp_indexer.Indexer.Scanner.{
  scan, idle, no_target, assert_checkpoint_still_canonical, scan_plan, reaches, max_as_i64, add_u64,
  sub_u64,
}

-- What a round may scan.
pub record IsRange (c : CkbConfig) (state : StreamState) (chain_tip from to target : ℕ)
    : Type 0 where
  pub from_eq : from ≡ max (state.last_block_number + 1) c.start_block
  pub from_le : from ≤ to
  pub to_le : to ≤ target
  pub target_eq : target + c.reorg_lag ≡ chain_tip
  pub size_le : to < from + c.batch_blocks
  pub whole_batch : (to ≡ target) ⊎ (to + 1 ≡ from + c.batch_blocks)

module _ (from batch target : ℕ) (h : 0 < batch) (k : from ≤ target)
    (m : target + batch < 2 ^ 64) where
  abbrev last : ℕ
  last = min target (sub_u64 (add_u64 from batch) 1)

  end_eq : sub_u64 (add_u64 from batch) 1 ≡ from + batch - 1
  end_eq = omega arith

  last_eq : last ≡ min target (from + batch - 1)
  last_eq = ap (min target) end_eq

  from_le_last : from ≤ last
  from_le_last = rw last_eq (omega arith)

  last_le : last ≤ target
  last_le = rw last_eq (omega arith)

  last_lt : last < from + batch
  last_lt = rw last_eq (omega arith)

  last_whole : (last ≡ target) ⊎ (last + 1 ≡ from + batch)
  last_whole = rw last_eq (ground arith)

abbrev pub plan_from : CkbConfig → StreamState → ℕ
plan_from c state = max_as_i64 (state.last_block_number + 1) c.start_block

abbrev pub plan_to : CkbConfig → StreamState → ℕ → ℕ
plan_to c state target = min target (sub_u64 (add_u64 (plan_from c state) c.batch_blocks) 1)

plan_from_lem :
    (c : CkbConfig) (state : StreamState)
    → c.start_block < 2 ^ 63
    → plan_from c state ≡ max (state.last_block_number + 1) c.start_block
plan_from_lem c state h = elim (Bool-cases (leb (2 ^ 63) c.start_block)) [
  | inl e ↦ absurd (omega (arith, leb→le (2 ^ 63) c.start_block e, h))
  | inr e ↦ rw e refl
]

scan-injective : {a b t x y z : ℕ} → ok (scan a b t) ≡ ok (scan x y z) → (a ≡ x) × (b ≡ y) × (t ≡ z)
scan-injective h = (cc, cc, cc)

module _ (header_hash : ℕ → Result (Option (List ℕ))) where
  -- What a scan that was decided on has passed.
  pub scan_plan-inv :
      (c : CkbConfig) (state : StreamState) (chain_tip : ℕ) {from to target : ℕ}
      → scan_plan header_hash c state chain_tip ≡ ok (scan from to target)
      → (safe_ckb_target c chain_tip ≡ some target)
        × (reaches state.last_block_number target ≡ false)
        × (assert_checkpoint_still_canonical header_hash state ≡ ok tt)
        × (plan_from c state ≡ from)
        × (plan_to c state target ≡ to)
  unfolding scan_plan
  scan_plan-inv c state chain_tip e = elim (Option-cases (safe_ckb_target c chain_tip)) [
    | inl q ↦ absurd (let k = rw (q, scan_plan) at e in cc)
    | inr (t, q) ↦
        let k = rw (q, scan_plan) at e in
        elim (Bool-cases (reaches state.last_block_number t)) [
          | inl b ↦ absurd (let j = rw b at k in cc)
          | inr b ↦
              let (_, checked, j) =
                >>=-eq-ok (assert_checkpoint_still_canonical header_hash state) _ (rw b at k) in
              let (x, y, z) = scan-injective j in
              (
                q ∙ ap some z,
                ap (λ t. reaches state.last_block_number t) (sym z) ∙ b,
                checked,
                x,
                ap (plan_to c state) (sym z) ∙ y,
              )
        ]
  ]

  -- With a positive batch size, and a tip that leaves room for a batch below 2 ^ 64, a scan begins
  -- right behind the checkpoint (or at the configured first block), is not empty, ends at or below
  -- the target and within a batch, and stops short of the target only after a whole batch; the
  -- target is below the tip by the configured lag.
  pub scan_plan-IsRange :
      (c : CkbConfig) (state : StreamState) (chain_tip : ℕ) {from to target : ℕ}
      → 0 < c.batch_blocks
      → chain_tip + c.batch_blocks < 2 ^ 64
      → scan_plan header_hash c state chain_tip ≡ ok (scan from to target)
      → IsRange c state chain_tip from to target
  scan_plan-IsRange c state chain_tip {from} {to} {target} h m e =
      let (q, b, _, x, y) = scan_plan-inv c state chain_tip e in
      let (lag, start) = safe_ckb_target-eq-some c chain_tip target q in
      let (low, above) = or_false (leb (2 ^ 63) target) (leb target state.last_block_number) b in
      let after = leb_false→lt target state.last_block_number above in
      let first = plan_from_lem c state (omega (arith, leb_false→lt (2 ^ 63) target low, start)) in
      let from_fits : plan_from c state ≤ target = omega arith in
      let fits : target + c.batch_blocks < 2 ^ 64 = omega arith in
      record {
        from_eq = sym x ∙ first;
        from_le =
            omega (
              arith,
              from_le_last (plan_from c state) c.batch_blocks target h from_fits fits,
              x,
              y,
            );
        to_le =
            omega (arith, last_le (plan_from c state) c.batch_blocks target h from_fits fits, y);
        target_eq = lag;
        size_le =
            omega (arith, last_lt (plan_from c state) c.batch_blocks target h from_fits fits, x, y);
        whole_batch = elim (last_whole (plan_from c state) c.batch_blocks target h from_fits fits) [
          | inl w ↦ inl (sym y ∙ w)
          | inr w ↦ inr (ap (λ n. n + 1) (sym y) ∙ w ∙ ap (λ n. n + c.batch_blocks) x)
        ];
      }

  -- With a positive batch size, and a tip that leaves room for a batch below 2 ^ 64, no height is
  -- left out between two scans: the one after a round that committed its end as the checkpoint
  -- begins right behind that end.
  pub scan_plan-contiguous :
      (c : CkbConfig) (state : StreamState) (batch : IndexBatch) (now tip next_tip : ℕ)
      {from to target a b t : ℕ}
      → 0 < c.batch_blocks
      → tip + c.batch_blocks < 2 ^ 64
      → batch.checkpoint_number ≡ to
      → scan_plan header_hash c state tip ≡ ok (scan from to target)
      → scan_plan header_hash c (set_checkpoint now batch state) next_tip ≡ ok (scan a b t)
      → a ≡ to + 1
  unfolding set_checkpoint
  scan_plan-contiguous c state batch now tip next_tip {t = t} h m k e g =
      let range = scan_plan-IsRange c state tip h m e in
      let (q, b, _, y, _) = scan_plan-inv c (set_checkpoint now batch state) next_tip g in
      let (_, start) = safe_ckb_target-eq-some c next_tip t q in
      let low = (or_false (leb (2 ^ 63) t) (leb t batch.checkpoint_number) b).0 in
      let x =
        sym y
        ∙ plan_from_lem c (set_checkpoint now batch state)
            (omega (arith, leb_false→lt (2 ^ 63) t low, start)) in
      let first = range.from_eq in let below = range.from_le in omega (arith, x, k, first, below)

  refused :
      (state : StreamState) (stored actual : List ℕ)
      → 0 < state.last_block_number
      → state.last_block_hash ≡ some stored
      → header_hash state.last_block_number ≡ ok (some actual)
      → actual ≢ stored
      → assert_checkpoint_still_canonical header_hash state
        ≡ err (reorg state.last_block_number stored actual)
  unfolding assert_checkpoint_still_canonical
  refused state stored actual h s f ne =
      let other : bytes_eq actual stored ≡ false = elim (Bool-cases (bytes_eq actual stored)) [
        | inl q ↦ absurd (ne (bytes_eq→eq actual stored q))
        | inr q ↦ q
      ] in
      rw (s, lt→ltb 0 state.last_block_number h, f, other) refl

  -- Where the checkpoint is above 0 with a stored hash, and the node's header there has another
  -- hash, nothing is scanned: the round has no target, or is idle, or is refused with the error of
  -- a reorganisation.
  pub scan_plan-reorg :
      (c : CkbConfig) (state : StreamState) (chain_tip : ℕ) (stored actual : List ℕ)
      → 0 < state.last_block_number
      → state.last_block_hash ≡ some stored
      → header_hash state.last_block_number ≡ ok (some actual)
      → actual ≢ stored
      → (scan_plan header_hash c state chain_tip ≡ ok no_target)
        ⊎ (((target : ℕ) × (scan_plan header_hash c state chain_tip ≡ ok (idle target)))
            ⊎ (scan_plan header_hash c state chain_tip
                ≡ err (reorg state.last_block_number stored actual)))
  unfolding scan_plan
  scan_plan-reorg c state chain_tip stored actual h s f ne =
      elim (Option-cases (safe_ckb_target c chain_tip)) [
        | inl q ↦ inl (rw (q, scan_plan) refl)
        | inr (t, q) ↦ elim (Bool-cases (reaches state.last_block_number t)) [
          | inl b ↦ inr (inl (t, rw (q, b, scan_plan) refl))
          | inr b ↦ inr (inr (rw (q, b, refused state stored actual h s f ne, scan_plan) refl))
        ]
      ]
