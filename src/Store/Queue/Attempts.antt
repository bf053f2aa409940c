-- ===== src/Store/Queue/Attempts.antt =====
-- The attempts of the rows of the queue, under the statements that write them.
use rgbpp_indexer.Common.{
  ℕ, ◌≤◌, ◌≡◌, refl, sym, subst, inl, inr, Bool, true, false, Bool-cases, some, List, [], ◌∷◌, map,
  if◌then◌else◌, All, leb, leb_false→lt, arith,
}
use Prim.Native.String.{String}
use rgbpp_indexer.Types.Bitcoin.{BtcOutPoint, out_point_eq}
use rgbpp_indexer.Store.Observations.{BtcTables, QueueRow}
use rgbpp_indexer.Store.Queue.{
  enqueue_refresh, upsert_queue, upsert_points, new_queue_row, promoted, delete_where,
  update_picked, has_point, complete_refresh, fail_refresh,
}

-- No entry has had more attempts.
abbrev pub IsBounded : ℕ → List QueueRow → Type 0
IsBounded n rows = All (λ (r : QueueRow). r.attempts ≤ n) rows

module _ (n : ℕ) where
  upsert_queue-IsBounded :
      (new : QueueRow) (change : QueueRow → QueueRow) (rows : List QueueRow)
      → new.attempts ≤ n
      → ((r : QueueRow) → (change r).attempts ≡ r.attempts)
      → IsBounded n rows
      → IsBounded n (upsert_queue new change rows)
  unfolding upsert_queue
  upsert_queue-IsBounded new change [] fits same h = (fits, tt)
  upsert_queue-IsBounded new change (row ∷ rows) fits same h =
      elim (Bool-cases (out_point_eq new.out_point row.out_point)) [
        | inl e ↦ rw e (subst (λ a. a ≤ n) (sym (same row)) h.0, h.1)
        | inr e ↦ rw e (h.0, upsert_queue-IsBounded new change rows fits same h.1)
      ]

  pub upsert_points-IsBounded :
      (reason : String) (priority now : ℕ) (os : List BtcOutPoint) (rows : List QueueRow)
      → IsBounded n rows
      → IsBounded n (upsert_points reason priority now os rows)
  unfolding upsert_points
  upsert_points-IsBounded reason priority now [] rows h = h
  upsert_points-IsBounded reason priority now (o ∷ os) rows h =
      upsert_points-IsBounded reason priority now os _ (
        upsert_queue-IsBounded (new_queue_row o reason priority now) (promoted priority now) rows
          (omega arith) (λ r. refl) h)

  pub enqueue_refresh-IsBounded :
      (o : BtcOutPoint) (reason : String) (priority now : ℕ) (t : BtcTables)
      → IsBounded n t.queue
      → IsBounded n (enqueue_refresh o reason priority now t).queue
  unfolding enqueue_refresh
  enqueue_refresh-IsBounded o reason priority now t h =
      upsert_queue-IsBounded (new_queue_row o reason priority now) _ t.queue (omega arith)
        (λ r. refl) h

  delete_where-IsBounded :
      (test : QueueRow → Bool) (rows : List QueueRow)
      → IsBounded n rows
      → IsBounded n (delete_where test rows)
  unfolding delete_where
  delete_where-IsBounded test [] h = tt
  delete_where-IsBounded test (row ∷ rows) h = elim (Bool-cases (test row)) [
    | inl e ↦ rw e (delete_where-IsBounded test rows h.1)
    | inr e ↦ rw e (h.0, delete_where-IsBounded test rows h.1)
  ]

  pub complete_refresh-IsBounded :
      (o : BtcOutPoint) (t : BtcTables)
      → IsBounded n t.queue
      → IsBounded n (complete_refresh o t).queue
  unfolding complete_refresh
  complete_refresh-IsBounded o t h = delete_where-IsBounded _ t.queue h

  pub fail_refresh-IsBounded :
      (o : BtcOutPoint) (error : String) (t : BtcTables)
      → IsBounded n t.queue
      → IsBounded n (fail_refresh o error t).queue
  unfolding fail_refresh
  fail_refresh-IsBounded o error t h = go t.queue h
    where
      noted_attempts :
          (b : Bool) (row : QueueRow)
          → (if b then record row { last_error = some error } else row).attempts ≡ row.attempts
      noted_attempts true row = refl
      noted_attempts false row = refl

      go :
          (rows : List QueueRow)
          → IsBounded n rows
          → IsBounded n (
              map
                (λ row.
                  if out_point_eq o row.out_point
                  then record row { last_error = some error }
                  else row)
                rows)
      go [] k = tt
      go (row ∷ rows) k = (
        subst (λ a. a ≤ n) (sym (noted_attempts (out_point_eq o row.out_point) row)) k.0,
        go rows k.1,
      )

  -- What is left by the entries that are given up, claimed once more.
  pub exhausted-IsBounded :
      (rows : List QueueRow) (now : ℕ) (ps : List BtcOutPoint)
      → IsBounded n (update_picked now ps (delete_where (λ row. leb n row.attempts) rows))
  unfolding delete_where update_picked
  exhausted-IsBounded [] now ps = tt
  exhausted-IsBounded (row ∷ rows) now ps = elim (Bool-cases (leb n row.attempts)) [
    | inl e ↦ rw e (exhausted-IsBounded rows now ps)
    | inr e ↦
        let below = leb_false→lt n row.attempts e in
        rw e (
          elim (Bool-cases (has_point row.out_point ps)) [
            | inl p ↦ rw p (omega arith)
            | inr p ↦ rw p (omega arith)
          ],
          exhausted-IsBounded rows now ps,
        )
  ]
