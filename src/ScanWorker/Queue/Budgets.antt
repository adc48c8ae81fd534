-- ===== src/ScanWorker/Queue/Budgets.antt =====
-- The two failure budgets of a scan: what `record_failure` and `reclaim_stuck` do to the rows.
use receipt_scanner.Prelude.{
  ℕ, suc, ◌≤◌, ◌≡◌, ◌↔◌, ◌⊎◌, Bool, true, false, List, [], ◌∷◌, first, Option, none, some, ◌<◌,
  Pairwise, Text, Bool-cases, inl, inr, if◌then◌else◌, arith,
}
use receipt_scanner.Database.{uploaded, scan_failed, Receipt}
use receipt_scanner.ScanWorker.Queue.{
  ScanWorkerConfig, Claim, state_eq, failure_cap, failed_scan, is_claimed_by, record_failure,
  failure_notices, is_stuck, reclaim_stuck, Notice,
}

-- Nobody is told while there is more to come, and otherwise just this notice is sent.
abbrev pub Told : List Notice → Notice → Type 0 → Type 0
Told notices n unfinished = ((notices ≡ []) ⊎ (notices ≡ n ∷ [])) × ((notices ≡ []) ↔ unfinished)

module _ {Double Raw : Type 0} where
  -- The row without its scan state, its counters and its start: what a failure must not touch.
  abbrev pub SameRecord : Receipt Double Raw → Receipt Double Raw → Type 0
  SameRecord a b =
      (a.id ≡ b.id)
      × (a.user_id ≡ b.user_id)
      × (a.fields ≡ b.fields)
      × (a.aud_equivalent_cents ≡ b.aud_equivalent_cents)
      × (a.proposed_at ≡ b.proposed_at)
      × (a.reviewed_at ≡ b.reviewed_at)
      × (a.raw_ocr_json ≡ b.raw_ocr_json)
      × (a.updated_at ≡ b.updated_at)
      × (a.source ≡ b.source)
      × (a.created_at ≡ b.created_at)

  -- What one failure does to a row: it spends one unit of its own budget and none of the other,
  -- clears the start, and puts the row back in the queue or ends its scan.
  abbrev pub Spends :
      ScanWorkerConfig Double → Bool → Bool → Receipt Double Raw → Receipt Double Raw → Type 0
  Spends config by_scan terminal a b =
      (b.scan_attempts ≡ (if by_scan then suc a.scan_attempts else a.scan_attempts))
      × (b.reclaim_count ≡ (if by_scan then a.reclaim_count else suc a.reclaim_count))
      × ((b.scan_state ≡ scan_failed) ↔ (
          failure_cap config by_scan terminal
          ≤ (if by_scan then b.scan_attempts else b.reclaim_count)))
      × ((b.scan_state ≡ uploaded) ↔ (
          (if by_scan then b.scan_attempts else b.reclaim_count)
          < failure_cap config by_scan terminal))
      × (b.scan_started_at ≡ none)

  failed-Spends :
      (config : ScanWorkerConfig Double) (by_scan terminal claimed : Bool) (r : Receipt Double Raw)
      → SameRecord r (if claimed then failed_scan config by_scan terminal r else r)
        × ((claimed ≡ true)
            → Spends config by_scan terminal r
                (if claimed then failed_scan config by_scan terminal r else r))
        × ((claimed ≡ false) → r ≡ (if claimed then failed_scan config by_scan terminal r else r))
  failed-Spends config true terminal true r = ground arith
  failed-Spends config false terminal true r = ground arith
  failed-Spends config by_scan terminal false r = ground arith

  -- `record_failure` changes the rows of its claim only, keeps each row's ids, fields, AUD
  -- value, raw reply, source, and its proposed, reviewed, updated and created timestamps, spends
  -- one unit of the budget that the kind of error belongs to and none of the other, and puts a row
  -- of the claim in scan_failed if the cap is reached, and back in uploaded otherwise.
  pub record_failure_lem :
      (config : ScanWorkerConfig Double) (c : Claim) (by_scan terminal : Bool) (error : Text)
      (rows : List (Receipt Double Raw))
      → Pairwise
          (λ a b.
            SameRecord a b
            × ((is_claimed_by c a ≡ true) → Spends config by_scan terminal a b)
            × ((is_claimed_by c a ≡ false) → a ≡ b))
          rows
          (record_failure config c by_scan terminal error rows).0
  unfolding record_failure
  record_failure_lem config c by_scan terminal error [] = tt
  record_failure_lem config c by_scan terminal error (r ∷ rows) = (
    failed-Spends config by_scan terminal (is_claimed_by c r) r,
    record_failure_lem config c by_scan terminal error rows,
  )

  -- A row that is stuck spends one reclaim: it ends in scan_failed if its reclaim_count then reaches
  -- max_reclaims, and is put back in uploaded otherwise, without a start. Its scan_attempts and its
  -- record (as above) stay, and so does every other row.
  pub reclaim_stuck_lem :
      (config : ScanWorkerConfig Double) (now : ℕ) (rows : List (Receipt Double Raw))
      → Pairwise
          (λ a b.
            SameRecord a b
            × ((is_stuck config now a ≡ true) → Spends config false false a b)
            × ((is_stuck config now a ≡ false) → a ≡ b))
          rows
          (reclaim_stuck config now rows).0
  unfolding reclaim_stuck
  reclaim_stuck_lem config now [] = tt
  reclaim_stuck_lem config now (r ∷ rows) = (
    failed-Spends config false false (is_stuck config now r) r,
    reclaim_stuck_lem config now rows,
  )

  -- The claim is stale, or its row has not reached the cap with this failure.
  abbrev pub Unfinished :
      ScanWorkerConfig Double → Bool → Bool → Option (Receipt Double Raw) → Type 0
  Unfinished config by_scan terminal none = Unit
  Unfinished config by_scan terminal (some r) =
      suc (if by_scan then r.scan_attempts else r.reclaim_count)
      < failure_cap config by_scan terminal

  told :
      (config : ScanWorkerConfig Double) (by_scan terminal : Bool) (n : Notice)
      (r : Receipt Double Raw)
      → Told
          (if state_eq (failed_scan config by_scan terminal r).scan_state scan_failed
            then n ∷ []
            else [])
          n
          (Unfinished config by_scan terminal (some r))
  told config true terminal n r = ground arith
  told config false terminal n r = ground arith

  -- The user is told of a failure exactly when it was the last: the only notice that may be sent is
  -- one to the claim's user about the claim's receipt with the error as its reason, and there is none
  -- if and only if the claim is no longer current or its row has not reached the cap.
  pub record_failure-notices :
      (config : ScanWorkerConfig Double) (c : Claim) (by_scan terminal : Bool) (error : Text)
      (rows : List (Receipt Double Raw))
      → Told
          (record_failure config c by_scan terminal error rows).1
          (record { user_id = c.user_id; receipt_id = c.receipt_id; reason = error })
          (Unfinished config by_scan terminal (first (is_claimed_by c) rows))
  unfolding record_failure failure_notices
  record_failure-notices config c by_scan terminal error [] = ground arith
  record_failure-notices config c by_scan terminal error (r ∷ rows) =
      elim (Bool-cases (is_claimed_by c r)) [
        | inl e ↦ rw (e) (told config by_scan terminal _ r)
        | inr e ↦ rw (e) (record_failure-notices config c by_scan terminal error rows)
      ]
