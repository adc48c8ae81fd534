-- ===== src/ScanWorker/Queue.antt =====
-- The queue operations of scan/ScanWorker.cpp: each is one UPDATE on `receipts`. `now` is the
-- transaction's time and `clock` what clock_timestamp() gives for each row. `locked` holds the rows
-- that another transaction has locked, which SKIP LOCKED passes over.
pub mod Budgets
pub mod Slots
pub mod Order
use receipt_scanner.Prelude.{
  ℕ, suc, ◌+◌, ◌-◌, Bool, true, false, not, ◌&&◌, ◌||◌, Option, none, some, List, [], ◌∷◌, ◌++◌,
  map, any, keep, update_where, count_where, take, Text, codes, ℤ, ◌==ℤ◌, ltb_ℤ, ltb, leb, ◌==◌,
  if◌then◌else◌,
}
use receipt_scanner.Database.{ScanState, idle, uploaded, scanning, scan_failed, Receipt}

pub record ScanWorkerConfig (Double : Type 0) : Type 0 where
  pub concurrency : ℕ
  pub max_scan_attempts : ℕ
  pub max_reclaims : ℕ
  pub reclaim_after : ℕ
  pub match_date_days : ℕ
  pub merchant_match_threshold : Double

pub record Claim : Type 0 where
  pub receipt_id : ℤ
  pub user_id : ℤ
  pub claimed_at : ℕ

-- What `notifyScanFailed` hands to the notifier.
pub record Notice : Type 0 where
  pub user_id : ℤ
  pub receipt_id : ℤ
  pub reason : Text

abbrev pub state_eq : ScanState → ScanState → Bool
state_eq idle idle = true
state_eq uploaded uploaded = true
state_eq scanning scanning = true
state_eq scan_failed scan_failed = true
state_eq _ _ = false

-- `CASE WHEN n >= cap THEN 'scan_failed' ELSE 'uploaded' END`
abbrev pub after_failure : ℕ → ℕ → ScanState
after_failure cap n = if leb cap n then scan_failed else uploaded

abbrev pub started_before : ℕ → Option ℕ → Bool
started_before limit none = false
started_before limit (some t) = ltb t limit

abbrev pub started_at_is : ℕ → Option ℕ → Bool
started_at_is at none = false
started_at_is at (some t) = t == at

abbrev pub failure_cap : {Double : Type 0} → ScanWorkerConfig Double → Bool → Bool → ℕ
failure_cap config scan_error terminal =
    if terminal then 0 else if scan_error then config.max_scan_attempts else config.max_reclaims

module _ {Double Raw : Type 0} where
  abbrev pub is_scanning : Receipt Double Raw → Bool
  is_scanning r = state_eq r.scan_state scanning

  -- A scan that has run for longer than the timeout. `now` counts from the epoch, later than it.
  abbrev pub is_stuck : ScanWorkerConfig Double → ℕ → Receipt Double Raw → Bool
  is_stuck config now r =
      is_scanning r && started_before (now - config.reclaim_after) r.scan_started_at

  abbrev pub reclaimed : ScanWorkerConfig Double → Receipt Double Raw → Receipt Double Raw
  reclaimed config r = record r {
    reclaim_count = r.reclaim_count + 1;
    scan_started_at = none;
    scan_state = after_failure config.max_reclaims (r.reclaim_count + 1);
  }

  unfoldable pub reclaim_notices : ScanWorkerConfig Double → List (Receipt Double Raw) → List Notice
  reclaim_notices config [] = []
  reclaim_notices config (r ∷ rows) =
      let others = reclaim_notices config rows in
      if state_eq (after_failure config.max_reclaims (r.reclaim_count + 1)) scan_failed
      then record {
        user_id = r.user_id;
        receipt_id = r.id;
        reason = codes "the scan kept timing out";
      }
        ∷ others
      else others

  unfoldable pub reclaim_stuck :
      ScanWorkerConfig Double
      → ℕ
      → List (Receipt Double Raw)
      → List (Receipt Double Raw) × List Notice
  unfolding reclaim_notices
  reclaim_stuck config now rows = (
    update_where (is_stuck config now) (reclaimed config) rows,
    reclaim_notices config (keep (is_stuck config now) rows),
  )

  -- `ORDER BY created_at, id`
  abbrev pub is_older : Receipt Double Raw → Receipt Double Raw → Bool
  is_older a b =
      ltb a.created_at b.created_at || (a.created_at == b.created_at && not (ltb_ℤ b.id a.id))

  unfoldable pub insert_ordered :
      Receipt Double Raw → List (Receipt Double Raw) → List (Receipt Double Raw)
  insert_ordered r [] = r ∷ []
  insert_ordered r (x ∷ xs) = if is_older r x then r ∷ x ∷ xs else x ∷ insert_ordered r xs

  unfoldable pub ordered : List (Receipt Double Raw) → List (Receipt Double Raw)
  unfolding insert_ordered
  ordered [] = []
  ordered (r ∷ rows) = insert_ordered r (ordered rows)

  abbrev pub is_waiting : (ℤ → Bool) → Receipt Double Raw → Bool
  is_waiting locked r = state_eq r.scan_state uploaded && not (locked r.id)

  -- The rows that the subquery selects: at most the free slots, oldest first.
  unfoldable pub chosen :
      ScanWorkerConfig Double → (ℤ → Bool) → List (Receipt Double Raw) → List (Receipt Double Raw)
  unfolding ordered
  chosen config locked rows =
      take (config.concurrency - count_where is_scanning rows)
        (ordered (keep (is_waiting locked) rows))

  abbrev pub has_id_of : List (Receipt Double Raw) → Receipt Double Raw → Bool
  has_id_of picked r = any (λ p. p.id ==ℤ r.id) picked

  abbrev pub start_scan : (ℤ → ℕ) → Receipt Double Raw → Receipt Double Raw
  start_scan clock r = record r { scan_state = scanning; scan_started_at = some (clock r.id) }

  unfoldable pub claim :
      ScanWorkerConfig Double
      → (ℤ → Bool)
      → (ℤ → ℕ)
      → List (Receipt Double Raw)
      → List (Receipt Double Raw) × List Claim
  unfolding chosen
  claim config locked clock rows =
      let picked = chosen config locked rows in
      (
        update_where (has_id_of picked) (start_scan clock) rows,
        map
            (λ (r : Receipt Double Raw). record {
              receipt_id = r.id;
              user_id = r.user_id;
              claimed_at = clock r.id;
            })
            (keep (has_id_of picked) rows),
      )

  -- The condition by which a write belongs to a claim that is still current.
  abbrev pub is_claimed_by : Claim → Receipt Double Raw → Bool
  is_claimed_by c r =
      r.id ==ℤ c.receipt_id && (is_scanning r && started_at_is c.claimed_at r.scan_started_at)

  abbrev pub failed_scan :
      ScanWorkerConfig Double → Bool → Bool → Receipt Double Raw → Receipt Double Raw
  failed_scan config true terminal r = record r {
    scan_attempts = r.scan_attempts + 1;
    scan_started_at = none;
    scan_state = after_failure (failure_cap config true terminal) (r.scan_attempts + 1);
  }
  failed_scan config false terminal r = record r {
    reclaim_count = r.reclaim_count + 1;
    scan_started_at = none;
    scan_state = after_failure (failure_cap config false terminal) (r.reclaim_count + 1);
  }

  unfoldable pub failure_notices : Claim → Text → List (Receipt Double Raw) → List Notice
  failure_notices c error [] = []
  failure_notices c error (r ∷ _) =
      if state_eq r.scan_state scan_failed
      then record { user_id = c.user_id; receipt_id = c.receipt_id; reason = error } ∷ []
      else []

  unfoldable pub record_failure :
      ScanWorkerConfig Double
      → Claim
      → Bool
      → Bool
      → Text
      → List (Receipt Double Raw)
      → List (Receipt Double Raw) × List Notice
  unfolding failure_notices
  record_failure config c scan_error terminal error rows = (
    update_where (is_claimed_by c) (failed_scan config scan_error terminal) rows,
    failure_notices c error
        (map (failed_scan config scan_error terminal) (keep (is_claimed_by c) rows)),
  )
