-- ===== src/Lifecycle.antt =====
-- The life of a receipt's scan, as a machine of its own: the scan state and the two budgets
-- (db/migrations, `scan_state`, `scan_attempts`, `reclaim_count`), with a step for each thing that
-- the worker (scan/ScanWorker.cpp) and the user (receipts/ReceiptService.cpp) may do.
pub mod Bound
pub mod Composition
pub mod Refinement
pub mod Traces
mod Tests
use receipt_scanner.Prelude.{ℕ, suc, ◌+◌, ◌≡◌}
use receipt_scanner.Database.{ScanState, idle, uploaded, scanning, scan_failed, Receipt}
use receipt_scanner.ScanWorker.Queue.{after_failure}

pub record Life : Type 0 where
  pub state : ScanState
  pub attempts : ℕ
  pub reclaims : ℕ

abbrev pub life_of : {Double Raw : Type 0} → Receipt Double Raw → Life
life_of r = record { state = r.scan_state; attempts = r.scan_attempts; reclaims = r.reclaim_count }

-- What the worker does: it starts a scan that waits, and ends one that runs, by its result, by a
-- failure that spends a unit of one budget, or by giving up on it at once.
pub data WorkerStep (max_attempts max_reclaims : ℕ) : Life → Life → Type 0 where
  starts :
      {x y : Life}
      → x.state ≡ uploaded
      → y ≡ record x { state = scanning }
      → WorkerStep max_attempts max_reclaims x y
  finishes :
      {x y : Life}
      → x.state ≡ scanning
      → y ≡ record x { state = idle }
      → WorkerStep max_attempts max_reclaims x y
  spends_attempt :
      {x y : Life}
      → x.state ≡ scanning
      → y ≡ record x {
        state = after_failure max_attempts (x.attempts + 1);
        attempts = x.attempts + 1;
      }
      → WorkerStep max_attempts max_reclaims x y
  spends_reclaim :
      {x y : Life}
      → x.state ≡ scanning
      → y ≡ record x {
        state = after_failure max_reclaims (x.reclaims + 1);
        reclaims = x.reclaims + 1;
      }
      → WorkerStep max_attempts max_reclaims x y
  gives_up :
      {x y : Life} (attempts reclaims : ℕ)
      → x.state ≡ scanning
      → y ≡ record {
        state = scan_failed;
        attempts = x.attempts + attempts;
        reclaims = x.reclaims + reclaims;
      }
      → WorkerStep max_attempts max_reclaims x y

-- What the user does: a retry of a failed scan gives it fresh budgets, and added images queue a
-- receipt in any state.
pub data UserStep : Life → Life → Type 0 where
  retries :
      {x y : Life}
      → x.state ≡ scan_failed
      → y ≡ record { state = uploaded; attempts = 0; reclaims = 0 }
      → UserStep x y
  queues : {x y : Life} → y ≡ record x { state = uploaded } → UserStep x y

-- Any number of steps.
pub data Star (R : Life → Life → Type 0) : Life → Life → Type 0 where
  rests : {x : Life} → Star R x x
  goes : {x y z : Life} → R x y → Star R y z → Star R x z
