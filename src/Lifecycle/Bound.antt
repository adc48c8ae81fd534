-- ===== src/Lifecycle/Bound.antt =====
-- The worker by itself brings every scan to an end.
use receipt_scanner.Prelude.{ℕ, suc, ◌+◌, ◌-◌, ◌*◌, ◌≤◌, ◌<◌, arith}
use receipt_scanner.Database.{ScanState, idle, uploaded, scanning, scan_failed}
use receipt_scanner.Lifecycle.{
  Life, WorkerStep, starts, finishes, spends_attempt, spends_reclaim, gives_up, Star, rests, goes,
}

abbrev pub weight : ScanState → ℕ
weight uploaded = 2
weight scanning = 1
weight idle = 0
weight scan_failed = 0

module _ (max_attempts max_reclaims : ℕ) where
  -- Three steps for each unit that is left, and those to the end of the present scan.
  abbrev pub bound : Life → ℕ
  bound x = 3 * ((max_attempts - x.attempts) + (max_reclaims - x.reclaims)) + weight x.state

  unfoldable pub steps : {x y : Life} → Star (WorkerStep max_attempts max_reclaims) x y → ℕ
  steps rests = 0
  steps (goes s rest) = suc (steps rest)

  lowers : {x y : Life} → WorkerStep max_attempts max_reclaims x y → bound y < bound x
  lowers (starts at e) = ground arith
  lowers (finishes at e) = ground arith
  lowers (spends_attempt at e) = ground arith
  lowers (spends_reclaim at e) = ground arith
  lowers (gives_up a r at e) = ground arith

  -- The worker alone takes at most as many steps as the budgets allow, whatever it does.
  pub steps-bound :
      {x y : Life} (run : Star (WorkerStep max_attempts max_reclaims) x y)
      → steps run + bound y ≤ bound x
  unfolding steps
  steps-bound rests = ground arith
  steps-bound (goes s rest) = omega (arith, lowers s, steps-bound rest)
