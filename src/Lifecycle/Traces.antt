-- ===== src/Lifecycle/Traces.antt =====
-- What each transaction may do to the life of a receipt, and the lives along a list of transactions.
use receipt_scanner.Prelude.{
  ℕ, ◌+◌, leb, ◌≡◌, ◌⊎◌, inl, inr, Bool, true, false, List, [], ◌∷◌, ℤ, if◌then◌else◌,
}
use receipt_scanner.Database.{ScanState, idle, uploaded, scanning, scan_failed, Receipt}
use receipt_scanner.ScanWorker.Queue.{ScanWorkerConfig}
use receipt_scanner.Lifecycle.{Life, life_of}
use receipt_scanner.Lifecycle.Refinement.{
  WorkerOp, claims, reclaims, fails, writes, UserOp, retry, add_to,
}

-- The state after a failure that makes `n` of at most `cap`.
abbrev pub put_back : ℕ → ℕ → ScanState
put_back cap n = if leb cap n then scan_failed else uploaded

-- The life after a failure that spends one unit of its budget.
abbrev pub spent : {Double : Type 0} → ScanWorkerConfig Double → Bool → Bool → Life → Life
spent config true terminal x = record x {
  state = put_back (if terminal then 0 else config.max_scan_attempts) (x.attempts + 1);
  attempts = x.attempts + 1;
}
spent config false terminal x = record x {
  state = put_back (if terminal then 0 else config.max_reclaims) (x.reclaims + 1);
  reclaims = x.reclaims + 1;
}

module _ {Double Raw : Type 0} (config : ScanWorkerConfig Double) where
  -- The one change of life that a transaction may make to the receipt with this id. A claim starts
  -- a scan that waits, a reclaim and a failure end one that runs by spending a unit of their budget,
  -- a written result ends one that runs, a retry queues a failed one with fresh budgets, and added
  -- images queue one in any state.
  abbrev pub Does : WorkerOp Double Raw ⊎ UserOp → ℤ → Life → Life → Type 0
  Does (inl (claims locked clock)) id x y =
      (x.state ≡ uploaded) × (y ≡ record x { state = scanning })
  Does (inl (reclaims now)) id x y = (x.state ≡ scanning) × (y ≡ spent config false false x)
  Does (inl (fails c by_scan terminal error)) id x y =
      (id ≡ c.receipt_id) × (x.state ≡ scanning) × (y ≡ spent config by_scan terminal x)
  Does (inl (writes now c result taxonomy all_match)) id x y =
      (id ≡ c.receipt_id) × (x.state ≡ scanning) × (y ≡ record x { state = idle })
  Does (inr (retry now user receipt)) id x y =
      (id ≡ receipt)
      × (x.state ≡ scan_failed)
      × (y ≡ record { state = uploaded; attempts = 0; reclaims = 0 })
  Does (inr (add_to receipt)) id x y = (id ≡ receipt) × (y ≡ record x { state = uploaded })

  -- The lives of a receipt along some transactions: each leaves it or makes its one change.
  abbrev pub Trace : List (WorkerOp Double Raw ⊎ UserOp) → ℤ → Life → Life → Type 0
  Trace [] id x z = z ≡ x
  Trace (op ∷ rest) id x z = (y : Life) × ((y ≡ x) ⊎ Does op id x y) × Trace rest id y z

  abbrev Did : WorkerOp Double Raw ⊎ UserOp → Receipt Double Raw → Receipt Double Raw → Type 0
  Did op a b = (b.id ≡ a.id) × ((life_of b ≡ life_of a) ⊎ Does op a.id (life_of a) (life_of b))

  abbrev pub Traced :
      List (WorkerOp Double Raw ⊎ UserOp) → Receipt Double Raw → Receipt Double Raw → Type 0
  Traced ops a b = (b.id ≡ a.id) × Trace ops a.id (life_of a) (life_of b)
