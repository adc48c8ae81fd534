-- ===== src/Lifecycle/Refinement.antt =====
-- The operations of the worker and of the receipt service on the table of receipts carry out the
-- steps of the machine.
use receipt_scanner.Prelude.{
  ℕ, ◌+◌, ◌≤◌, ◌≡◌, refl, sym, ap, ◌∙◌, ◌⊎◌, inl, inr, Bool, true, false, none, some, List, first,
  update_where, Pairwise, Text, ℤ, ◌==ℤ◌, ==ℤ_iff, Bool-cases, Option-cases, if◌then◌else◌, arith,
}
use mathlib.Core.Path.{subst}
use receipt_scanner.Database.{ScanState, idle, uploaded, scanning, scan_failed, Receipt, Db}
use receipt_scanner.ItemService.Ownership.{first-In}
use receipt_scanner.ScanProvider.{ScanResult}
use receipt_scanner.ScanWorker.Queue.{
  ScanWorkerConfig, Claim, claim, reclaim_stuck, is_stuck, reclaimed, record_failure, failed_scan,
  is_claimed_by, state_eq,
}
use receipt_scanner.ScanWorker.Queue.Slots.{DistinctIds, one_row, claim-uploaded, Pairwise-update}
use receipt_scanner.ScanWorker.Results.{Taxonomy}
use receipt_scanner.ScanWorker.Write.{read_snapshot, write_result, commit}
use receipt_scanner.ScanWorker.Write.Stale.{read_snapshot-first, commit-cases}
use receipt_scanner.ScanWorker.Write.Finished.{Finishes, write_result-Finishes}
use receipt_scanner.Receipts.Images.{queued}
use receipt_scanner.Receipts.Edits.{retryable, retried}
use receipt_scanner.Lifecycle.{
  Life, life_of, WorkerStep, starts, finishes, spends_attempt, spends_reclaim, gives_up, UserStep,
  retries, queues,
}
use receipt_scanner.Lifecycle.Bound.{bound, steps, steps-bound}
use receipt_scanner.Lifecycle.Composition.{
  Follows, Runs, Pairwise-weaken, Pairwise-within, Pairwise-refl, perform_all, perform_all-Runs,
}

-- The transactions of the worker, and those of a user's request.
pub data WorkerOp (Double Raw : Type 0) : Type 0 where
  claims : (ℤ → Bool) → (ℤ → ℕ) → WorkerOp Double Raw
  reclaims : ℕ → WorkerOp Double Raw
  fails : Claim → Bool → Bool → Text → WorkerOp Double Raw
  writes : ℕ → Claim → ScanResult Double Raw → Taxonomy → Bool → WorkerOp Double Raw

pub data UserOp : Type 0 where
  retry : ℕ → ℤ → ℤ → UserOp
  add_to : ℤ → UserOp

pub scanning_state : (s : ScanState) → state_eq s scanning ≡ true → s ≡ scanning
scanning_state idle h = cc
scanning_state uploaded h = cc
scanning_state scanning h = refl
scanning_state scan_failed h = cc

pub failed_state : (s : ScanState) → state_eq s scan_failed ≡ true → s ≡ scan_failed
failed_state idle h = cc
failed_state uploaded h = cc
failed_state scanning h = cc
failed_state scan_failed h = refl

-- One step of the worker with this configuration.
abbrev pub Worker : {Double : Type 0} → ScanWorkerConfig Double → Life → Life → Type 0
Worker config = WorkerStep config.max_scan_attempts config.max_reclaims

-- A step of either.
abbrev pub AnyStep : {Double : Type 0} → ScanWorkerConfig Double → Life → Life → Type 0
AnyStep config x y = Worker config x y ⊎ UserStep x y

lifted :
    {x y : Life} (R S : Life → Life → Type 0) → (R x y → S x y) → (y ≡ x) ⊎ R x y → (y ≡ x) ⊎ S x y
lifted R S f (inl e) = inl e
lifted R S f (inr s) = inr (f s)

module _ {Double Raw : Type 0} where
  retried-Follows :
      (now : ℕ) (mine : Bool) (r : Receipt Double Raw)
      → (mine ≡ true → r.scan_state ≡ scan_failed)
      → Follows UserStep r (if mine then retried now r else r)
  retried-Follows now true r at = (refl, inr (retries (at refl) refl))
  retried-Follows now false r at = (refl, inl refl)

  queued-Follows :
      (mine : Bool) (r : Receipt Double Raw) → Follows UserStep r (if mine then queued r else r)
  queued-Follows true r = (refl, inr (queues refl))
  queued-Follows false r = (refl, inl refl)

module _ {Double Raw : Type 0} (config : ScanWorkerConfig Double) where
  abbrev with_rows : Db Double Raw → List (Receipt Double Raw) → Db Double Raw
  with_rows db rows = record db { receipts = rows }

  -- A result is written only while its claim is current, which the transaction reads first.
  unfoldable pub perform_worker : WorkerOp Double Raw → Db Double Raw → Db Double Raw
  perform_worker (claims locked clock) db = with_rows db (claim config locked clock db.receipts).0
  perform_worker (reclaims now) db = with_rows db (reclaim_stuck config now db.receipts).0
  perform_worker (fails c by_scan terminal error) db =
      with_rows db (record_failure config c by_scan terminal error db.receipts).0
  perform_worker (writes now c result taxonomy all_match) db = elim (read_snapshot db c) [
    | none ↦ db
    | some locked ↦ (commit db (write_result now c result taxonomy locked all_match db)).0
  ]

  -- The updates of `retryScan` and `addImages` on `receipts`.
  unfoldable pub perform_user : UserOp → Db Double Raw → Db Double Raw
  perform_user (retry now user receipt) db =
      with_rows db (update_where (retryable user receipt) (retried now) db.receipts)
  perform_user (add_to receipt) db =
      with_rows db (update_where (λ (r : Receipt Double Raw). r.id ==ℤ receipt) queued db.receipts)

  failed-Follows :
      (by_scan terminal mine : Bool) (r : Receipt Double Raw)
      → (mine ≡ true → r.scan_state ≡ scanning)
      → Follows (Worker config) r (if mine then failed_scan config by_scan terminal r else r)
  failed-Follows by_scan terminal false r at = (refl, inl refl)
  failed-Follows true false true r at = (refl, inr (spends_attempt (at refl) refl))
  failed-Follows false false true r at = (refl, inr (spends_reclaim (at refl) refl))
  failed-Follows true true true r at = (refl, inr (gives_up 1 0 (at refl) (ground arith)))
  failed-Follows false true true r at = (refl, inr (gives_up 0 1 (at refl) (ground arith)))

  claim-Follows :
      (locked : ℤ → Bool) (clock : ℤ → ℕ) (rows : List (Receipt Double Raw))
      → DistinctIds rows
      → Pairwise (Follows (Worker config)) rows (claim config locked clock rows).0
  claim-Follows locked clock rows d =
      Pairwise-weaken _ (Follows (Worker config)) rows (claim config locked clock rows).0
        (λ a b h. elim h [
          | inl same ↦ (ap (λ (r : Receipt Double Raw). r.id) same, inl (ap life_of same))
          | inr (at, _, e) ↦
              (ap (λ (r : Receipt Double Raw). r.id) e, inr (starts at (ap life_of e)))
        ])
        (claim-uploaded config locked clock rows d)

  finished-Follows :
      (c : Claim) (rows rows' : List (Receipt Double Raw)) (r : Receipt Double Raw)
      → DistinctIds rows
      → first (is_claimed_by c) rows ≡ some r
      → Pairwise (Finishes c) rows rows'
      → Pairwise (Follows (Worker config)) rows rows'
  finished-Follows c rows rows' r d found h =
      let (i, mine) = first-In (is_claimed_by c) rows r found in
      let at : r.scan_state ≡ scanning =
        scanning_state r.scan_state (ground (arith, state_eq r.scan_state scanning)) in
      let same_id : r.id ≡ c.receipt_id = ground (arith, ==ℤ_iff r.id c.receipt_id) in
      Pairwise-within (Finishes c) (Follows (Worker config)) rows rows'
        (λ a b k (finished, kept). elim (Bool-cases (a.id ==ℤ c.receipt_id)) [
          | inr e ↦
              let same = kept e in
              (ap (λ (x : Receipt Double Raw). x.id) same, inl (ap life_of same))
          | inl e ↦
              let (id, state, attempts, reclaimed) = finished e in
              let it : a ≡ r =
                one_row a r rows d k i ((==ℤ_iff a.id c.receipt_id).0 e ∙ sym same_id) in
              (id, inr (finishes (ap (λ (x : Receipt Double Raw). x.scan_state) it ∙ at) cc))
        ])
        h

  perform_worker-Follows :
      (op : WorkerOp Double Raw) (db : Db Double Raw)
      → DistinctIds db.receipts
      → Pairwise (Follows (Worker config)) db.receipts (perform_worker op db).receipts
  unfolding perform_worker reclaim_stuck record_failure
  perform_worker-Follows (claims locked clock) db d = claim-Follows locked clock db.receipts d
  perform_worker-Follows (reclaims now) db d =
      Pairwise-update (Follows (Worker config)) (is_stuck config now) (reclaimed config) db.receipts
        (λ r _.
          failed-Follows false false (is_stuck config now r) r
            (λ e. scanning_state r.scan_state (ground (arith, state_eq r.scan_state scanning))))
  perform_worker-Follows (fails c by_scan terminal error) db d =
      Pairwise-update (Follows (Worker config)) (is_claimed_by c)
        (failed_scan config by_scan terminal) db.receipts
        (λ r _.
          failed-Follows by_scan terminal (is_claimed_by c r) r
            (λ e. scanning_state r.scan_state (ground (arith, state_eq r.scan_state scanning))))
  perform_worker-Follows (writes now c result taxonomy all_match) db d =
      elim (Option-cases (read_snapshot db c)) [
        | inl e ↦
            rw (e, perform_worker)
              (Pairwise-refl (Follows (Worker config)) db.receipts (λ a. (refl, inl refl)))
        | inr (locked, e) ↦
            let out = write_result now c result taxonomy locked all_match db in
            let (r, found) = read_snapshot-first c db locked e in
            rw (e, perform_worker)
              (elim (commit-cases db out) [
                | inl same ↦
                    subst
                      (λ (x : Db Double Raw).
                        Pairwise (Follows (Worker config)) db.receipts x.receipts)
                      (sym same)
                      (Pairwise-refl (Follows (Worker config)) db.receipts (λ a. (refl, inl refl)))
                | inr done ↦
                    finished-Follows c db.receipts _ r d found
                      (write_result-Finishes now c result taxonomy locked db _ all_match done)
              ])
      ]

  perform_user-Follows :
      (op : UserOp) (db : Db Double Raw)
      → Pairwise (Follows UserStep) db.receipts (perform_user op db).receipts
  unfolding perform_user
  perform_user-Follows (retry now user receipt) db =
      Pairwise-update (Follows UserStep) (retryable user receipt) (retried now) db.receipts (λ r _.
        retried-Follows now (retryable user receipt r) r
          (λ e. failed_state r.scan_state (ground (arith, state_eq r.scan_state scan_failed))))
  perform_user-Follows (add_to receipt) db =
      Pairwise-update (Follows UserStep) (λ (r : Receipt Double Raw). r.id ==ℤ receipt) queued
        db.receipts (λ r _. queued-Follows (r.id ==ℤ receipt) r)

  abbrev pub perform : WorkerOp Double Raw ⊎ UserOp → Db Double Raw → Db Double Raw
  perform (inl op) db = perform_worker op db
  perform (inr op) db = perform_user op db

  pub perform-Follows :
      (op : WorkerOp Double Raw ⊎ UserOp) (db : Db Double Raw)
      → DistinctIds db.receipts
      → Pairwise (Follows (AnyStep config)) db.receipts (perform op db).receipts
  perform-Follows (inl op) db d =
      Pairwise-weaken (Follows (Worker config)) (Follows (AnyStep config)) db.receipts _
        (λ a b (id, moved). (id, lifted (Worker config) (AnyStep config) (λ s. inl s) moved))
        (perform_worker-Follows op db d)
  perform-Follows (inr op) db d =
      Pairwise-weaken (Follows UserStep) (Follows (AnyStep config)) db.receipts _
        (λ a b (id, moved). (id, lifted UserStep (AnyStep config) (λ s. inr s) moved))
        (perform_user-Follows op db)

  -- A run of the worker from one row to another that is within the budgets of the first.
  abbrev pub BoundedRun : Receipt Double Raw → Receipt Double Raw → Type 0
  BoundedRun a b =
      (run : Runs (Worker config) a b) × (steps config.max_scan_attempts config.max_reclaims run
          + bound config.max_scan_attempts config.max_reclaims (life_of b)
        ≤ bound config.max_scan_attempts config.max_reclaims (life_of a))

  -- However often the worker runs its transactions, each receipt makes at most the steps that the
  -- rest of its budgets allows: three for each unit, and those to the end of its present scan. So
  -- without the user's retries and additions every scan ends, provided that ids are distinct.
  pub perform_all-bound :
      (ops : List (WorkerOp Double Raw)) (db : Db Double Raw)
      → DistinctIds db.receipts
      → Pairwise BoundedRun db.receipts (perform_all perform_worker ops db).receipts
  perform_all-bound ops db d =
      Pairwise-weaken (Runs (Worker config)) BoundedRun db.receipts _
        (λ a b run. (run, steps-bound config.max_scan_attempts config.max_reclaims run))
        (perform_all-Runs (Worker config) perform_worker perform_worker-Follows ops db d)
