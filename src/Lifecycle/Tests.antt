-- ===== src/Lifecycle/Tests.antt =====
-- The worker and a user on a table of two receipts.
use receipt_scanner.Prelude.{
  ℕ, ◌≡◌, refl, ◌⊎◌, inl, inr, Bool, true, false, none, List, [], ◌∷◌, Pairwise, codes, ℤ, pos, map,
}
use receipt_scanner.LedgerInput.{EditableReceipt}
use receipt_scanner.Database.{ScanState, scan_failed, uploaded, scanned, Receipt, Db}
use receipt_scanner.ScanWorker.Queue.{
  ScanWorkerConfig, Claim, claim, chosen, ordered, insert_ordered, record_failure, reclaim_stuck,
}
use receipt_scanner.ScanWorker.Queue.Slots.{DistinctIds}
use receipt_scanner.Lifecycle.Composition.{perform_all}
use receipt_scanner.Lifecycle.Refinement.{
  WorkerOp, claims, reclaims, fails, UserOp, retry, add_to, perform, perform_worker, perform_user,
  BoundedRun, perform_all-bound,
}

abbrev rent : EditableReceipt ℤ
rent = record {
  kind = codes "purchase";
  direction = codes "outflow";
  total_cents = pos 900;
  currency = codes "AUD";
  merchant = none;
  store_name_raw = none;
  purchase_date = none;
  payment_method_id = none;
  tax_deductible = false;
  note = none;
  offsets_receipt_id = none;
  fx_rate_to_aud = none;
}

abbrev row : ℕ → ScanState → Receipt ℤ (Unit {0})
row id state = record {
  id = pos id;
  user_id = pos 1;
  fields = rent;
  aud_equivalent_cents = none;
  source = scanned;
  scan_state = state;
  scan_attempts = 2;
  reclaim_count = 0;
  scan_started_at = none;
  proposed_at = none;
  reviewed_at = none;
  raw_ocr_json = none;
  created_at = id;
  updated_at = 0;
}

abbrev table : Db ℤ (Unit {0})
table = record {
  receipts = row 1 scan_failed ∷ row 2 uploaded ∷ [];
  items = [];
  item_tags = [];
  categories = [];
  tags = [];
  next_item_id = pos 1;
}

abbrev limits : ScanWorkerConfig ℤ
limits = record {
  concurrency = 2;
  max_scan_attempts = 3;
  max_reclaims = 20;
  reclaim_after = 600;
  match_date_days = 3;
  merchant_match_threshold = pos 0;
}

abbrev nobody_locks : ℤ → Bool
nobody_locks id = false

abbrev clock : ℤ → ℕ
clock id = 2000

abbrev second : Claim
second = record { receipt_id = pos 2; user_id = pos 1; claimed_at = 2000 }

-- A scan of receipt 2 starts and fails.
abbrev worker_only : List (WorkerOp ℤ (Unit {0}))
worker_only = claims nobody_locks clock ∷ fails second true false [] ∷ reclaims 9000 ∷ []

-- The same, with a retry of receipt 1 and images added to receipt 2.
abbrev with_user : List (WorkerOp ℤ (Unit {0}) ⊎ UserOp)
with_user =
    inr (retry 5 (pos 1) (pos 1))
    ∷ inl (claims nobody_locks clock)
    ∷ inl (fails second true false [])
    ∷ inr (add_to (pos 2))
    ∷ []

after_worker :
    map
      (λ (r : Receipt ℤ (Unit {0})). r.scan_state)
      (perform_all (perform_worker limits) worker_only table).receipts
    ≡ scan_failed ∷ scan_failed ∷ []
unfolding perform_all perform_worker claim chosen ordered insert_ordered record_failure
    reclaim_stuck
after_worker = refl

after_user :
    map
      (λ (r : Receipt ℤ (Unit {0})). r.scan_attempts)
      (perform_all (perform limits) with_user table).receipts
    ≡ 0 ∷ 3 ∷ []
unfolding perform_all perform_worker perform_user claim chosen ordered insert_ordered record_failure
after_user = refl

distinct : DistinctIds table.receipts
distinct = ((λ k. elim k [ inl e ↦ cc | inr e ↦ elim e [ ] ]), ((λ k. elim k [ ]), tt))

perform_all-bound_example :
    Pairwise
      (BoundedRun limits)
      table.receipts
      (perform_all (perform_worker limits) worker_only table).receipts
perform_all-bound_example = perform_all-bound limits worker_only table distinct
