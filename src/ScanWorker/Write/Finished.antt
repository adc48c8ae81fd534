-- ===== src/ScanWorker/Write/Finished.antt =====
-- The end of a scan that wrote its result: its row is idle, and its budgets are as they were.
use receipt_scanner.Prelude.{
  ℕ, ◌≡◌, refl, inl, inr, Bool, true, false, ok, >>=-eq-ok, ◌==ℤ◌, ◌==◌, Pairwise, Pairwise-changed,
  Bool-cases, arith,
}
use receipt_scanner.Kinds.{rules_for}
use receipt_scanner.Database.{Receipt, Db, idle}
use receipt_scanner.ScanProvider.{ScanResult}
use receipt_scanner.ScanWorker.Queue.{Claim}
use receipt_scanner.ScanWorker.Results.{Taxonomy}
use receipt_scanner.ScanWorker.Write.{
  Snapshot, direction_of, extracted, verified, write_extraction, write_verify, write_result,
}
use receipt_scanner.ScanWorker.Write.Extraction.{insert_scanned_items-receipts}
use receipt_scanner.ScanWorker.Write.Verify.{same_receipts}

module _ {Double Raw : Type 0} where
  abbrev pub IsFinished : Receipt Double Raw → Receipt Double Raw → Type 0
  IsFinished a b =
      (b.id ≡ a.id)
      × (b.scan_state ≡ idle)
      × (b.scan_attempts ≡ a.scan_attempts)
      × (b.reclaim_count ≡ a.reclaim_count)

  -- The row of the claim is finished, and each other row is kept.
  abbrev pub Finishes : Claim → Receipt Double Raw → Receipt Double Raw → Type 0
  Finishes claim a b =
      ((a.id ==ℤ claim.receipt_id) ≡ true → IsFinished a b)
      × ((a.id ==ℤ claim.receipt_id) ≡ false → b ≡ a)

  module _ (now : ℕ) (claim : Claim) (result : ScanResult Double Raw) (taxonomy : Taxonomy)
      (snapshot : Snapshot) (db db' : Db Double Raw) where
    write_extraction-Finishes :
        write_extraction now claim result taxonomy snapshot db ≡ ok db'
        → Pairwise (Finishes claim) db.receipts db'.receipts
    unfolding write_extraction extracted
    write_extraction-Finishes h =
        let (rules, found, h1) = >>=-eq-ok (rules_for result.kind) _ h in
        let (direction, directed, h2) = >>=-eq-ok (direction_of rules) _ h1 in
        rw (insert_scanned_items-receipts claim result.kind taxonomy result.items _ db' h2) (
          Pairwise-changed IsFinished (λ (r : Receipt Double Raw). r.id ==ℤ claim.receipt_id)
            (extracted now result rules direction snapshot) db.receipts
            (λ r _. (refl, refl, refl, refl)))

    write_verify-Finishes :
        (all_match : Bool)
        → write_verify now claim result taxonomy snapshot all_match db ≡ ok db'
        → Pairwise (Finishes claim) db.receipts db'.receipts
    unfolding write_verify verified
    write_verify-Finishes all_match h =
        rw
          (same_receipts claim snapshot.kind taxonomy result.items (snapshot.item_count == 0) _ db'
            h)
          (Pairwise-changed IsFinished (λ (r : Receipt Double Raw). r.id ==ℤ claim.receipt_id)
            (verified now result all_match) db.receipts (λ r _. (refl, refl, refl, refl)))

    pub write_result-Finishes :
        (all_match : Bool)
        → write_result now claim result taxonomy snapshot all_match db ≡ ok db'
        → Pairwise (Finishes claim) db.receipts db'.receipts
    unfolding write_result
    write_result-Finishes all_match h = elim (Bool-cases snapshot.reviewed) [
      | inl e ↦ write_verify-Finishes all_match (ground arith)
      | inr e ↦ write_extraction-Finishes (ground arith)
    ]
