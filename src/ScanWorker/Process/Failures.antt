-- ===== src/ScanWorker/Process/Failures.antt =====
-- How `process` records a failure.
use receipt_scanner.Prelude.{
  ℕ, ◌≡◌, true, false, some, List, Text, Result, err, ◌>>=◌, Exception, Pairwise,
}
use receipt_scanner.Json.{Doubles, Json}
use receipt_scanner.Database.{Db}
use receipt_scanner.ScanProvider.{ScanContext, ScanResult}
use receipt_scanner.ScanWorker.Queue.{ScanWorkerConfig, Claim, is_claimed_by}
use receipt_scanner.ScanWorker.Queue.Budgets.{SameRecord, Spends, record_failure_lem}
use receipt_scanner.ScanWorker.Write.{Snapshot, read_snapshot}
use receipt_scanner.ScanWorker.Process.{is_scan_error, images_of, scan, attempt, process, what}

module _ {d : Doubles} (j : Json d) {Raw : Type 0}
    (provider : List Text → ScanContext → Result (ScanResult d.Double Raw))
    (load : Text → Result Text) (similarity : Text → Text → Result d.Double)
    (before between : ℕ → Db d.Double Raw → Db d.Double Raw)
    (around : Db d.Double Raw → Db d.Double Raw) where
  open d use {Double}

  -- A scan that fails with `e` before anything is written changes no id, field, AUD value, raw reply,
  -- or proposed, reviewed or updated timestamp of any receipt. On the row of a claim that is still current by then it spends one scan attempt if
  -- `e` is a ScanError and one reclaim otherwise, and none of the other budget.
  pub process-failure :
      (config : ScanWorkerConfig Double) (now : ℕ) (claim : Claim) (keys : List Text)
      (db : Db Double Raw) (snapshot : Snapshot) (e : Exception)
      → read_snapshot db claim ≡ some snapshot
      → ((images_of load keys).0 >>= λ images.
          scan j provider load similarity before between around claim snapshot images db)
        ≡ err e
      → Pairwise
          (λ a b.
            SameRecord a b
            × ((is_claimed_by claim a ≡ true)
                → Spends config (is_scan_error e) (images_of load keys).1 a b)
            × ((is_claimed_by claim a ≡ false) → a ≡ b))
          (around db).receipts
          (process j provider load similarity before between around config now claim keys
            db).0.receipts
  unfolding process
  process-failure config now claim keys db snapshot e found failed =
      rw (found, failed, attempt, process)
        (record_failure_lem config claim (is_scan_error e) (images_of load keys).1 (what e)
          (around db).receipts)
