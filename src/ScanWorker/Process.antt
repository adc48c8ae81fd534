-- ===== src/ScanWorker/Process.antt =====
-- `process` of scan/ScanWorker.cpp: one claimed receipt from its images to the written result or
-- the recorded failure. `provider` is the ScanProvider and `load` the ImageStore; what they throw
-- is their own choice. `around` is what other transactions do before the result is recorded.
pub mod Failures
use receipt_scanner.Prelude.{
  ℕ, Bool, true, false, Option, none, some, List, [], ◌∷◌, Text, codes, Exception, scan_error,
  validation_error, not_found_error, conflict_error, receipt_not_found_error, too_many_images_error,
  duplicate_email_error, image_decode_error, runtime_error, logic_error, invalid_argument,
  out_of_range, json_type_error, Result, ok, err, ◌>>=◌, if◌then◌else◌,
}
use receipt_scanner.Json.{Doubles, Json}
use receipt_scanner.Database.{Receipt, Db}
use receipt_scanner.ScanProvider.{ScanContext, ScanResult}
use receipt_scanner.ScanWorker.Queue.{ScanWorkerConfig, Claim, Notice, record_failure}
use receipt_scanner.ScanWorker.Results.{load_taxonomy, make_context, validate_result}
use receipt_scanner.ScanWorker.Write.{Snapshot, read_snapshot, apply_result}

-- The three handlers of `process`: whether the exception is a ScanError, and its message.
unfoldable pub is_scan_error : Exception → Bool
is_scan_error (scan_error _) = true
is_scan_error _ = false

unfoldable pub what : Exception → Text
what (scan_error s) = s
what (validation_error s) = s
what (not_found_error s) = s
what (conflict_error s) = s
what (image_decode_error s) = s
what (runtime_error s) = s
what (logic_error s) = s
what receipt_not_found_error = codes "receipt not found"
what too_many_images_error = codes "image cap exceeded"
what duplicate_email_error = codes "email already registered"
what invalid_argument = codes "stoi"
what out_of_range = codes "stoi"
what json_type_error = codes "type error"

unfoldable pub load_images : (Text → Result Text) → List Text → Result (List Text)
load_images load [] = ok []
load_images load (key ∷ keys) =
    load key >>= λ bytes. load_images load keys >>= λ rest. ok (bytes ∷ rest)

-- The images of a receipt: none of them is a terminal ScanError.
unfoldable pub images_of : (Text → Result Text) → List Text → Result (List Text) × Bool
unfolding load_images
images_of load [] = (err (scan_error (codes "receipt has no images")), true)
images_of load (key ∷ keys) = (load_images load (key ∷ keys), false)

module _ {d : Doubles} (j : Json d) {Raw : Type 0}
    (provider : List Text → ScanContext → Result (ScanResult d.Double Raw))
    (load : Text → Result Text) (similarity : Text → Text → Result d.Double)
    (before between : ℕ → Db d.Double Raw → Db d.Double Raw)
    (around : Db d.Double Raw → Db d.Double Raw) where
  open d use {Double}

  abbrev known_kind : Snapshot → Option Text
  known_kind s = if s.reviewed then some s.kind else none

  -- From the images to the checked result.
  unfoldable pub scan :
      Claim → Snapshot → List Text → Db Double Raw → Result (ScanResult Double Raw)
  scan claim snapshot images db = do
    result ← provider images (make_context (load_taxonomy db claim.user_id) (known_kind snapshot))
    validate_result j result snapshot.reviewed

  -- The body of the `try`: the database, how it ended, and `terminal`.
  unfoldable pub attempt :
      ScanWorkerConfig Double
      → ℕ
      → Claim
      → List Text
      → Db Double Raw
      → Db Double Raw × Result (Unit {0}) × Bool
  unfolding scan images_of
  attempt config now claim keys db = elim (read_snapshot db claim) [
    | none ↦ (db, ok tt, false)
    | some snapshot ↦
        let (loaded, terminal) = images_of load keys in
        elim (loaded >>= λ images. scan claim snapshot images db) [
          | err e ↦ (db, err e, terminal)
          | ok result ↦
              let (db', ended) =
                apply_result d similarity before between config now claim result db in
              (db', ended, false)
        ]
  ]

  -- The failure is recorded on the table as it is by then.
  unfoldable pub settle :
      ScanWorkerConfig Double
      → Claim
      → Db Double Raw × Result (Unit {0}) × Bool
      → Db Double Raw × List Notice
  settle config claim (db, ok _, terminal) = (db, [])
  settle config claim (db, err e, terminal) =
      let db' = around db in
      let (rows, notices) =
        record_failure config claim (is_scan_error e) terminal (what e) db'.receipts in
      (record db' { receipts = rows }, notices)

  unfoldable pub process :
      ScanWorkerConfig Double → ℕ → Claim → List Text → Db Double Raw → Db Double Raw × List Notice
  unfolding attempt settle
  process config now claim keys db = settle config claim (attempt config now claim keys db)
