-- ===== src/ScanWorker/Write.antt =====
-- The write step of scan/ScanWorker.cpp. Reads outside the write transaction and the transaction
-- itself are steps of their own: `before n` and `between n` stand for whatever other transactions
-- do to the database before the first read and before the locked read of the attempt with `n`
-- attempts to go. `similarity` is the MerchantMatcher.
pub mod Verify
pub mod Extraction
pub mod Stale
pub mod Finished
use receipt_scanner.Prelude.{
  ℕ, zero, suc, ◌+◌, ◌-◌, Bool, true, false, not, ◌&&◌, ◌||◌, Option, none, some, List, [], ◌∷◌,
  any, keep, first, update_where, count_where, Text, codes, text_eq, Result, ok, err, ◌>>=◌, ◌>>◌,
  runtime_error, logic_error, ℤ, ◌==ℤ◌, leb, ◌==◌, is_some, if◌then◌else◌,
}
use receipt_scanner.Json.{Doubles}
use receipt_scanner.Calendar.{stoi, as_byte, day_number}
use receipt_scanner.JsonInput.{substr}
use receipt_scanner.Kinds.{rules_for, KindRules}
use receipt_scanner.LedgerInput.{EditableReceipt}
use receipt_scanner.Database.{Receipt, Item, Db, idle}
use receipt_scanner.ItemService
use receipt_scanner.ScanProvider.{ScannedItem, ScanResult}
use receipt_scanner.ScanWorker.Queue.{ScanWorkerConfig, Claim, is_claimed_by}
use receipt_scanner.ScanWorker.Results.{Taxonomy, load_taxonomy, to_item_input}

pub record Snapshot : Type 0 where
  pub reviewed : Bool
  pub kind : Text
  pub total_cents : ℤ
  pub currency : Text
  pub merchant : Option Text
  pub purchase_date : Option Text
  pub tax_deductible : Bool
  pub offsets_receipt_id : Option ℤ
  pub updated_at : ℕ
  pub item_count : ℕ

unfoldable pub parse_day : Text → Result ℕ
parse_day s = do
  year ← stoi (substr s 0 4)
  month ← stoi (substr s 5 2)
  day ← stoi (substr s 8 2)
  ok (day_number year (as_byte month) (as_byte day))

-- `std::abs(daysBetween(from, to))`
unfoldable pub days_apart : Text → Text → Result ℕ
unfolding parse_day
days_apart from to = do b ← parse_day to; a ← parse_day from; ok (b - a + (a - b))

unfoldable pub dates_match : ℕ → Option Text → Option Text → Result Bool
dates_match days (some recorded) (some scanned) = do
  apart ← days_apart recorded scanned
  ok (leb apart days)
dates_match days _ _ = ok true

-- COALESCE
abbrev pub coalesce : {A : Type 0} → Option A → Option A → Option A
coalesce none b = b
coalesce (some a) b = some a

module _ (d : Doubles) (similarity : Text → Text → Result d.Double) where
  open d use {Double, lt, zero as none_alike}

  unfoldable pub alike : Text → Option Text → Result Double
  alike recorded none = ok none_alike
  alike recorded (some name) = similarity recorded name

  -- The store name is asked about only if the merchant is not close enough; std::max.
  unfoldable pub better_of : Double → Text → Option Text → Double → Result Double
  better_of threshold recorded none close = ok close
  better_of threshold recorded (some store) close =
      if lt close threshold
      then (do
        by_store ← similarity recorded store
        ok (if lt close by_store then by_store else close))
      else ok close

  unfoldable pub merchants_match : Double → Option Text → Option Text → Option Text → Result Bool
  unfolding alike better_of
  merchants_match threshold none merchant store = ok true
  merchants_match threshold (some recorded) merchant store =
      if is_some merchant || is_some store
      then (do
        close ← alike recorded merchant
        best ← better_of threshold recorded store close
        ok (not (lt best threshold)))
      else ok true

  unfoldable pub compare_with :
      {Raw : Type 0} → ScanWorkerConfig Double → Snapshot → ScanResult Double Raw → Result Bool
  unfolding dates_match merchants_match
  compare_with config recorded result =
      if recorded.reviewed
      then (do
        dates ← dates_match config.match_date_days recorded.purchase_date result.purchase_date
        merchants ←
            merchants_match config.merchant_match_threshold recorded.merchant result.merchant
              result.store_name_raw
        ok (
            result.total_cents ==ℤ recorded.total_cents
            && text_eq result.currency recorded.currency
            && dates
            && merchants))
      else ok true

unfoldable pub direction_of : KindRules → Result Text
direction_of rules = elim rules.canonical_direction [
  | none ↦ err (logic_error (codes "the kind has no canonical direction"))
  | some direction ↦ ok direction
]

-- What must not have changed between the two reads.
unfoldable pub unchanged : Snapshot → Snapshot → Bool
unchanged before locked =
    locked.updated_at == before.updated_at
    && ((if locked.reviewed then before.reviewed else not before.reviewed)
        && locked.item_count == before.item_count)

module _ {Double Raw : Type 0} where
  abbrev pub item_count : Db Double Raw → ℤ → ℕ
  item_count db id = count_where (λ i. i.receipt_id ==ℤ id) db.items

  abbrev pub is_item_of : Db Double Raw → ℤ → ℤ → Bool
  is_item_of db receipt id =
      any (λ (i : Item Double). i.receipt_id ==ℤ receipt && i.id ==ℤ id) db.items

  unfoldable pub snapshot_of : Db Double Raw → Receipt Double Raw → Snapshot
  snapshot_of db r = record {
    reviewed = is_some r.reviewed_at;
    kind = r.fields.kind;
    total_cents = r.fields.total_cents;
    currency = r.fields.currency;
    merchant = r.fields.merchant;
    purchase_date = r.fields.purchase_date;
    tax_deductible = r.fields.tax_deductible;
    offsets_receipt_id = r.fields.offsets_receipt_id;
    updated_at = r.updated_at;
    item_count = item_count db r.id;
  }

  unfoldable pub read_snapshot : Db Double Raw → Claim → Option Snapshot
  unfolding snapshot_of
  read_snapshot db claim = elim (first (is_claimed_by claim) db.receipts) [
    | none ↦ none
    | some r ↦ some (snapshot_of db r)
  ]

  unfoldable pub insert_scanned_items :
      Claim → Text → Taxonomy → List (ScannedItem Double) → Db Double Raw → Result (Db Double Raw)
  insert_scanned_items claim kind taxonomy [] db = ok db
  insert_scanned_items claim kind taxonomy (scanned ∷ rest) db =
      to_item_input scanned kind taxonomy >>= λ input.
      ItemService.insert claim.user_id claim.receipt_id kind input db >>= λ stored.
      insert_scanned_items claim kind taxonomy rest stored.0

  -- The UPDATE of `writeExtraction` on one row. `rules` are those of the scanned kind.
  unfoldable pub extracted :
      ℕ
      → ScanResult Double Raw
      → KindRules
      → Text
      → Snapshot
      → Receipt Double Raw
      → Receipt Double Raw
  extracted now result rules direction snapshot r = record r {
    fields = record r.fields {
      kind = result.kind;
      direction = direction;
      total_cents = result.total_cents;
      currency = result.currency;
      merchant = result.merchant;
      store_name_raw = result.store_name_raw;
      purchase_date = result.purchase_date;
      tax_deductible = snapshot.tax_deductible && rules.allows_tax_deductible;
      offsets_receipt_id = if rules.can_offset then snapshot.offsets_receipt_id else none;
    };
    raw_ocr_json = some result.raw;
    scan_state = idle;
    scan_started_at = none;
    proposed_at = some now;
    updated_at = now;
  }

  unfoldable pub write_extraction :
      ℕ
      → Claim
      → ScanResult Double Raw
      → Taxonomy
      → Snapshot
      → Db Double Raw
      → Result (Db Double Raw)
  write_extraction now claim result taxonomy snapshot db = do
    rules ← rules_for result.kind
    direction ← direction_of rules
    insert_scanned_items claim result.kind taxonomy result.items (record db {
      receipts =
          update_where (λ (r : Receipt Double Raw). r.id ==ℤ claim.receipt_id)
            (extracted now result rules direction snapshot) db.receipts;
      items = keep (λ (i : Item Double). not (i.receipt_id ==ℤ claim.receipt_id)) db.items;
      item_tags = keep (λ (p : ℤ × ℤ). not (is_item_of db claim.receipt_id p.0)) db.item_tags;
    })

  -- The UPDATE of `writeVerify` on one row.
  unfoldable pub verified :
      ℕ → ScanResult Double Raw → Bool → Receipt Double Raw → Receipt Double Raw
  verified now result all_match r = record r {
    fields = record r.fields {
      merchant = coalesce r.fields.merchant result.merchant;
      store_name_raw = coalesce r.fields.store_name_raw result.store_name_raw;
      purchase_date = coalesce r.fields.purchase_date result.purchase_date;
    };
    raw_ocr_json = some result.raw;
    scan_state = idle;
    scan_started_at = none;
    proposed_at = some now;
    reviewed_at = if all_match then some now else r.reviewed_at;
    updated_at = now;
  }

  unfoldable pub write_verify :
      ℕ
      → Claim
      → ScanResult Double Raw
      → Taxonomy
      → Snapshot
      → Bool
      → Db Double Raw
      → Result (Db Double Raw)
  write_verify now claim result taxonomy snapshot all_match db =
      let db' = record db {
        receipts =
            update_where (λ (r : Receipt Double Raw). r.id ==ℤ claim.receipt_id)
              (verified now result all_match) db.receipts;
      } in
      if snapshot.item_count == 0
      then insert_scanned_items claim snapshot.kind taxonomy result.items db'
      else ok db'

  unfoldable pub write_result :
      ℕ
      → Claim
      → ScanResult Double Raw
      → Taxonomy
      → Snapshot
      → Bool
      → Db Double Raw
      → Result (Db Double Raw)
  write_result now claim result taxonomy locked all_match db =
      if locked.reviewed
      then write_verify now claim result taxonomy locked all_match db
      else write_extraction now claim result taxonomy locked db

  -- A transaction that throws leaves the database as it was.
  unfoldable pub commit : Db Double Raw → Result (Db Double Raw) → Db Double Raw × Result (Unit {0})
  commit db (ok db') = (db', ok tt)
  commit db (err e) = (db, err e)

module _ (d : Doubles) {Raw : Type 0} (similarity : Text → Text → Result d.Double)
    (before between : ℕ → Db d.Double Raw → Db d.Double Raw) where
  open d use {Double}

  -- The loop of `applyResult`, with the attempts that are left.
  unfoldable pub apply_attempts :
      ℕ
      → ScanWorkerConfig Double
      → ℕ
      → Claim
      → ScanResult Double Raw
      → Taxonomy
      → Db Double Raw
      → Db Double Raw × Result (Unit {0})
  apply_attempts zero config now claim result taxonomy db = (
    db,
    err (runtime_error (codes "receipt kept changing while its scan result was being written")),
  )
  apply_attempts (suc n) config now claim result taxonomy db =
      let start = before n db in
      elim (read_snapshot start claim) [
        | none ↦ (start, ok tt)
        | some read ↦ elim (compare_with d similarity config read result) [
          | err e ↦ (start, err e)
          | ok all_match ↦
              let current = between n start in
              elim (read_snapshot current claim) [
                | none ↦ (current, ok tt)
                | some locked ↦ elim (unchanged read locked) [
                  | true ↦
                      commit current
                        (write_result now claim result taxonomy locked all_match current)
                  | false ↦ apply_attempts n config now claim result taxonomy current
                ]
              ]
        ]
      ]

  unfoldable pub apply_result :
      ScanWorkerConfig Double
      → ℕ
      → Claim
      → ScanResult Double Raw
      → Db Double Raw
      → Db Double Raw × Result (Unit {0})
  unfolding apply_attempts
  apply_result config now claim result db =
      apply_attempts 2 config now claim result (load_taxonomy db claim.user_id) db
