-- ===== src/ScanWorker/Tests.antt =====
-- The scan worker and the item service at a small database.
use receipt_scanner.Prelude.{
  ℕ, ◌≤◌, ◌<◌, ◌≡◌, refl, ◌↔◌, ◌⊎◌, inl, inr, Bool, true, false, Option, none, some, List, [], ◌∷◌,
  ◌++◌, map, count_where, All, Pairwise, Text, codes, Result, ok, err, ◌>>=◌, scan_error, ℤ, pos,
  ◌+ℤ◌,
}
use receipt_scanner.Json.Concrete.{integers, tree}
use receipt_scanner.Kinds.{rules_for, purchase}
use receipt_scanner.Kinds.Laws.{find_kind-purchase}
use receipt_scanner.LedgerInput.{EditableReceipt, ItemInput}
use receipt_scanner.LedgerInput.Validity.{RateIsForeign, IsConsistent}
use receipt_scanner.Database.{ScanState, uploaded, scanning, scanned, Receipt, Db}
use receipt_scanner.ItemService.{insert, replace_tags, insert_tags, optional_category_fits, new_row}
use receipt_scanner.ItemService.Ownership.{OwnedTag, FitsCategory, insert_lem}
use receipt_scanner.ScanProvider.{ScanContext, ScanResult}
use receipt_scanner.ScanWorker.Queue.{
  ScanWorkerConfig, Claim, is_scanning, is_stuck, is_claimed_by, reclaim_stuck, record_failure,
  claim, chosen, start_scan,
}
use receipt_scanner.ScanWorker.Queue.Budgets.{
  SameRecord, Spends, Told, record_failure_lem, reclaim_stuck_lem, record_failure-notices,
}
use receipt_scanner.ScanWorker.Queue.Slots.{DistinctIds, claim-slots, claim-uploaded}
use receipt_scanner.ScanWorker.Results.{Taxonomy}
use receipt_scanner.ScanWorker.Write.{
  Snapshot, direction_of, extracted, verified, apply_attempts, read_snapshot, snapshot_of,
}
use receipt_scanner.ScanWorker.Write.Extraction.{extracted-IsConsistent_iff}
use receipt_scanner.ScanWorker.Write.Stale.{Outcome, apply_attempts_lem}
use receipt_scanner.ScanWorker.Process.{images_of, scan, process, is_scan_error}
use receipt_scanner.ScanWorker.Process.Failures.{process-failure}

abbrev Row : Type 0
Row = Receipt ℤ (Unit {0})

abbrev coffee : EditableReceipt ℤ
coffee = record {
  kind = codes "purchase";
  direction = codes "outflow";
  total_cents = pos 450;
  currency = codes "AUD";
  merchant = none;
  store_name_raw = none;
  purchase_date = none;
  payment_method_id = none;
  tax_deductible = false;
  note = none;
  offsets_receipt_id = none;
  fx_rate_to_aud = none;
}

abbrev row : ℕ → ScanState → Option ℕ → Option ℕ → Row
row id state started reviewed = record {
  id = pos id;
  user_id = pos 1;
  fields = coffee;
  aud_equivalent_cents = none;
  source = scanned;
  scan_state = state;
  scan_attempts = 0;
  reclaim_count = 0;
  scan_started_at = started;
  proposed_at = none;
  reviewed_at = reviewed;
  raw_ocr_json = none;
  created_at = id;
  updated_at = 0;
}

abbrev limits : ScanWorkerConfig ℤ
limits = record {
  concurrency = 2;
  max_scan_attempts = 3;
  max_reclaims = 20;
  reclaim_after = 600;
  match_date_days = 3;
  merchant_match_threshold = pos 0;
}

-- One receipt in the scanner, reviewed before, and one that waits.
abbrev queue : List Row
queue = row 1 scanning (some 1000) (some 10) ∷ row 2 uploaded none none ∷ []

abbrev current : Claim
current = record { receipt_id = pos 1; user_id = pos 1; claimed_at = 1000 }

abbrev nobody_locks : ℤ → Bool
nobody_locks id = false

abbrev clock : ℤ → ℕ
clock id = 2000

queue_tests :
    (count_where is_scanning (claim limits nobody_locks clock queue).0 ≡ 2)
    × (count_where is_scanning (reclaim_stuck limits 1700 queue).0 ≡ 0)
    × (count_where is_scanning (record_failure limits current true false [] queue).0 ≡ 0)
unfolding claim chosen reclaim_stuck record_failure
queue_tests = (refl, refl, refl)

record_failure_lem_example :
    Pairwise
      (λ a b.
        SameRecord a b
        × ((is_claimed_by current a ≡ true) → Spends limits true false a b)
        × ((is_claimed_by current a ≡ false) → a ≡ b))
      queue
      (record_failure limits current true false [] queue).0
record_failure_lem_example = record_failure_lem limits current true false [] queue

reclaim_stuck_lem_example :
    Pairwise
      (λ a b.
        SameRecord a b
        × ((is_stuck limits 1700 a ≡ true) → Spends limits false false a b)
        × ((is_stuck limits 1700 a ≡ false) → a ≡ b))
      queue
      (reclaim_stuck limits 1700 queue).0
reclaim_stuck_lem_example = reclaim_stuck_lem limits 1700 queue

record_failure-notices_example :
    Told
      (record_failure limits current true true [] queue).1
      (record { user_id = pos 1; receipt_id = pos 1; reason = [] })
      (1 < 0)
record_failure-notices_example = record_failure-notices limits current true true [] queue

distinct_queue : DistinctIds queue
distinct_queue = ((λ k. elim k [ inl e ↦ cc | inr e ↦ elim e [ ] ]), ((λ k. elim k [ ]), tt))

claim-slots_example :
    (count_where is_scanning (claim limits nobody_locks clock queue).0 ≤ 2)
    ⊎ (count_where is_scanning (claim limits nobody_locks clock queue).0 ≤ 1)
claim-slots_example = claim-slots limits nobody_locks clock queue distinct_queue

claim-uploaded_example :
    Pairwise
      (λ a b. (b ≡ a) ⊎ ((a.scan_state ≡ uploaded) × (false ≡ false) × (b ≡ start_scan clock a)))
      queue
      (claim limits nobody_locks clock queue).0
claim-uploaded_example = claim-uploaded limits nobody_locks clock queue distinct_queue

-- One slot is free, and two rows wait for it.
abbrev busy_queue : List Row
busy_queue =
    row 3 uploaded none none ∷ row 1 scanning (some 1000) none ∷ row 2 uploaded none none ∷ []

abbrev never : Option ℕ
never = none

abbrev ledger : Db ℤ (Unit {0})
ledger = record {
  receipts = queue;
  items = [];
  item_tags = [];
  categories = [];
  tags = record { id = pos 7; user_id = pos 1; name = codes "work" } ∷ [];
  next_item_id = pos 1;
}

abbrev bean_bag : ItemInput ℤ
bean_bag = record {
  name = none;
  quantity = none;
  unit_price_cents = none;
  amount_cents = pos 450;
  category_id = none;
  informational = false;
  tag_ids = pos 7 ∷ [];
}

abbrev with_bean_bag : Db ℤ (Unit {0})
with_bean_bag = record ledger {
  items = new_row (pos 1) (pos 1) bean_bag ∷ [];
  item_tags = (pos 1, pos 7) ∷ [];
  next_item_id = pos 2;
}

stored : insert (pos 1) (pos 1) (codes "purchase") bean_bag ledger ≡ ok (with_bean_bag, pos 1)
unfolding insert replace_tags insert_tags optional_category_fits ◌+ℤ◌
stored = refl

insert_lem_example :
    (pos 1 ≡ pos 1)
    × (queue ≡ queue)
    × (with_bean_bag.items ≡ [] ++ new_row (pos 1) (pos 1) bean_bag ∷ [])
    × (with_bean_bag.item_tags ≡ [] ++ map (λ tag. (pos 1, tag)) (pos 7 ∷ []))
    × All (OwnedTag (pos 1) ledger) (pos 7 ∷ [])
    × FitsCategory (pos 1) (codes "purchase") ledger none
insert_lem_example =
    insert_lem (pos 1) (pos 1) (codes "purchase") bean_bag ledger with_bean_bag (pos 1) stored

abbrev reading : ScanResult ℤ (Unit {0})
reading = record {
  kind = codes "purchase";
  currency = codes "AUD";
  total_cents = pos 450;
  merchant = some (codes "Cafe");
  store_name_raw = none;
  purchase_date = none;
  items = [];
  raw = tt;
}

abbrev no_taxonomy : Taxonomy
no_taxonomy = record { categories = []; tags = [] }

abbrev seen : Snapshot
seen = snapshot_of ledger (row 1 scanning (some 1000) (some 10))

purchase_rules : rules_for (codes "purchase") ≡ ok purchase
unfolding rules_for
purchase_rules = rw (find_kind-purchase)

purchase_direction : direction_of purchase ≡ ok (codes "outflow")
unfolding direction_of purchase
purchase_direction = refl

abbrev first_row : Row
first_row = row 1 scanning (some 1000) none

extracted-IsConsistent_iff_example :
    IsConsistent (extracted 3000 reading purchase (codes "outflow") seen first_row).fields
    ↔ RateIsForeign first_row.fields.fx_rate_to_aud (codes "AUD")
extracted-IsConsistent_iff_example =
    extracted-IsConsistent_iff 3000 reading purchase (codes "outflow") seen first_row purchase_rules
      purchase_direction

abbrev after_extraction : Db ℤ (Unit {0})
after_extraction = record ledger {
  receipts =
      extracted 3000 reading purchase (codes "outflow") seen (row 1 scanning (some 1000) (some 10))
      ∷ row 2 uploaded none none
      ∷ [];
}

abbrev after_verify : Db ℤ (Unit {0})
after_verify = record ledger {
  receipts =
      verified 3000 reading true (row 1 scanning (some 1000) (some 10))
      ∷ row 2 uploaded none none
      ∷ [];
}

abbrev alike : Text → Text → Result ℤ
alike s t = ok (pos 1)

abbrev alone : ℕ → Db ℤ (Unit {0}) → Db ℤ (Unit {0})
alone n db = db

apply_attempts_lem_example :
    Outcome integers alike alone alone limits 3000 current reading no_taxonomy ledger
      (apply_attempts integers alike alone alone 2 limits 3000 current reading no_taxonomy ledger).0
apply_attempts_lem_example =
    apply_attempts_lem integers alike alone alone limits 3000 current reading no_taxonomy 2 ledger

abbrev refuses : List Text → ScanContext → Result (ScanResult ℤ (Unit {0}))
refuses images context = err (scan_error [])

abbrev loads : Text → Result Text
loads key = ok key

abbrev unchanged_db : Db ℤ (Unit {0}) → Db ℤ (Unit {0})
unchanged_db db = db

refused :
    ((images_of loads ([] ∷ [])).0 >>= λ images.
    scan tree refuses loads alike alone alone unchanged_db current seen images ledger)
    ≡ err (scan_error [])
unfolding images_of scan
refused = refl

read_now : read_snapshot ledger current ≡ some seen
unfolding read_snapshot
read_now = refl

process-failure_example :
    Pairwise
      (λ a b.
        SameRecord a b
        × ((is_claimed_by current a ≡ true)
            → Spends limits (is_scan_error (scan_error [])) (images_of loads ([] ∷ [])).1 a b)
        × ((is_claimed_by current a ≡ false) → a ≡ b))
      queue
      (process tree refuses loads alike alone alone unchanged_db limits 3000 current
        ([] ∷ [])
        ledger).0.receipts
process-failure_example =
    process-failure tree refuses loads alike alone alone unchanged_db limits 3000 current ([] ∷ [])
      ledger seen (scan_error []) read_now refused
