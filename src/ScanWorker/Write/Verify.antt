-- ===== src/ScanWorker/Write/Verify.antt =====
-- What a scan's result does to a receipt that the user has reviewed (`writeVerify`).
use receipt_scanner.Prelude.{
  ℕ, ◌<◌, ◌≡◌, ◌⊎◌, [], ◌++◌, All, Bool, true, false, not, Option, none, some, Text, ok,
  if◌then◌else◌, List, arith,
}
use receipt_scanner.Database.{Receipt, Item, Db, idle}
use receipt_scanner.Database.State.{needs_review, is_confirmed}
use receipt_scanner.ScanProvider.{ScannedItem, ScanResult}
use receipt_scanner.ScanWorker.Queue.{Claim}
use receipt_scanner.ScanWorker.Results.{Taxonomy}
use receipt_scanner.ScanWorker.Write.{insert_scanned_items}
use receipt_scanner.ScanWorker.Write.Extraction.{insert_scanned_items-receipts}

-- What the user entered stays: an empty field may be filled.
abbrev pub Fills : Option Text → Option Text → Type 0
Fills before after = (before ≡ none) ⊎ (after ≡ before)

module _ {Double Raw : Type 0} where
  -- What a verify scan makes of the row of its claim.
  abbrev pub IsVerified :
      ℕ → ScanResult Double Raw → Bool → Receipt Double Raw → Receipt Double Raw → Type 0
  IsVerified now result all_match a b =
      (b ≡ record a {
        fields = record a.fields {
          merchant = b.fields.merchant;
          store_name_raw = b.fields.store_name_raw;
          purchase_date = b.fields.purchase_date;
        };
        raw_ocr_json = some result.raw;
        scan_state = idle;
        scan_started_at = none;
        proposed_at = some now;
        reviewed_at = b.reviewed_at;
        updated_at = now;
      })
      × Fills a.fields.merchant b.fields.merchant
      × Fills a.fields.store_name_raw b.fields.store_name_raw
      × Fills a.fields.purchase_date b.fields.purchase_date
      × ((b.reviewed_at ≡ some now) ⊎ (b.reviewed_at ≡ a.reviewed_at))
      × ((t : ℕ)
          → a.reviewed_at ≡ some t
          → t < now
          → (is_confirmed b.proposed_at b.reviewed_at ≡ all_match)
            × (needs_review b.proposed_at b.reviewed_at ≡ not all_match))

  -- The items that were there stay, and what is added belongs to the claim's receipt; nothing is
  -- added if the receipt had an item.
  abbrev pub Adds : Claim → Bool → Db Double Raw → Db Double Raw → Type 0
  Adds claim empty db db' =
      (added : List (Item Double)) × (db'.items ≡ db.items ++ added)
      × All (λ i. i.receipt_id ≡ claim.receipt_id) added
      × ((empty ≡ false) → (added ≡ []) × (db'.item_tags ≡ db.item_tags))
      × (db'.categories ≡ db.categories)
      × (db'.tags ≡ db.tags)

  pub same_receipts :
      (claim : Claim) (kind : Text) (taxonomy : Taxonomy) (items : List (ScannedItem Double))
      (empty : Bool) (db db' : Db Double Raw)
      → (if empty then insert_scanned_items claim kind taxonomy items db else ok db) ≡ ok db'
      → db'.receipts ≡ db.receipts
  same_receipts claim kind taxonomy items true db db' h =
      insert_scanned_items-receipts claim kind taxonomy items db db' h
  same_receipts claim kind taxonomy items false db db' h = ground arith
