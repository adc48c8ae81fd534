-- ===== src/Receipts/Reads.antt =====
-- The reads of receipts/ReceiptService.cpp: a receipt as the API shows it, the list of a user's
-- receipts, and the images of a receipt. A timestamp stays a number, which `isoUtc` prints.
pub mod Pages
use receipt_scanner.Prelude.{
  ℕ, ◌+◌, Bool, not, ◌&&◌, ◌||◌, Option, none, some, List, [], ◌∷◌, map, any, keep, first, take,
  drop, Text, Result, ok, err, ◌>>=◌, ◌>>◌, throw_if, receipt_not_found_error, ℤ, ◌==ℤ◌, ltb_ℤ, ltb,
  ◌==◌, if◌then◌else◌,
}
use receipt_scanner.LedgerInput.{EditableReceipt}
use receipt_scanner.Database.{ScanState, Source, Receipt, ReceiptImage, Ledger}
use receipt_scanner.Database.State.{needs_review, is_confirmed}
use receipt_scanner.ItemService.{receipt_is}

pub record ReceiptSummary (Double : Type 0) : Type 0 where
  pub id : ℤ
  pub store_name_raw : Option Text
  pub merchant : Option Text
  pub purchase_date : Option Text
  pub total_cents : ℤ
  pub direction : Text
  pub currency : Text
  pub kind : Text
  pub scan_state : ScanState
  pub tax_deductible : Bool
  pub note : Option Text
  pub source : Source
  pub payment_method_id : Option ℤ
  pub offsets_receipt_id : Option ℤ
  pub fx_rate_to_aud : Option Double
  pub aud_equivalent_cents : Option ℤ
  pub proposed_at : Option ℕ
  pub reviewed_at : Option ℕ
  pub needs_review : Bool
  pub is_confirmed : Bool
  pub created_at : ℕ
  pub updated_at : ℕ

pub record ImageRef : Type 0 where
  pub id : ℤ
  pub created_at : ℕ

pub record ImageLocation : Type 0 where
  pub owner_user_id : ℤ
  pub image_key : Text

-- `ORDER BY created_at`
unfoldable pub insert_oldest : ReceiptImage → List ReceiptImage → List ReceiptImage
insert_oldest i [] = i ∷ []
insert_oldest i (x ∷ xs) =
    let rest = insert_oldest i xs in if ltb x.created_at i.created_at then x ∷ rest else i ∷ x ∷ xs

unfoldable pub oldest_first : List ReceiptImage → List ReceiptImage
unfolding insert_oldest
oldest_first [] = []
oldest_first (i ∷ images) = insert_oldest i (oldest_first images)

module _ {Double Raw : Type 0} where
  unfoldable pub row_to_summary : Receipt Double Raw → ReceiptSummary Double
  row_to_summary r = record {
    id = r.id;
    store_name_raw = r.fields.store_name_raw;
    merchant = r.fields.merchant;
    purchase_date = r.fields.purchase_date;
    total_cents = r.fields.total_cents;
    direction = r.fields.direction;
    currency = r.fields.currency;
    kind = r.fields.kind;
    scan_state = r.scan_state;
    tax_deductible = r.fields.tax_deductible;
    note = r.fields.note;
    source = r.source;
    payment_method_id = r.fields.payment_method_id;
    offsets_receipt_id = r.fields.offsets_receipt_id;
    fx_rate_to_aud = r.fields.fx_rate_to_aud;
    aud_equivalent_cents = r.aud_equivalent_cents;
    proposed_at = r.proposed_at;
    reviewed_at = r.reviewed_at;
    needs_review = needs_review r.proposed_at r.reviewed_at;
    is_confirmed = is_confirmed r.proposed_at r.reviewed_at;
    created_at = r.created_at;
    updated_at = r.updated_at;
  }

  unfoldable pub row_to_editable : Receipt Double Raw → EditableReceipt Double
  row_to_editable row = record {
    kind = row.fields.kind;
    direction = row.fields.direction;
    total_cents = row.fields.total_cents;
    currency = row.fields.currency;
    merchant = row.fields.merchant;
    store_name_raw = row.fields.store_name_raw;
    purchase_date = row.fields.purchase_date;
    payment_method_id = row.fields.payment_method_id;
    tax_deductible = row.fields.tax_deductible;
    note = row.fields.note;
    offsets_receipt_id = row.fields.offsets_receipt_id;
    fx_rate_to_aud = row.fields.fx_rate_to_aud;
  }

  unfoldable pub get_receipt : ℤ → ℤ → Ledger Double Raw → Option (ReceiptSummary Double)
  unfolding row_to_summary
  get_receipt user receipt ledger = elim (first (receipt_is receipt user) ledger.db.receipts) [
    | none ↦ none
    | some r ↦ some (row_to_summary r)
  ]

  -- `ORDER BY created_at DESC, id DESC`
  abbrev pub is_newer : Receipt Double Raw → Receipt Double Raw → Bool
  is_newer a b = ltb b.created_at a.created_at || (a.created_at == b.created_at && ltb_ℤ b.id a.id)

  unfoldable pub insert_newest :
      Receipt Double Raw → List (Receipt Double Raw) → List (Receipt Double Raw)
  insert_newest r [] = r ∷ []
  insert_newest r (x ∷ xs) =
      let rest = insert_newest r xs in if is_newer r x then r ∷ x ∷ xs else x ∷ rest

  unfoldable pub newest_first : List (Receipt Double Raw) → List (Receipt Double Raw)
  unfolding insert_newest
  newest_first [] = []
  newest_first (r ∷ rows) = insert_newest r (newest_first rows)

  unfoldable pub list_receipts : ℤ → ℕ → ℕ → Ledger Double Raw → List (ReceiptSummary Double)
  unfolding newest_first row_to_summary
  list_receipts user limit offset ledger = map row_to_summary (
      take limit (
        drop offset (
          newest_first (keep (λ (r : Receipt Double Raw). r.user_id ==ℤ user) ledger.db.receipts))))

  unfoldable pub list_images : ℤ → ℤ → Ledger Double Raw → Result (List ImageRef)
  unfolding oldest_first
  list_images user receipt ledger =
      throw_if (not (any (receipt_is receipt user) ledger.db.receipts)) receipt_not_found_error
      >> ok (
          map (λ (i : ReceiptImage). record { id = i.id; created_at = i.created_at })
            (oldest_first (keep (λ (i : ReceiptImage). i.receipt_id ==ℤ receipt) ledger.images)))

  unfoldable pub find_image : ℤ → Ledger Double Raw → Option ImageLocation
  find_image image ledger = elim (first (λ (i : ReceiptImage). i.id ==ℤ image) ledger.images) [
    | none ↦ none
    | some i ↦ elim (first (λ (r : Receipt Double Raw). r.id ==ℤ i.receipt_id) ledger.db.receipts) [
      | none ↦ none
      | some r ↦ some (record { owner_user_id = r.user_id; image_key = i.image_key })
    ]
  ]
