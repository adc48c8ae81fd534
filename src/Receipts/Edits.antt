-- ===== src/Receipts/Edits.antt =====
-- The writes of receipts/ReceiptService.cpp that take a body: manual entry, the receipt patch, and
-- the retry of a failed scan. `now` is the transaction's time and `today` the date in Sydney. An
-- exception rolls back, so it carries no tables.
pub mod References
pub mod Entry
pub mod Patch
pub mod Sides
mod Tests
pub mod Retry
use receipt_scanner.Prelude.{
  ℕ, Bool, true, false, not, ◌&&◌, ◌||◌, Option, none, some, List, [], ◌∷◌, ◌++◌, map, any, keep,
  first, update_where, Text, codes, Result, ok, err, ◌>>=◌, ◌>>◌, throw_if, validation_error,
  conflict_error, receipt_not_found_error, ℤ, pos, ◌+ℤ◌, ◌==ℤ◌, is_some, if◌then◌else◌,
}
use receipt_scanner.Json.{Doubles, Json}
use receipt_scanner.Kinds.{rules_for}
use receipt_scanner.LedgerInput.{
  EditableReceipt, ItemInput, ManualEntryInput, new_item, parse_manual_entry, apply_receipt_patch,
  aud_equivalent_cents,
}
use receipt_scanner.Database.{
  idle, uploaded, scan_failed, manual, Receipt, Item, Category, Db, PaymentMethod, Ledger,
}
use receipt_scanner.ItemService.{receipt_is, insert}
use receipt_scanner.ReferenceData.{same_side}
use receipt_scanner.ScanWorker.Queue.{state_eq}
use receipt_scanner.Receipts.Reads.{ReceiptSummary, row_to_summary, row_to_editable, get_receipt}

abbrev pub method_is : ℤ → ℤ → PaymentMethod → Bool
method_is id user m = m.id ==ℤ id && m.user_id ==ℤ user

abbrev pub is_same : Option ℤ → ℤ → Bool
is_same none id = false
is_same (some receipt) id = id ==ℤ receipt

-- `COALESCE($7::date, today)`
abbrev pub date_or : Text → Option Text → Option Text
date_or today none = some today
date_or today (some date) = some date

module _ {Double : Type 0} where
  -- The category of the one item of an entry without items.
  unfoldable pub implicit_item : ManualEntryInput Double → ItemInput Double
  implicit_item input = record new_item {
    name = input.receipt.merchant;
    amount_cents = input.receipt.total_cents;
    category_id = input.category_id;
  }

  unfoldable pub items_of : ManualEntryInput Double → List (ItemInput Double)
  unfolding implicit_item
  items_of input = elim input.items [ [] ↦ implicit_item input ∷ [] | x ∷ xs ↦ x ∷ xs ]

  -- The sides of the categories on the items of a receipt: the join of `items` and `categories`.
  unfoldable pub side_clash_in : List Category → List (Item Double) → ℤ → Bool → Bool
  side_clash_in categories items receipt side =
      any
        (λ (i : Item Double).
          i.receipt_id ==ℤ receipt
          && any
              (λ (c : Category).
                (elim i.category_id [ none ↦ false | some id ↦ c.id ==ℤ id ])
                && not (same_side c.is_income side))
              categories)
        items

module _ {Double Raw : Type 0} where
  unfoldable pub check_method : ℤ → Option ℤ → Ledger Double Raw → Result (Unit {0})
  check_method user none l = ok tt
  check_method user (some id) l =
      throw_if (not (any (method_is id user) l.payment_methods))
        (validation_error (codes "payment_method_id does not exist"))

  unfoldable pub check_target : ℤ → Option ℤ → Option ℤ → Ledger Double Raw → Result (Unit {0})
  check_target user receipt none l = ok tt
  check_target user receipt (some target) l =
      throw_if (is_same receipt target) (validation_error (codes "a receipt cannot offset itself"))
      >> elim (first (receipt_is target user) l.db.receipts) [
        | none ↦ err (validation_error (codes "offsets_receipt_id does not exist"))
        | some r ↦ rules_for r.fields.kind >>= λ rules.
            throw_if (not rules.is_offset_target)
              (validation_error (codes "offsets_receipt_id can't point at a " ++ r.fields.kind))
      ]

  unfoldable pub validate_references :
      ℤ → Option ℤ → EditableReceipt Double → Ledger Double Raw → Result (Unit {0})
  unfolding check_method check_target
  validate_references user receipt r l = do
    check_method user r.payment_method_id l
    check_target user receipt r.offsets_receipt_id l

  unfoldable pub insert_items :
      ℤ → ℤ → Text → List (ItemInput Double) → Db Double Raw → Result (Db Double Raw)
  insert_items user receipt kind [] db = ok db
  insert_items user receipt kind (item ∷ rest) db =
      insert user receipt kind item db >>= λ stored. insert_items user receipt kind rest stored.0

  abbrev pub manual_row : ℕ → Text → ℤ → ℤ → EditableReceipt Double → Option ℤ → Receipt Double Raw
  manual_row now today id user r aud = record {
    id = id;
    user_id = user;
    fields = record r { store_name_raw = none; purchase_date = date_or today r.purchase_date };
    aud_equivalent_cents = aud;
    source = manual;
    scan_state = idle;
    scan_attempts = 0;
    reclaim_count = 0;
    scan_started_at = none;
    proposed_at = none;
    reviewed_at = some now;
    raw_ocr_json = none;
    created_at = now;
    updated_at = now;
  }

  unfoldable pub side_clash : Db Double Raw → ℤ → Bool → Bool
  unfolding side_clash_in
  side_clash db receipt side = side_clash_in db.categories db.items receipt side

  abbrev pub edited_row :
      ℕ → EditableReceipt Double → Option ℤ → Bool → Receipt Double Raw → Receipt Double Raw
  edited_row now fields aud reviewed row = record row {
    fields = fields;
    aud_equivalent_cents = aud;
    updated_at = now;
    reviewed_at = if reviewed then some now else row.reviewed_at;
  }

  abbrev pub with_receipts : List (Receipt Double Raw) → Ledger Double Raw → Ledger Double Raw
  with_receipts receipts l = record l { db = record l.db { receipts = receipts } }

  abbrev pub retryable : ℤ → ℤ → Receipt Double Raw → Bool
  retryable user receipt r = receipt_is receipt user r && state_eq r.scan_state scan_failed

  abbrev pub retried : ℕ → Receipt Double Raw → Receipt Double Raw
  retried now r = record r {
    scan_state = uploaded;
    scan_attempts = 0;
    reclaim_count = 0;
    updated_at = now;
  }

  unfoldable pub retry_scan :
      ℕ → ℤ → ℤ → Ledger Double Raw → Result (Ledger Double Raw × ReceiptSummary Double)
  retry_scan now user receipt l =
      let l' =
        with_receipts (update_where (retryable user receipt) (retried now) l.db.receipts) l in
      elim (get_receipt user receipt l') [
        | none ↦ err receipt_not_found_error
        | some summary ↦
            throw_if (not (any (retryable user receipt) l.db.receipts))
              (conflict_error (codes "only a receipt in scan_failed can be retried"))
            >> ok (l', summary)
      ]

module _ {d : Doubles} (j : Json d) {Raw : Type 0} (now : ℕ) (today : Text) where
  open d use {Double}
  open j use {Value}

  -- Gives the new receipt's id.
  unfoldable pub create_manual : ℤ → Value → Ledger Double Raw → Result (Ledger Double Raw × ℤ)
  unfolding insert_items items_of
  create_manual user body l = do
    input ← parse_manual_entry j body
    let r = input.receipt
    validate_references user none r l
    let id = l.next_receipt_id
    let row = manual_row now today id user r (aud_equivalent_cents d r.total_cents r.fx_rate_to_aud)
    db ←
        insert_items user id r.kind (items_of input)
          (record l.db { receipts = l.db.receipts ++ row ∷ [] })
    ok (record l { db = db; next_receipt_id = l.next_receipt_id +ℤ pos 1 }, id)

module _ {d : Doubles} (j : Json d) {Raw : Type 0} (now : ℕ) where
  open d use {Double}
  open j use {Value}

  -- The kind may change its side only if no item's category is on the other one.
  unfoldable pub check_kind_side : ℤ → Bool → Bool → Db Double Raw → Result (Unit {0})
  unfolding side_clash
  check_kind_side receipt was_income is_income db =
      throw_if (not (same_side is_income was_income) && side_clash db receipt is_income) (
        validation_error (
          codes "this kind change would leave items in the wrong expense/income categories -- "
          ++ codes "recategorize them first"))

  unfoldable pub update_row :
      ℤ
      → ℤ
      → Value
      → Receipt Double Raw
      → Ledger Double Raw
      → Result (Ledger Double Raw × ReceiptSummary Double)
  unfolding check_kind_side
  update_row user receipt body current l = do
    old_rules ← rules_for (row_to_editable current).kind
    patched ← apply_receipt_patch j (row_to_editable current) body
    let r = patched.0
    validate_references user (some receipt) r l
    rules ← rules_for r.kind
    check_kind_side receipt old_rules.uses_income_categories rules.uses_income_categories l.db
    let aud = aud_equivalent_cents d r.total_cents r.fx_rate_to_aud
    ok (
      with_receipts
          (update_where (λ (x : Receipt Double Raw). x.id ==ℤ receipt)
            (edited_row now r aud patched.1) l.db.receipts)
          l,
      -- The row as it is read back.
      row_to_summary (edited_row now r aud patched.1 current),
    )

  unfoldable pub update_receipt :
      ℤ → ℤ → Value → Ledger Double Raw → Result (Ledger Double Raw × ReceiptSummary Double)
  unfolding update_row
  update_receipt user receipt body l = elim (first (receipt_is receipt user) l.db.receipts) [
    | none ↦ err receipt_not_found_error
    | some current ↦ update_row user receipt body current l
  ]
