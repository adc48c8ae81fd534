-- ===== src/Receipts/Edits/Tests.antt =====
-- A manual entry and a patch at a small ledger.
use receipt_scanner.Prelude.{
  ◌≡◌, refl, false, none, [], ◌∷◌, All, Text, codes, text_eq, ok, ℤ, pos, ◌+ℤ◌, is_space,
}
use receipt_scanner.Json.{contains}
use receipt_scanner.Json.Concrete.{Node, num, str, obj, field, end, integers, tree, find_in}
use receipt_scanner.Kinds.{
  find_kind, rules_for, purchase, refund, reimbursement, income, transfer, default_kind,
  is_known_direction, directions,
}
use receipt_scanner.JsonInput.{
  require_object, reject_unknown_keys, required_string, trim, cents, as_int64, nullable_id, boolean,
  set_if_present,
}
use receipt_scanner.LedgerInput.{
  EditableReceipt, ManualEntryInput, new_receipt, new_item, parse_manual_entry, entry_kind,
  entry_direction, entry_items, apply_receipt_patch, apply_common_receipt_fields, validate_receipt,
  manual_keys, patch_keys, patch_kind, patch_direction, patch_reviewed, direction_is,
  canonical_text, aud_equivalent_cents,
}
use receipt_scanner.Database.{Receipt, Ledger}
use receipt_scanner.ItemService.{insert, insert_tags, replace_tags, optional_category_fits, new_row}
use receipt_scanner.Receipts.Reads.{row_to_summary, row_to_editable}
use receipt_scanner.Receipts.Edits.{
  create_manual, update_receipt, update_row, validate_references, check_method, check_target,
  items_of, implicit_item, insert_items, manual_row, edited_row, check_kind_side, side_clash,
  side_clash_in,
}
use receipt_scanner.Receipts.Edits.Entry.{EntryStored, create_manual_lem}
use receipt_scanner.Receipts.Edits.Sides.{SideFits, update_receipt-sides}

parsing : Unit {0}
unfolding parse_manual_entry entry_kind entry_direction entry_items apply_common_receipt_fields
    validate_receipt manual_keys patch_keys patch_kind patch_direction patch_reviewed direction_is
    canonical_text apply_receipt_patch new_receipt new_item contains require_object
    reject_unknown_keys required_string trim cents as_int64 nullable_id boolean set_if_present
    find_kind rules_for purchase refund reimbursement income transfer default_kind
    is_known_direction directions codes text_eq find_in is_space
parsing = tt

abbrev dinner : Node
dinner = obj (field (codes "total_cents") (num (pos 3200)) end)

abbrev dinner_receipt : EditableReceipt ℤ
dinner_receipt = record {
  kind = codes "purchase";
  direction = codes "outflow";
  total_cents = pos 3200;
  currency = codes "AUD";
  merchant = none;
  store_name_raw = none;
  purchase_date = none;
  payment_method_id = none;
  tax_deductible = false;
  note = none;
  offsets_receipt_id = none;
  fx_rate_to_aud = none;
}

abbrev today : Text
today = 49 ∷ []

abbrev empty_ledger : Ledger ℤ (Unit {0})
empty_ledger = record {
  db = record {
    receipts = [];
    items = [];
    item_tags = [];
    categories = [];
    tags = [];
    next_item_id = pos 1;
  };
  images = [];
  payment_methods = [];
  next_receipt_id = pos 1;
  next_image_id = pos 1;
}

abbrev dinner_input : ManualEntryInput ℤ
dinner_input = record { receipt = dinner_receipt; category_id = none; items = [] }

abbrev dinner_row : Receipt ℤ (Unit {0})
dinner_row = manual_row 9 today (pos 1) (pos 1) dinner_receipt none

abbrev with_dinner : Ledger ℤ (Unit {0})
with_dinner = record empty_ledger {
  db = record empty_ledger.db {
    receipts = dinner_row ∷ [];
    items = new_row (pos 1) (pos 1) (implicit_item dinner_input) ∷ [];
    next_item_id = pos 2;
  };
  next_receipt_id = pos 2;
}

dinner_parsed : parse_manual_entry tree dinner ≡ ok dinner_input
unfolding parsing
dinner_parsed = refl

dinner_created : create_manual tree 9 today (pos 1) dinner empty_ledger ≡ ok (with_dinner, pos 1)
unfolding create_manual validate_references check_method check_target items_of implicit_item
    insert_items insert insert_tags replace_tags optional_category_fits new_item ◌+ℤ◌
    aud_equivalent_cents
dinner_created = rw (dinner_parsed) refl

create_manual_lem_example : EntryStored integers (pos 1) empty_ledger with_dinner (pos 1)
create_manual_lem_example =
    create_manual_lem tree 9 today (pos 1) dinner empty_ledger with_dinner (pos 1) dinner_created

-- A new kind, with no direction beside it.
abbrev to_transfer : Node
to_transfer = obj (field (codes "kind") (str (codes "transfer")) end)

abbrev moved : EditableReceipt ℤ
moved = record dinner_row.fields { kind = codes "transfer" }

abbrev moved_row : Receipt ℤ (Unit {0})
moved_row = edited_row 20 moved none false dinner_row

abbrev with_moved : Ledger ℤ (Unit {0})
with_moved = record with_dinner { db = record with_dinner.db { receipts = moved_row ∷ [] } }

moved_patched : apply_receipt_patch tree dinner_row.fields to_transfer ≡ ok (moved, false)
unfolding parsing
moved_patched = refl

dinner_moved :
    update_receipt tree 20 (pos 1) (pos 1) to_transfer with_dinner
    ≡ ok (with_moved, row_to_summary moved_row)
unfolding update_receipt update_row row_to_editable validate_references check_method check_target
    check_kind_side side_clash side_clash_in implicit_item new_item aud_equivalent_cents rules_for
    find_kind text_eq purchase codes refund reimbursement income transfer
dinner_moved = rw (moved_patched) refl

dinner_sides : All (SideFits with_dinner.db) with_dinner.db.receipts
unfolding side_clash side_clash_in implicit_item new_item
dinner_sides = (refl, tt)

update_receipt-sides_example : All (SideFits with_moved.db) with_moved.db.receipts
update_receipt-sides_example =
    update_receipt-sides tree 20 (pos 1) (pos 1) to_transfer with_dinner with_moved
      (row_to_summary moved_row) dinner_sides dinner_moved
