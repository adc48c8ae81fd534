-- ===== src/LedgerInput/Tests.antt =====
-- Manual entries and patches at concrete bodies.
use receipt_scanner.Prelude.{
  ◌≡◌, refl, ◌↔◌, ◌⊎◌, true, false, none, [], codes, text_eq, ok, ℤ, pos, is_space,
}
use receipt_scanner.Json.{contains}
use receipt_scanner.Json.Concrete.{Node, num, str, bool, obj, field, end, tree, find_in}
use receipt_scanner.Kinds.{
  find_kind, rules_for, purchase, refund, reimbursement, income, transfer, default_kind,
  is_known_direction, directions, scannable,
}
use receipt_scanner.Kinds.Prompt.{purchase_documents}
use receipt_scanner.JsonInput.{
  require_object, reject_unknown_keys, required_string, trim, cents, as_int64, nullable_id, boolean,
  set_if_present,
}
use receipt_scanner.LedgerInput.{
  EditableReceipt, ManualEntryInput, new_receipt, new_item, parse_manual_entry, entry_kind,
  entry_direction, entry_items, apply_receipt_patch, apply_common_receipt_fields, validate_receipt,
  manual_keys, patch_keys, patch_kind, patch_direction, patch_reviewed, direction_is,
  canonical_text,
}
use receipt_scanner.LedgerInput.Validity.{IsConsistent, validate_receipt_iff}
use receipt_scanner.LedgerInput.Entry.{IsAmount, parse_manual_entry_lem}
use receipt_scanner.LedgerInput.Confirm.{confirm}

parsing : Unit {0}
unfolding parse_manual_entry entry_kind entry_direction entry_items apply_common_receipt_fields
    validate_receipt manual_keys patch_keys patch_kind patch_direction patch_reviewed direction_is
    canonical_text apply_receipt_patch new_receipt new_item contains require_object
    reject_unknown_keys required_string trim cents as_int64 nullable_id boolean set_if_present
    find_kind rules_for purchase refund reimbursement income transfer default_kind
    is_known_direction directions codes text_eq find_in is_space
parsing = tt

abbrev lunch : Node
lunch = obj (field (codes "total_cents") (num (pos 1250)) end)

abbrev lunch_receipt : EditableReceipt ℤ
lunch_receipt = record {
  kind = codes "purchase";
  direction = codes "outflow";
  total_cents = pos 1250;
  currency = codes "AUD";
  merchant = none;
  store_name_raw = none;
  purchase_date = none;
  payment_method_id = none;
  tax_deductible = false;
  note = none;
  offsets_receipt_id = none;
  fx_rate_to_aud = none;
}

abbrev lunch_input : ManualEntryInput ℤ
lunch_input = record { receipt = lunch_receipt; category_id = none; items = [] }

lunch_parsed : parse_manual_entry tree lunch ≡ ok lunch_input
unfolding parsing
lunch_parsed = refl

lunch_entry :
    IsConsistent lunch_receipt
    × IsAmount (pos 1250)
    × ((lunch_input.category_id ≡ none) ⊎ (lunch_input.items ≡ []))
lunch_entry = parse_manual_entry_lem tree lunch lunch_input lunch_parsed

validate_receipt_iff_example : (validate_receipt lunch_receipt ≡ ok tt) ↔ IsConsistent lunch_receipt
validate_receipt_iff_example = validate_receipt_iff lunch_receipt

purchase-scannable : scannable purchase ≡ true
unfolding scannable purchase purchase_documents codes
purchase-scannable = refl

-- A new kind, with no direction beside it.
abbrev to_transfer : Node
to_transfer = obj (field (codes "kind") (str (codes "transfer")) end)

abbrev moved : EditableReceipt ℤ
moved = record lunch_receipt { kind = codes "transfer" }

moved_patched : apply_receipt_patch tree lunch_receipt to_transfer ≡ ok (moved, false)
unfolding parsing
moved_patched = refl

abbrev confirmation : Node
confirmation = obj (field (codes "reviewed") (bool true) end)

lunch-IsConsistent : IsConsistent lunch_receipt
lunch-IsConsistent = lunch_entry.0

confirm_example : apply_receipt_patch tree lunch_receipt confirmation ≡ ok (lunch_receipt, true)
unfolding codes text_eq find_in
confirm_example =
    confirm tree lunch_receipt confirmation (bool true) lunch-IsConsistent refl (refl, tt) refl refl
      refl
