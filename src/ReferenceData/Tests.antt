-- ===== src/ReferenceData/Tests.antt =====
-- A category changes its side beside one that an item uses.
use receipt_scanner.Prelude.{
  ◌≡◌, refl, false, true, none, some, [], ◌∷◌, All, Pairwise, inl, ℤ, pos, Text, codes, text_eq, ok,
}
use receipt_scanner.Json.Concrete.{tree}
use receipt_scanner.Kinds.{kinds, purchase, refund, reimbursement, income, transfer}
use receipt_scanner.LedgerInput.{EditableReceipt}
use receipt_scanner.Database.{idle, manual, Receipt, Item, Category, Db}
use receipt_scanner.ReferenceData.{clashes, clash_in, changed_category, check_side, is_income_kind}
use receipt_scanner.ReferenceData.Sides.{Fits, Changes, changed_category-Fits}

abbrev plain : Text → Text
plain name = name

abbrev gifts : Category
gifts = record { id = pos 1; user_id = pos 1; name = 103 ∷ []; is_income = false }

abbrev food : Category
food = record { id = pos 2; user_id = pos 1; name = 102 ∷ []; is_income = false }

abbrev lunch : EditableReceipt ℤ
lunch = record {
  kind = codes "purchase";
  direction = codes "outflow";
  total_cents = pos 900;
  currency = codes "AUD";
  merchant = none;
  store_name_raw = none;
  purchase_date = none;
  payment_method_id = none;
  tax_deductible = false;
  note = none;
  offsets_receipt_id = none;
  fx_rate_to_aud = none;
}

abbrev lunch_row : Receipt ℤ (Unit {0})
lunch_row = record {
  id = pos 1;
  user_id = pos 1;
  fields = lunch;
  aud_equivalent_cents = none;
  source = manual;
  scan_state = idle;
  scan_attempts = 0;
  reclaim_count = 0;
  scan_started_at = none;
  proposed_at = none;
  reviewed_at = some 1;
  raw_ocr_json = none;
  created_at = 1;
  updated_at = 1;
}

abbrev soup : Item ℤ
soup = record {
  id = pos 1;
  receipt_id = pos 1;
  name = none;
  quantity = none;
  unit_price_cents = none;
  amount_cents = pos 900;
  category_id = some (pos 2);
  informational = false;
}

abbrev with_gifts : Db ℤ (Unit {0})
with_gifts = record {
  receipts = lunch_row ∷ [];
  items = soup ∷ [];
  item_tags = [];
  categories = gifts ∷ food ∷ [];
  tags = [];
  next_item_id = pos 2;
}

abbrev income_gifts : Category
income_gifts = record gifts { is_income = true }

abbrev with_income_gifts : Db ℤ (Unit {0})
with_income_gifts = record with_gifts { categories = income_gifts ∷ food ∷ [] }

changed :
    changed_category tree plain none (some true) gifts with_gifts
    ≡ ok (with_income_gifts, income_gifts)
unfolding changed_category check_side clashes clash_in
changed = refl

used : All (Fits tree plain with_gifts) with_gifts.categories
unfolding clashes clash_in is_income_kind kinds purchase refund reimbursement income transfer
    text_eq codes
used = (refl, (refl, tt))

changed_category-Fits_example :
    All (Fits tree plain with_income_gifts) with_income_gifts.categories
    × Pairwise (Changes income_gifts) with_gifts.categories with_income_gifts.categories
    × (income_gifts ≡ income_gifts)
    × (with_income_gifts.items ≡ with_gifts.items)
    × (with_income_gifts.receipts ≡ with_gifts.receipts)
changed_category-Fits_example =
    changed_category-Fits tree plain none (some true) gifts income_gifts with_gifts
      with_income_gifts used (inl refl) changed
