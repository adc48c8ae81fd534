-- ===== src/ScanWorker/Results.antt =====
-- Results of a scan in scan/ScanWorker.cpp: the check before the write, and items from the names
-- on the user's own lists.
use receipt_scanner.Prelude.{
  Bool, true, false, not, ◌&&◌, ◌||◌, Option, none, some, List, [], ◌∷◌, ◌++◌, map, any, keep, Text,
  codes, text_eq, to_lower, validation_error, scan_error, Result, ok, err, ◌>>=◌, ◌>>◌, throw_if, ℤ,
  pos, ltb_ℤ, ◌==ℤ◌, if◌then◌else◌,
}
use receipt_scanner.Json.{Doubles, Json}
use receipt_scanner.Kinds.{KindRules, find_kind, rules_for, scannable}
use receipt_scanner.JsonInput.{currency, date, add_unique}
use receipt_scanner.LedgerInput.{ItemInput}
use receipt_scanner.Database.{Category, Tag, Db}
use receipt_scanner.ScanProvider.{ScanContext, ScannedItem, ScanResult}

pub record Taxonomy : Type 0 where
  pub categories : List Category
  pub tags : List Tag

unfoldable pub lower : Text → Text
lower s = map to_lower s

unfoldable pub load_taxonomy : {Double Raw : Type 0} → Db Double Raw → ℤ → Taxonomy
load_taxonomy db user = record {
  categories = keep (λ c. c.user_id ==ℤ user) db.categories;
  tags = keep (λ t. t.user_id ==ℤ user) db.tags;
}

unfoldable pub names_on_side : Bool → List Category → List Text
names_on_side income [] = []
names_on_side income (c ∷ rest) =
    if (if income then c.is_income else not c.is_income)
    then c.name ∷ names_on_side income rest
    else names_on_side income rest

unfoldable pub make_context : Taxonomy → Option Text → ScanContext
unfolding names_on_side
make_context taxonomy known_kind = record {
  known_kind = known_kind;
  expense_categories = names_on_side false taxonomy.categories;
  income_categories = names_on_side true taxonomy.categories;
  tags = map (λ (t : Tag). t.name) taxonomy.tags;
}

-- `!rules || !rules->scannable()`
unfoldable pub is_unusable : Option KindRules → Bool
is_unusable none = true
is_unusable (some rules) = not (scannable rules)

abbrev pub is_negative : Option ℤ → Bool
is_negative none = false
is_negative (some n) = ltb_ℤ n (pos 0)

-- The handler around the two readers: a ValidationError is reported as a ScanError.
unfoldable pub rethrow : {A : Type 0} → Result A → Result A
rethrow (ok a) = ok a
rethrow (err (validation_error what)) = err (scan_error (codes "provider returned " ++ what))
rethrow (err e) = err e

unfoldable pub category_matches : Bool → Text → Category → Bool
unfolding lower
category_matches income_side name c =
    (if income_side then c.is_income else not c.is_income) && text_eq (lower c.name) (lower name)

unfoldable pub find_category : Bool → Text → List Category → Option ℤ
find_category income_side name [] = none
find_category income_side name (c ∷ rest) =
    if category_matches income_side name c then some c.id else find_category income_side name rest

-- The inner and the outer loop over the tag names.
unfoldable pub add_named_tags : Text → List ℤ → List Tag → List ℤ
unfolding lower add_unique
add_named_tags name ids [] = ids
add_named_tags name ids (t ∷ rest) =
    add_named_tags name (if text_eq (lower t.name) (lower name) then add_unique ids t.id else ids)
      rest

unfoldable pub find_tags : List Tag → List ℤ → List Text → List ℤ
unfolding add_named_tags
find_tags tags ids [] = ids
find_tags tags ids (name ∷ names) = find_tags tags (add_named_tags name ids tags) names

unfoldable pub resolve_category : Text → List Category → Option Text → Result (Option ℤ)
resolve_category kind categories none = ok none
resolve_category kind categories (some name) =
    rules_for kind >>= λ rules. ok (find_category rules.uses_income_categories name categories)

module _ (d : Doubles) where
  open d use {Double, is_gt_zero}

  abbrev pub is_not_positive : Option Double → Bool
  is_not_positive none = false
  is_not_positive (some q) = not (is_gt_zero q)

  unfoldable pub is_bad_item : ScannedItem Double → Bool
  is_bad_item item =
      ltb_ℤ item.amount_cents (pos 0)
      || is_negative item.unit_price_cents
      || is_not_positive item.quantity

module _ {d : Doubles} (j : Json d) where
  open d use {Double}

  unfoldable pub check_date : Option Text → Result (Unit {0})
  check_date none = ok tt
  check_date (some s) = date j (j.of_string s) (codes "purchase_date") >>= λ _. ok tt

  unfoldable pub validate_result :
      {Raw : Type 0} → ScanResult Double Raw → Bool → Result (ScanResult Double Raw)
  unfolding is_unusable rethrow check_date is_bad_item
  validate_result result verifying = do
    throw_if (not verifying && is_unusable (find_kind result.kind))
        (scan_error (codes "provider returned an unusable kind: " ++ result.kind))
    throw_if (ltb_ℤ result.total_cents (pos 0))
        (scan_error (codes "provider returned a negative total"))
    throw_if (any (is_bad_item d) result.items) (
        scan_error
          (codes "provider returned an item with a negative amount or non-positive quantity"))
    code ← rethrow (do
      read ← currency j (j.of_string result.currency) (codes "currency")
      check_date result.purchase_date
      ok read)
    ok (record result { currency = code })

unfoldable pub to_item_input :
    {Double : Type 0} → ScannedItem Double → Text → Taxonomy → Result (ItemInput Double)
unfolding resolve_category find_category find_tags
to_item_input scanned kind taxonomy = do
  category ← resolve_category kind taxonomy.categories scanned.category
  ok (record {
    name = scanned.name;
    quantity = scanned.quantity;
    unit_price_cents = scanned.unit_price_cents;
    amount_cents = scanned.amount_cents;
    category_id = category;
    informational = scanned.informational;
    tag_ids = find_tags taxonomy.tags [] scanned.tags;
  })
