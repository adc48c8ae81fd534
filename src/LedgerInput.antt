-- ===== src/LedgerInput.antt =====
-- receipts/LedgerInput.h and LedgerInput.cpp: request bodies to validated structs for manual
-- entry, receipt PATCH and item CRUD, with the kind rules that need no database.
pub mod Validity
pub mod Fields
pub mod Entry
pub mod Patch
pub mod Confirm
mod Tests
use receipt_scanner.Prelude.{
  ℕ, Bool, true, false, not, ◌&&◌, Option, none, some, List, [], ◌∷◌, ◌++◌, Text, codes, text_eq,
  Result, ok, err, ◌>>=◌, ◌>>◌, throw_if, Exception, validation_error, ℤ, pos, is_some,
  if◌then◌else◌,
}
use receipt_scanner.Json.{Doubles, Json, contains}
use receipt_scanner.Kinds.{
  KindRules, find_kind, rules_for, kind_names, is_known_direction, default_kind,
}
use receipt_scanner.JsonInput.{
  require_object, reject_unknown_keys, required_string, nullable_string, cents, nullable_cents,
  nullable_id, boolean, nullable_date, currency, nullable_positive_number, id_list, set_if_present,
}

pub record EditableReceipt (Double : Type 0) : Type 0 where
  pub kind : Text
  pub direction : Text
  pub total_cents : ℤ
  pub currency : Text
  pub merchant : Option Text
  pub store_name_raw : Option Text
  pub purchase_date : Option Text
  pub payment_method_id : Option ℤ
  pub tax_deductible : Bool
  pub note : Option Text
  pub offsets_receipt_id : Option ℤ
  pub fx_rate_to_aud : Option Double

pub record ItemInput (Double : Type 0) : Type 0 where
  pub name : Option Text
  pub quantity : Option Double
  pub unit_price_cents : Option ℤ
  pub amount_cents : ℤ
  pub category_id : Option ℤ
  pub informational : Bool
  pub tag_ids : List ℤ

pub record ManualEntryInput (Double : Type 0) : Type 0 where
  pub receipt : EditableReceipt Double
  pub category_id : Option ℤ
  pub items : List (ItemInput Double)

-- The default member initializers. The default direction is the default kind's canonical one.
unfoldable pub new_receipt : {Double : Type 0} → EditableReceipt Double
new_receipt = record {
  kind = default_kind;
  direction = codes "outflow";
  total_cents = pos 0;
  currency = codes "AUD";
  merchant = none;
  store_name_raw = none;
  purchase_date = none;
  payment_method_id = none;
  tax_deductible = false;
  note = none;
  offsets_receipt_id = none;
  fx_rate_to_aud = none;
}

unfoldable pub new_item : {Double : Type 0} → ItemInput Double
new_item = record {
  name = none;
  quantity = none;
  unit_price_cents = none;
  amount_cents = pos 0;
  category_id = none;
  informational = false;
  tag_ids = [];
}

unfoldable pub direction_is : Option Text → Text → Bool
direction_is none direction = true
direction_is (some canonical) direction = text_eq canonical direction

unfoldable pub canonical_text : Option Text → Text
canonical_text none = []
canonical_text (some canonical) = canonical

unfoldable pub validate_receipt : {Double : Type 0} → EditableReceipt Double → Result (Unit {0})
validate_receipt r = do
  rules ← rules_for r.kind
  throw_if (not (direction_is rules.canonical_direction r.direction)) (
      validation_error (
        codes "direction must be "
        ++ canonical_text rules.canonical_direction
        ++ codes " when kind is "
        ++ r.kind))
  throw_if (r.tax_deductible && not rules.allows_tax_deductible)
      (validation_error (codes "tax_deductible is not allowed when kind is " ++ r.kind))
  throw_if (is_some r.offsets_receipt_id && not rules.can_offset)
      (validation_error (codes "offsets_receipt_id is not allowed when kind is " ++ r.kind))
  throw_if (is_some r.fx_rate_to_aud && text_eq r.currency (codes "AUD"))
      (validation_error (codes "fx_rate_to_aud only applies to non-AUD currencies"))

unfoldable pub category_fits_kind : Bool → Text → Result Bool
category_fits_kind category_is_income kind = do
  rules ← rules_for kind
  ok (if category_is_income then rules.uses_income_categories else not rules.uses_income_categories)

unfoldable pub manual_keys : List Text
manual_keys =
    codes "kind"
    ∷ codes "direction"
    ∷ codes "total_cents"
    ∷ codes "currency"
    ∷ codes "merchant"
    ∷ codes "purchase_date"
    ∷ codes "payment_method_id"
    ∷ codes "tax_deductible"
    ∷ codes "note"
    ∷ codes "offsets_receipt_id"
    ∷ codes "fx_rate_to_aud"
    ∷ codes "category_id"
    ∷ codes "items"
    ∷ []

unfoldable pub patch_keys : List Text
patch_keys =
    codes "kind"
    ∷ codes "direction"
    ∷ codes "total_cents"
    ∷ codes "currency"
    ∷ codes "merchant"
    ∷ codes "store_name_raw"
    ∷ codes "purchase_date"
    ∷ codes "payment_method_id"
    ∷ codes "tax_deductible"
    ∷ codes "note"
    ∷ codes "offsets_receipt_id"
    ∷ codes "fx_rate_to_aud"
    ∷ codes "reviewed"
    ∷ []

unfoldable pub item_keys : List Text
item_keys =
    codes "name"
    ∷ codes "quantity"
    ∷ codes "unit_price_cents"
    ∷ codes "amount_cents"
    ∷ codes "category_id"
    ∷ codes "informational"
    ∷ codes "tag_ids"
    ∷ []

module _ {d : Doubles} (j : Json d) where
  open d use {Double}
  open j use {Value, is_array, elements, find}

  unfoldable pub parse_kind : Value → Result Text
  parse_kind value = do
    kind ← required_string j value (codes "kind")
    throw_if (not (is_some (find_kind kind)))
        (validation_error (codes "kind must be one of " ++ kind_names))
    ok kind

  unfoldable pub parse_direction : Value → Result Text
  parse_direction value = do
    direction ← required_string j value (codes "direction")
    throw_if (not (is_known_direction direction))
        (validation_error (codes "direction must be inflow or outflow"))
    ok direction

  unfoldable pub apply_common_receipt_fields :
      EditableReceipt Double → Value → Result (EditableReceipt Double)
  apply_common_receipt_fields r body = do
    total ← set_if_present j body (codes "total_cents") r.total_cents (cents j)
    cur ← set_if_present j body (codes "currency") r.currency (currency j)
    shop ← set_if_present j body (codes "merchant") r.merchant (nullable_string j)
    day ← set_if_present j body (codes "purchase_date") r.purchase_date (nullable_date j)
    method ← set_if_present j body (codes "payment_method_id") r.payment_method_id (nullable_id j)
    deductible ← set_if_present j body (codes "tax_deductible") r.tax_deductible (boolean j)
    text ← set_if_present j body (codes "note") r.note (nullable_string j)
    target ← set_if_present j body (codes "offsets_receipt_id") r.offsets_receipt_id (nullable_id j)
    rate ←
        set_if_present j body (codes "fx_rate_to_aud") r.fx_rate_to_aud (nullable_positive_number j)
    ok (record r {
      total_cents = total;
      currency = cur;
      merchant = shop;
      purchase_date = day;
      payment_method_id = method;
      tax_deductible = deductible;
      note = text;
      offsets_receipt_id = target;
      fx_rate_to_aud = rate;
    })

  unfoldable pub apply_item_fields : ItemInput Double → Value → Result (ItemInput Double)
  apply_item_fields item body = do
    title ← set_if_present j body (codes "name") item.name (nullable_string j)
    amount_of ← set_if_present j body (codes "quantity") item.quantity (nullable_positive_number j)
    unit ← set_if_present j body (codes "unit_price_cents") item.unit_price_cents (nullable_cents j)
    amount ← set_if_present j body (codes "amount_cents") item.amount_cents (cents j)
    category ← set_if_present j body (codes "category_id") item.category_id (nullable_id j)
    info ← set_if_present j body (codes "informational") item.informational (boolean j)
    tags ← set_if_present j body (codes "tag_ids") item.tag_ids (id_list j)
    ok (record {
      name = title;
      quantity = amount_of;
      unit_price_cents = unit;
      amount_cents = amount;
      category_id = category;
      informational = info;
      tag_ids = tags;
    })

  unfoldable pub reject_unknown_item_keys : Value → Result (Unit {0})
  reject_unknown_item_keys body = reject_unknown_keys j body item_keys

  unfoldable pub parse_new_item : Value → Result (ItemInput Double)
  unfolding reject_unknown_item_keys
  parse_new_item body = do
    require_object j body
    reject_unknown_item_keys body
    throw_if (not (contains j body (codes "amount_cents")))
        (validation_error (codes "amount_cents is required"))
    apply_item_fields new_item body

  -- The item, and `tagsGiven`.
  unfoldable pub apply_item_patch : ItemInput Double → Value → Result (ItemInput Double × Bool)
  unfolding reject_unknown_item_keys
  apply_item_patch item body = do
    require_object j body
    reject_unknown_item_keys body
    patched ← apply_item_fields item body
    ok (patched, contains j body (codes "tag_ids"))

  unfoldable pub parse_items : List Value → Result (List (ItemInput Double))
  parse_items [] = ok []
  parse_items (item ∷ rest) = do
    first ← parse_new_item item
    others ← parse_items rest
    ok (first ∷ others)

  -- The kind's direction, where it has one.
  unfoldable pub derived_direction : Text → Option Text → Result Text
  derived_direction kind none =
      err (validation_error (codes "direction is required when kind is " ++ kind))
  derived_direction kind (some canonical) = ok canonical

  unfoldable pub entry_kind : Value → Text → Result Text
  unfolding parse_kind
  entry_kind body kind = elim (find body (codes "kind")) [ none ↦ ok kind | some v ↦ parse_kind v ]

  unfoldable pub entry_direction : Value → Text → Result Text
  unfolding parse_direction derived_direction
  entry_direction body kind = elim (find body (codes "direction")) [
    | none ↦ rules_for kind >>= λ rules. derived_direction kind rules.canonical_direction
    | some v ↦ parse_direction v
  ]

  unfoldable pub entry_items : Value → Option ℤ → Result (List (ItemInput Double))
  unfolding parse_items
  entry_items body category = elim (find body (codes "items")) [
    | none ↦ ok []
    | some v ↦
        throw_if (not (is_array v)) (validation_error (codes "items must be an array"))
        >> (throw_if (is_some category) (
              validation_error
                (codes "send either category_id (one implicit item) or items, not both"))
            >> parse_items (elements v))
  ]

  unfoldable pub parse_manual_entry : Value → Result (ManualEntryInput Double)
  parse_manual_entry body = do
    require_object j body
    reject_unknown_keys j body manual_keys
    throw_if (not (contains j body (codes "total_cents")))
        (validation_error (codes "total_cents is required"))
    kind ← entry_kind body default_kind
    r ← apply_common_receipt_fields (record new_receipt { kind = kind }) body
    direction ← entry_direction body r.kind
    category ← set_if_present j body (codes "category_id") none (nullable_id j)
    items ← entry_items body category
    validate_receipt (record r { direction = direction })
    ok (record {
      receipt = record r { direction = direction };
      category_id = category;
      items = items;
    })

  -- A changed kind re-derives an absent direction, where the kind has a fixed one.
  unfoldable pub patch_kind : EditableReceipt Double → Value → Result (EditableReceipt Double)
  unfolding parse_kind
  patch_kind r body = elim (find body (codes "kind")) [
    | none ↦ ok r
    | some v ↦ parse_kind v >>= λ kind.
        if contains j body (codes "direction")
        then ok (record r { kind = kind })
        else (rules_for kind >>= λ rules. ok (elim rules.canonical_direction [
          | none ↦ record r { kind = kind }
          | some canonical ↦ record r { kind = kind; direction = canonical }
        ]))
  ]

  unfoldable pub patch_direction : EditableReceipt Double → Value → Result (EditableReceipt Double)
  unfolding parse_direction
  patch_direction r body = elim (find body (codes "direction")) [
    | none ↦ ok r
    | some v ↦ parse_direction v >>= λ direction. ok (record r { direction = direction })
  ]

  -- `markReviewed`
  unfoldable pub patch_reviewed : Value → Result Bool
  patch_reviewed body = elim (find body (codes "reviewed")) [
    | none ↦ ok false
    | some v ↦ boolean j v (codes "reviewed") >>= λ reviewed.
        throw_if (not reviewed) (validation_error (codes "reviewed only accepts true")) >> ok true
  ]

  unfoldable pub apply_receipt_patch :
      EditableReceipt Double → Value → Result (EditableReceipt Double × Bool)
  apply_receipt_patch r body = do
    require_object j body
    reject_unknown_keys j body patch_keys
    with_kind ← patch_kind r body
    with_direction ← patch_direction with_kind body
    store ←
        set_if_present j body (codes "store_name_raw") with_direction.store_name_raw
          (nullable_string j)
    merged ← apply_common_receipt_fields (record with_direction { store_name_raw = store }) body
    reviewed ← patch_reviewed body
    validate_receipt merged
    ok (merged, reviewed)

module _ (d : Doubles) where
  open d use {Double, mul, of_int, llround}

  unfoldable pub aud_equivalent_cents : ℤ → Option Double → Option ℤ
  aud_equivalent_cents total none = none
  aud_equivalent_cents total (some rate) = some (llround (mul (of_int total) rate))
