-- ===== src/ItemService.antt =====
-- receipts/ItemService.cpp: the items of a receipt and their tags. Each function takes the
-- database and gives the new one; an exception rolls the transaction back, so it carries none.
pub mod Ownership
use receipt_scanner.Prelude.{
  ℕ, ◌+◌, Bool, true, false, not, ◌&&◌, Option, none, some, List, [], ◌∷◌, ◌++◌, map, first, keep,
  any, update_where, Text, codes, Result, ok, err, ◌>>=◌, ◌>>◌, throw_if, validation_error,
  not_found_error, receipt_not_found_error, runtime_error, ℤ, pos, ◌+ℤ◌, ◌==ℤ◌, ltb_ℤ, is_some,
  if◌then◌else◌,
}
use receipt_scanner.Json.{Doubles, Json, contains}
use receipt_scanner.Kinds.{rules_for}
use receipt_scanner.LedgerInput.{
  ItemInput, EditableReceipt, category_fits_kind, parse_new_item, apply_item_patch,
}
use receipt_scanner.Database.{Receipt, Item, Category, Tag, Db}

-- An item as the API shows it: its row, and its tag ids.
pub record TaggedItem (Double : Type 0) : Type 0 where
  pub row : Item Double
  pub tag_ids : List ℤ

abbrev pub category_is : ℤ → ℤ → Category → Bool
category_is id user c = c.id ==ℤ id && c.user_id ==ℤ user

abbrev pub tag_is : ℤ → ℤ → Tag → Bool
tag_is id user t = t.id ==ℤ id && t.user_id ==ℤ user

-- `ORDER BY tag_id`
unfoldable pub insert_id : ℤ → List ℤ → List ℤ
insert_id n [] = n ∷ []
insert_id n (x ∷ xs) = if ltb_ℤ x n then x ∷ insert_id n xs else n ∷ x ∷ xs

unfoldable pub ascending : List ℤ → List ℤ
unfolding insert_id
ascending [] = []
ascending (n ∷ ids) = insert_id n (ascending ids)

module _ {Double : Type 0} where
  abbrev pub item_is : ℤ → ℤ → Item Double → Bool
  item_is id receipt i = i.id ==ℤ id && i.receipt_id ==ℤ receipt

  abbrev pub new_row : ℤ → ℤ → ItemInput Double → Item Double
  new_row id receipt item = record {
    id = id;
    receipt_id = receipt;
    name = item.name;
    quantity = item.quantity;
    unit_price_cents = item.unit_price_cents;
    amount_cents = item.amount_cents;
    category_id = item.category_id;
    informational = item.informational;
  }

  unfoldable pub item_to_input : Item Double → List ℤ → ItemInput Double
  item_to_input i tag_ids = record {
    name = i.name;
    quantity = i.quantity;
    unit_price_cents = i.unit_price_cents;
    amount_cents = i.amount_cents;
    category_id = i.category_id;
    informational = i.informational;
    tag_ids = tag_ids;
  }

  unfoldable pub found_item : Option (Item Double) → Result (Item Double)
  found_item none = err (not_found_error (codes "item not found"))
  found_item (some i) = ok i

module _ {Double Raw : Type 0} where
  abbrev pub receipt_is : ℤ → ℤ → Receipt Double Raw → Bool
  receipt_is id user r = r.id ==ℤ id && r.user_id ==ℤ user

  unfoldable pub owned_receipt_kind : Db Double Raw → ℤ → ℤ → Result Text
  owned_receipt_kind db user receipt = elim (first (receipt_is receipt user) db.receipts) [
    | none ↦ err receipt_not_found_error
    | some r ↦ ok r.fields.kind
  ]

  unfoldable pub require_category_fits_kind : Db Double Raw → ℤ → ℤ → Text → Result (Unit {0})
  require_category_fits_kind db user category kind =
      elim (first (category_is category user) db.categories) [
        | none ↦ err (validation_error (codes "category_id does not exist"))
        | some c ↦ category_fits_kind c.is_income kind >>= λ fits. rules_for kind >>= λ rules.
            throw_if (not fits) (
              validation_error (
                codes "items on a "
                ++ kind
                ++ codes " need "
                ++ (if rules.uses_income_categories then codes "an income" else codes "an expense")
                ++ codes " category"))
      ]

  unfoldable pub optional_category_fits : Db Double Raw → ℤ → Option ℤ → Text → Result (Unit {0})
  unfolding require_category_fits_kind
  optional_category_fits db user none kind = ok tt
  optional_category_fits db user (some category) kind =
      require_category_fits_kind db user category kind

  -- The loop of `replaceTags`. A second row for the same pair violates the primary key.
  unfoldable pub insert_tags : ℤ → ℤ → List ℤ → Db Double Raw → Result (Db Double Raw)
  insert_tags user item [] db = ok db
  insert_tags user item (tag ∷ rest) db =
      throw_if (not (is_some (first (tag_is tag user) db.tags)))
        (validation_error (codes "tag_ids contains a tag that does not exist"))
      >> (throw_if (any (λ p. p.0 ==ℤ item && p.1 ==ℤ tag) db.item_tags)
            (runtime_error (codes "duplicate key value violates unique constraint"))
          >> insert_tags user item rest
              (record db { item_tags = db.item_tags ++ (item, tag) ∷ [] }))

  unfoldable pub replace_tags : ℤ → ℤ → List ℤ → Db Double Raw → Result (Db Double Raw)
  unfolding insert_tags
  replace_tags user item tag_ids db =
      insert_tags user item tag_ids
        (record db { item_tags = keep (λ p. not (p.0 ==ℤ item)) db.item_tags })

  unfoldable pub insert :
      ℤ → ℤ → Text → ItemInput Double → Db Double Raw → Result (Db Double Raw × ℤ)
  insert user receipt kind item db = do
    optional_category_fits db user item.category_id kind
    db' ← replace_tags user db.next_item_id item.tag_ids (record db {
      items = db.items ++ new_row db.next_item_id receipt item ∷ [];
      next_item_id = db.next_item_id +ℤ pos 1;
    })
    ok (db', db.next_item_id)

  unfoldable pub tag_ids_for : Db Double Raw → ℤ → List ℤ
  unfolding ascending
  tag_ids_for db item = ascending (map (λ (p : ℤ × ℤ). p.1) (keep (λ p. p.0 ==ℤ item) db.item_tags))

  unfoldable pub list : Db Double Raw → ℤ → ℤ → Result (List (TaggedItem Double))
  unfolding owned_receipt_kind tag_ids_for
  list db user receipt = do
    _ ← owned_receipt_kind db user receipt
    ok (
        map (λ (i : Item Double). record { row = i; tag_ids = tag_ids_for db i.id })
          (keep (λ i. i.receipt_id ==ℤ receipt) db.items))

  unfoldable pub remove : ℤ → ℤ → ℤ → Db Double Raw → Result (Db Double Raw)
  remove user receipt item db = do
    _ ← owned_receipt_kind db user receipt
    throw_if (not (any (item_is item receipt) db.items)) (not_found_error (codes "item not found"))
    ok (record db {
      items = keep (λ i. not (item_is item receipt i)) db.items;
      item_tags = keep (λ p. not (p.0 ==ℤ item)) db.item_tags;
    })

  unfoldable pub fetch_item : Db Double Raw → ℤ → Option (TaggedItem Double)
  unfolding tag_ids_for
  fetch_item db item = elim (first (λ (i : Item Double). i.id ==ℤ item) db.items) [
    | none ↦ none
    | some i ↦ some (record { row = i; tag_ids = tag_ids_for db item })
  ]

module _ {d : Doubles} (j : Json d) {Raw : Type 0} where
  open d use {Double}
  open j use {Value}

  unfoldable pub create :
      ℤ → ℤ → Value → Db Double Raw → Result (Db Double Raw × Option (TaggedItem Double))
  create user receipt body db = do
    input ← parse_new_item j body
    kind ← owned_receipt_kind db user receipt
    stored ← insert user receipt kind input db
    ok (stored.0, fetch_item stored.0 stored.1)

  unfoldable pub update :
      ℤ → ℤ → ℤ → Value → Db Double Raw → Result (Db Double Raw × Option (TaggedItem Double))
  unfolding found_item item_to_input
  update user receipt item body db = do
    kind ← owned_receipt_kind db user receipt
    current ← found_item (first (item_is item receipt) db.items)
    patched ← apply_item_patch j (item_to_input current []) body
    let input = patched.0
    (if contains j body (codes "category_id")
        then optional_category_fits db user input.category_id kind
        else ok tt)
    let db' = record db {
      items =
          update_where (λ (i : Item Double). i.id ==ℤ item)
            (λ (i : Item Double). new_row i.id i.receipt_id input) db.items;
    }
    stored ← (if patched.1 then replace_tags user item input.tag_ids db' else ok db')
    ok (stored, fetch_item stored item)
