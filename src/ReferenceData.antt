-- ===== src/ReferenceData.antt =====
-- receipts/ReferenceDataService.cpp: the categories and tags of a user. `sql_lower` is Postgres's
-- lower(), on which the unique indexes stand, and `fresh` the sequence's next id.
pub mod Sides
pub mod Methods
pub mod Removals
mod Tests
use receipt_scanner.Prelude.{
  Bool, true, false, not, ◌&&◌, ◌||◌, Option, none, some, List, [], ◌∷◌, ◌++◌, any, first, keep,
  map, update_where, Text, codes, text_eq, Exception, Result, ok, err, ◌>>=◌, ◌>>◌, throw_if,
  validation_error, not_found_error, conflict_error, ℤ, ◌==ℤ◌, if◌then◌else◌,
}
use receipt_scanner.Json.{Doubles, Json}
use receipt_scanner.JsonInput.{
  require_object, reject_unknown_keys, required_string, boolean, set_if_present,
}
use receipt_scanner.Kinds.{kinds}
use receipt_scanner.Database.{Receipt, Item, Category, Tag, Db}
use receipt_scanner.ItemService.{category_is, tag_is}

abbrev pub same_side : Bool → Bool → Bool
same_side true b = b
same_side false b = not b

-- `kind IN (...)`, with the list of incomeKindsSqlList.
unfoldable pub is_income_kind : Text → Bool
is_income_kind kind = any (λ rules. rules.uses_income_categories && text_eq rules.name kind) kinds

module _ {Double Raw : Type 0} where
  unfoldable pub clash_in : List (Receipt Double Raw) → List (Item Double) → ℤ → Bool → Bool
  unfolding is_income_kind
  clash_in receipts items id side =
      any
        (λ (i : Item Double).
          (elim i.category_id [ none ↦ false | some c ↦ c ==ℤ id ])
          && any
              (λ (r : Receipt Double Raw).
                r.id ==ℤ i.receipt_id && not (same_side (is_income_kind r.fields.kind) side))
              receipts)
        items

  -- Some item of the category stands on a receipt of the other side.
  unfoldable pub clashes : Db Double Raw → ℤ → Bool → Bool
  clashes db id side = clash_in db.receipts db.items id side

abbrev pub conflict : Text → Exception
conflict noun = conflict_error (codes "a " ++ noun ++ codes " with that name already exists")

abbrev pub given : {A : Type 0} → Option A → A → A
given none old = old
given (some new) old = new

module _ {d : Doubles} (j : Json d) where
  open j use {Value}

  abbrev pub some_of : {A : Type 0} → (Value → Text → Result A) → Value → Text → Result (Option A)
  some_of read value field = read value field >>= λ a. ok (some a)

  unfoldable pub required_name : Value → Result Text
  required_name body =
      set_if_present j body (codes "name") none (some_of (required_string j)) >>= λ name.
      elim name [ none ↦ err (validation_error (codes "name is required")) | some n ↦ ok n ]

module _ {d : Doubles} (j : Json d) (sql_lower : Text → Text) {Raw : Type 0} where
  open d use {Double}
  open j use {Value}

  -- uq_categories_user_name, for a row with this id.
  abbrev pub category_taken : Db Double Raw → ℤ → ℤ → Text → Bool → Bool
  category_taken db user id name is_income =
      any
        (λ (c : Category).
          c.user_id ==ℤ user
          && not (c.id ==ℤ id)
          && same_side c.is_income is_income
          && text_eq (sql_lower c.name) (sql_lower name))
        db.categories

  unfoldable pub create_category : ℤ → ℤ → Value → Db Double Raw → Result (Db Double Raw × Category)
  unfolding required_name
  create_category fresh user body db = do
    require_object j body
    reject_unknown_keys j body (codes "name" ∷ codes "is_income" ∷ [])
    name ← required_name j body
    is_income ← set_if_present j body (codes "is_income") false (boolean j)
    throw_if (category_taken db user fresh name is_income) (conflict (codes "category"))
    let c : Category = record { id = fresh; user_id = user; name = name; is_income = is_income }
    ok (record db { categories = db.categories ++ c ∷ [] }, c)

  -- The side may change only if no item of the category is in its way.
  unfoldable pub check_side : Db Double Raw → Category → Option Bool → Result (Unit {0})
  check_side db c none = ok tt
  check_side db c (some side) =
      throw_if (not (same_side side c.is_income) && clashes db c.id side) (
        validation_error (
          if side
          then codes "category is used by items on non-income receipts"
          else codes "category is used by items on income receipts"))

  unfoldable pub changed_category :
      Option Text → Option Bool → Category → Db Double Raw → Result (Db Double Raw × Category)
  unfolding check_side
  changed_category name is_income current db = do
    check_side db current is_income
    let c : Category = record current {
      name = given name current.name;
      is_income = given is_income current.is_income;
    }
    throw_if (category_taken db c.user_id c.id c.name c.is_income) (conflict (codes "category"))
    ok (
      record db {
        categories =
            update_where (λ (x : Category). x.id ==ℤ c.id) (λ (_ : Category). c) db.categories;
      },
      c,
    )

  unfoldable pub update_category : ℤ → ℤ → Value → Db Double Raw → Result (Db Double Raw × Category)
  unfolding changed_category
  update_category user id body db = do
    require_object j body
    reject_unknown_keys j body (codes "name" ∷ codes "is_income" ∷ [])
    name ← set_if_present j body (codes "name") none (some_of j (required_string j))
    is_income ← set_if_present j body (codes "is_income") none (some_of j (boolean j))
    elim (first (category_is id user) db.categories) [
      | none ↦ err (not_found_error (codes "category not found"))
      | some current ↦ changed_category name is_income current db
    ]

  abbrev pub tag_taken : Db Double Raw → ℤ → ℤ → Text → Bool
  tag_taken db user id name =
      any
        (λ (t : Tag).
          t.user_id ==ℤ user && not (t.id ==ℤ id) && text_eq (sql_lower t.name) (sql_lower name))
        db.tags

  unfoldable pub create_tag : ℤ → ℤ → Value → Db Double Raw → Result (Db Double Raw × Tag)
  unfolding required_name
  create_tag fresh user body db = do
    require_object j body
    reject_unknown_keys j body (codes "name" ∷ [])
    name ← required_name j body
    throw_if (tag_taken db user fresh name) (conflict (codes "tag"))
    let t : Tag = record { id = fresh; user_id = user; name = name }
    ok (record db { tags = db.tags ++ t ∷ [] }, t)

  -- A row that is not there changes nothing, so it cannot violate the index either.
  unfoldable pub update_tag : ℤ → ℤ → Value → Db Double Raw → Result (Db Double Raw × Tag)
  unfolding required_name
  update_tag user id body db = do
    require_object j body
    reject_unknown_keys j body (codes "name" ∷ [])
    name ← required_name j body
    elim (first (tag_is id user) db.tags) [
      | none ↦ err (not_found_error (codes "tag not found"))
      | some t ↦
          throw_if (tag_taken db user id name) (conflict (codes "tag"))
          >> (let t' : Tag = record t { name = name } in
              ok (record db { tags = update_where (tag_is id user) (λ (_ : Tag). t') db.tags }, t'))
    ]
