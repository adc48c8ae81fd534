-- ===== src/ReferenceData/Methods.antt =====
-- The payment methods and the lists of receipts/ReferenceDataService.cpp. `sql_lower` is Postgres's
-- lower() and `sql_less` the order of its collation, which the lists follow.
use receipt_scanner.Prelude.{
  Bool, false, not, ◌&&◌, ◌||◌, Option, none, some, List, [], ◌∷◌, ◌++◌, any, first, keep,
  update_where, Text, codes, text_eq, Result, ok, err, ◌>>=◌, ◌>>◌, throw_if, not_found_error, ℤ,
  ◌==ℤ◌, ltb_ℤ, if◌then◌else◌,
}
use receipt_scanner.Json.{Doubles, Json}
use receipt_scanner.JsonInput.{
  require_object, reject_unknown_keys, required_string, boolean, set_if_present,
}
use receipt_scanner.Database.{Category, Tag, PaymentMethod}
use receipt_scanner.ReferenceData.{conflict, given, some_of, required_name}
use receipt_scanner.Receipts.Edits.{method_is}

module _ (sql_lower : Text → Text) (sql_less : Text → Text → Bool) where
  -- `ORDER BY lower(name), id`
  unfoldable pub goes_first : Text → ℤ → Text → ℤ → Bool
  goes_first name id name' id' =
      sql_less (sql_lower name) (sql_lower name')
      || (not (sql_less (sql_lower name') (sql_lower name)) && ltb_ℤ id id')

  unfoldable pub insert_named : {A : Type 0} → (A → Text) → (A → ℤ) → A → List A → List A
  unfolding goes_first
  insert_named name id a [] = a ∷ []
  insert_named name id a (x ∷ xs) =
      let rest = insert_named name id a xs in
      if goes_first (name x) (id x) (name a) (id a) then x ∷ rest else a ∷ x ∷ xs

  unfoldable pub by_name : {A : Type 0} → (A → Text) → (A → ℤ) → List A → List A
  unfolding insert_named
  by_name name id [] = []
  by_name name id (a ∷ rest) = insert_named name id a (by_name name id rest)

  unfoldable pub list_categories : ℤ → List Category → List Category
  unfolding by_name
  list_categories user categories =
      by_name (λ (c : Category). c.name) (λ (c : Category). c.id)
        (keep (λ (c : Category). c.user_id ==ℤ user) categories)

  unfoldable pub list_tags : ℤ → List Tag → List Tag
  unfolding by_name
  list_tags user tags =
      by_name (λ (t : Tag). t.name) (λ (t : Tag). t.id)
        (keep (λ (t : Tag). t.user_id ==ℤ user) tags)

  unfoldable pub list_methods : ℤ → List PaymentMethod → List PaymentMethod
  unfolding by_name
  list_methods user methods =
      by_name (λ (m : PaymentMethod). m.name) (λ (m : PaymentMethod). m.id)
        (keep (λ (m : PaymentMethod). m.user_id ==ℤ user) methods)

module _ {d : Doubles} (j : Json d) (sql_lower : Text → Text) where
  open j use {Value}

  -- uq_payment_methods_user_name, for a row with this id.
  abbrev pub method_taken : List PaymentMethod → ℤ → ℤ → Text → Bool
  method_taken methods user id name =
      any
        (λ (m : PaymentMethod).
          m.user_id ==ℤ user && not (m.id ==ℤ id) && text_eq (sql_lower m.name) (sql_lower name))
        methods

  unfoldable pub create_method :
      ℤ → ℤ → Value → List PaymentMethod → Result (List PaymentMethod × PaymentMethod)
  create_method fresh user body methods = do
    require_object j body
    reject_unknown_keys j body (codes "name" ∷ codes "stored_value" ∷ [])
    name ← required_name j body
    stored ← set_if_present j body (codes "stored_value") false (boolean j)
    throw_if (method_taken methods user fresh name) (conflict (codes "payment method"))
    let m : PaymentMethod = record {
      id = fresh;
      user_id = user;
      name = name;
      stored_value = stored;
    }
    ok (methods ++ m ∷ [], m)

  -- One statement: absent values keep the row's.
  unfoldable pub changed_method :
      Option Text
      → Option Bool
      → PaymentMethod
      → List PaymentMethod
      → Result (List PaymentMethod × PaymentMethod)
  changed_method name stored current methods =
      let m : PaymentMethod = record current {
        name = given name current.name;
        stored_value = given stored current.stored_value;
      } in
      throw_if (method_taken methods m.user_id m.id m.name) (conflict (codes "payment method"))
      >> ok (update_where (method_is m.id m.user_id) (λ (_ : PaymentMethod). m) methods, m)

  unfoldable pub update_method :
      ℤ → ℤ → Value → List PaymentMethod → Result (List PaymentMethod × PaymentMethod)
  unfolding changed_method
  update_method user id body methods = do
    require_object j body
    reject_unknown_keys j body (codes "name" ∷ codes "stored_value" ∷ [])
    name ← set_if_present j body (codes "name") none (some_of j (required_string j))
    stored ← set_if_present j body (codes "stored_value") none (some_of j (boolean j))
    elim (first (method_is id user) methods) [
      | none ↦ err (not_found_error (codes "payment method not found"))
      | some current ↦ changed_method name stored current methods
    ]
