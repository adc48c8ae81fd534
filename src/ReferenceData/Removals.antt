-- ===== src/ReferenceData/Removals.antt =====
-- The removals of receipts/ReferenceDataService.cpp, with what the foreign keys of the tables do.
use receipt_scanner.Prelude.{
  ◌≡◌, inl, inr, Bool, true, false, not, Option, none, some, List, [], ◌∷◌, ◌++◌, any, keep, All,
  Text, codes, Result, ok, ◌>>=◌, ◌>>◌, >>=-eq-ok, >>-eq-ok, throw_if, not_found_error, ℤ, ◌==ℤ◌,
  ==ℤ_iff, Bool-cases, if◌then◌else◌, arith,
}
use mathlib.Core.Path.{subst}
use receipt_scanner.Database.{Receipt, Item, Category, Db, Ledger}
use receipt_scanner.ItemService.{category_is, tag_is}
use receipt_scanner.Receipts.Edits.{method_is}

-- `removeOwned` on one table: the rows that stay.
unfoldable pub remove_owned : {A : Type 0} → Text → (A → Bool) → List A → Result (List A)
remove_owned noun mine rows =
    throw_if (not (any mine rows)) (not_found_error (noun ++ codes " not found"))
    >> ok (keep (λ a. not (mine a)) rows)

-- ON DELETE SET NULL
abbrev pub cleared : ℤ → Option ℤ → Option ℤ
cleared id none = none
cleared id (some target) = if target ==ℤ id then none else some target

unfoldable pub uncategorized : {Double : Type 0} → ℤ → List (Item Double) → List (Item Double)
uncategorized id [] = []
uncategorized id (i ∷ items) =
    record i { category_id = cleared id i.category_id } ∷ uncategorized id items

module _ {Double Raw : Type 0} where
  unfoldable pub without_method : ℤ → List (Receipt Double Raw) → List (Receipt Double Raw)
  without_method id [] = []
  without_method id (r ∷ rows) =
      record r {
        fields = record r.fields { payment_method_id = cleared id r.fields.payment_method_id };
      }
      ∷ without_method id rows

  unfoldable pub remove_category : ℤ → ℤ → Db Double Raw → Result (Db Double Raw)
  unfolding remove_owned uncategorized
  remove_category user id db =
      remove_owned (codes "category") (category_is id user) db.categories >>= λ categories.
      ok (record db { categories = categories; items = uncategorized id db.items })

  -- ON DELETE CASCADE on item_tags.
  unfoldable pub remove_tag : ℤ → ℤ → Db Double Raw → Result (Db Double Raw)
  unfolding remove_owned
  remove_tag user id db = remove_owned (codes "tag") (tag_is id user) db.tags >>= λ tags.
      ok (record db { tags = tags; item_tags = keep (λ p. not (p.1 ==ℤ id)) db.item_tags })

  unfoldable pub remove_method : ℤ → ℤ → Ledger Double Raw → Result (Ledger Double Raw)
  unfolding remove_owned without_method
  remove_method user id l =
      remove_owned (codes "payment method") (method_is id user) l.payment_methods >>= λ methods.
      ok (record l {
        payment_methods = methods;
        db = record l.db { receipts = without_method id l.db.receipts };
      })

-- The category of an item is a row of the table.
abbrev pub HasCategory : {Double : Type 0} → List Category → Item Double → Type 0
HasCategory categories i = elim i.category_id [
  | none ↦ Unit
  | some c ↦ any (λ (x : Category). x.id ==ℤ c) categories ≡ true
]

still_there :
    (user id c : ℤ) (categories : List Category)
    → (c ==ℤ id) ≡ false
    → any (λ (x : Category). x.id ==ℤ c) categories ≡ true
    → any (λ (x : Category). x.id ==ℤ c) (keep (λ x. not (category_is id user x)) categories) ≡ true
still_there user id c [] other h = h
still_there user id c (x ∷ rest) other h =
    ground (arith, still_there user id c rest other, ==ℤ_iff x.id c, ==ℤ_iff x.id id, ==ℤ_iff c id)

cleared-HasCategory :
    {Double : Type 0} (user id : ℤ) (categories : List Category) (category : Option ℤ)
    (i : Item Double)
    → HasCategory categories (record i { category_id = category })
    → HasCategory
        (keep (λ x. not (category_is id user x)) categories)
        (record i { category_id = cleared id category })
cleared-HasCategory user id categories none i h = tt
cleared-HasCategory user id categories (some c) i h = elim (Bool-cases (c ==ℤ id)) [
  | inl e ↦ rw (e) tt
  | inr e ↦ rw (e) (still_there user id c categories e h)
]

uncategorized-HasCategory :
    {Double : Type 0} (user id : ℤ) (categories : List Category) (items : List (Item Double))
    → All (HasCategory categories) items
    → All
        (HasCategory (keep (λ x. not (category_is id user x)) categories))
        (uncategorized id items)
unfolding uncategorized
uncategorized-HasCategory user id categories [] h = tt
uncategorized-HasCategory user id categories (i ∷ items) (one, h) = (
  cleared-HasCategory user id categories i.category_id i one,
  uncategorized-HasCategory user id categories items h,
)

-- The removal of a category leaves no item in a category that is gone.
remove_category-References :
    {Double Raw : Type 0} (user id : ℤ) (db db' : Db Double Raw)
    → All (HasCategory db.categories) db.items
    → remove_category user id db ≡ ok db'
    → All (HasCategory db'.categories) db'.items
unfolding remove_category remove_owned
remove_category-References {Double = Double} {Raw = Raw} user id db db' h e =
    let (_, e0, e1) =
      >>=-eq-ok (remove_owned (codes "category") (category_is id user) db.categories) _ e in
    let (_, e2) = >>-eq-ok (throw_if (not (any (category_is id user) db.categories)) _) _ e0 in
    let written : record db {
      categories = keep (λ x. not (category_is id user x)) db.categories;
      items = uncategorized id db.items;
    }
        ≡ db' =
      ground arith in
    subst (λ (x : Db Double Raw). All (HasCategory x.categories) x.items) written
      (uncategorized-HasCategory user id db.categories db.items h)
