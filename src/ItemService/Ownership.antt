-- ===== src/ItemService/Ownership.antt =====
-- What ItemService writes: which rows it touches, and whose tags and categories it links.
use receipt_scanner.Prelude.{
  ◌≡◌, refl, sym, ◌∙◌, inl, inr, Bool, true, not, ◌&&◌, Option, none, some, List, [], ◌∷◌, ◌++◌,
  append_assoc, append-nil, map, any, keep, first, Text, ok, throw_if, >>=-eq-ok, >>-eq-ok, ℤ,
  ◌==ℤ◌, ==ℤ_iff, is_some, All, In, Bool-cases, Option-cases, arith,
}
use receipt_scanner.LedgerInput.{ItemInput, category_fits_kind}
use receipt_scanner.Database.{Category, Tag, Db}
use receipt_scanner.ItemService.{
  category_is, tag_is, new_row, insert_tags, replace_tags, insert, optional_category_fits,
}

-- A row of a table that a search by a test finds.
pub first-In :
    {A : Type 0} (p : A → Bool) (xs : List A) (a : A) → first p xs ≡ some a → In a xs × (p a ≡ true)
first-In p [] a h = ground arith
first-In p (x ∷ xs) a h = elim (Bool-cases (p x)) [
  | inl e ↦ ground arith
  | inr e ↦ let (i, k) = first-In p xs a (sym (rw (e) refl) ∙ h) in (inr i, k)
]

owned :
    (user tag : ℤ) (tags : List Tag)
    → is_some (first (tag_is tag user) tags) ≡ true
    → (t : Tag) × In t tags × (t.id ≡ tag) × (t.user_id ≡ user)
owned user tag [] h = ground arith
owned user tag (t ∷ tags) h = elim (Bool-cases (tag_is tag user t)) [
  | inl e ↦ (
    t,
    inl refl,
    ground (arith, ==ℤ_iff t.id tag, ==ℤ_iff t.user_id user),
    ground (arith, ==ℤ_iff t.id tag, ==ℤ_iff t.user_id user),
  )
  | inr e ↦
      let (u, i, same, mine) = owned user tag tags (sym (rw (e) refl) ∙ h) in (u, inr i, same, mine)
]

module _ {Double Raw : Type 0} where
  -- What linking tags leaves alone.
  abbrev pub SameButTags : Db Double Raw → Db Double Raw → Type 0
  SameButTags a b =
      (a.receipts ≡ b.receipts)
      × (a.items ≡ b.items)
      × (a.categories ≡ b.categories)
      × (a.tags ≡ b.tags)

  abbrev pub OwnedTag : ℤ → Db Double Raw → ℤ → Type 0
  OwnedTag user db tag = (t : Tag) × In t db.tags × (t.id ≡ tag) × (t.user_id ≡ user)

  insert_tags-Same :
      (user item : ℤ) (tags : List ℤ) (db db' : Db Double Raw)
      → insert_tags user item tags db ≡ ok db'
      → SameButTags db db'
  unfolding insert_tags
  insert_tags-Same user item [] db db' h = ground arith
  insert_tags-Same user item (tag ∷ rest) db db' h =
      let (_, h1) = >>-eq-ok (throw_if (not (is_some (first (tag_is tag user) db.tags))) _) _ h in
      let (_, h2) =
        >>-eq-ok (throw_if (any (λ p. p.0 ==ℤ item && p.1 ==ℤ tag) db.item_tags) _) _ h1 in
      insert_tags-Same user item rest _ db' h2

  insert_tags-Owned :
      (user item : ℤ) (tags : List ℤ) (db db' : Db Double Raw)
      → insert_tags user item tags db ≡ ok db'
      → All (OwnedTag user db) tags
  unfolding insert_tags
  insert_tags-Owned user item [] db db' h = tt
  insert_tags-Owned user item (tag ∷ rest) db db' h =
      let (e, h1) = >>-eq-ok (throw_if (not (is_some (first (tag_is tag user) db.tags))) _) _ h in
      let (_, h2) =
        >>-eq-ok (throw_if (any (λ p. p.0 ==ℤ item && p.1 ==ℤ tag) db.item_tags) _) _ h1 in
      (owned user tag db.tags ground arith, insert_tags-Owned user item rest _ db' h2)

  insert_tags-Links :
      (user item : ℤ) (tags : List ℤ) (db db' : Db Double Raw)
      → insert_tags user item tags db ≡ ok db'
      → db'.item_tags ≡ db.item_tags ++ map (λ tag. (item, tag)) tags
  unfolding insert_tags
  insert_tags-Links user item [] db db' h = ground (arith, append-nil db.item_tags)
  insert_tags-Links user item (tag ∷ rest) db db' h =
      let (_, h1) = >>-eq-ok (throw_if (not (is_some (first (tag_is tag user) db.tags))) _) _ h in
      let (_, h2) =
        >>-eq-ok (throw_if (any (λ p. p.0 ==ℤ item && p.1 ==ℤ tag) db.item_tags) _) _ h1 in
      insert_tags-Links user item rest _ db' h2 ∙ append_assoc db.item_tags ((item, tag) ∷ []) _

  -- The category of an item is one of the user's and on the side of the kind.
  abbrev pub FitsCategory : ℤ → Text → Db Double Raw → Option ℤ → Type 0
  FitsCategory user kind db none = Unit
  FitsCategory user kind db (some id) =
      (c : Category) × In c db.categories
      × (c.id ≡ id)
      × (c.user_id ≡ user)
      × (category_fits_kind c.is_income kind ≡ ok true)

  optional_category_fits-Fits :
      (user : ℤ) (kind : Text) (db : Db Double Raw) (category : Option ℤ)
      → optional_category_fits db user category kind ≡ ok tt
      → FitsCategory user kind db category
  unfolding optional_category_fits
  optional_category_fits-Fits user kind db none h = tt
  optional_category_fits-Fits user kind db (some id) h =
      elim (Option-cases (first (category_is id user) db.categories)) [
        | inl e ↦ ground arith
        | inr (c, e) ↦ (
          c,
          (first-In (category_is id user) db.categories c e).0,
          ground (arith, first-In (category_is id user) db.categories c e, ==ℤ_iff c.id id),
          ground (arith, first-In (category_is id user) db.categories c e, ==ℤ_iff c.user_id user),
          ground arith,
        )
      ]

  -- A stored item is the one row that is added. Its links are added to those of the other items,
  -- its tags and its category are its user's, and the category is on the side of the kind.
  pub insert_lem :
      (user receipt : ℤ) (kind : Text) (item : ItemInput Double) (db db' : Db Double Raw) (id : ℤ)
      → insert user receipt kind item db ≡ ok (db', id)
      → (id ≡ db.next_item_id)
        × (db'.receipts ≡ db.receipts)
        × (db'.items ≡ db.items ++ new_row id receipt item ∷ [])
        × (db'.item_tags
            ≡ keep (λ p. not (p.0 ==ℤ id)) db.item_tags ++ map (λ tag. (id, tag)) item.tag_ids)
        × All (OwnedTag user db) item.tag_ids
        × FitsCategory user kind db item.category_id
  unfolding insert replace_tags
  insert_lem user receipt kind item db db' id h =
      let (_, fits, h1) = >>=-eq-ok (optional_category_fits db user item.category_id kind) _ h in
      let (stored, e, h2) = >>=-eq-ok (replace_tags user db.next_item_id item.tag_ids _) _ h1 in
      let same = insert_tags-Same user db.next_item_id item.tag_ids _ stored e in
      let links = insert_tags-Links user db.next_item_id item.tag_ids _ stored e in
      let tags = insert_tags-Owned user db.next_item_id item.tag_ids _ stored e in
      let category = optional_category_fits-Fits user kind db item.category_id fits in
      let number : db.next_item_id ≡ id = ground arith in
      let written : stored ≡ db' = ground arith in
      (
        sym number,
        rw (sym written) (sym same.0),
        rw (sym written, sym number) (sym same.1),
        rw (sym written, sym number) links,
        tags,
        category,
      )

  -- Storing an item leaves the categories and the tags of the taxonomy alone.
  pub insert_keeps :
      (user receipt : ℤ) (kind : Text) (item : ItemInput Double) (db db' : Db Double Raw) (id : ℤ)
      → insert user receipt kind item db ≡ ok (db', id)
      → (db'.categories ≡ db.categories) × (db'.tags ≡ db.tags)
  unfolding insert replace_tags
  insert_keeps user receipt kind item db db' id h =
      let (_, _, h1) = >>=-eq-ok (optional_category_fits db user item.category_id kind) _ h in
      let (stored, e, h2) = >>=-eq-ok (replace_tags user db.next_item_id item.tag_ids _) _ h1 in
      let same = insert_tags-Same user db.next_item_id item.tag_ids _ stored e in ground arith
