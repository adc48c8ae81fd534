-- ===== src/ReferenceData/Sides.antt =====
-- A category never ends up on the wrong side of its items.
use receipt_scanner.Prelude.{
  ◌≡◌, ◌≢◌, refl, sym, ◌∙◌, Bool, true, false, Option, none, some, List, [], ◌∷◌, In, All, All-In,
  Pairwise, update_where, Text, ok, >>=-eq-ok, >>-eq-ok, throw_if, ℤ, ◌==ℤ◌, ==ℤ_iff, Bool-cases,
  inl, inr, arith,
}
use receipt_scanner.Json.{Doubles, Json}
use receipt_scanner.Database.{Category, Db}
use receipt_scanner.ReferenceData.{clashes, check_side, changed_category, category_taken, given}

clashes-same :
    {Double Raw : Type 0} (a b : Db Double Raw) (i k : ℤ) (s t : Bool)
    → a.items ≡ b.items
    → a.receipts ≡ b.receipts
    → i ≡ k
    → s ≡ t
    → clashes a i s ≡ clashes b k t
unfolding clashes
clashes-same a b i k s t items receipts same_id same = rw (items, receipts, same_id, same) refl

-- The row with the category's id is the changed one, and the others are as they were.
abbrev pub Changes : Category → Category → Category → Type 0
Changes c a b = (a.id ≡ c.id → b ≡ c) × (a.id ≢ c.id → b ≡ a)

changes :
    (c : Category) (rows : List Category)
    → Pairwise
        (Changes c)
        rows
        (update_where (λ (x : Category). x.id ==ℤ c.id) (λ (_ : Category). c) rows)
changes c [] = tt
changes c (x ∷ rows) = (
  (elim (Bool-cases (x.id ==ℤ c.id)) [
    | inl e ↦ rw (e) ((λ _. refl), (λ other. absurd (other ((==ℤ_iff x.id c.id).0 e))))
    | inr e ↦ rw (e) ((λ same. absurd (cc (e, (==ℤ_iff x.id c.id).1 same))), (λ _. refl))
  ]),
  changes c rows,
)

module _ {d : Doubles} (j : Json d) (sql_lower : Text → Text) {Raw : Type 0} where
  open d use {Double}

  checked_side :
      (db : Db Double Raw) (c : Category) (side : Option Bool)
      → clashes db c.id c.is_income ≡ false
      → check_side j sql_lower db c side ≡ ok tt
      → clashes db c.id (given side c.is_income) ≡ false
  unfolding check_side
  checked_side db c none fits h = fits
  checked_side db c (some true) fits h = ground arith
  checked_side db c (some false) fits h = ground arith

  -- No item of the category stands on a receipt of the other side.
  abbrev pub Fits : Db Double Raw → Category → Type 0
  Fits db c = clashes db c.id c.is_income ≡ false

  stored_fit :
      (db db' : Db Double Raw) (c : Category) (rows : List Category)
      → ((x : Category) → Fits db x → Fits db' x)
      → Fits db' c
      → All (Fits db) rows
      → All (Fits db') (update_where (λ (x : Category). x.id ==ℤ c.id) (λ (_ : Category). c) rows)
  stored_fit db db' c [] same fit h = tt
  stored_fit db db' c (x ∷ rows) same fit (old, h) = elim (Bool-cases (x.id ==ℤ c.id)) [
    | inl e ↦ rw (e) (fit, stored_fit db db' c rows same fit h)
    | inr e ↦ rw (e) (same x old, stored_fit db db' c rows same fit h)
  ]

  -- A change of a category that succeeds keeps the items of every stored category fitting: if no
  -- item stood on a receipt of the other side than its category before, none does after, whether or
  -- not the side changed. It gives the category the name and the side that were sent, keeps its
  -- owner, and changes no other category, no item and no receipt.
  pub changed_category-Fits :
      (name : Option Text) (side : Option Bool) (current c : Category) (db db' : Db Double Raw)
      → All (Fits db) db.categories
      → In current db.categories
      → changed_category j sql_lower name side current db ≡ ok (db', c)
      → All (Fits db') db'.categories
        × Pairwise (Changes c) db.categories db'.categories
        × (c ≡ record current {
          name = given name current.name;
          is_income = given side current.is_income;
        })
        × (db'.items ≡ db.items)
        × (db'.receipts ≡ db.receipts)
  unfolding changed_category
  changed_category-Fits name side current c db db' fits i h =
      let (_, e, h1) = >>=-eq-ok (check_side j sql_lower db current side) _ h in
      let (_, h2) =
        >>-eq-ok
          (throw_if
            (category_taken j sql_lower db current.user_id current.id (given name current.name)
              (given side current.is_income))
            _)
          _ h1 in
      let changed : Category = record current {
        name = given name current.name;
        is_income = given side current.is_income;
      } in
      let stored : Db Double Raw = record db {
        categories =
            update_where (λ (x : Category). x.id ==ℤ changed.id) (λ (_ : Category). changed)
              db.categories;
      } in
      let same_row : changed ≡ c = ground arith in
      let same_db : stored ≡ db' = ground arith in
      let fit : Fits stored changed =
        clashes-same stored db current.id current.id changed.is_income changed.is_income refl refl
          refl refl
        ∙ checked_side db current side (All-In (Fits db) db.categories current fits i) e in
      rw (sym same_row, sym same_db)
        (
          stored_fit db stored changed db.categories
              (λ x old.
                clashes-same stored db x.id x.id x.is_income x.is_income refl refl refl refl ∙ old)
              fit fits,
          changes changed db.categories,
          refl,
          refl,
          refl,
        )
