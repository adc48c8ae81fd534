-- ===== src/Receipts/Edits/Entry.antt =====
-- `createManual` of ReceiptService.cpp: the receipt of an accepted entry, and its items.
use receipt_scanner.Prelude.{
  ℕ, ◌<◌, ◌≡◌, refl, sym, ap, ◌∙◌, ◌≢◌, true, Option, none, some, List, [], ◌∷◌, ◌++◌, append_assoc,
  append-nil, length, All, Text, ok, >>=-eq-ok, ℤ, arith,
}
use mathlib.Core.Path.{subst}
use receipt_scanner.Json.{Doubles, Json}
use receipt_scanner.LedgerInput.{
  ItemInput, ManualEntryInput, parse_manual_entry, aud_equivalent_cents,
}
use receipt_scanner.LedgerInput.Validity.{IsConsistent}
use receipt_scanner.LedgerInput.Entry.{IsAmount, parse_manual_entry_lem}
use receipt_scanner.Database.{Receipt, Item, Db, Ledger}
use receipt_scanner.Database.State.{is_confirmed}
use receipt_scanner.ItemService.{insert, new_row}
use receipt_scanner.ItemService.Ownership.{FitsCategory, insert_lem, insert_keeps}
use receipt_scanner.Receipts.Edits.{
  validate_references, implicit_item, items_of, insert_items, manual_row, date_or, create_manual,
}
use receipt_scanner.Receipts.Edits.References.{OwnedMethod, OwnedTarget, validate_references_lem}

-- A stored receipt follows the rules on its fields, and its AUD amount is that of its total.
abbrev pub IsSound : {Raw : Type 0} (d : Doubles) → Receipt d.Double Raw → Type 0
IsSound d r =
    IsConsistent r.fields
    × (r.aud_equivalent_cents ≡ aud_equivalent_cents d r.fields.total_cents r.fields.fx_rate_to_aud)

module _ {Double Raw : Type 0} where
  -- An item of a receipt whose category is the user's and on the side of the receipt's kind.
  abbrev pub IsItemOf : ℤ → ℤ → Text → Db Double Raw → Item Double → Type 0
  IsItemOf user receipt kind db i =
      (i.receipt_id ≡ receipt) × FitsCategory user kind db i.category_id

  -- The rows that storing some items adds.
  pub record InsertsItems (user receipt : ℤ) (kind : Text) (n : ℕ) (db db' : Db Double Raw)
      : Type 0 where
    pub rows : List (Item Double)
    pub added : db'.items ≡ db.items ++ rows
    pub count : length rows ≡ n
    pub fit : All (IsItemOf user receipt kind db) rows
    pub same_receipts : db'.receipts ≡ db.receipts

  pub insert_items_lem :
      (user receipt : ℤ) (kind : Text) (items : List (ItemInput Double)) (db db' : Db Double Raw)
      → insert_items user receipt kind items db ≡ ok db'
      → InsertsItems user receipt kind (length items) db db'
  unfolding insert_items
  insert_items_lem user receipt kind [] db db' h = record {
    rows = [];
    added = ground (arith, append-nil db.items);
    count = refl;
    fit = tt;
    same_receipts = ground arith;
  }
  insert_items_lem user receipt kind (item ∷ rest) db db' h =
      let ((next, id), e, h1) = >>=-eq-ok (insert user receipt kind item db) _ h in
      let (_, same, row, _, _, fits) = insert_lem user receipt kind item db next id e in
      let (categories, _) = insert_keeps user receipt kind item db next id e in
      let s = insert_items_lem user receipt kind rest next db' h1 in
      record {
        rows = new_row id receipt item ∷ s.rows;
        added =
            s.added
            ∙ ap (λ x. x ++ s.rows) row
            ∙ append_assoc db.items (new_row id receipt item ∷ []) s.rows;
        count = ground (arith, s.count);
        fit = (
          (refl, fits),
          subst (λ cs. All (IsItemOf user receipt kind (record db { categories = cs })) s.rows)
              categories s.fit,
        );
        same_receipts = s.same_receipts ∙ same;
      }

-- An entry always has an item.
items_of-cons :
    {Double : Type 0} (input : ManualEntryInput Double)
    → (i : ItemInput Double) × (rest : List (ItemInput Double)) × (items_of input ≡ i ∷ rest)
unfolding items_of
items_of-cons {Double = Double} input =
    elim input.items
      as (λ xs.
        (i : ItemInput Double) × (rest : List (ItemInput Double)) × ((elim xs [
          | [] ↦ implicit_item input ∷ []
          | y ∷ ys ↦ y ∷ ys
        ])
          ≡ i ∷ rest)) [ [] ↦ (implicit_item input, [], refl) | x ∷ xs ↦ (x, xs, refl) ]

-- What an accepted entry stores.
pub record EntryStored (d : Doubles) {Raw : Type 0} (user : ℤ) (l l' : Ledger d.Double Raw) (id : ℤ)
    : Type 0 where
  pub row : Receipt d.Double Raw
  pub items : List (Item d.Double)
  pub drawn : id ≡ l.next_receipt_id
  pub added : l'.db.receipts ≡ l.db.receipts ++ row ∷ []
  pub own : (row.id ≡ id) × (row.user_id ≡ user)
  pub sound : IsSound d row
  pub amount : IsAmount row.fields.total_cents
  pub dated : row.fields.purchase_date ≢ none
  pub confirmed : is_confirmed row.proposed_at row.reviewed_at ≡ true
  pub method : OwnedMethod user l.payment_methods row.fields.payment_method_id
  pub target : OwnedTarget user none l.db.receipts row.fields.offsets_receipt_id
  pub items_added : l'.db.items ≡ l.db.items ++ items
  pub some_item : 0 < length items
  pub fit : All (IsItemOf user id row.fields.kind l.db) items

dated : (today : Text) (date : Option Text) → date_or today date ≢ none
dated today none e = cc
dated today (some date) e = cc

module _ {d : Doubles} (j : Json d) {Raw : Type 0} (now : ℕ) (today : Text) where
  open d use {Double}
  open j use {Value}

  -- An accepted manual entry stores one receipt of the user under a new id, and at least one item.
  -- The receipt follows the rules on its fields, has an AUD amount that is that of its total, a
  -- date, and counts as confirmed. What it refers to is the user's, and so are the categories of
  -- its items, which are on the side of its kind.
  pub create_manual_lem :
      (user : ℤ) (body : Value) (l l' : Ledger Double Raw) (id : ℤ)
      → create_manual j now today user body l ≡ ok (l', id)
      → EntryStored d user l l' id
  unfolding create_manual is_confirmed
  create_manual_lem user body l l' id h =
      let (input, parsed, h1) = >>=-eq-ok (parse_manual_entry j body) _ h in
      let (_, checked, h2) = >>=-eq-ok (validate_references user none input.receipt l) _ h1 in
      let (db, inserted, h3) =
        >>=-eq-ok (insert_items user l.next_receipt_id input.receipt.kind (items_of input) _) _
          h2 in
      let (consistent, amount, _) = parse_manual_entry_lem j body input parsed in
      let (method, target) = validate_references_lem user none input.receipt l checked in
      let r = input.receipt in
      let row =
        manual_row now today l.next_receipt_id user r
          (aud_equivalent_cents d r.total_cents r.fx_rate_to_aud) in
      let start = record l.db { receipts = l.db.receipts ++ row ∷ [] } in
      let s = insert_items_lem user l.next_receipt_id r.kind (items_of input) start db inserted in
      let (_, _, at_least_one) = items_of-cons input in
      let same_db : l'.db ≡ db = ground arith in
      let number : l.next_receipt_id ≡ id = ground arith in
      record {
        row = row;
        items = s.rows;
        drawn = sym number;
        added = ap (λ (x : Db Double Raw). x.receipts) same_db ∙ s.same_receipts;
        own = (number, refl);
        sound = (
          record {
            kind_known = consistent.kind_known;
            direction_by_kind = consistent.direction_by_kind;
            deductible = consistent.deductible;
            offsets = consistent.offsets;
            rate = consistent.rate;
          },
          refl,
        );
        amount = amount;
        dated = dated today r.purchase_date;
        confirmed = refl;
        method = method;
        target = target;
        items_added = ap (λ (x : Db Double Raw). x.items) same_db ∙ s.added;
        some_item = ground (arith, s.count, at_least_one);
        fit = subst (λ k. All (IsItemOf user k r.kind l.db) s.rows) number s.fit;
      }
