-- ===== src/Receipts/Edits/Sides.antt =====
-- The two sides of `updateReceipt`: no item is left in a category of the other side.
use receipt_scanner.Prelude.{
  ℕ, ◌≡◌, sym, inl, inr, Bool, true, false, List, [], ◌∷◌, update_where, Text, codes, text_eq, ok,
  ℤ, ◌==ℤ◌, ==ℤ_iff, All, All-In, Bool-cases, if◌then◌else◌, arith,
}
use mathlib.Core.Path.{subst}
use receipt_scanner.Json.{Doubles, Json}
use receipt_scanner.Kinds.{
  KindRules, rules_for, kinds, purchase, refund, reimbursement, income, transfer,
}
use receipt_scanner.Kinds.Laws.{IsRow, rules_for-IsRow}
use receipt_scanner.Database.{Receipt, Db, Ledger}
use receipt_scanner.ItemService.{receipt_is}
use receipt_scanner.ItemService.Ownership.{first-In}
use receipt_scanner.ReferenceData.{is_income_kind}
use receipt_scanner.Receipts.Reads.{ReceiptSummary}
use receipt_scanner.Receipts.Edits.{side_clash, check_kind_side, update_receipt}
use receipt_scanner.Receipts.Edits.Patch.{update_receipt-Updates}

-- The kind's row of the table and the list in the SQL agree.
is_income_kind-uses :
    (kind : Text) (rules : KindRules)
    → IsRow kind rules
    → is_income_kind kind ≡ rules.uses_income_categories
unfolding is_income_kind kinds purchase refund reimbursement income transfer codes text_eq
is_income_kind-uses kind rules row = ground arith

side_of :
    (kind : Text) (rules : KindRules)
    → rules_for kind ≡ ok rules
    → is_income_kind kind ≡ rules.uses_income_categories
side_of kind rules h = is_income_kind-uses kind rules (rules_for-IsRow kind rules h)

module _ {Double Raw : Type 0} where
  -- No item of the receipt is in a category of the other side.
  abbrev pub SideFits : Db Double Raw → Receipt Double Raw → Type 0
  SideFits db r = side_clash db r.id (is_income_kind r.fields.kind) ≡ false

module _ {d : Doubles} (j : Json d) {Raw : Type 0} (now : ℕ) where
  open d use {Double}
  open j use {Value}

  checked_side :
      (receipt : ℤ) (was is : Bool) (db : Db Double Raw)
      → check_kind_side j now receipt was is db ≡ ok tt
      → side_clash db receipt was ≡ false
      → side_clash db receipt is ≡ false
  unfolding check_kind_side
  checked_side receipt true true db h fits = fits
  checked_side receipt false false db h fits = fits
  checked_side receipt true false db h fits = ground arith
  checked_side receipt false true db h fits = ground arith

  edited_sides :
      (receipt : ℤ) (db : Db Double Raw) (edit : Receipt Double Raw → Receipt Double Raw)
      → ((r : Receipt Double Raw) → (r.id ==ℤ receipt) ≡ true → SideFits db (edit r))
      → (rows : List (Receipt Double Raw)) → All (SideFits db) rows
      → All (SideFits db) (update_where (λ (r : Receipt Double Raw). r.id ==ℤ receipt) edit rows)
  edited_sides receipt db edit fits [] h = tt
  edited_sides receipt db edit fits (r ∷ rows) (one, h) = (
    elim (Bool-cases (r.id ==ℤ receipt)) [
      | inl e ↦ subst (λ b. SideFits db (if b then edit r else r)) (sym e) (fits r e)
      | inr e ↦ subst (λ b. SideFits db (if b then edit r else r)) (sym e) one
    ],
    edited_sides receipt db edit fits rows h,
  )

  -- An accepted patch keeps every receipt's items in categories of its side, the edited receipt
  -- included, even if the patch changes its kind.
  pub update_receipt-sides :
      (user receipt : ℤ) (body : Value) (l l' : Ledger Double Raw) (summary : ReceiptSummary Double)
      → All (SideFits l.db) l.db.receipts
      → update_receipt j now user receipt body l ≡ ok (l', summary)
      → All (SideFits l'.db) l'.db.receipts
  unfolding side_clash
  update_receipt-sides user receipt body l l' summary all_fit h =
      let s = update_receipt-Updates j now user receipt body l l' summary h in
      let (i, k) = first-In (receipt_is receipt user) l.db.receipts s.current s.found in
      let same_id : s.current.id ≡ receipt = ground (arith, ==ℤ_iff s.current.id receipt) in
      let before : side_clash l.db receipt s.old_rules.uses_income_categories ≡ false =
        subst (λ side. side_clash l.db receipt side ≡ false)
          (side_of s.current.fields.kind s.old_rules s.from_old)
          (subst (λ id. side_clash l.db id (is_income_kind s.current.fields.kind) ≡ false) same_id
            (All-In (SideFits l.db) l.db.receipts s.current all_fit i)) in
      let after =
        checked_side receipt s.old_rules.uses_income_categories s.rules.uses_income_categories l.db
          s.from_side before in
      let fits : side_clash l.db receipt (is_income_kind s.fields.kind) ≡ false =
        subst (λ side. side_clash l.db receipt side ≡ false)
          (sym (side_of s.fields.kind s.rules s.from_rules)) after in
      subst (λ (x : Ledger Double Raw). All (SideFits x.db) x.db.receipts) (sym s.written)
        (edited_sides receipt l.db _
          (λ r e.
            subst (λ id. side_clash l.db id (is_income_kind s.fields.kind) ≡ false)
              (sym ((==ℤ_iff r.id receipt).0 e)) fits)
          l.db.receipts all_fit)
