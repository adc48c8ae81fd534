-- ===== src/Receipts/Edits/Patch.antt =====
-- `updateReceipt` of ReceiptService.cpp: what an accepted patch does to the rows.
use receipt_scanner.Prelude.{
  ℕ, ◌≡◌, ◌≢◌, inl, inr, Bool, true, false, none, some, first, update_where, codes, ok, >>=-eq-ok,
  ℤ, ◌==ℤ◌, In, Pairwise, Option-cases, arith,
}
use receipt_scanner.Json.{Doubles, Json}
use receipt_scanner.Kinds.{KindRules, rules_for}
use receipt_scanner.LedgerInput.{EditableReceipt, apply_receipt_patch, aud_equivalent_cents}
use receipt_scanner.Database.{Receipt, Ledger}
use receipt_scanner.ItemService.{receipt_is}
use receipt_scanner.Receipts.Reads.{ReceiptSummary, row_to_editable}
use receipt_scanner.Receipts.Edits.{
  validate_references, edited_row, with_receipts, check_kind_side, update_row, update_receipt,
}
use receipt_scanner.Receipts.Edits.Entry.{IsSound}
use receipt_scanner.Receipts.Edits.References.{OwnedMethod, OwnedTarget}

module _ {d : Doubles} (j : Json d) {Raw : Type 0} (now : ℕ) where
  open d use {Double}
  open j use {Value}

  -- The row that a patch edits: its fields, its AUD amount and the stamps, and nothing else of it.
  abbrev pub IsEdited :
      Value → EditableReceipt Double → Receipt Double Raw → Receipt Double Raw → Type 0
  IsEdited body fields a b =
      (b ≡ record a {
        fields = fields;
        aud_equivalent_cents = b.aud_equivalent_cents;
        reviewed_at = b.reviewed_at;
        updated_at = now;
      })
      × IsSound d b
      × (j.find body (codes "reviewed") ≢ none → b.reviewed_at ≡ some now)
      × (j.find body (codes "reviewed") ≡ none → b.reviewed_at ≡ a.reviewed_at)

  -- The rows with the receipt's id are edited, and the others are kept.
  abbrev pub EditsOnly :
      ℤ → Value → EditableReceipt Double → Receipt Double Raw → Receipt Double Raw → Type 0
  EditsOnly receipt body fields a b =
      ((a.id ==ℤ receipt) ≡ true → IsEdited body fields a b) × ((a.id ==ℤ receipt) ≡ false → b ≡ a)

  -- What an accepted patch has done.
  pub record Accepted (user receipt : ℤ) (body : Value) (l l' : Ledger Double Raw) : Type 0 where
    pub current : Receipt Double Raw
    pub fields : EditableReceipt Double
    pub reviewed : Bool
    pub found : In current l.db.receipts
    pub own : (current.id ≡ receipt) × (current.user_id ≡ user)
    pub patched : apply_receipt_patch j (row_to_editable current) body ≡ ok (fields, reviewed)
    pub method : OwnedMethod user l.payment_methods fields.payment_method_id
    pub target : OwnedTarget user (some receipt) l.db.receipts fields.offsets_receipt_id
    pub rows : Pairwise (EditsOnly receipt body fields) l.db.receipts l'.db.receipts
    pub same_items : l'.db.items ≡ l.db.items
    pub same_images : l'.images ≡ l.images

  -- The steps of an update that succeeded.
  pub record Updates (user receipt : ℤ) (body : Value) (l l' : Ledger Double Raw) : Type 0 where
    pub current : Receipt Double Raw
    pub fields : EditableReceipt Double
    pub reviewed : Bool
    pub old_rules : KindRules
    pub rules : KindRules
    pub found : first (receipt_is receipt user) l.db.receipts ≡ some current
    pub from_old : rules_for current.fields.kind ≡ ok old_rules
    pub from_patch : apply_receipt_patch j (row_to_editable current) body ≡ ok (fields, reviewed)
    pub from_references : validate_references user (some receipt) fields l ≡ ok tt
    pub from_rules : rules_for fields.kind ≡ ok rules
    pub from_side :
        check_kind_side j now receipt old_rules.uses_income_categories rules.uses_income_categories
          l.db
        ≡ ok tt
    pub written :
        l'
        ≡ with_receipts
            (update_where
              (λ (x : Receipt Double Raw). x.id ==ℤ receipt)
              (edited_row now fields
                (aud_equivalent_cents d fields.total_cents fields.fx_rate_to_aud)
                reviewed)
              l.db.receipts)
            l

  pub update_receipt-Updates :
      (user receipt : ℤ) (body : Value) (l l' : Ledger Double Raw) (summary : ReceiptSummary Double)
      → update_receipt j now user receipt body l ≡ ok (l', summary)
      → Updates user receipt body l l'
  unfolding update_receipt update_row row_to_editable
  update_receipt-Updates user receipt body l l' summary h =
      elim (Option-cases (first (receipt_is receipt user) l.db.receipts)) [
        | inl e ↦ absurd ground arith
        | inr (current, e) ↦
            let (old_rules, e_old, h1) =
              >>=-eq-ok (rules_for (row_to_editable current).kind) _
                (rw (e, update_receipt) at h) in
            let ((fields, reviewed), e_patch, h2) =
              >>=-eq-ok (apply_receipt_patch j (row_to_editable current) body) _ h1 in
            let (_, e_references, h3) =
              >>=-eq-ok (validate_references user (some receipt) fields l) _ h2 in
            let (rules, e_rules, h4) = >>=-eq-ok (rules_for fields.kind) _ h3 in
            let (_, e_side, h5) =
              >>=-eq-ok
                (check_kind_side j now receipt old_rules.uses_income_categories
                  rules.uses_income_categories l.db)
                _ h4 in
            record {
              current = current;
              fields = fields;
              reviewed = reviewed;
              old_rules = old_rules;
              rules = rules;
              found = e;
              from_old = e_old;
              from_patch = e_patch;
              from_references = e_references;
              from_rules = e_rules;
              from_side = e_side;
              written = ground arith;
            }
      ]
