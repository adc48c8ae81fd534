-- ===== src/Receipts/Edits/References.antt =====
-- `validateReferences` of ReceiptService.cpp against the rows that a receipt may refer to.
use receipt_scanner.Prelude.{
  ◌≡◌, refl, inl, inr, Bool, true, false, Option, none, some, List, [], ◌∷◌, any, first, Text,
  codes, ok, throw_if, >>=-eq-ok, >>-eq-ok, ℤ, ==ℤ_iff, In, Bool-cases, Option-cases, arith,
}
use receipt_scanner.Kinds.{KindRules, purchase, refund, reimbursement, income, transfer, rules_for}
use receipt_scanner.Kinds.Laws.{IsRow, rules_for-IsRow}
use receipt_scanner.LedgerInput.{EditableReceipt}
use receipt_scanner.Database.{Receipt, PaymentMethod, Ledger}
use receipt_scanner.ItemService.{receipt_is}
use receipt_scanner.ItemService.Ownership.{first-In}
use receipt_scanner.Receipts.Edits.{
  method_is, is_same, check_method, check_target, validate_references,
}

-- A payment method is one of the user's.
abbrev pub OwnedMethod : ℤ → List PaymentMethod → Option ℤ → Type 0
OwnedMethod user methods none = Unit
OwnedMethod user methods (some id) =
    (m : PaymentMethod) × In m methods × (m.id ≡ id) × (m.user_id ≡ user)

any-In :
    {A : Type 0} (p : A → Bool) (xs : List A) → any p xs ≡ true → (a : A) × In a xs × (p a ≡ true)
any-In p [] h = absurd cc
any-In p (x ∷ xs) h = elim (Bool-cases (p x)) [
  | inl e ↦ (x, inl refl, e)
  | inr e ↦ let (a, i, k) = any-In p xs ground arith in (a, inr i, k)
]

target_kind :
    (kind : Text) (rules : KindRules)
    → IsRow kind rules
    → rules.is_offset_target ≡ true
    → kind ≡ codes "purchase"
unfolding purchase refund reimbursement income transfer
target_kind kind rules row h = ground arith

module _ {Double Raw : Type 0} where
  -- An offset target is a purchase of the user, other than the receipt itself.
  abbrev pub OwnedTarget : ℤ → Option ℤ → List (Receipt Double Raw) → Option ℤ → Type 0
  OwnedTarget user receipt rows none = Unit
  OwnedTarget user receipt rows (some target) =
      (r : Receipt Double Raw) × In r rows
      × (r.id ≡ target)
      × (r.user_id ≡ user)
      × (r.fields.kind ≡ codes "purchase")
      × (is_same receipt target ≡ false)

  check_method-Owned :
      (user : ℤ) (id : Option ℤ) (l : Ledger Double Raw)
      → check_method user id l ≡ ok tt
      → OwnedMethod user l.payment_methods id
  unfolding check_method
  check_method-Owned user none l h = tt
  check_method-Owned user (some id) l h =
      let (m, i, k) = any-In (method_is id user) l.payment_methods ground arith in
      (m, i, ground (arith, ==ℤ_iff m.id id), ground (arith, ==ℤ_iff m.user_id user))

  check_target-Owned :
      (user : ℤ) (receipt target : Option ℤ) (l : Ledger Double Raw)
      → check_target user receipt target l ≡ ok tt
      → OwnedTarget user receipt l.db.receipts target
  unfolding check_target
  check_target-Owned user receipt none l h = tt
  check_target-Owned user receipt (some target) l h =
      let (other, h1) = >>-eq-ok (throw_if (is_same receipt target) _) _ h in
      elim (Option-cases (first (receipt_is target user) l.db.receipts)) [
        | inl e ↦ absurd ground arith
        | inr (r, e) ↦
            let (i, k) = first-In (receipt_is target user) l.db.receipts r e in
            let (rules, found, h2) =
              >>=-eq-ok (rules_for r.fields.kind) _ (rw (e, check_target) at h1) in
            (
              r,
              i,
              ground (arith, ==ℤ_iff r.id target),
              ground (arith, ==ℤ_iff r.user_id user),
              target_kind r.fields.kind rules (rules_for-IsRow r.fields.kind rules found) ground
                  arith,
              ground arith,
            )
      ]

  -- References that pass the checks are to a payment method of the user, and to a purchase of the
  -- user that is not the receipt itself.
  pub validate_references_lem :
      (user : ℤ) (receipt : Option ℤ) (r : EditableReceipt Double) (l : Ledger Double Raw)
      → validate_references user receipt r l ≡ ok tt
      → OwnedMethod user l.payment_methods r.payment_method_id
        × OwnedTarget user receipt l.db.receipts r.offsets_receipt_id
  unfolding validate_references
  validate_references_lem user receipt r l h =
      let (method, h1) = >>-eq-ok (check_method user r.payment_method_id l) _ h in
      (
        check_method-Owned user r.payment_method_id l method,
        check_target-Owned user receipt r.offsets_receipt_id l h1,
      )
