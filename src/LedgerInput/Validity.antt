-- ===== src/LedgerInput/Validity.antt =====
-- `validateReceipt` of LedgerInput.cpp against the rules for a stored receipt.
use receipt_scanner.Prelude.{
  ◌≡◌, refl, ◌≢◌, ◌↔◌, ◌⊎◌, inl, inr, Bool, true, false, Option, none, Text, codes, text_eq_iff, ok,
  >>=-eq-ok, arith, ℤ,
}
use receipt_scanner.Kinds.{KindRules, purchase, refund, reimbursement, income, transfer, rules_for}
use receipt_scanner.Kinds.Laws.{IsRow, rules_for-IsRow, find_kind_iff, names_ne}
use receipt_scanner.Schema.{KindCheck, DirectionByKind, TaxDeductiblePurchaseOnly}
use receipt_scanner.LedgerInput.{
  EditableReceipt, direction_is, validate_receipt, category_fits_kind,
}

-- Offsets come from refunds and reimbursements only.
abbrev pub OffsetsByKind : Option ℤ → Text → Type 0
OffsetsByKind target kind =
    (target ≡ none) ⊎ (kind ≡ codes "refund") ⊎ (kind ≡ codes "reimbursement")

-- A rate goes with a foreign currency only.
abbrev pub RateIsForeign : {Double : Type 0} → Option Double → Text → Type 0
RateIsForeign rate currency = (rate ≡ none) ⊎ (currency ≢ codes "AUD")

-- The rules on a stored receipt, by the names of the kinds.
pub record IsConsistent {Double : Type 0} (r : EditableReceipt Double) : Type 0 where
  pub kind_known : KindCheck r.kind
  pub direction_by_kind : DirectionByKind r.kind r.direction
  pub deductible : TaxDeductiblePurchaseOnly r.tax_deductible r.kind
  pub offsets : OffsetsByKind r.offsets_receipt_id r.kind
  pub rate : RateIsForeign r.fx_rate_to_aud r.currency

module _ {Double : Type 0} (r : EditableReceipt Double) where
  -- The four tests, for the kind's row of the table.
  abbrev pub Passes : KindRules → Type 0
  Passes rules =
      (direction_is rules.canonical_direction r.direction ≡ true)
      × ((r.tax_deductible ≡ false) ⊎ (rules.allows_tax_deductible ≡ true))
      × ((r.offsets_receipt_id ≡ none) ⊎ (rules.can_offset ≡ true))
      × RateIsForeign r.fx_rate_to_aud r.currency

  validate_receipt→Passes :
      validate_receipt r ≡ ok tt
      → (rules : KindRules) × (rules_for r.kind ≡ ok rules) × Passes rules
  unfolding validate_receipt
  validate_receipt→Passes h =
      let (rules, found, rest) = >>=-eq-ok (rules_for r.kind) _ h in
      (rules, found, ground (arith, text_eq_iff r.currency (codes "AUD")))

  Passes→validate_receipt :
      (rules : KindRules) → rules_for r.kind ≡ ok rules → Passes rules → validate_receipt r ≡ ok tt
  unfolding validate_receipt
  Passes→validate_receipt rules found p = ground (arith, text_eq_iff r.currency (codes "AUD"))

  pub Passes→IsConsistent : (rules : KindRules) → IsRow r.kind rules → Passes rules → IsConsistent r
  unfolding purchase refund reimbursement income transfer direction_is
  Passes→IsConsistent rules row p =
      ground
        (arith, text_eq_iff (codes "inflow") r.direction, text_eq_iff (codes "outflow") r.direction)

  IsConsistent→Passes : IsConsistent r → (rules : KindRules) → IsRow r.kind rules → Passes rules
  unfolding purchase refund reimbursement income transfer direction_is
  IsConsistent→Passes c rules row = ground (
    arith,
    names_ne,
    text_eq_iff (codes "inflow") r.direction,
    text_eq_iff (codes "outflow") r.direction,
  )

known-IsRow : (kind : Text) → KindCheck kind → (rules : KindRules) × IsRow kind rules
known-IsRow kind (inl e) = (purchase, inl (e, refl))
known-IsRow kind (inr (inl e)) = (refund, inr (inl (e, refl)))
known-IsRow kind (inr (inr (inl e))) = (reimbursement, inr (inr (inl (e, refl))))
known-IsRow kind (inr (inr (inr (inl e)))) = (income, inr (inr (inr (inl (e, refl)))))
known-IsRow kind (inr (inr (inr (inr e)))) = (transfer, inr (inr (inr (inr (e, refl)))))

pub rules_for-row : (kind : Text) (rules : KindRules) → IsRow kind rules → rules_for kind ≡ ok rules
unfolding rules_for
rules_for-row kind rules row = rw ((find_kind_iff kind rules).1 row)

-- `validateReceipt` returns exactly on the consistent receipts: those whose kind is known, whose
-- direction fits the kind, which are tax deductible only as a purchase, offset another receipt
-- only as a refund or reimbursement, and have a rate only in a foreign currency.
pub validate_receipt_iff :
    {Double : Type 0} (r : EditableReceipt Double) → (validate_receipt r ≡ ok tt) ↔ IsConsistent r
validate_receipt_iff r = (
  (λ h.
      let (rules, found, p) = validate_receipt→Passes r h in
      Passes→IsConsistent r rules (rules_for-IsRow r.kind rules found) p),
  (λ c.
      let (rules, row) = known-IsRow r.kind c.kind_known in
      Passes→validate_receipt r rules (rules_for-row r.kind rules row)
        (IsConsistent→Passes r c rules row)),
)

-- A category fits a known kind exactly if both are on the income side, or neither is.
category_fits_kind_iff :
    (is_income : Bool) (kind : Text)
    → KindCheck kind
    → (category_fits_kind is_income kind ≡ ok true) ↔ (
        ((is_income ≡ true) × (kind ≡ codes "income"))
        ⊎ ((is_income ≡ false) × (kind ≢ codes "income")))
unfolding category_fits_kind purchase refund reimbursement income transfer
category_fits_kind_iff is_income kind known =
    let (rules, row) = known-IsRow kind known in
    rw (rules_for-row kind rules row) (ground (arith, names_ne))
