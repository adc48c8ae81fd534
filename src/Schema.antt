-- ===== src/Schema.antt =====
-- The CHECK constraints on `receipts` in db/migrations/20260906000000_initial_schema.sql, as
-- predicates on the columns that they name. SQL's NULL does not occur in these columns.
use receipt_scanner.Prelude.{◌≡◌, ◌⊎◌, Bool, false, Text, codes, ℤ, pos, ◌≤ℤ◌}

-- receipts_kind_check
abbrev pub KindCheck : Text → Type 0
KindCheck kind =
    (kind ≡ codes "purchase")
    ⊎ (kind ≡ codes "refund")
    ⊎ (kind ≡ codes "reimbursement")
    ⊎ (kind ≡ codes "income")
    ⊎ (kind ≡ codes "transfer")

-- receipts_direction_check
abbrev pub DirectionCheck : Text → Type 0
DirectionCheck direction = (direction ≡ codes "inflow") ⊎ (direction ≡ codes "outflow")

-- receipts_total_cents_check
abbrev pub TotalCheck : ℤ → Type 0
TotalCheck total_cents = pos 0 ≤ℤ total_cents

-- chk_direction_by_kind
abbrev pub DirectionByKind : Text → Text → Type 0
DirectionByKind kind direction =
    ((kind ≡ codes "purchase") × (direction ≡ codes "outflow"))
    ⊎ (((kind ≡ codes "refund") ⊎ (kind ≡ codes "reimbursement") ⊎ (kind ≡ codes "income"))
        × (direction ≡ codes "inflow"))
    ⊎ (kind ≡ codes "transfer")

-- chk_tax_deductible_purchase_only
abbrev pub TaxDeductiblePurchaseOnly : Bool → Text → Type 0
TaxDeductiblePurchaseOnly tax_deductible kind = (tax_deductible ≡ false) ⊎ (kind ≡ codes "purchase")
