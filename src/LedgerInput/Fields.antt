-- ===== src/LedgerInput/Fields.antt =====
-- What `applyCommonReceiptFields` of LedgerInput.cpp leaves in each field.
use receipt_scanner.Prelude.{◌≡◌, codes, ok, arith}
use receipt_scanner.Json.{Doubles, Json}
use receipt_scanner.JsonInput.{
  nullable_string, cents, nullable_id, boolean, nullable_date, currency, nullable_positive_number,
  set_if_present,
}
use receipt_scanner.LedgerInput.{EditableReceipt, apply_common_receipt_fields}

module _ {d : Doubles} (j : Json d) (r : EditableReceipt d.Double) (body : j.Value) where
  -- Each field is what its reader makes of its key, from the old value; the kind, the direction
  -- and the store name stay.
  pub record HasFields (out : EditableReceipt d.Double) : Type 0 where
    pub same_kind : out.kind ≡ r.kind
    pub same_direction : out.direction ≡ r.direction
    pub same_store : out.store_name_raw ≡ r.store_name_raw
    pub total :
        set_if_present j body (codes "total_cents") r.total_cents (cents j) ≡ ok out.total_cents
    pub of_currency :
        set_if_present j body (codes "currency") r.currency (currency j) ≡ ok out.currency
    pub of_merchant :
        set_if_present j body (codes "merchant") r.merchant (nullable_string j) ≡ ok out.merchant
    pub of_date :
        set_if_present j body (codes "purchase_date") r.purchase_date (nullable_date j)
        ≡ ok out.purchase_date
    pub of_method :
        set_if_present j body (codes "payment_method_id") r.payment_method_id (nullable_id j)
        ≡ ok out.payment_method_id
    pub of_deductible :
        set_if_present j body (codes "tax_deductible") r.tax_deductible (boolean j)
        ≡ ok out.tax_deductible
    pub of_note : set_if_present j body (codes "note") r.note (nullable_string j) ≡ ok out.note
    pub of_offsets :
        set_if_present j body (codes "offsets_receipt_id") r.offsets_receipt_id (nullable_id j)
        ≡ ok out.offsets_receipt_id
    pub of_rate :
        set_if_present j body (codes "fx_rate_to_aud") r.fx_rate_to_aud (nullable_positive_number j)
        ≡ ok out.fx_rate_to_aud

  pub apply_common_receipt_fields-HasFields :
      {out : EditableReceipt d.Double}
      → apply_common_receipt_fields j r body ≡ ok out
      → HasFields out
  unfolding apply_common_receipt_fields
  apply_common_receipt_fields-HasFields h = ground arith
