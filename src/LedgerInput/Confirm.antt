-- ===== src/LedgerInput/Confirm.antt =====
-- The review screen's "confirm": a patch whose body is {"reviewed": true}.
use receipt_scanner.Prelude.{
  ◌≡◌, refl, inl, inr, true, false, none, some, Text, codes, text_eq, text_eq_iff, Result, ok,
  arith, Option-cases, In, All, All-In, All-weaken,
}
use receipt_scanner.Json.{Doubles, Json}
use receipt_scanner.JsonInput.{
  boolean, require_object, reject_unknown_keys, set_if_present, currency, cents, nullable_id,
  nullable_string, nullable_date, nullable_positive_number,
}
use receipt_scanner.JsonInput.Keys.{reject_unknown_keys_iff}
use receipt_scanner.LedgerInput.{
  EditableReceipt, apply_common_receipt_fields, patch_kind, patch_direction, patch_reviewed,
  apply_receipt_patch, patch_keys,
}
use receipt_scanner.LedgerInput.Validity.{IsConsistent, validate_receipt_iff}

set_if_present-absent :
    {d : Doubles} (j : Json d) {A : Type 0} (body : j.Value) (key : Text) (old : A)
    (read : j.Value → Text → Result A)
    → j.find body key ≡ none
    → set_if_present j body key old read ≡ ok old
unfolding set_if_present
set_if_present-absent j body key old read e = rw (e, set_if_present)

-- A key of a patch other than "reviewed".
abbrev IsOther : Text → Type 0
IsOther key = text_eq key (codes "reviewed") ≡ false

others :
    IsOther (codes "kind")
    × IsOther (codes "direction")
    × IsOther (codes "total_cents")
    × IsOther (codes "currency")
    × IsOther (codes "merchant")
    × IsOther (codes "store_name_raw")
    × IsOther (codes "purchase_date")
    × IsOther (codes "payment_method_id")
    × IsOther (codes "tax_deductible")
    × IsOther (codes "note")
    × IsOther (codes "offsets_receipt_id")
    × IsOther (codes "fx_rate_to_aud")
unfolding codes text_eq
others = (refl, refl, refl, refl, refl, refl, refl, refl, refl, refl, refl, refl)

In-patch_keys : In (codes "reviewed") patch_keys
unfolding patch_keys
In-patch_keys = ground arith

-- Every key of the body is "reviewed".
abbrev pub IsConfirmation : {d : Doubles} (j : Json d) → j.Value → Type 0
IsConfirmation j body = All (λ e. e.0 ≡ codes "reviewed") (j.items body)

module _ {d : Doubles} (j : Json d) (body : j.Value) (only : IsConfirmation j body) where
  open d use {Double}

  absent : (key : Text) → IsOther key → j.find body key ≡ none
  absent key other = elim (Option-cases (j.find body key)) [
    | inl e ↦ e
    | inr (v, e) ↦
        let same : key ≡ codes "reviewed" =
          All-In (λ e'. e'.0 ≡ codes "reviewed") (j.items body) (key, v) only
            (j.find-In body key v e) in
        absurd (cc (other, (text_eq_iff key (codes "reviewed")).1 same))
  ]

  known_keys : reject_unknown_keys j body patch_keys ≡ ok tt
  known_keys = (reject_unknown_keys_iff j body patch_keys).1 (
      All-weaken (λ e. e.0 ≡ codes "reviewed") (λ e. In e.0 patch_keys) (j.items body)
        (λ e same. rw same In-patch_keys) only)

  keeps :
      {A : Type 0} (key : Text) (old : A) (read : j.Value → Text → Result A)
      → IsOther key
      → set_if_present j body key old read ≡ ok old
  keeps key old read other = set_if_present-absent j body key old read (absent key other)

  fields_kept : (r : EditableReceipt Double) → apply_common_receipt_fields j r body ≡ ok r
  unfolding apply_common_receipt_fields
  fields_kept r =
      let (_, _, total, cur, shop, _, day, method, deductible, text, target, rate) = others in
      simp (
        keeps (codes "total_cents") r.total_cents (cents j) total,
        keeps (codes "currency") r.currency (currency j) cur,
        keeps (codes "merchant") r.merchant (nullable_string j) shop,
        keeps (codes "purchase_date") r.purchase_date (nullable_date j) day,
        keeps (codes "payment_method_id") r.payment_method_id (nullable_id j) method,
        keeps (codes "tax_deductible") r.tax_deductible (boolean j) deductible,
        keeps (codes "note") r.note (nullable_string j) text,
        keeps (codes "offsets_receipt_id") r.offsets_receipt_id (nullable_id j) target,
        keeps (codes "fx_rate_to_aud") r.fx_rate_to_aud (nullable_positive_number j) rate,
      )

  kind_kept : (r : EditableReceipt Double) → patch_kind j r body ≡ ok r
  unfolding patch_kind
  kind_kept r = rw (absent (codes "kind") others.0, patch_kind)

  direction_kept : (r : EditableReceipt Double) → patch_direction j r body ≡ ok r
  unfolding patch_direction
  direction_kept r = rw (absent (codes "direction") others.1, patch_direction)

  store_kept :
      (r : EditableReceipt Double)
      → set_if_present j body (codes "store_name_raw") r.store_name_raw (nullable_string j)
        ≡ ok r.store_name_raw
  store_kept r = keeps (codes "store_name_raw") r.store_name_raw (nullable_string j) others.5

reviewed_true :
    {d : Doubles} (j : Json d) (body v : j.Value)
    → j.find body (codes "reviewed") ≡ some v
    → j.is_boolean v ≡ true
    → j.get_bool v ≡ true
    → patch_reviewed j body ≡ ok true
unfolding patch_reviewed boolean
reviewed_true j body v found is_bool is_true = ground arith

-- `applyReceiptPatch` on a consistent receipt and an object whose only key is "reviewed", with the
-- value true, throws nothing, gives the receipt's fields as they are, and marks it reviewed.
pub confirm :
    {d : Doubles} (j : Json d) (r : EditableReceipt d.Double) (body v : j.Value)
    → IsConsistent r
    → j.is_object body ≡ true
    → IsConfirmation j body
    → j.find body (codes "reviewed") ≡ some v
    → j.is_boolean v ≡ true
    → j.get_bool v ≡ true
    → apply_receipt_patch j r body ≡ ok (r, true)
unfolding apply_receipt_patch require_object
confirm j r body v consistent is_object only found is_bool is_true =
    simp
      (
        is_object,
        known_keys j body only,
        kind_kept j body only r,
        direction_kept j body only r,
        store_kept j body only r,
      )
      (rw (fields_kept j body only r)
        (rw (reviewed_true j body v found is_bool is_true, (validate_receipt_iff r).1 consistent)))
