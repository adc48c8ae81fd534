-- ===== src/LedgerInput/Entry.antt =====
-- What an accepted manual entry (`parseManualEntry` of LedgerInput.cpp) guarantees.
use receipt_scanner.Prelude.{
  ◌≡◌, refl, ◌⊎◌, inl, inr, true, not, Option, none, some, List, [], Text, codes, ok, >>=-eq-ok, ℤ,
  pos, ◌≤ℤ◌, IsInt64, throw_if, arith, Option-cases,
}
use receipt_scanner.Json.{Doubles, Json, contains}
use receipt_scanner.JsonInput.{
  cents, nullable_id, require_object, reject_unknown_keys, set_if_present,
}
use receipt_scanner.JsonInput.Numbers.{cents_iff}
use receipt_scanner.LedgerInput.{
  EditableReceipt, ItemInput, ManualEntryInput, new_receipt, default_kind,
  apply_common_receipt_fields, entry_kind, entry_direction, entry_items, validate_receipt,
  parse_manual_entry, manual_keys,
}
use receipt_scanner.LedgerInput.Fields.{apply_common_receipt_fields-HasFields}
use receipt_scanner.LedgerInput.Validity.{IsConsistent, validate_receipt_iff}

-- An amount that was read is a number from 0 to the largest int64_t.
abbrev pub IsAmount : ℤ → Type 0
IsAmount n = (pos 0 ≤ℤ n) × IsInt64 n

module _ {d : Doubles} (j : Json d) (body : j.Value) where
  open d use {Double}

  pub set_if_present-cents :
      (key : Text) (old n : ℤ)
      → contains j body key ≡ true
      → set_if_present j body key old (cents j) ≡ ok n
      → IsAmount n
  unfolding set_if_present contains
  set_if_present-cents key old n there h = elim (Option-cases (j.find body key)) [
    | inl e ↦ absurd (ground arith)
    | inr (v, e) ↦ let read = (cents_iff j v key n).0 (ground arith) in (read.1, read.2)
  ]

  entry_items-exclusive :
      (category : Option ℤ) (items : List (ItemInput Double))
      → entry_items j body category ≡ ok items
      → (category ≡ none) ⊎ (items ≡ [])
  unfolding entry_items
  entry_items-exclusive none items h = inl refl
  entry_items-exclusive (some c) items h = elim (Option-cases (j.find body (codes "items"))) [
    | inl e ↦ inr (ground arith)
    | inr (v, e) ↦ absurd (ground arith)
  ]

  -- The steps of a parse that succeeded.
  pub record Steps (input : ManualEntryInput Double) : Type 0 where
    pub has_total : contains j body (codes "total_cents") ≡ true
    pub start : Text
    pub fields : EditableReceipt Double
    pub from_kind : entry_kind j body default_kind ≡ ok start
    pub from_fields :
        apply_common_receipt_fields j (record new_receipt { kind = start }) body ≡ ok fields
    pub from_direction : entry_direction j body fields.kind ≡ ok input.receipt.direction
    pub from_items : entry_items j body input.category_id ≡ ok input.items
    pub valid : validate_receipt input.receipt ≡ ok tt
    pub same_total : input.receipt.total_cents ≡ fields.total_cents

  parse_manual_entry-Steps :
      {input : ManualEntryInput Double} → parse_manual_entry j body ≡ ok input → Steps input
  unfolding parse_manual_entry
  parse_manual_entry-Steps h =
      let (_, _, h1) = >>=-eq-ok (require_object j body) _ h in
      let (_, _, h2) = >>=-eq-ok (reject_unknown_keys j body manual_keys) _ h1 in
      let (_, total_there, h3) =
        >>=-eq-ok (throw_if (not (contains j body (codes "total_cents"))) _) _ h2 in
      let (start, e_kind, h4) = >>=-eq-ok (entry_kind j body default_kind) _ h3 in
      let (fields, e_fields, h5) = >>=-eq-ok (apply_common_receipt_fields j _ body) _ h4 in
      let (direction, e_direction, h6) = >>=-eq-ok (entry_direction j body fields.kind) _ h5 in
      let (category, e_category, h7) =
        >>=-eq-ok (set_if_present j body (codes "category_id") none (nullable_id j)) _ h6 in
      let (items, e_items, h8) = >>=-eq-ok (entry_items j body category) _ h7 in
      let (_, e_valid, h9) =
        >>=-eq-ok (validate_receipt (record fields { direction = direction })) _ h8 in
      record {
        has_total = ground arith;
        start = start;
        fields = fields;
        from_kind = e_kind;
        from_fields = e_fields;
        from_direction = ground arith;
        from_items = ground arith;
        valid = ground arith;
        same_total = ground arith;
      }

-- An accepted manual entry has a consistent receipt, a total from 0 to the largest int64_t, and
-- not both a category of its own and items.
pub parse_manual_entry_lem :
    {d : Doubles} (j : Json d) (body : j.Value) (input : ManualEntryInput d.Double)
    → parse_manual_entry j body ≡ ok input
    → IsConsistent input.receipt
      × IsAmount input.receipt.total_cents
      × ((input.category_id ≡ none) ⊎ (input.items ≡ []))
parse_manual_entry_lem j body input h =
    let s = parse_manual_entry-Steps j body h in
    let f = apply_common_receipt_fields-HasFields j _ body s.from_fields in
    (
      (validate_receipt_iff input.receipt).0 s.valid,
      rw s.same_total (
          set_if_present-cents j body (codes "total_cents") _ s.fields.total_cents s.has_total
            f.total),
      entry_items-exclusive j body input.category_id input.items s.from_items,
    )
