-- ===== src/LedgerInput/Patch.antt =====
-- What `applyReceiptPatch` of LedgerInput.cpp keeps and changes.
use receipt_scanner.Prelude.{
  ◌≡◌, ◌≢◌, ◌↔◌, inl, inr, Bool, true, Option, none, Text, codes, ok, >>=-eq-ok, arith,
  Option-cases,
}
use receipt_scanner.Json.{Doubles, Json, contains}
use receipt_scanner.JsonInput.{nullable_string, require_object, reject_unknown_keys, set_if_present}
use receipt_scanner.Kinds.{rules_for, KindRules, transfer}
use receipt_scanner.Kinds.Laws.{rules_for-IsRow, names_ne}
use receipt_scanner.LedgerInput.{
  EditableReceipt, apply_common_receipt_fields, patch_kind, patch_direction, patch_reviewed,
  validate_receipt, apply_receipt_patch, patch_keys, parse_kind,
}
use receipt_scanner.LedgerInput.Fields.{apply_common_receipt_fields-HasFields}
use receipt_scanner.LedgerInput.Validity.{IsConsistent, validate_receipt_iff}

transfer-canonical_direction :
    (k : Text) (rules : KindRules)
    → rules_for k ≡ ok rules
    → k ≡ codes "transfer"
    → rules.canonical_direction ≡ none
unfolding transfer
transfer-canonical_direction k rules found is_transfer =
    ground (arith, rules_for-IsRow k rules found, names_ne)

module _ {d : Doubles} (j : Json d) (r : EditableReceipt d.Double) (body : j.Value) where
  open d use {Double}

  -- The steps of a patch that succeeded.
  pub record Steps (out : EditableReceipt Double) (reviewed : Bool) : Type 0 where
    pub keys : reject_unknown_keys j body patch_keys ≡ ok tt
    pub kinded : EditableReceipt Double
    pub directed : EditableReceipt Double
    pub store : Option Text
    pub from_kind : patch_kind j r body ≡ ok kinded
    pub from_direction : patch_direction j kinded body ≡ ok directed
    pub from_store :
        set_if_present j body (codes "store_name_raw") directed.store_name_raw (nullable_string j)
        ≡ ok store
    pub from_fields :
        apply_common_receipt_fields j (record directed { store_name_raw = store }) body ≡ ok out
    pub from_reviewed : patch_reviewed j body ≡ ok reviewed
    pub valid : validate_receipt out ≡ ok tt

  apply_receipt_patch-Steps :
      {out : EditableReceipt Double} {reviewed : Bool}
      → apply_receipt_patch j r body ≡ ok (out, reviewed)
      → Steps out reviewed
  unfolding apply_receipt_patch
  apply_receipt_patch-Steps h =
      let (_, _, h1) = >>=-eq-ok (require_object j body) _ h in
      let (_, e_keys, h2) = >>=-eq-ok (reject_unknown_keys j body patch_keys) _ h1 in
      let (kinded, e_kind, h3) = >>=-eq-ok (patch_kind j r body) _ h2 in
      let (directed, e_direction, h4) = >>=-eq-ok (patch_direction j kinded body) _ h3 in
      let (store, e_store, h5) =
        >>=-eq-ok (set_if_present j body (codes "store_name_raw") _ _) _ h4 in
      let (merged, e_fields, h6) = >>=-eq-ok (apply_common_receipt_fields j _ body) _ h5 in
      let (marked, e_reviewed, h7) = >>=-eq-ok (patch_reviewed j body) _ h6 in
      let (_, e_valid, h8) = >>=-eq-ok (validate_receipt merged) _ h7 in
      record {
        keys = ground arith;
        kinded = kinded;
        directed = directed;
        store = store;
        from_kind = e_kind;
        from_direction = e_direction;
        from_store = e_store;
        from_fields = ground arith;
        from_reviewed = ground arith;
        valid = ground arith;
      }

  patch_reviewed_iff :
      {reviewed : Bool}
      → patch_reviewed j body ≡ ok reviewed
      → (reviewed ≡ true) ↔ (j.find body (codes "reviewed") ≢ none)
  unfolding patch_reviewed
  patch_reviewed_iff h = ground arith

  patch_direction_absent :
      {out : EditableReceipt Double}
      → j.find body (codes "direction") ≡ none
      → patch_direction j r body ≡ ok out
      → out ≡ r
  unfolding patch_direction
  patch_direction_absent absent h = ground arith

  -- Without a direction in the body, a receipt that becomes or stays a transfer keeps its own.
  patch_kind-transfer :
      {out : EditableReceipt Double}
      → j.find body (codes "direction") ≡ none
      → patch_kind j r body ≡ ok out
      → out.kind ≡ codes "transfer"
      → out.direction ≡ r.direction
  unfolding patch_kind contains
  patch_kind-transfer absent h to_transfer = elim (Option-cases (j.find body (codes "kind"))) [
    | inl e ↦ ground arith
    | inr (v, e) ↦
        let (kind, _, h1) = >>=-eq-ok (parse_kind j v) _ (rw (e, patch_kind) at h) in
        let (rules, found, h2) = >>=-eq-ok (rules_for kind) _ (rw (absent, contains) at h1) in
        ground (arith, transfer-canonical_direction kind rules found)
  ]

-- An accepted patch leaves a consistent receipt, and marks it reviewed exactly if the body has
-- the key "reviewed".
pub apply_receipt_patch-IsConsistent :
    {d : Doubles} (j : Json d) (r out : EditableReceipt d.Double) (body : j.Value) (reviewed : Bool)
    → apply_receipt_patch j r body ≡ ok (out, reviewed)
    → IsConsistent out × ((reviewed ≡ true) ↔ (j.find body (codes "reviewed") ≢ none))
apply_receipt_patch-IsConsistent j r out body reviewed h =
    let s = apply_receipt_patch-Steps j r body h in
    ((validate_receipt_iff out).0 s.valid, patch_reviewed_iff j r body s.from_reviewed)

-- A patch that sends no direction and leaves a transfer keeps the direction as it was.
apply_receipt_patch-transfer :
    {d : Doubles} (j : Json d) (r out : EditableReceipt d.Double) (body : j.Value) (reviewed : Bool)
    → apply_receipt_patch j r body ≡ ok (out, reviewed)
    → j.find body (codes "direction") ≡ none
    → out.kind ≡ codes "transfer"
    → out.direction ≡ r.direction
apply_receipt_patch-transfer j r out body reviewed h absent to_transfer =
    let s = apply_receipt_patch-Steps j r body h in
    let f = apply_common_receipt_fields-HasFields j _ body s.from_fields in
    let same : s.directed ≡ s.kinded =
      patch_direction_absent j s.kinded body absent s.from_direction in
    let kept =
      patch_kind-transfer j r body absent s.from_kind (cc (f.same_kind, same, to_transfer)) in
    cc (f.same_direction, same, kept)
