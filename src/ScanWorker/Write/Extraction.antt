-- ===== src/ScanWorker/Write/Extraction.antt =====
-- What a scan's result does to a receipt that was never reviewed (`writeExtraction`).
use receipt_scanner.Prelude.{
  ℕ, ◌≡◌, refl, sym, ap, ◌∙◌, some, not, ◌++◌, All, keep, codes, ◌↔◌, ◌⊎◌, inl, inr, Bool, true,
  false, ◌&&◌, Option, none, List, [], ◌∷◌, Text, text_eq_refl, ok, >>=-eq-ok, ◌==ℤ◌, if◌then◌else◌,
  arith,
}
use mathlib.Core.List.{append-nil, append_assoc}
use receipt_scanner.Kinds.{KindRules, rules_for}
use receipt_scanner.Kinds.Laws.{rules_for-IsRow}
use receipt_scanner.LedgerInput.{direction_is}
use receipt_scanner.LedgerInput.Validity.{RateIsForeign, IsConsistent, Passes→IsConsistent}
use receipt_scanner.Database.{Receipt, Item, Db, idle}
use receipt_scanner.Database.State.{needs_review}
use receipt_scanner.ItemService
use receipt_scanner.ItemService.{new_row}
use receipt_scanner.ItemService.Ownership.{insert_lem, insert_keeps}
use receipt_scanner.ScanProvider.{ScannedItem, ScanResult}
use receipt_scanner.ScanWorker.Queue.{Claim}
use receipt_scanner.ScanWorker.Results.{Taxonomy, to_item_input}
use receipt_scanner.ScanWorker.Write.{Snapshot, direction_of, insert_scanned_items, extracted}

direction_of-Passes :
    (rules : KindRules) (direction : Text)
    → direction_of rules ≡ ok direction
    → direction_is rules.canonical_direction direction ≡ true
unfolding direction_of direction_is
direction_of-Passes rules direction h = ground (arith, text_eq_refl direction)

both : (a b : Bool) → ((a && b) ≡ false) ⊎ (b ≡ true)
both a true = inr refl
both a false = ground arith

kept_if : {A : Type 0} (b : Bool) (o : Option A) → ((if b then o else none) ≡ none) ⊎ (b ≡ true)
kept_if true o = inr refl
kept_if false o = inl refl

module _ {Double Raw : Type 0} where
  -- Inserting the scanned items leaves the receipts alone.
  pub insert_scanned_items-receipts :
      (claim : Claim) (kind : Text) (taxonomy : Taxonomy) (items : List (ScannedItem Double))
      (db db' : Db Double Raw)
      → insert_scanned_items claim kind taxonomy items db ≡ ok db'
      → db'.receipts ≡ db.receipts
  unfolding insert_scanned_items
  insert_scanned_items-receipts claim kind taxonomy [] db db' h = ground arith
  insert_scanned_items-receipts claim kind taxonomy (scanned ∷ rest) db db' h =
      let (input, _, h1) = >>=-eq-ok (to_item_input scanned kind taxonomy) _ h in
      let (stored, e, h2) =
        >>=-eq-ok (ItemService.insert claim.user_id claim.receipt_id kind input db) _ h1 in
      insert_scanned_items-receipts claim kind taxonomy rest stored.0 db' h2
      ∙ (insert_lem claim.user_id claim.receipt_id kind input db stored.0 stored.1 e).1

  -- They are put behind the items that are there, and belong to the receipt of the claim.
  pub insert_scanned_items-items :
      (claim : Claim) (kind : Text) (taxonomy : Taxonomy) (items : List (ScannedItem Double))
      (db db' : Db Double Raw)
      → insert_scanned_items claim kind taxonomy items db ≡ ok db'
      → (added : List (Item Double)) × (db'.items ≡ db.items ++ added)
        × All (λ i. i.receipt_id ≡ claim.receipt_id) added
        × (db'.categories ≡ db.categories)
        × (db'.tags ≡ db.tags)
  unfolding insert_scanned_items
  insert_scanned_items-items claim kind taxonomy [] db db' h =
      let same : db' ≡ db = ground arith in
      (
        [],
        ap (λ (x : Db Double Raw). x.items) same ∙ sym (append-nil db.items),
        tt,
        ap (λ (x : Db Double Raw). x.categories) same,
        ap (λ (x : Db Double Raw). x.tags) same,
      )
  insert_scanned_items-items claim kind taxonomy (scanned ∷ rest) db db' h =
      let (input, _, h1) = >>=-eq-ok (to_item_input scanned kind taxonomy) _ h in
      let (stored, e, h2) =
        >>=-eq-ok (ItemService.insert claim.user_id claim.receipt_id kind input db) _ h1 in
      let (added, whole, own, categories, tags) =
        insert_scanned_items-items claim kind taxonomy rest stored.0 db' h2 in
      let one = (insert_lem claim.user_id claim.receipt_id kind input db stored.0 stored.1 e).2 in
      let kept = insert_keeps claim.user_id claim.receipt_id kind input db stored.0 stored.1 e in
      (
        new_row stored.1 claim.receipt_id input ∷ added,
        whole
            ∙ ap (λ (x : List (Item Double)). x ++ added) one
            ∙ append_assoc db.items (new_row stored.1 claim.receipt_id input ∷ []) added,
        (refl, own),
        categories ∙ kept.0,
        tags ∙ kept.1,
      )

  -- The row that an extraction writes is consistent exactly if the row's rate, which it does not
  -- touch, is none or the scanned currency is a foreign one.
  pub extracted-IsConsistent_iff :
      (now : ℕ) (result : ScanResult Double Raw) (rules : KindRules) (direction : Text)
      (snapshot : Snapshot) (r : Receipt Double Raw)
      → rules_for result.kind ≡ ok rules
      → direction_of rules ≡ ok direction
      → IsConsistent (extracted now result rules direction snapshot r).fields
        ↔ RateIsForeign r.fields.fx_rate_to_aud result.currency
  unfolding extracted
  extracted-IsConsistent_iff now result rules direction snapshot r found directed = (
    (λ c. c.rate),
    (λ foreign.
        Passes→IsConsistent (extracted now result rules direction snapshot r).fields rules
          (rules_for-IsRow result.kind rules found)
          (
            direction_of-Passes rules direction directed,
            both snapshot.tax_deductible rules.allows_tax_deductible,
            kept_if rules.can_offset snapshot.offsets_receipt_id,
            foreign,
          )),
  )

  abbrev pub Replaces : Claim → Db Double Raw → Db Double Raw → Type 0
  Replaces claim db db' =
      (added : List (Item Double)) × (db'.items
        ≡ keep (λ (i : Item Double). not (i.receipt_id ==ℤ claim.receipt_id)) db.items ++ added)
      × All (λ i. i.receipt_id ≡ claim.receipt_id) added

  -- What an extraction makes of the row of its claim.
  abbrev pub IsExtracted :
      ℕ → ScanResult Double Raw → Snapshot → Receipt Double Raw → Receipt Double Raw → Type 0
  IsExtracted now result snapshot a b =
      (b ≡ record a {
        fields = record a.fields {
          kind = result.kind;
          direction = b.fields.direction;
          total_cents = result.total_cents;
          currency = result.currency;
          merchant = result.merchant;
          store_name_raw = result.store_name_raw;
          purchase_date = result.purchase_date;
          tax_deductible = b.fields.tax_deductible;
          offsets_receipt_id = b.fields.offsets_receipt_id;
        };
        raw_ocr_json = some result.raw;
        scan_state = idle;
        scan_started_at = none;
        proposed_at = some now;
        updated_at = now;
      })
      × ((b.fields.tax_deductible ≡ true)
          ↔ ((snapshot.tax_deductible ≡ true) × (result.kind ≡ codes "purchase")))
      × ((b.fields.offsets_receipt_id ≡ none)
          ⊎ (b.fields.offsets_receipt_id ≡ snapshot.offsets_receipt_id))
      × (a.reviewed_at ≡ none → needs_review b.proposed_at b.reviewed_at ≡ true)
      × (RateIsForeign a.fields.fx_rate_to_aud result.currency → IsConsistent b.fields)
