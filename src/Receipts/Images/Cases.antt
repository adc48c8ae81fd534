-- ===== src/Receipts/Images/Cases.antt =====
-- How a request with images ends: refused with nothing written, or in the transaction's writes.
use receipt_scanner.Prelude.{
  ℕ, ◌+◌, ◌≡◌, ◌⊎◌, inl, inr, Bool, true, false, none, List, [], ◌∷◌, any, length, count_where,
  Text, Result, Result-cases, Bool-cases, Option-cases, too_many_images_error,
  receipt_not_found_error, >>=-eq-ok, Exception, ok, err, ℤ, pos, ltb_ℤ, arith,
}
use receipt_scanner.Kinds.{default_kind, rules_for}
use receipt_scanner.LedgerInput.{canonical_text}
use receipt_scanner.Database.{Ledger}
use receipt_scanner.ItemService.{receipt_is}
use receipt_scanner.Auth.{Sodium}
use receipt_scanner.Receipts.Images.{
  ImageStore, NormalizedImage, PreparedImage, ImageConflict, Written, conflicts, image_of,
  prepare_images, conflict_unless_forced, insert_upload, upload_receipt, insert_added, add_images,
}

-- Each image is prepared once.
pub length-prepare_images :
    (sodium : Sodium) (normalize : Text → Result NormalizedImage) (images : List Text)
    (prepared : List PreparedImage)
    → prepare_images sodium normalize images ≡ ok prepared
    → length prepared ≡ length images
unfolding prepare_images
length-prepare_images sodium normalize [] prepared h = ground arith
length-prepare_images sodium normalize (raw ∷ rest) prepared h =
    let (image, _, h1) = >>=-eq-ok (normalize raw) _ h in
    let (others, e, h2) = >>=-eq-ok (prepare_images sodium normalize rest) _ h1 in
    ground (arith, length-prepare_images sodium normalize rest others e)

-- A request that wrote nothing: it threw, or met a conflict that it did not force.
abbrev pub IsRefused :
    {O Double Raw A : Type 0}
    → O
    → Ledger Double Raw
    → O × Result (Ledger Double Raw × Written A)
    → Type 0
IsRefused o l out =
    ((e : Exception) × (out ≡ (o, err e)))
    ⊎ ((c : ImageConflict) × (out ≡ (o, ok (l, conflicts c))))

module _ (store : ImageStore) (sodium : Sodium) (normalize : Text → Result NormalizedImage)
    (cap : ℤ) (now : ℕ) (random : ℕ → List ℕ) {Double Raw : Type 0} where
  open store use {Objects}

  -- The writes of an upload, past its checks.
  pub record Uploads (user : ℤ) (images : List Text) (force : Bool) (o : Objects)
      (l : Ledger Double Raw) : Type 0 where
    pub prepared : List PreparedImage
    pub direction : Text
    pub all_prepared : prepare_images sodium normalize images ≡ ok prepared
    pub within_cap : ltb_ℤ cap (pos (length images)) ≡ false
    pub no_conflict : conflict_unless_forced force user prepared l.images ≡ none
    pub written :
        upload_receipt store sodium normalize cap now random user images force o l
        ≡ insert_upload store sodium normalize cap now random user prepared direction o l

  pub upload_receipt_cases :
      (user : ℤ) (images : List Text) (force : Bool) (o : Objects) (l : Ledger Double Raw)
      → IsRefused o l (upload_receipt store sodium normalize cap now random user images force o l)
        ⊎ Uploads user images force o l
  unfolding upload_receipt
  upload_receipt_cases user images force o l = elim (Bool-cases (ltb_ℤ cap (pos (length images)))) [
    | inl e ↦ inl (inl (too_many_images_error, ground arith))
    | inr e ↦ elim (Result-cases (prepare_images sodium normalize images)) [
      | inr (x, e1) ↦ inl (inl (x, ground arith))
      | inl (prepared, e1) ↦ elim (Result-cases (rules_for default_kind)) [
        | inr (x, e3) ↦ inl (inl (x, ground arith))
        | inl (rules, e3) ↦
            elim (Option-cases (conflict_unless_forced force user prepared l.images)) [
              | inr (c, e2) ↦ inl (inr (c, ground arith))
              | inl e2 ↦ inr (record {
                prepared = prepared;
                direction = canonical_text rules.canonical_direction;
                all_prepared = e1;
                within_cap = e;
                no_conflict = e2;
                written = ground arith;
              })
            ]
      ]
    ]
  ]

  -- The writes of an addition, past its checks.
  pub record Adds (user receipt : ℤ) (images : List Text) (force : Bool) (o : Objects)
      (l : Ledger Double Raw) : Type 0 where
    pub prepared : List PreparedImage
    pub owned : any (receipt_is receipt user) l.db.receipts ≡ true
    pub all_prepared : prepare_images sodium normalize images ≡ ok prepared
    pub within_cap :
        ltb_ℤ cap (pos (count_where (image_of receipt) l.images + length prepared)) ≡ false
    pub no_conflict : conflict_unless_forced force user prepared l.images ≡ none
    pub written :
        add_images store sodium normalize cap now random user receipt images force o l
        ≡ insert_added store sodium normalize cap now random user receipt prepared o l

  pub add_images_cases :
      (user receipt : ℤ) (images : List Text) (force : Bool) (o : Objects) (l : Ledger Double Raw)
      → IsRefused o l
          (add_images store sodium normalize cap now random user receipt images force o l)
        ⊎ Adds user receipt images force o l
  unfolding add_images
  add_images_cases user receipt images force o l =
      elim (Bool-cases (any (receipt_is receipt user) l.db.receipts)) [
        | inr e ↦ inl (inl (receipt_not_found_error, ground arith))
        | inl e ↦ elim (Result-cases (prepare_images sodium normalize images)) [
          | inr (x, e1) ↦ inl (inl (x, ground arith))
          | inl (prepared, e1) ↦
              elim (Bool-cases
                (ltb_ℤ cap (pos (count_where (image_of receipt) l.images + length prepared)))) [
                  | inl e2 ↦ inl (inl (too_many_images_error, ground arith))
                  | inr e2 ↦
                      elim (Option-cases (conflict_unless_forced force user prepared l.images)) [
                        | inr (c, e3) ↦ inl (inr (c, ground arith))
                        | inl e3 ↦ inr (record {
                          prepared = prepared;
                          owned = e;
                          all_prepared = e1;
                          within_cap = e2;
                          no_conflict = e3;
                          written = ground arith;
                        })
                      ]
                ]
        ]
      ]
