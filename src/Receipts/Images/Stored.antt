-- ===== src/Receipts/Images/Stored.antt =====
-- `storeImages` of ReceiptService.cpp: the rows that it adds, and the objects that they name.
use receipt_scanner.Prelude.{
  ℕ, suc, ◌≡◌, refl, ◌∙◌, true, List, [], ◌∷◌, ◌++◌, append_assoc, append-nil, length, All, Text,
  codes, Result, Result-cases, inl, inr, ok, ℤ, arith,
}
use receipt_scanner.Database.{ReceiptImage, Ledger}
use receipt_scanner.Auth.{Sodium}
use receipt_scanner.Receipts.Images.{
  ImageStore, NormalizedImage, PreparedImage, with_image, store_images, generate_image_key,
}

-- Every object that was there still is.
abbrev pub Keeps : (store : ImageStore) → store.Objects → store.Objects → Type 0
Keeps store a b = (key : Text) → store.holds a key ≡ true → store.holds b key ≡ true

-- A row that names an object of the store.
abbrev pub IsBacked : (store : ImageStore) → store.Objects → ReceiptImage → Type 0
IsBacked store o i = store.holds o i.image_key ≡ true

module _ (store : ImageStore) {Double Raw : Type 0} where
  -- New rows of one receipt and user, each backed, and nothing else changed.
  pub record Stores (user receipt : ℤ) (o : store.Objects) (l l' : Ledger Double Raw) (n : ℕ)
      : Type 0 where
    pub rows : List ReceiptImage
    pub added : l'.images ≡ l.images ++ rows
    pub count : length rows ≡ n
    pub named : All (λ i. (i.receipt_id ≡ receipt) × (i.user_id ≡ user)) rows
    pub backed : All (IsBacked store o) rows
    pub same_db : l'.db ≡ l.db
    pub same_methods : l'.payment_methods ≡ l.payment_methods
    pub same_next : l'.next_receipt_id ≡ l.next_receipt_id

module _ (store : ImageStore) (sodium : Sodium) (normalize : Text → Result NormalizedImage)
    (cap : ℤ) (now : ℕ) (random : ℕ → List ℕ) {Double Raw : Type 0} where
  open store use {Objects, put, holds}

  abbrev stored :
      ℤ
      → ℤ
      → List PreparedImage
      → ℕ
      → Objects
      → Ledger Double Raw
      → Objects × Result (Ledger Double Raw)
  stored = store_images store sodium normalize cap now random

  -- Storing images takes no object away, whether or not it fails.
  pub store_images-Keeps :
      (user receipt : ℤ) (prepared : List PreparedImage) (n : ℕ) (o : Objects)
      (l : Ledger Double Raw)
      → Keeps store o (stored user receipt prepared n o l).0
  unfolding store_images
  store_images-Keeps user receipt [] n o l key h = h
  store_images-Keeps user receipt (prep ∷ rest) n o l key h =
      let new = generate_image_key user receipt (random n) in
      let (o', sent) = put new (codes "image/webp") prep.normalized.bytes o in
      let held = store.put_keeps new (codes "image/webp") prep.normalized.bytes o key h in
      elim (Result-cases (put new (codes "image/webp") prep.normalized.bytes o).1) [
        | inl (_, e) ↦
            rw (e, store_images) (store_images-Keeps user receipt rest (suc n) o' _ key held)
        | inr (_, e) ↦ rw (e, store_images) held
      ]

  one_more :
      (user receipt : ℤ) (prep : PreparedImage) (key : Text) (o : Objects)
      (l l' : Ledger Double Raw) (n : ℕ)
      → holds o key ≡ true
      → Stores store user receipt o (with_image now user receipt key prep.sha256_hex l) l' n
      → Stores store user receipt o l l' (suc n)
  one_more user receipt prep key o l l' n held s =
      let row : ReceiptImage = record {
        id = l.next_image_id;
        receipt_id = receipt;
        user_id = user;
        image_key = key;
        image_sha256 = prep.sha256_hex;
        created_at = now;
      } in
      record {
        rows = row ∷ s.rows;
        added = s.added ∙ append_assoc l.images (row ∷ []) s.rows;
        count = ground (arith, s.count);
        named = ((refl, refl), s.named);
        backed = (held, s.backed);
        same_db = s.same_db;
        same_methods = s.same_methods;
        same_next = s.same_next;
      }

  -- If no put failed, each image has its row, in order, and each row its object.
  pub store_images_lem :
      (user receipt : ℤ) (prepared : List PreparedImage) (n : ℕ) (o : Objects)
      (l l' : Ledger Double Raw)
      → (stored user receipt prepared n o l).1 ≡ ok l'
      → Stores store user receipt (stored user receipt prepared n o l).0 l l' (length prepared)
  unfolding store_images
  store_images_lem user receipt [] n o l l' h = record {
    rows = [];
    added = ground (arith, append-nil l.images);
    count = refl;
    named = tt;
    backed = tt;
    same_db = ground arith;
    same_methods = ground arith;
    same_next = ground arith;
  }
  store_images_lem user receipt (prep ∷ rest) n o l l' h =
      let new = generate_image_key user receipt (random n) in
      let o' = (put new (codes "image/webp") prep.normalized.bytes o).0 in
      let l1 = with_image now user receipt new prep.sha256_hex l in
      elim (Result-cases (put new (codes "image/webp") prep.normalized.bytes o).1) [
        | inl (_, e) ↦
            let left =
              store_images_lem user receipt rest (suc n) o' l1 l' (rw (e, store_images) at h) in
            let held =
              store_images-Keeps user receipt rest (suc n) o' l1 new
                (store.holds-put new (codes "image/webp") prep.normalized.bytes o e) in
            rw (e, store_images) (one_more user receipt prep new _ l l' _ held left)
        | inr (_, e) ↦ absurd (cc (rw (e, store_images) at h))
      ]
