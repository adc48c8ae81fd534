-- ===== src/Receipts/Images/Removed.antt =====
-- `deleteReceipt` and `findConflict` of ReceiptService.cpp.
use receipt_scanner.Prelude.{
  ◌≡◌, ◌≢◌, refl, ◌↔◌, some, update_where, ◌==ℤ◌, ==ℤ_iff, if◌then◌else◌, inl, inr, Bool, true,
  false, not, none, List, [], ◌∷◌, map, any, keep, first, All, Text, text_eq, ℤ, Bool-cases,
  Option-cases, arith,
}
use receipt_scanner.Database.{Receipt, Item, ReceiptImage, Ledger}
use receipt_scanner.ItemService.{receipt_is}
use receipt_scanner.Receipts.Images.{
  ImageStore, PreparedImage, has_hash, find_conflict, image_of, item_of, offsets, without_offset,
  remove_all, delete_row, delete_receipt,
}
use receipt_scanner.Receipts.Images.Stored.{IsBacked}

remove_all_keeps :
    (store : ImageStore) (keys : List Text) (o : store.Objects) (k : Text)
    → All (λ key. text_eq k key ≡ false) keys
    → store.holds o k ≡ true
    → store.holds (remove_all store keys o) k ≡ true
unfolding remove_all
remove_all_keeps store [] o k h held = held
remove_all_keeps store (key ∷ rest) o k (other, h) held =
    remove_all_keeps store rest (store.remove key o).0 k h (store.remove_keeps key o k other held)

-- The second list is the first without the elements that pass the test; each of the others is
-- related to what it has become, in the same order.
pub data Removes {A : Type 0} (p : A → Bool) (R : A → A → Type 0) : List A → List A → Type 0 where
  nothing : Removes p R [] []
  removed : {a : A} {xs ys : List A} → p a ≡ true → Removes p R xs ys → Removes p R (a ∷ xs) ys
  kept :
      {a b : A} {xs ys : List A}
      → p a ≡ false
      → R a b
      → Removes p R xs ys
      → Removes p R (a ∷ xs) (b ∷ ys)

abbrev pub Same : {A : Type 0} → A → A → Type 0
Same a b = b ≡ a

keep-Removes :
    {A : Type 0} (p : A → Bool) (xs : List A) → Removes p Same xs (keep (λ x. not (p x)) xs)
keep-Removes p [] = nothing
keep-Removes p (x ∷ xs) = elim (Bool-cases (p x)) [
  | inl e ↦ rw (e) (removed e (keep-Removes p xs))
  | inr e ↦ rw (e) (kept e refl (keep-Removes p xs))
]

-- No image of another receipt shares its object with an image of this one.
abbrev pub HasOwnKeys : ℤ → List ReceiptImage → Type 0
HasOwnKeys receipt images =
    All
      (λ i.
        image_of receipt i ≡ false
        → All (λ key. text_eq i.image_key key ≡ false)
            (map (λ (x : ReceiptImage). x.image_key) (keep (image_of receipt) images)))
      images

kept-IsBacked :
    (store : ImageStore) (receipt : ℤ) (o : store.Objects) (keys : List Text)
    (images : List ReceiptImage)
    → All (IsBacked store o) images
    → All
        (λ i. image_of receipt i ≡ false → All (λ key. text_eq i.image_key key ≡ false) keys)
        images
    → All (IsBacked store (remove_all store keys o)) (keep (λ i. not (image_of receipt i)) images)
kept-IsBacked store receipt o keys [] backed own = tt
kept-IsBacked store receipt o keys (i ∷ images) (b, backed) (w, own) =
    elim (Bool-cases (image_of receipt i)) [
      | inl e ↦ rw (e) (kept-IsBacked store receipt o keys images backed own)
      | inr e ↦ rw (e) (
        remove_all_keeps store keys o i.image_key (w e) b,
        kept-IsBacked store receipt o keys images backed own,
      )
    ]

module _ {Double Raw : Type 0} where
  -- A receipt that offset the deleted one offsets none; any other is kept whole.
  abbrev pub Unlinked : ℤ → Receipt Double Raw → Receipt Double Raw → Type 0
  Unlinked receipt a b =
      (a.fields.offsets_receipt_id ≡ some receipt
        → b ≡ record a { fields = record a.fields { offsets_receipt_id = none } })
      × (a.fields.offsets_receipt_id ≢ some receipt → b ≡ a)

  -- The tables after the receipt's row was deleted, with what belongs to it and nothing else.
  pub record Deleted (user receipt : ℤ) (l l' : Ledger Double Raw) : Type 0 where
    pub receipts : Removes (receipt_is receipt user) (Unlinked receipt) l.db.receipts l'.db.receipts
    pub items : Removes (item_of receipt) Same l.db.items l'.db.items
    pub item_tags :
        Removes
          (λ (p : ℤ × ℤ).
            any (λ (i : Item Double). i.id ==ℤ p.0) (keep (item_of receipt) l.db.items))
          Same
          l.db.item_tags
          l'.db.item_tags
    pub images : Removes (image_of receipt) Same l.images l'.images
    pub others :
        (l'.db.categories ≡ l.db.categories)
        × (l'.db.tags ≡ l.db.tags)
        × (l'.payment_methods ≡ l.payment_methods)

  offsets_iff :
      (receipt : ℤ) (r : Receipt Double Raw)
      → (offsets receipt r ≡ true) ↔ (r.fields.offsets_receipt_id ≡ some receipt)
  offsets_iff receipt r = elim (Option-cases r.fields.offsets_receipt_id) [
    | inl e ↦ ground arith
    | inr (t, e) ↦ ground (arith, ==ℤ_iff t receipt)
  ]

  unlinked :
      (receipt : ℤ) (r : Receipt Double Raw)
      → Unlinked receipt r (if offsets receipt r then without_offset receipt r else r)
  unlinked receipt r = elim (Bool-cases (offsets receipt r)) [
    | inl e ↦ rw (e) ((λ _. refl), (λ other. absurd (other ((offsets_iff receipt r).0 e))))
    | inr e ↦ rw (e) ((λ same. absurd (cc (e, (offsets_iff receipt r).1 same))), (λ _. refl))
  ]

  rows-Removes :
      (p : Receipt Double Raw → Bool) (receipt : ℤ) (rows : List (Receipt Double Raw))
      → Removes p
          (Unlinked receipt)
          rows
          (update_where (offsets receipt) (without_offset receipt) (keep (λ r. not (p r)) rows))
  rows-Removes p receipt [] = nothing
  rows-Removes p receipt (r ∷ rows) = elim (Bool-cases (p r)) [
    | inl e ↦ rw (e) (removed e (rows-Removes p receipt rows))
    | inr e ↦ rw (e) (kept e (unlinked receipt r) (rows-Removes p receipt rows))
  ]

  delete_row-Deleted :
      (user receipt : ℤ) (l : Ledger Double Raw)
      → Deleted user receipt l (delete_row user receipt l)
  unfolding delete_row
  delete_row-Deleted user receipt l = record {
    receipts = rows-Removes (receipt_is receipt user) receipt l.db.receipts;
    items = keep-Removes (item_of receipt) l.db.items;
    item_tags = keep-Removes _ l.db.item_tags;
    images = keep-Removes (image_of receipt) l.images;
    others = (refl, refl, refl);
  }

module _ (store : ImageStore) {Double Raw : Type 0} where
  -- A receipt of the user is deleted, and nothing else is: exactly its own row, its items with their
  -- tags, and its images are gone, a receipt that offset it offsets none, and all other rows are as
  -- they were. The other image rows keep their objects, provided that no object is shared and each
  -- image had its object. Without such a receipt nothing changes.
  pub delete_receipt_lem :
      (user receipt : ℤ) (o : store.Objects) (l : Ledger Double Raw)
      → All (IsBacked store o) l.images
      → HasOwnKeys receipt l.images
      → (any (receipt_is receipt user) l.db.receipts ≡ true
          → ((delete_receipt store user receipt o l).2 ≡ true)
            × Deleted user receipt l (delete_receipt store user receipt o l).1
            × All
                (IsBacked store (delete_receipt store user receipt o l).0)
                (delete_receipt store user receipt o l).1.images)
        × (any (receipt_is receipt user) l.db.receipts ≡ false
            → delete_receipt store user receipt o l ≡ (o, l, false))
  unfolding delete_receipt delete_row
  delete_receipt_lem user receipt o l backed own = (
    (λ e.
        rw (e, delete_receipt)
          (
            refl,
            delete_row-Deleted user receipt l,
            kept-IsBacked store receipt o
                (map (λ (i : ReceiptImage). i.image_key) (keep (image_of receipt) l.images))
                l.images backed own,
          )),
    (λ e. rw (e, delete_receipt) refl),
  )

no_hash_iff :
    (user : ℤ) (hash : Text) (images : List ReceiptImage)
    → (first (has_hash user hash) images ≡ none) ↔ All (λ i. has_hash user hash i ≡ false) images
no_hash_iff user hash [] = ground arith
no_hash_iff user hash (i ∷ images) = ground (arith, no_hash_iff user hash images)

-- A batch meets no conflict exactly if no image of the user has the hash of one of its images.
find_conflict_iff :
    (user : ℤ) (prepared : List PreparedImage) (images : List ReceiptImage)
    → (find_conflict user prepared images ≡ none)
      ↔ All (λ p. All (λ i. has_hash user p.sha256_hex i ≡ false) images) prepared
unfolding find_conflict
find_conflict_iff user [] images = ground arith
find_conflict_iff user (prep ∷ rest) images = ground (
  arith,
  no_hash_iff user prep.sha256_hex images,
  find_conflict_iff user rest images,
  Option-cases (first (has_hash user prep.sha256_hex) images),
)
