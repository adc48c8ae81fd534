-- ===== src/Receipts/Images.antt =====
-- The images of receipts/ReceiptService.cpp: upload, images added to a receipt, and removal. The
-- image store (storage/ImageStore.h) is an interface of the source, the record `ImageStore` here.
-- A transaction that fails is rolled back, so an exception carries no tables; the objects that
-- were put in the store before it stay there. The per-receipt cap is an argument, from the
-- environment, as are the time and the random bytes of each key.
pub mod Stored
pub mod Cases
pub mod Backed
pub mod Capped
pub mod Removed
use receipt_scanner.Prelude.{
  ℕ, suc, ◌+◌, ◌≡◌, Bool, true, false, not, ◌&&◌, Option, none, some, List, [], ◌∷◌, ◌++◌, map, any,
  keep, first, length, count_where, update_where, Text, codes, text_eq, to_string, Result, ok, err,
  ◌>>=◌, ◌>>◌, throw_if, receipt_not_found_error, too_many_images_error, ℤ, pos, negsuc, ◌+ℤ◌,
  ◌==ℤ◌, ltb_ℤ, if◌then◌else◌,
}
use receipt_scanner.Kinds.{default_kind, rules_for}
use receipt_scanner.LedgerInput.{new_receipt, canonical_text}
use receipt_scanner.Database.{ScanState, uploaded, scanned, Receipt, Item, ReceiptImage, Ledger, Db}
use receipt_scanner.ItemService.{receipt_is}
use receipt_scanner.Auth.{Sodium, to_hex}

-- The interface `ImageStore` with what its callers rely on: an object that was put is there, and
-- neither a put nor the removal of another object takes one away. `holds` is the stored key set.
pub record ImageStore : Type 1 where
  pub Objects : Type 0
  pub put : Text → Text → Text → Objects → Objects × Result (Unit {0})
  pub remove : Text → Objects → Objects × Result (Unit {0})
  pub holds : Objects → Text → Bool
  pub holds-put :
      (key content_type bytes : Text) (o : Objects)
      → (put key content_type bytes o).1 ≡ ok tt
      → holds (put key content_type bytes o).0 key ≡ true
  pub put_keeps :
      (key content_type bytes : Text) (o : Objects) (k : Text)
      → holds o k ≡ true
      → holds (put key content_type bytes o).0 k ≡ true
  pub remove_keeps :
      (key : Text) (o : Objects) (k : Text)
      → text_eq k key ≡ false
      → holds o k ≡ true
      → holds (remove key o).0 k ≡ true

pub record ImageConflict : Type 0 where
  pub receipt_id : ℤ
  pub image_id : ℤ

-- std::variant<A, ImageConflict>
pub data Written (A : Type 0) : Type 0 where
  done : A → Written A
  conflicts : ImageConflict → Written A

pub record NormalizedImage : Type 0 where
  pub bytes : Text
  pub width : ℤ
  pub height : ℤ

pub record PreparedImage : Type 0 where
  pub normalized : NormalizedImage
  pub sha256_hex : Text

unfoldable pub int_text : ℤ → Text
int_text (pos n) = to_string n
int_text (negsuc n) = codes "-" ++ to_string (suc n)

unfoldable pub generate_image_key : ℤ → ℤ → List ℕ → Text
unfolding int_text to_hex
generate_image_key user receipt random =
    codes "receipts/"
    ++ int_text user
    ++ codes "/"
    ++ int_text receipt
    ++ codes "/"
    ++ to_hex random
    ++ codes ".webp"

unfoldable pub sha256_hex_of : Sodium → Text → Text
unfolding to_hex
sha256_hex_of sodium bytes = to_hex (sodium.sha256 bytes)

-- The loop of `prepareImages`, with `ImageNormalizer::normalize`.
unfoldable pub prepare_images :
    Sodium → (Text → Result NormalizedImage) → List Text → Result (List PreparedImage)
unfolding sha256_hex_of
prepare_images sodium normalize [] = ok []
prepare_images sodium normalize (raw ∷ rest) = do
  normalized ← normalize raw
  others ← prepare_images sodium normalize rest
  ok (
      record { normalized = normalized; sha256_hex = sha256_hex_of sodium normalized.bytes }
      ∷ others)

abbrev pub has_hash : ℤ → Text → ReceiptImage → Bool
has_hash user hash i = i.user_id ==ℤ user && text_eq i.image_sha256 hash

unfoldable pub find_conflict : ℤ → List PreparedImage → List ReceiptImage → Option ImageConflict
find_conflict user [] images = none
find_conflict user (prep ∷ rest) images = elim (first (has_hash user prep.sha256_hex) images) [
  | none ↦ find_conflict user rest images
  | some i ↦ some (record { receipt_id = i.receipt_id; image_id = i.id })
]

-- Unless the request forces the write.
unfoldable pub conflict_unless_forced :
    Bool → ℤ → List PreparedImage → List ReceiptImage → Option ImageConflict
conflict_unless_forced true user prepared images = none
conflict_unless_forced false user prepared images = find_conflict user prepared images

-- The id of an image's receipt.
abbrev pub image_of : ℤ → ReceiptImage → Bool
image_of receipt i = i.receipt_id ==ℤ receipt

module _ {Double Raw : Type 0} where
  abbrev pub with_image : ℕ → ℤ → ℤ → Text → Text → Ledger Double Raw → Ledger Double Raw
  with_image now user receipt key hash l = record l {
    images =
        l.images
        ++ record {
          id = l.next_image_id;
          receipt_id = receipt;
          user_id = user;
          image_key = key;
          image_sha256 = hash;
          created_at = now;
        }
          ∷ [];
    next_image_id = l.next_image_id +ℤ pos 1;
  }

  -- The row of a new upload: the column defaults, and the kind and direction until the scan.
  abbrev pub uploaded_row : ℕ → ℤ → ℤ → Text → Receipt Double Raw
  uploaded_row now id user direction = record {
    id = id;
    user_id = user;
    fields = record new_receipt { kind = default_kind; direction = direction };
    aud_equivalent_cents = none;
    source = scanned;
    scan_state = uploaded;
    scan_attempts = 0;
    reclaim_count = 0;
    scan_started_at = none;
    proposed_at = none;
    reviewed_at = none;
    raw_ocr_json = none;
    created_at = now;
    updated_at = now;
  }

  abbrev pub with_receipt : Receipt Double Raw → Ledger Double Raw → Ledger Double Raw
  with_receipt r l = record l {
    db = record l.db { receipts = l.db.receipts ++ r ∷ [] };
    next_receipt_id = l.next_receipt_id +ℤ pos 1;
  }

  abbrev pub queued : Receipt Double Raw → Receipt Double Raw
  queued r = record r { scan_state = uploaded }

  abbrev pub queue_receipt : ℤ → Ledger Double Raw → Ledger Double Raw
  queue_receipt receipt l = record l {
    db = record l.db {
      receipts = update_where (λ (r : Receipt Double Raw). r.id ==ℤ receipt) queued l.db.receipts;
    };
  }

module _ (store : ImageStore) (sodium : Sodium) (normalize : Text → Result NormalizedImage)
    (cap : ℤ) (now : ℕ) (random : ℕ → List ℕ) {Double Raw : Type 0} where
  open store use {Objects, put, remove}

  -- `n` counts the keys that were drawn.
  unfoldable pub store_images :
      ℤ
      → ℤ
      → List PreparedImage
      → ℕ
      → Objects
      → Ledger Double Raw
      → Objects × Result (Ledger Double Raw)
  store_images user receipt [] n o l = (o, ok l)
  store_images user receipt (prep ∷ rest) n o l =
      let key = generate_image_key user receipt (random n) in
      let (o', sent) = put key (codes "image/webp") prep.normalized.bytes o in
      elim sent [
        | err e ↦ (o', err e)
        | ok _ ↦
            store_images user receipt rest (suc n) o'
              (with_image now user receipt key prep.sha256_hex l)
      ]

  -- What the transaction returns once the images are stored.
  abbrev pub answer :
      {A : Type 0}
      → (Ledger Double Raw → Ledger Double Raw)
      → A
      → Objects × Result (Ledger Double Raw)
      → Objects × Result (Ledger Double Raw × Written A)
  answer after a (o, err e) = (o, err e)
  answer after a (o, ok l) = (o, ok (after l, done a))

  -- The first checks run before the transaction, so the conflict is found in `l` itself.
  unfoldable pub insert_upload :
      ℤ
      → List PreparedImage
      → Text
      → Objects
      → Ledger Double Raw
      → Objects × Result (Ledger Double Raw × Written ℤ)
  unfolding store_images
  insert_upload user prepared direction o l =
      answer (λ l'. l') l.next_receipt_id
        (store_images user l.next_receipt_id prepared 0 o
          (with_receipt (uploaded_row now l.next_receipt_id user direction) l))

  unfoldable pub upload_receipt :
      ℤ
      → List Text
      → Bool
      → Objects
      → Ledger Double Raw
      → Objects × Result (Ledger Double Raw × Written ℤ)
  unfolding insert_upload
  upload_receipt user images force o l =
      if ltb_ℤ cap (pos (length images))
      then (o, err too_many_images_error)
      else elim (prepare_images sodium normalize images) [
        | err e ↦ (o, err e)
        | ok prepared ↦ elim (rules_for default_kind) [
          | err e ↦ (o, err e)
          | ok rules ↦ elim (conflict_unless_forced force user prepared l.images) [
            | some c ↦ (o, ok (l, conflicts c))
            | none ↦ insert_upload user prepared (canonical_text rules.canonical_direction) o l
          ]
        ]
      ]

  unfoldable pub insert_added :
      ℤ
      → ℤ
      → List PreparedImage
      → Objects
      → Ledger Double Raw
      → Objects × Result (Ledger Double Raw × Written (Unit {0}))
  unfolding store_images
  insert_added user receipt prepared o l =
      answer (queue_receipt receipt) tt (store_images user receipt prepared 0 o l)

  -- The ownership test and the rest see one state here.
  unfoldable pub add_images :
      ℤ
      → ℤ
      → List Text
      → Bool
      → Objects
      → Ledger Double Raw
      → Objects × Result (Ledger Double Raw × Written (Unit {0}))
  unfolding insert_added
  add_images user receipt images force o l =
      if not (any (receipt_is receipt user) l.db.receipts)
      then (o, err receipt_not_found_error)
      else elim (prepare_images sodium normalize images) [
        | err e ↦ (o, err e)
        | ok prepared ↦
            if ltb_ℤ cap (pos (count_where (image_of receipt) l.images + length prepared))
            then (o, err too_many_images_error)
            else elim (conflict_unless_forced force user prepared l.images) [
              | some c ↦ (o, ok (l, conflicts c))
              | none ↦ insert_added user receipt prepared o l
            ]
      ]

-- Best-effort: a failed removal is only logged.
unfoldable pub remove_all : (store : ImageStore) → List Text → store.Objects → store.Objects
remove_all store [] o = o
remove_all store (key ∷ rest) o = remove_all store rest (store.remove key o).0

abbrev pub item_of : {Double : Type 0} → ℤ → Item Double → Bool
item_of receipt i = i.receipt_id ==ℤ receipt

module _ {Double Raw : Type 0} where
  abbrev pub without_offset : ℤ → Receipt Double Raw → Receipt Double Raw
  without_offset receipt r = record r { fields = record r.fields { offsets_receipt_id = none } }

  abbrev pub offsets : ℤ → Receipt Double Raw → Bool
  offsets receipt r = elim r.fields.offsets_receipt_id [ none ↦ false | some t ↦ t ==ℤ receipt ]

  -- `DELETE FROM receipts`, with what the foreign keys do: the images and items go with the
  -- receipt and the tags with the items, and a receipt that offset it offsets none.
  unfoldable pub delete_row : ℤ → ℤ → Ledger Double Raw → Ledger Double Raw
  delete_row user receipt l =
      let items = keep (item_of receipt) l.db.items in
      record l {
        db = record l.db {
          receipts =
              update_where (offsets receipt) (without_offset receipt)
                (keep (λ (r : Receipt Double Raw). not (receipt_is receipt user r)) l.db.receipts);
          items = keep (λ i. not (item_of receipt i)) l.db.items;
          item_tags =
              keep (λ p. not (any (λ (i : Item Double). i.id ==ℤ p.0) items)) l.db.item_tags;
        };
        images = keep (λ i. not (image_of receipt i)) l.images;
      }

  unfoldable pub delete_receipt :
      (store : ImageStore)
      → ℤ
      → ℤ
      → store.Objects
      → Ledger Double Raw
      → store.Objects × Ledger Double Raw × Bool
  unfolding delete_row remove_all
  delete_receipt store user receipt o l =
      if not (any (receipt_is receipt user) l.db.receipts) then (o, l, false) else (
        remove_all store
            (map (λ (i : ReceiptImage). i.image_key) (keep (image_of receipt) l.images)) o,
        delete_row user receipt l,
        true,
      )
