-- ===== src/Receipts/Tests.antt =====
-- The receipt service at a small ledger: two receipts of one user, one of them with an image.
use receipt_scanner.Prelude.{
  ℕ, ◌+◌, ◌≡◌, refl, Bool, true, false, not, none, some, List, [], ◌∷◌, ◌++◌, map, any, keep, take,
  drop, count_where, In, All, Text, codes, text_eq, text_eq_iff, Result, ok, err, conflict_error,
  receipt_not_found_error, ℤ, pos, arith,
}
use receipt_scanner.LedgerInput.{EditableReceipt}
use receipt_scanner.Database.{ScanState, idle, scan_failed, scanned, Receipt, ReceiptImage, Ledger}
use receipt_scanner.ItemService.{receipt_is}
use receipt_scanner.Auth.{Sodium}
use receipt_scanner.Receipts.Reads.{row_to_summary, list_receipts}
use receipt_scanner.Receipts.Reads.Pages.{IsSorted, all_of, list_receipts_lem}
use receipt_scanner.Receipts.Images.{ImageStore, NormalizedImage, PreparedImage, delete_receipt}
use receipt_scanner.Receipts.Images.Stored.{IsBacked}
use receipt_scanner.Receipts.Images.Backed.{
  ImageRequest, upload, add, AllBacked, serve_all, serve_all-Backed,
}
use receipt_scanner.Receipts.Images.Capped.{IsCapped, serve_all-Capped}
use receipt_scanner.Receipts.Images.Removed.{HasOwnKeys, Deleted, delete_receipt_lem}
use receipt_scanner.Receipts.Edits.{retry_scan}
use receipt_scanner.Receipts.Edits.Retry.{IsFailedOf, Retries, retry_scan_lem}

abbrev rent : EditableReceipt ℤ
rent = record {
  kind = codes "purchase";
  direction = codes "outflow";
  total_cents = pos 900;
  currency = codes "AUD";
  merchant = none;
  store_name_raw = none;
  purchase_date = none;
  payment_method_id = none;
  tax_deductible = false;
  note = none;
  offsets_receipt_id = none;
  fx_rate_to_aud = none;
}

abbrev row : ℕ → ScanState → Receipt ℤ (Unit {0})
row id state = record {
  id = pos id;
  user_id = pos 1;
  fields = rent;
  aud_equivalent_cents = none;
  source = scanned;
  scan_state = state;
  scan_attempts = 3;
  reclaim_count = 0;
  scan_started_at = none;
  proposed_at = none;
  reviewed_at = none;
  raw_ocr_json = none;
  created_at = id;
  updated_at = 0;
}

abbrev photo : ReceiptImage
photo = record {
  id = pos 1;
  receipt_id = pos 1;
  user_id = pos 1;
  image_key = 107 ∷ [];
  image_sha256 = 104 ∷ [];
  created_at = 1;
}

abbrev ledger : Ledger ℤ (Unit {0})
ledger = record {
  db = record {
    receipts = row 1 scan_failed ∷ row 2 idle ∷ [];
    items = [];
    item_tags = [];
    categories = [];
    tags = [];
    next_item_id = pos 1;
  };
  images = photo ∷ [];
  payment_methods = [];
  next_receipt_id = pos 3;
  next_image_id = pos 2;
}

abbrev is_key : Text → Text → Bool
is_key k key = text_eq k key

held_first : (key : Text) (keys : List Text) → any (is_key key) (key ∷ keys) ≡ true
held_first key keys = ground (arith, text_eq_iff key key)

held_later :
    (key k : Text) (keys : List Text)
    → any (is_key k) keys ≡ true
    → any (is_key k) (key ∷ keys) ≡ true
held_later key k keys h = ground arith

held_others :
    (key k : Text) (keys : List Text)
    → text_eq k key ≡ false
    → any (is_key k) keys ≡ true
    → any (is_key k) (keep (λ x. not (text_eq x key)) keys) ≡ true
held_others key k [] other h = h
held_others key k (x ∷ keys) other h =
    ground
      (arith, held_others key k keys other, text_eq_iff x key, text_eq_iff k x, text_eq_iff k key)

-- A store that keeps its keys in a list, and never fails.
abbrev key_list : ImageStore
key_list = record {
  Objects = List Text;
  put = λ key type bytes o. (key ∷ o, ok tt);
  remove = λ key o. (keep (λ x. not (text_eq x key)) o, ok tt);
  holds = λ o k. any (is_key k) o;
  holds-put = λ key type bytes o e. held_first key o;
  put_keeps = λ key type bytes o k h. held_later key k o h;
  remove_keeps = λ key o k other h. held_others key k o other h;
}

abbrev plain : Sodium
plain = record {
  sha256 = λ s. s;
  pwhash_str = λ salt password. some password;
  pwhash_str_verify = λ hash password. text_eq hash password;
  citext_eq = text_eq;
  verify-str = λ salt password hash e. (text_eq_iff hash password).1 ground arith;
  citext_eq_refl = λ s. (text_eq_iff s s).1 refl;
}

abbrev as_is : Text → Result NormalizedImage
as_is bytes = ok (record { bytes = bytes; width = pos 1; height = pos 1 })

abbrev draws : ℕ → List ℕ
draws n = n ∷ []

-- A new receipt with two images, and one more image on receipt 1.
abbrev requests : List ImageRequest
requests =
    upload 5 draws (pos 1) ((1 ∷ []) ∷ (2 ∷ []) ∷ []) false
    ∷ add 6 draws (pos 1) (pos 1) ((3 ∷ []) ∷ []) true
    ∷ []

abbrev start : List Text × Ledger ℤ (Unit {0})
start = ((107 ∷ []) ∷ [], ledger)

start-AllBacked : AllBacked key_list start
start-AllBacked = (ground (arith, text_eq_iff (107 ∷ []) (107 ∷ [])), tt)

start-IsCapped : IsCapped (pos 8) ledger
start-IsCapped = record {
  few = λ id. ground arith;
  drawn = (refl, tt);
  rows_drawn = (refl, (refl, tt));
}

serve_all-Backed_example :
    AllBacked key_list (serve_all key_list plain as_is (pos 8) requests start)
serve_all-Backed_example =
    serve_all-Backed key_list plain as_is (pos 8) requests start start-AllBacked

serve_all-Capped_example :
    IsCapped (pos 8) (serve_all key_list plain as_is (pos 8) requests start).1
serve_all-Capped_example =
    serve_all-Capped key_list plain as_is (pos 8) requests start start-IsCapped

own_keys : HasOwnKeys (pos 1) (photo ∷ [])
own_keys = ((λ e. cc), tt)

abbrev deleted : List Text × Ledger ℤ (Unit {0}) × Bool
deleted = delete_receipt key_list (pos 1) (pos 1) ((107 ∷ []) ∷ []) ledger

delete_receipt_lem_example :
    (any (receipt_is (pos 1) (pos 1)) ledger.db.receipts ≡ true
      → (deleted.2 ≡ true)
        × Deleted (pos 1) (pos 1) ledger deleted.1
        × All (IsBacked key_list deleted.0) deleted.1.images)
    × (any (receipt_is (pos 1) (pos 1)) ledger.db.receipts ≡ false
        → deleted ≡ ((107 ∷ []) ∷ [], ledger, false))
delete_receipt_lem_example =
    delete_receipt_lem key_list (pos 1) (pos 1) ((107 ∷ []) ∷ []) ledger start-AllBacked own_keys

abbrev batch : List PreparedImage
batch =
    record {
      normalized = record { bytes = 1 ∷ []; width = pos 1; height = pos 1 };
      sha256_hex = 104 ∷ [];
    }
    ∷ []

abbrev any_row : Receipt ℤ (Unit {0}) → Bool
any_row r = true

list_receipts_lem_example :
    (list_receipts (pos 1) 1 0 ledger
      ≡ map row_to_summary (take 1 (drop 0 (all_of (pos 1) ledger))))
    × IsSorted (all_of (pos 1) ledger)
    × (count_where any_row (all_of (pos 1) ledger) ≡ 2)
    × (list_receipts (pos 1) (1 + 1) 0 ledger
        ≡ list_receipts (pos 1) 1 0 ledger ++ list_receipts (pos 1) 1 (0 + 1) ledger)
list_receipts_lem_example = list_receipts_lem (pos 1) 1 1 0 any_row ledger

retry_scan_lem_example :
    ((a : Receipt ℤ (Unit {0}))
      → In a ledger.db.receipts
      → IsFailedOf (pos 1) (pos 1) a
      → Retries 9 (pos 1) (pos 1) ledger)
    × (All (λ a. ¬ (IsFailedOf (pos 1) (pos 1) a)) ledger.db.receipts
        → any (receipt_is (pos 1) (pos 1)) ledger.db.receipts ≡ true
        → retry_scan 9 (pos 1) (pos 1) ledger
          ≡ err (conflict_error (codes "only a receipt in scan_failed can be retried")))
    × (any (receipt_is (pos 1) (pos 1)) ledger.db.receipts ≡ false
        → retry_scan 9 (pos 1) (pos 1) ledger ≡ err receipt_not_found_error)
retry_scan_lem_example = retry_scan_lem 9 (pos 1) (pos 1) ledger
