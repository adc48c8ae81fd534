-- ===== src/Http/Tests.antt =====
-- The routes at small requests.
use receipt_scanner.Prelude.{
  ℕ, ◌≡◌, refl, true, false, codes, none, some, List, [], ◌∷◌, Text, text_eq, text_eq_iff,
  text_eq_refl, Result, ok, ℤ, pos, arith,
}
use receipt_scanner.Json.Concrete.{obj, end, tree}
use receipt_scanner.LedgerInput.{EditableReceipt}
use receipt_scanner.Database.{scan_failed, scanned, Receipt, Ledger}
use receipt_scanner.Auth.{Sodium}
use receipt_scanner.Receipts.Images.{ImageStore, NormalizedImage}
use receipt_scanner.Http.Receipts.{
  refuses, receipt_not_found, get, images, retry, update, remove, add, extract_image_files,
  check_sizes,
}
use receipt_scanner.Http.Foreign.{foreign_receipt}

-- A store in which nothing is ever kept.
abbrev full_store : ImageStore
full_store = record {
  Objects = Unit {0};
  put = λ key type bytes o. (o, ok tt);
  remove = λ key o. (o, ok tt);
  holds = λ o k. true;
  holds-put = λ key type bytes o e. refl;
  put_keeps = λ key type bytes o k h. refl;
  remove_keeps = λ key o k other h. refl;
}

abbrev plain : Sodium
plain = record {
  sha256 = λ token. token;
  pwhash_str = λ salt password. some password;
  pwhash_str_verify = λ hash password. text_eq hash password;
  citext_eq = text_eq;
  verify-str = λ salt password hash e. (text_eq_iff hash password).1 ground arith;
  citext_eq_refl = text_eq_refl;
}

abbrev as_is : Text → Result NormalizedImage
as_is bytes = ok (record { bytes = bytes; width = pos 1; height = pos 1 })

abbrev draws : ℕ → List ℕ
draws n = n ∷ []

abbrev theirs : EditableReceipt ℤ
theirs = record {
  kind = codes "purchase";
  direction = codes "outflow";
  total_cents = pos 900;
  currency = codes "AUD";
  merchant = none;
  store_name_raw = none;
  purchase_date = none;
  payment_method_id = none;
  tax_deductible = false;
  note = none;
  offsets_receipt_id = none;
  fx_rate_to_aud = none;
}

abbrev their_row : Receipt ℤ (Unit {0})
their_row = record {
  id = pos 1;
  user_id = pos 1;
  fields = theirs;
  aud_equivalent_cents = none;
  source = scanned;
  scan_state = scan_failed;
  scan_attempts = 3;
  reclaim_count = 0;
  scan_started_at = none;
  proposed_at = none;
  reviewed_at = none;
  raw_ocr_json = none;
  created_at = 1;
  updated_at = 1;
}

-- The receipt of user 1, which user 2 asks for.
abbrev ledger : Ledger ℤ (Unit {0})
ledger = record {
  db = record {
    receipts = their_row ∷ [];
    items = [];
    item_tags = [];
    categories = [];
    tags = [];
    next_item_id = pos 1;
  };
  images = [];
  payment_methods = [];
  next_receipt_id = pos 2;
  next_image_id = pos 1;
}

abbrev files : List Text
files = (1 ∷ []) ∷ []

accepted : extract_image_files (some files) ≡ none
unfolding extract_image_files check_sizes
accepted = refl

foreign_receipt_example :
    (get (pos 2) (pos 1) ledger ≡ refuses receipt_not_found)
    × (images (pos 2) (pos 1) ledger ≡ ok (refuses receipt_not_found))
    × (retry 9 (pos 2) (pos 1) ledger ≡ (ledger, refuses receipt_not_found))
    × (update tree 9 (pos 2) (pos 1) (obj end) ledger ≡ (ledger, refuses receipt_not_found))
    × (remove full_store (pos 2) (pos 1) tt ledger ≡ (tt, ledger, refuses receipt_not_found))
    × (add full_store plain as_is (pos 8) 9 draws (pos 2) (pos 1) (some files) [] tt ledger
        ≡ (tt, ledger, refuses receipt_not_found))
foreign_receipt_example =
    foreign_receipt tree full_store plain as_is (pos 8) 9 draws (pos 2) (pos 1) (obj end)
      (some files) [] tt ledger refl accepted
