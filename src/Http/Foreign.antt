-- ===== src/Http/Foreign.antt =====
-- The routes of ReceiptController.cpp on what is not the user's: it looks as if it were not there.
use receipt_scanner.Prelude.{
  ℕ, ◌≡◌, refl, Bool, false, Option, none, some, List, [], ◌∷◌, any, first, Text, Result, ok, ℤ,
  ◌==ℤ◌, arith,
}
use receipt_scanner.Json.{Doubles, Json}
use receipt_scanner.Database.{Ledger}
use receipt_scanner.ItemService.{receipt_is}
use receipt_scanner.Auth.{Sodium}
use receipt_scanner.ScanWorker.Process.{what}
use receipt_scanner.Receipts.Reads.{ImageLocation, find_image, get_receipt, list_images}
use receipt_scanner.Receipts.Images.{ImageStore, NormalizedImage, delete_receipt, add_images}
use receipt_scanner.Receipts.Edits.{update_receipt}
use receipt_scanner.Receipts.Edits.Retry.{retry_scan_lem}
use receipt_scanner.Http.{error_response_for}
use receipt_scanner.Http.Receipts.{
  refuses, extract_image_files, image_write_error_response, receipt_not_found, image_not_found,
  write_response, get, images, image, remove, retry, add, update,
}

missing_first : {A : Type 0} (p : A → Bool) (xs : List A) → any p xs ≡ false → first p xs ≡ none
missing_first p [] h = refl
missing_first p (x ∷ xs) h = ground (arith, missing_first p xs)

module _ {d : Doubles} (j : Json d) (store : ImageStore) (sodium : Sodium)
    (normalize : Text → Result NormalizedImage) (cap : ℤ) (now : ℕ) (random : ℕ → List ℕ)
    {Raw : Type 0} where
  open d use {Double}
  open j use {Value}
  open store use {Objects}

  -- The six routes of ReceiptController that take a receipt's id (get, images, retry, update, remove,
  -- and add, if its files are acceptable) answer a user who has no such receipt with the same 404,
  -- whether the receipt is another user's or nobody's, and change neither the tables nor the objects.
  pub foreign_receipt :
      (user id : ℤ) (body : Value) (files : Option (List Text)) (force : Text) (o : Objects)
      (l : Ledger Double Raw)
      → any (receipt_is id user) l.db.receipts ≡ false
      → extract_image_files files ≡ none
      → (get user id l ≡ refuses receipt_not_found)
        × (images user id l ≡ ok (refuses receipt_not_found))
        × (retry now user id l ≡ (l, refuses receipt_not_found))
        × (update j now user id body l ≡ (l, refuses receipt_not_found))
        × (remove store user id o l ≡ (o, l, refuses receipt_not_found))
        × (add store sodium normalize cap now random user id files force o l
            ≡ (o, l, refuses receipt_not_found))
  unfolding get images retry update remove add write_response image_write_error_response
      error_response_for what get_receipt list_images update_receipt delete_receipt add_images
  foreign_receipt user id body files force o l missing accepted =
      let none_found = missing_first (receipt_is id user) l.db.receipts missing in
      let not_retried = (retry_scan_lem now user id l).2 missing in
      (
        ground arith,
        ground arith,
        rw (not_retried, retry) refl,
        rw (none_found, update, update_receipt) refl,
        rw (missing, remove, delete_receipt) refl,
        rw (accepted, missing, add, add_images) refl,
      )

  -- An image is sent only to the user of its receipt; to anybody else it is not there.
  pub foreign_image :
      (load : Text → Result Text) (user id : ℤ) (l : Ledger Double Raw) (location : ImageLocation)
      → find_image id l ≡ some location
      → (location.owner_user_id ==ℤ user) ≡ false
      → image load user id l ≡ ok (refuses image_not_found)
  unfolding image
  foreign_image load user id l location found other = rw (found, other, image) refl
