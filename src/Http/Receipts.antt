-- ===== src/Http/Receipts.antt =====
-- controllers/ReceiptController.cpp: what each route answers. A request is its decoded parts: the
-- user's id that the session filter attached, the files of a multipart body (none if it does not
-- parse), the parameters, and the JSON body. A response is its status and what its body shows.
-- An exception that a handler lets escape is the result's, which Drogon answers with a 500.
use receipt_scanner.Prelude.{
  ℕ, ◌*◌, Bool, not, Option, none, some, List, [], ◌∷◌, length, Text, codes, text_eq, Exception,
  too_many_images_error, image_decode_error, receipt_not_found_error, Result, ok, err, ◌>>=◌, ℤ,
  pos, pos_part, ltb_ℤ, ◌==ℤ◌, ltb, if◌then◌else◌,
}
use receipt_scanner.Json.{Doubles, Json}
use receipt_scanner.Database.{Ledger}
use receipt_scanner.Auth.{Sodium}
use receipt_scanner.Http.{ErrorResponse, error_response, error_response_for}
use receipt_scanner.Receipts.Reads.{
  ReceiptSummary, ImageRef, get_receipt, list_receipts, list_images, find_image,
}
use receipt_scanner.Receipts.Images.{
  ImageStore, NormalizedImage, ImageConflict, Written, done, conflicts, upload_receipt, add_images,
  delete_receipt,
}
use receipt_scanner.Receipts.Edits.{create_manual, update_receipt, retry_scan}

pub data Response (Double : Type 0) : Type 0 where
  refuses : ErrorResponse → Response Double
  -- 409, with the image that is there already
  duplicate_of : ImageConflict → Response Double
  -- 201
  created : ℤ → Response Double
  -- 200
  status_ok : Response Double
  shows : ReceiptSummary Double → Response Double
  shows_all : List (ReceiptSummary Double) → Response Double
  shows_images : List ImageRef → Response Double
  sends_image : Text → Response Double

abbrev pub max_image_bytes : ℕ
max_image_bytes = 15 * 1024 * 1024

-- The loop of `extractImageFiles`, which stops at a file that is too large.
unfoldable pub check_sizes : List Text → Option ErrorResponse
check_sizes [] = none
check_sizes (file ∷ rest) =
    let later = check_sizes rest in
    if ltb max_image_bytes (length file)
    then some
        (error_response 400 (codes "file_too_large") (codes "each image must be 15MB or smaller"))
    else later

abbrev pub no_files : ErrorResponse
no_files =
    error_response 400 (codes "invalid_request")
      (codes "expected one or more multipart image files")

-- Why the files are refused, if they are.
unfoldable pub extract_image_files : Option (List Text) → Option ErrorResponse
unfolding check_sizes
extract_image_files none = some no_files
extract_image_files (some []) = some no_files
extract_image_files (some (file ∷ rest)) = check_sizes (file ∷ rest)

abbrev pub files_of : Option (List Text) → List Text
files_of none = []
files_of (some files) = files

unfoldable pub force_requested : Text → Bool
force_requested force = text_eq force (codes "true")

-- The handlers in their order, then the common mapping.
unfoldable pub image_write_error_response : Exception → ErrorResponse
unfolding error_response_for
image_write_error_response too_many_images_error =
    error_response 400 (codes "too_many_images")
      (codes "this would exceed the per-receipt image cap")
image_write_error_response (image_decode_error _) =
    error_response 400 (codes "invalid_image")
      (codes "could not decode image (JPEG, PNG or WebP expected)")
image_write_error_response e = error_response_for e

abbrev pub receipt_not_found : ErrorResponse
receipt_not_found = error_response 404 (codes "not_found") (codes "receipt not found")

abbrev pub image_not_found : ErrorResponse
image_not_found = error_response 404 (codes "not_found") (codes "image not found")

-- std::clamp(n, 1, 200) and std::max(0, n), as the numbers that they are.
unfoldable pub clamp_limit : ℤ → ℕ
clamp_limit n = if ltb_ℤ n (pos 1) then 1 else if ltb_ℤ (pos 200) n then 200 else pos_part n

unfoldable pub clamp_offset : ℤ → ℕ
clamp_offset n = if ltb_ℤ n (pos 0) then 0 else pos_part n

-- An empty parameter leaves the default.
unfoldable pub parameter : (Text → Result ℤ) → (ℤ → ℕ) → ℕ → Text → Result ℕ
parameter stoi clamp default [] = ok default
parameter stoi clamp default (c ∷ text) = stoi (c ∷ text) >>= λ n. ok (clamp n)

module _ {Double Raw : Type 0} where
  abbrev pub respond_to :
      {A : Type 0}
      → (A → Response Double)
      → Ledger Double Raw
      → Result (Ledger Double Raw × A)
      → Ledger Double Raw × Response Double
  respond_to show l (err e) = (l, refuses (error_response_for e))
  respond_to show l (ok (l', a)) = (l', show a)

  -- The response of a route that writes images, and what the request leaves.
  unfoldable pub write_response :
      {O A : Type 0}
      → (A → Response Double)
      → Ledger Double Raw
      → O × Result (Ledger Double Raw × Written A)
      → O × Ledger Double Raw × Response Double
  unfolding image_write_error_response
  write_response show l (o, err e) = (o, l, refuses (image_write_error_response e))
  write_response show l (o, ok (l', conflicts c)) = (o, l', duplicate_of c)
  write_response show l (o, ok (l', done a)) = (o, l', show a)

  unfoldable pub get : ℤ → ℤ → Ledger Double Raw → Response Double
  get user id l = elim (get_receipt user id l) [
    | none ↦ refuses receipt_not_found
    | some summary ↦ shows summary
  ]

  -- `stoi` is std::stoi, whose exceptions the handler lets escape.
  unfoldable pub list :
      (Text → Result ℤ) → Text → Text → ℤ → Ledger Double Raw → Result (Response Double)
  unfolding parameter clamp_limit clamp_offset
  list stoi limit offset user l = do
    count ← parameter stoi clamp_limit 50 limit
    start ← parameter stoi clamp_offset 0 offset
    ok (shows_all (list_receipts user count start l))

  -- Only a ReceiptNotFoundError is handled.
  unfoldable pub images : ℤ → ℤ → Ledger Double Raw → Result (Response Double)
  images user id l = elim (list_images user id l) [
    | ok refs ↦ ok (shows_images refs)
    | err e ↦ elim e [
      | receipt_not_found_error ↦ ok (refuses receipt_not_found)
      | other ↦ err other
    ]
  ]

  -- `load` is ImageStore::get.
  unfoldable pub image : (Text → Result Text) → ℤ → ℤ → Ledger Double Raw → Result (Response Double)
  image load user id l = elim (find_image id l) [
    | none ↦ ok (refuses image_not_found)
    | some location ↦
        if not (location.owner_user_id ==ℤ user)
        then ok (refuses image_not_found)
        else (load location.image_key >>= λ bytes. ok (sends_image bytes))
  ]

  unfoldable pub remove :
      (store : ImageStore)
      → ℤ
      → ℤ
      → store.Objects
      → Ledger Double Raw
      → store.Objects × Ledger Double Raw × Response Double
  remove store user id o l =
      let (o', l', deleted) = delete_receipt store user id o l in
      (o', l', (if deleted then status_ok else refuses receipt_not_found))

  unfoldable pub retry : ℕ → ℤ → ℤ → Ledger Double Raw → Ledger Double Raw × Response Double
  retry now user id l = respond_to shows l (retry_scan now user id l)

module _ (store : ImageStore) (sodium : Sodium) (normalize : Text → Result NormalizedImage)
    (cap : ℤ) (now : ℕ) (random : ℕ → List ℕ) {Double Raw : Type 0} where
  open store use {Objects}

  unfoldable pub upload :
      ℤ
      → Option (List Text)
      → Text
      → Objects
      → Ledger Double Raw
      → Objects × Ledger Double Raw × Response Double
  unfolding write_response force_requested
  upload user files force o l = elim (extract_image_files files) [
    | some refusal ↦ (o, l, refuses refusal)
    | none ↦ write_response created l (
        upload_receipt store sodium normalize cap now random user (files_of files)
          (force_requested force) o l)
  ]

  unfoldable pub add :
      ℤ
      → ℤ
      → Option (List Text)
      → Text
      → Objects
      → Ledger Double Raw
      → Objects × Ledger Double Raw × Response Double
  unfolding write_response force_requested
  add user id files force o l = elim (extract_image_files files) [
    | some refusal ↦ (o, l, refuses refusal)
    | none ↦
        write_response (λ _. status_ok) l
          (add_images store sodium normalize cap now random user id (files_of files)
            (force_requested force) o l)
  ]

module _ {d : Doubles} (j : Json d) {Raw : Type 0} (now : ℕ) where
  open d use {Double}
  open j use {Value}

  unfoldable pub create : Text → ℤ → Value → Ledger Double Raw → Ledger Double Raw × Response Double
  create today user body l = respond_to created l (create_manual j now today user body l)

  unfoldable pub update : ℤ → ℤ → Value → Ledger Double Raw → Ledger Double Raw × Response Double
  update user id body l = respond_to shows l (update_receipt j now user id body l)
