-- ===== src/Receipts/Images/Backed.antt =====
-- Requests with images, one after another: every image row keeps its object, and no receipt gets
-- more images than the cap.
use receipt_scanner.Prelude.{
  ℕ, ◌≡◌, refl, ap, ◌∙◌, inl, inr, Bool, List, [], ◌∷◌, ◌++◌, All, All-append, All-weaken, Text,
  Result, ok, err, ℤ,
}
use receipt_scanner.Database.{ReceiptImage, Ledger}
use receipt_scanner.Auth.{Sodium}
use receipt_scanner.Receipts.Images.{
  ImageStore, NormalizedImage, PreparedImage, Written, store_images, insert_upload, upload_receipt,
  insert_added, add_images, with_receipt, uploaded_row, queue_receipt, answer,
}
use receipt_scanner.Receipts.Images.Stored.{Keeps, IsBacked, store_images-Keeps, store_images_lem}
use receipt_scanner.Receipts.Images.Cases.{IsRefused, upload_receipt_cases, add_images_cases}

-- A request, with its time and the random bytes of its keys.
pub data ImageRequest : Type 0 where
  upload : ℕ → (ℕ → List ℕ) → ℤ → List Text → Bool → ImageRequest
  add : ℕ → (ℕ → List ℕ) → ℤ → ℤ → List Text → Bool → ImageRequest

-- The objects and the tables after a request: one that threw leaves the tables.
unfoldable pub left_by :
    {O Double Raw A : Type 0}
    → Ledger Double Raw
    → O × Result (Ledger Double Raw × Written A)
    → O × Ledger Double Raw
left_by l (o, err _) = (o, l)
left_by l (o, ok (l', _)) = (o, l')

-- Each image row names an object of the store.
abbrev pub AllBacked :
    {Double Raw : Type 0} (store : ImageStore) → store.Objects × Ledger Double Raw → Type 0
AllBacked store (o, l) = All (IsBacked store o) l.images

pub refused_keeps :
    {O Double Raw A : Type 0} (P : O × Ledger Double Raw → Type 0) (o : O) (l : Ledger Double Raw)
    (out : O × Result (Ledger Double Raw × Written A))
    → IsRefused o l out
    → P (o, l)
    → P (left_by l out)
unfolding left_by
refused_keeps P o l out (inl (e, same)) h = rw same h
refused_keeps P o l out (inr (c, same)) h = rw same h

kept-IsBacked :
    (store : ImageStore) (a b : store.Objects) (images : List ReceiptImage)
    → Keeps store a b
    → All (IsBacked store a) images
    → All (IsBacked store b) images
kept-IsBacked store a b images keeps h =
    All-weaken (IsBacked store a) (IsBacked store b) images (λ i held. keeps i.image_key held) h

module _ (store : ImageStore) (sodium : Sodium) (normalize : Text → Result NormalizedImage)
    (cap : ℤ) {Double Raw : Type 0} where
  open store use {Objects, holds}

  unfoldable pub serve : ImageRequest → Objects × Ledger Double Raw → Objects × Ledger Double Raw
  unfolding left_by
  serve (upload now random user images force) (o, l) =
      left_by l (upload_receipt store sodium normalize cap now random user images force o l)
  serve (add now random user receipt images force) (o, l) =
      left_by l (add_images store sodium normalize cap now random user receipt images force o l)

  unfoldable pub serve_all :
      List ImageRequest → Objects × Ledger Double Raw → Objects × Ledger Double Raw
  unfolding serve
  serve_all [] s = s
  serve_all (request ∷ rest) s = serve_all rest (serve request s)

  module _ (now : ℕ) (random : ℕ → List ℕ) where
    -- A property of what is left, by how storing the images ended.
    pub answered :
        {A : Type 0} (P : Objects × Ledger Double Raw → Type 0)
        (after : Ledger Double Raw → Ledger Double Raw) (a : A) (l : Ledger Double Raw)
        (out : Objects × Result (Ledger Double Raw))
        → P (out.0, l)
        → ((l' : Ledger Double Raw) → out.1 ≡ ok l' → P (out.0, after l'))
        → P (left_by l (answer store sodium normalize cap now random after a out))
    unfolding left_by
    answered P after a l (o, err e) failed stored = failed
    answered P after a l (o, ok l') failed stored = stored l' refl

    answered-AllBacked :
        {A : Type 0} (after : Ledger Double Raw → Ledger Double Raw) (a : A) (user receipt : ℤ)
        (prepared : List PreparedImage) (o : Objects) (start l : Ledger Double Raw)
        → start.images ≡ l.images
        → ((l' : Ledger Double Raw) → (after l').images ≡ l'.images)
        → AllBacked store (o, l)
        → AllBacked store (
            left_by l (
              answer store sodium normalize cap now random after a (
                store_images store sodium normalize cap now random user receipt prepared 0 o
                  start)))
    answered-AllBacked after a user receipt prepared o start l same keeps h =
        let out =
          store_images store sodium normalize cap now random user receipt prepared 0 o start in
        let later =
          kept-IsBacked store o out.0 l.images
            (store_images-Keeps store sodium normalize cap now random user receipt prepared 0 o
              start)
            h in
        answered (AllBacked store) after a l out later (λ l' stored.
          let s =
            store_images_lem store sodium normalize cap now random user receipt prepared 0 o start
              l' stored in
          rw (keeps l' ∙ s.added ∙ ap (λ x. x ++ s.rows) same)
            (All-append (IsBacked store out.0) l.images s.rows later s.backed))

  upload-AllBacked :
      (now : ℕ) (random : ℕ → List ℕ) (user : ℤ) (images : List Text) (force : Bool)
      (s : Objects × Ledger Double Raw)
      → AllBacked store s
      → AllBacked store (serve (upload now random user images force) s)
  unfolding serve insert_upload
  upload-AllBacked now random user images force (o, l) h =
      elim (upload_receipt_cases store sodium normalize cap now random user images force o l) [
        | inl refused ↦
            refused_keeps (AllBacked store) o l
              (upload_receipt store sodium normalize cap now random user images force o l) refused h
        | inr u ↦ rw u.written (
            answered-AllBacked now random (λ l'. l') l.next_receipt_id user l.next_receipt_id
              u.prepared o (with_receipt (uploaded_row now l.next_receipt_id user u.direction) l) l
              refl (λ l'. refl) h)
      ]

  add-AllBacked :
      (now : ℕ) (random : ℕ → List ℕ) (user receipt : ℤ) (images : List Text) (force : Bool)
      (s : Objects × Ledger Double Raw)
      → AllBacked store s
      → AllBacked store (serve (add now random user receipt images force) s)
  unfolding serve insert_added
  add-AllBacked now random user receipt images force (o, l) h =
      elim (add_images_cases store sodium normalize cap now random user receipt images force o l) [
        | inl refused ↦
            refused_keeps (AllBacked store) o l
              (add_images store sodium normalize cap now random user receipt images force o l)
              refused h
        | inr u ↦ rw u.written (
            answered-AllBacked now random (queue_receipt receipt) tt user receipt u.prepared o l l
              refl (λ l'. refl) h)
      ]

  -- Whatever uploads and additions are served, and wherever a put or a check makes one of them
  -- throw: each row of `receipt_images` names an object of the store, if each did at the start.
  pub serve_all-Backed :
      (requests : List ImageRequest) (s : Objects × Ledger Double Raw)
      → AllBacked store s
      → AllBacked store (serve_all requests s)
  unfolding serve_all
  serve_all-Backed [] s h = h
  serve_all-Backed (upload now random user images force ∷ rest) s h =
      serve_all-Backed rest _ (upload-AllBacked now random user images force s h)
  serve_all-Backed (add now random user receipt images force ∷ rest) s h =
      serve_all-Backed rest _ (add-AllBacked now random user receipt images force s h)
