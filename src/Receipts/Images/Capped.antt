-- ===== src/Receipts/Images/Capped.antt =====
-- The per-receipt cap on images (MAX_IMAGES_PER_RECEIPT), through any requests.
use receipt_scanner.Prelude.{
  ℕ, ◌+◌, ◌≡◌, refl, ap, ◌∙◌, inl, inr, Bool, true, false, List, [], ◌∷◌, ◌++◌, any, length,
  update_where, count_where, All, All-append, All-weaken, Text, Result, Bool-cases, ℤ, pos, negsuc,
  ◌+ℤ◌, ◌≤ℤ◌, ltb_ℤ, ◌==ℤ◌, ==ℤ_iff, arith, if◌then◌else◌,
}
use receipt_scanner.Database.{ReceiptImage, Receipt, Ledger}
use receipt_scanner.ItemService.{receipt_is}
use receipt_scanner.Auth.{Sodium}
use receipt_scanner.Receipts.Images.{
  ImageStore, NormalizedImage, image_of, store_images, insert_upload, upload_receipt, insert_added,
  add_images, with_receipt, uploaded_row, queue_receipt, queued,
}
use receipt_scanner.Receipts.Images.Stored.{Stores, store_images_lem}
use receipt_scanner.Receipts.Images.Cases.{
  upload_receipt_cases, add_images_cases, length-prepare_images,
}
use receipt_scanner.Receipts.Images.Backed.{
  ImageRequest, upload, add, left_by, refused_keeps, answered, serve, serve_all,
}

count-append :
    {A : Type 0} (p : A → Bool) (xs ys : List A)
    → count_where p (xs ++ ys) ≡ count_where p xs + count_where p ys
count-append p [] ys = omega arith
count-append p (x ∷ xs) ys = ground (arith, count-append p xs ys)

count-named :
    (user receipt id : ℤ) (rows : List ReceiptImage)
    → All (λ i. (i.receipt_id ≡ receipt) × (i.user_id ≡ user)) rows
    → count_where (image_of id) rows ≡ (if receipt ==ℤ id then length rows else 0)
count-named user receipt id [] h = ground arith
count-named user receipt id (i ∷ rows) h = ground (arith, count-named user receipt id rows h.1)

-- The ids below a sequence's next value.
abbrev pub IsBelow : ℤ → ℤ → Type 0
IsBelow next id = ltb_ℤ id next ≡ true

later-IsBelow : (next id : ℤ) → IsBelow next id → IsBelow (next +ℤ pos 1) id
unfolding ◌+ℤ◌
later-IsBelow (pos n) (pos i) h = ground arith
later-IsBelow (pos n) (negsuc i) h = ground arith
later-IsBelow (negsuc n) (pos i) h = ground arith
later-IsBelow (negsuc n) (negsuc i) h = ground arith

next-IsBelow : (next : ℤ) → IsBelow (next +ℤ pos 1) next
unfolding ◌+ℤ◌
next-IsBelow (pos n) = ground arith
next-IsBelow (negsuc n) = ground arith

-- No image stands on a receipt that is still to come.
none_at_next :
    (next : ℤ) (images : List ReceiptImage)
    → All (λ i. IsBelow next i.receipt_id) images
    → count_where (image_of next) images ≡ 0
none_at_next next [] h = refl
none_at_next next (i ∷ images) h = ground (arith, none_at_next next images h.1)

module _ {Double Raw : Type 0} where
  -- Every receipt has at most `cap` images, and all ids were drawn from the sequence.
  pub record IsCapped (cap : ℤ) (l : Ledger Double Raw) : Type 0 where
    pub few : (id : ℤ) → pos (count_where (image_of id) l.images) ≤ℤ cap
    pub drawn : All (λ i. IsBelow l.next_receipt_id i.receipt_id) l.images
    pub rows_drawn : All (λ r. IsBelow l.next_receipt_id r.id) l.db.receipts

  still_drawn :
      (next : ℤ) (p : Receipt Double Raw → Bool) (rows : List (Receipt Double Raw))
      → All (λ r. IsBelow next r.id) rows
      → All (λ r. IsBelow next r.id) (update_where p queued rows)
  still_drawn next p [] h = tt
  still_drawn next p (r ∷ rows) h = (ground arith, still_drawn next p rows h.1)

  owned-drawn :
      (next user receipt : ℤ) (rows : List (Receipt Double Raw))
      → All (λ r. IsBelow next r.id) rows
      → any (receipt_is receipt user) rows ≡ true
      → IsBelow next receipt
  owned-drawn next user receipt [] h e = cc
  owned-drawn next user receipt (r ∷ rows) h e = ground (arith, owned-drawn next user receipt rows)

module _ (store : ImageStore) (sodium : Sodium) (normalize : Text → Result NormalizedImage)
    (cap : ℤ) {Double Raw : Type 0} where
  open store use {Objects}

  -- New rows keep the cap if the receipt had room for them.
  stored_few :
      (user receipt : ℤ) (o : Objects) (l l' : Ledger Double Raw) (n : ℕ)
      → Stores store user receipt o l l' n
      → ltb_ℤ cap (pos (count_where (image_of receipt) l.images + n)) ≡ false
      → ((id : ℤ) → pos (count_where (image_of id) l.images) ≤ℤ cap)
      → (id : ℤ) → pos (count_where (image_of id) l'.images) ≤ℤ cap
  stored_few user receipt o l l' n s room few id =
      let total : count_where (image_of id) l'.images
          ≡ count_where (image_of id) l.images + count_where (image_of id) s.rows =
        ap (count_where (image_of id)) s.added ∙ count-append (image_of id) l.images s.rows in
      let new = count-named user receipt id s.rows s.named in
      elim (Bool-cases (receipt ==ℤ id)) [
        | inr other ↦ ground (arith, total, new, few id)
        | inl same ↦
            let at_id : count_where (image_of receipt) l.images
                ≡ count_where (image_of id) l.images =
              ap (λ k. count_where (image_of k) l.images) ((==ℤ_iff receipt id).0 same) in
            ground (arith, total, new, s.count, at_id)
      ]

  stored_drawn :
      (user receipt next : ℤ) (o : Objects) (l l' : Ledger Double Raw) (n : ℕ)
      → Stores store user receipt o l l' n
      → IsBelow next receipt
      → All (λ i. IsBelow next i.receipt_id) l.images
      → All (λ i. IsBelow next i.receipt_id) l'.images
  stored_drawn user receipt next o l l' n s below h = rw s.added (
      All-append (λ i. IsBelow next i.receipt_id) l.images s.rows h
        (All-weaken (λ i. (i.receipt_id ≡ receipt) × (i.user_id ≡ user))
          (λ i. IsBelow next i.receipt_id) s.rows (λ i e. rw (e.0) below) s.named))

  module _ (now : ℕ) (random : ℕ → List ℕ) where
    upload-IsCapped :
        (user : ℤ) (images : List Text) (force : Bool) (s : Objects × Ledger Double Raw)
        → IsCapped cap s.1
        → IsCapped cap (serve store sodium normalize cap (upload now random user images force) s).1
    unfolding serve insert_upload left_by
    upload-IsCapped user images force (o, l) h =
        elim (upload_receipt_cases store sodium normalize cap now random user images force o l) [
          | inl refused ↦
              refused_keeps (λ s. IsCapped cap s.1) o l
                (upload_receipt store sodium normalize cap now random user images force o l) refused
                h
          | inr u ↦
              let start = with_receipt (uploaded_row now l.next_receipt_id user u.direction) l in
              let out =
                store_images store sodium normalize cap now random user l.next_receipt_id u.prepared
                  0 o start in
              rw u.written (
                answered store sodium normalize cap now random (λ s. IsCapped cap s.1) (λ l'. l')
                  l.next_receipt_id l out h
                  (λ l' stored.
                    let s =
                      store_images_lem store sodium normalize cap now random user l.next_receipt_id
                        u.prepared 0 o start l' stored in
                    let room : ltb_ℤ cap (
                          pos
                            (count_where (image_of l.next_receipt_id) l.images + length u.prepared))
                        ≡ false =
                      ground (
                        arith,
                        none_at_next l.next_receipt_id l.images h.drawn,
                        length-prepare_images sodium normalize images u.prepared u.all_prepared,
                        u.within_cap,
                      ) in
                    let new = next-IsBelow l.next_receipt_id in
                    (record {
                      few = stored_few user l.next_receipt_id out.0 start l' _ s room h.few;
                      drawn = rw s.same_next (
                          stored_drawn user l.next_receipt_id start.next_receipt_id out.0 start l' _
                            s new
                            (All-weaken (λ i. IsBelow l.next_receipt_id i.receipt_id)
                              (λ i. IsBelow start.next_receipt_id i.receipt_id) l.images
                              (λ i e. later-IsBelow l.next_receipt_id i.receipt_id e) h.drawn));
                      rows_drawn =
                          rw (s.same_next, s.same_db)
                            (All-append
                              (λ (r : Receipt Double Raw). IsBelow start.next_receipt_id r.id)
                              l.db.receipts _
                              (All-weaken
                                (λ (r : Receipt Double Raw). IsBelow l.next_receipt_id r.id)
                                (λ r. IsBelow start.next_receipt_id r.id) l.db.receipts
                                (λ r e. later-IsBelow l.next_receipt_id r.id e) h.rows_drawn)
                              (new, tt));
                    })))
        ]

    add-IsCapped :
        (user receipt : ℤ) (images : List Text) (force : Bool) (s : Objects × Ledger Double Raw)
        → IsCapped cap s.1
        → IsCapped cap
            (serve store sodium normalize cap (add now random user receipt images force) s).1
    unfolding serve insert_added left_by
    add-IsCapped user receipt images force (o, l) h =
        elim (add_images_cases store sodium normalize cap now random user receipt images force o
          l) [
            | inl refused ↦
                refused_keeps (λ s. IsCapped cap s.1) o l
                  (add_images store sodium normalize cap now random user receipt images force o l)
                  refused h
            | inr u ↦
                let out =
                  store_images store sodium normalize cap now random user receipt u.prepared 0 o
                    l in
                rw u.written (
                  answered store sodium normalize cap now random (λ s. IsCapped cap s.1)
                    (queue_receipt receipt) tt l out h
                    (λ l' stored.
                      let s =
                        store_images_lem store sodium normalize cap now random user receipt
                          u.prepared 0 o l l' stored in
                      let mine =
                        owned-drawn l.next_receipt_id user receipt l.db.receipts h.rows_drawn
                          u.owned in
                      (record {
                        few = stored_few user receipt out.0 l l' _ s u.within_cap h.few;
                        drawn = rw s.same_next (
                            stored_drawn user receipt l.next_receipt_id out.0 l l' _ s mine
                              h.drawn);
                        rows_drawn =
                            rw (s.same_next, s.same_db)
                              (still_drawn l.next_receipt_id _ l.db.receipts h.rows_drawn);
                      })))
          ]

  -- No uploads and additions, in any order, give a receipt more images than the cap, if none had
  -- more at the start, and the ids in use then were drawn from the sequence of receipt ids.
  pub serve_all-Capped :
      (requests : List ImageRequest) (s : Objects × Ledger Double Raw)
      → IsCapped cap s.1
      → IsCapped cap (serve_all store sodium normalize cap requests s).1
  unfolding serve_all
  serve_all-Capped [] s h = h
  serve_all-Capped (upload now random user images force ∷ rest) s h =
      serve_all-Capped rest _ (upload-IsCapped now random user images force s h)
  serve_all-Capped (add now random user receipt images force ∷ rest) s h =
      serve_all-Capped rest _ (add-IsCapped now random user receipt images force s h)
