-- ===== src/Receipts/Reads/Pages.antt =====
-- `listReceipts` of ReceiptService.cpp: the order of the list, and its pages.
use receipt_scanner.Prelude.{
  ℕ, zero, suc, ◌+◌, ◌≡◌, refl, sym, ap, ◌∙◌, inl, inr, Bool, true, false, List, [], ◌∷◌, ◌++◌, map,
  keep, take, drop, count_where, ℤ, ◌==ℤ◌, Bool-cases, arith,
}
use receipt_scanner.Database.{Receipt, Ledger}
use receipt_scanner.Receipts.Reads.{
  row_to_summary, is_newer, insert_newest, newest_first, list_receipts,
}

take_nil : {A : Type 0} (n : ℕ) → take {A = A} n [] ≡ []
take_nil zero = refl
take_nil (suc n) = refl

drop_nil : {A : Type 0} (n : ℕ) → drop {A = A} n [] ≡ []
drop_nil zero = refl
drop_nil (suc n) = refl

suc_add : (n m : ℕ) → suc n + m ≡ suc (n + m)
suc_add n m = omega arith

zero_add : (m : ℕ) → 0 + m ≡ m
zero_add m = omega arith

take_add : {A : Type 0} (n m : ℕ) (xs : List A) → take (n + m) xs ≡ take n xs ++ take m (drop n xs)
take_add zero m xs = ap (λ k. take k xs) (zero_add m)
take_add (suc n) m [] = ap (λ k. take k []) (suc_add n m) ∙ sym (take_nil m)
take_add (suc n) m (x ∷ xs) =
    ap (λ k. take k (x ∷ xs)) (suc_add n m) ∙ ap (λ t. x ∷ t) (take_add n m xs)

drop_add : {A : Type 0} (n m : ℕ) (xs : List A) → drop (n + m) xs ≡ drop m (drop n xs)
drop_add zero m xs = ap (λ k. drop k xs) (zero_add m)
drop_add (suc n) m [] = ap (λ k. drop k []) (suc_add n m) ∙ sym (drop_nil m)
drop_add (suc n) m (x ∷ xs) = ap (λ k. drop k (x ∷ xs)) (suc_add n m) ∙ drop_add n m xs

map_append : {A B : Type 0} (f : A → B) (xs ys : List A) → map f (xs ++ ys) ≡ map f xs ++ map f ys
map_append f [] ys = refl
map_append f (x ∷ xs) ys = ap (λ t. f x ∷ t) (map_append f xs ys)

module _ {Double Raw : Type 0} where
  abbrev Leads : Receipt Double Raw → List (Receipt Double Raw) → Type 0
  Leads r [] = Unit
  Leads r (x ∷ _) = is_newer x r ≡ false

  -- No receipt stands before one that is newer.
  abbrev pub IsSorted : List (Receipt Double Raw) → Type 0
  IsSorted [] = Unit
  IsSorted (r ∷ rows) = Leads r rows × IsSorted rows

  not_both : (a b : Receipt Double Raw) → is_newer a b ≡ true → is_newer b a ≡ false
  not_both a b h = ground arith

  insert_newest-Leads :
      (x r : Receipt Double Raw) (rows : List (Receipt Double Raw))
      → Leads x rows
      → is_newer r x ≡ false
      → Leads x (insert_newest r rows)
  unfolding insert_newest
  insert_newest-Leads x r [] h e = e
  insert_newest-Leads x r (y ∷ rows) h e = elim (Bool-cases (is_newer r y)) [
    | inl k ↦ rw (k, insert_newest) e
    | inr k ↦ rw (k, insert_newest) h
  ]

  insert_newest-IsSorted :
      (r : Receipt Double Raw) (rows : List (Receipt Double Raw))
      → IsSorted rows
      → IsSorted (insert_newest r rows)
  unfolding insert_newest
  insert_newest-IsSorted r [] h = (tt, tt)
  insert_newest-IsSorted r (x ∷ rows) (leads, h) = elim (Bool-cases (is_newer r x)) [
    | inl k ↦ rw (k, insert_newest) (not_both r x k, (leads, h))
    | inr k ↦
        rw (k, insert_newest)
          (insert_newest-Leads x r rows leads k, insert_newest-IsSorted r rows h)
  ]

  newest_first-IsSorted : (rows : List (Receipt Double Raw)) → IsSorted (newest_first rows)
  unfolding newest_first
  newest_first-IsSorted [] = tt
  newest_first-IsSorted (r ∷ rows) =
      insert_newest-IsSorted r (newest_first rows) (newest_first-IsSorted rows)

  length-insert_newest :
      (p : Receipt Double Raw → Bool) (r : Receipt Double Raw) (rows : List (Receipt Double Raw))
      → count_where p (insert_newest r rows) ≡ count_where p (r ∷ rows)
  unfolding insert_newest
  length-insert_newest p r [] = refl
  length-insert_newest p r (x ∷ rows) = elim (Bool-cases (is_newer r x)) [
    | inl k ↦ rw (k, insert_newest) refl
    | inr k ↦ rw (k, insert_newest) (ground (arith, length-insert_newest p r rows))
  ]

  newest_first-count :
      (p : Receipt Double Raw → Bool) (rows : List (Receipt Double Raw))
      → count_where p (newest_first rows) ≡ count_where p rows
  unfolding newest_first
  newest_first-count p [] = refl
  newest_first-count p (r ∷ rows) =
      length-insert_newest p r (newest_first rows) ∙ ground (arith, newest_first-count p rows)

  -- The receipts of a user, as a whole.
  abbrev pub all_of : ℤ → Ledger Double Raw → List (Receipt Double Raw)
  all_of user l = newest_first (keep (λ (r : Receipt Double Raw). r.user_id ==ℤ user) l.db.receipts)

  -- The list is cut from the user's receipts, sorted with the newest first, without loss: any test
  -- holds for as many of them as of the user's rows. Two pages that follow one another are
  -- together the page of both lengths.
  pub list_receipts_lem :
      (user : ℤ) (n m offset : ℕ) (p : Receipt Double Raw → Bool) (l : Ledger Double Raw)
      → (list_receipts user n offset l ≡ map row_to_summary (take n (drop offset (all_of user l))))
        × IsSorted (all_of user l)
        × (count_where p (all_of user l)
            ≡ count_where p (keep (λ (r : Receipt Double Raw). r.user_id ==ℤ user) l.db.receipts))
        × (list_receipts user (n + m) offset l
            ≡ list_receipts user n offset l ++ list_receipts user m (offset + n) l)
  unfolding list_receipts
  list_receipts_lem user n m offset p l =
      let mine = keep (λ (r : Receipt Double Raw). r.user_id ==ℤ user) l.db.receipts in
      let rows = all_of user l in
      (
        refl,
        newest_first-IsSorted mine,
        newest_first-count p mine,
        ap (map row_to_summary) (take_add n m (drop offset rows))
            ∙ map_append row_to_summary (take n (drop offset rows))
                (take m (drop n (drop offset rows)))
            ∙ ap
                (λ x.
                  map row_to_summary (take n (drop offset rows)) ++ map row_to_summary (take m x))
                (sym (drop_add offset n rows)),
      )
