-- ===== src/ScanWorker/Queue/Slots.antt =====
-- The claim of a tick: the scan slots, and which rows it takes.
use receipt_scanner.Prelude.{
  ℕ, zero, suc, ◌+◌, ◌-◌, ◌≤◌, ◌≡◌, refl, sym, ap, ◌∙◌, ◌⊎◌, inl, inr, Bool, true, false, not, ◌||◌,
  ◌&&◌, List, [], ◌∷◌, map, take, keep, update_where, count_where, length, Pairwise, All, In,
  Distinct, ℤ, ◌==ℤ◌, ==ℤ_iff, Bool-cases, if◌then◌else◌, arith,
}
use receipt_scanner.Database.{ScanState, idle, uploaded, scanning, scan_failed, Receipt}
use receipt_scanner.ScanWorker.Queue.{
  ScanWorkerConfig, state_eq, is_scanning, is_older, insert_ordered, ordered, is_waiting, chosen,
  has_id_of, start_scan, claim,
}

module _ {A : Type 0} (P : A → Type 0) where
  All-take : (n : ℕ) (xs : List A) → All P xs → All P (take n xs)
  All-take zero xs h = tt
  All-take (suc n) [] h = tt
  All-take (suc n) (x ∷ xs) (p, h) = (p, All-take n xs h)

  All-keep :
      (p : A → Bool) (xs : List A) → ((x : A) → In x xs → p x ≡ true → P x) → All P (keep p xs)
  All-keep p [] h = tt
  All-keep p (x ∷ xs) h = elim (Bool-cases (p x)) [
    | inl e ↦ rw (e) (h x (inl refl) e, All-keep p xs (λ y i. h y (inr i)))
    | inr e ↦ rw (e) (All-keep p xs (λ y i. h y (inr i)))
  ]

length-take : {A : Type 0} (n : ℕ) (xs : List A) → length (take n xs) ≤ n
length-take zero xs = omega arith
length-take (suc n) [] = omega arith
length-take (suc n) (x ∷ xs) = omega (arith, length-take n xs)

module _ {A : Type 0} where
  count-or :
      (p q : A → Bool) (xs : List A)
      → count_where (λ x. p x || q x) xs ≤ count_where p xs + count_where q xs
  count-or p q [] = omega arith
  count-or p q (x ∷ xs) = ground (arith, count-or p q xs)

  -- Changing rows adds to the rows that pass a test at most the rows that are changed.
  count-update :
      (p changed : A → Bool) (f : A → A) (xs : List A)
      → count_where p (update_where changed f xs) ≤ count_where p xs + count_where changed xs
  count-update p changed f [] = omega arith
  count-update p changed f (x ∷ xs) = ground (arith, count-update p changed f xs)

waits :
    (s : ScanState) (l : Bool)
    → (state_eq s uploaded && not l) ≡ true
    → (s ≡ uploaded) × (l ≡ false)
waits uploaded l h = ground arith
waits idle l h = ground arith
waits scanning l h = ground arith
waits scan_failed l h = ground arith

module _ {Double Raw : Type 0} where
  abbrev pub DistinctIds : List (Receipt Double Raw) → Type 0
  DistinctIds rows = Distinct (map (λ (r : Receipt Double Raw). r.id) rows)

  In-id :
      (r : Receipt Double Raw) (rows : List (Receipt Double Raw))
      → In r rows
      → In r.id (map (λ (x : Receipt Double Raw). x.id) rows)
  In-id r [] i = elim i [ ]
  In-id r (x ∷ rows) (inl e) = inl (rw e refl)
  In-id r (x ∷ rows) (inr i) = inr (In-id r rows i)

  -- Rows of one table with one id are one row.
  pub one_row :
      (a b : Receipt Double Raw) (rows : List (Receipt Double Raw))
      → DistinctIds rows
      → In a rows
      → In b rows
      → a.id ≡ b.id
      → a ≡ b
  one_row a b [] d i k e = elim i [ ]
  one_row a b (x ∷ rows) d (inl i) (inl k) e = rw (i, k) refl
  one_row a b (x ∷ rows) d (inl i) (inr k) e =
      elim (d.0 (rw (ap (λ (r : Receipt Double Raw). r.id) (sym i), e) (In-id b rows k))) [ ]
  one_row a b (x ∷ rows) d (inr i) (inl k) e =
      elim (d.0 (rw (ap (λ (r : Receipt Double Raw). r.id) (sym k), sym e) (In-id a rows i))) [ ]
  one_row a b (x ∷ rows) d (inr i) (inr k) e = one_row a b rows d.1 i k e

  fresh_count :
      (id : ℤ) (rows : List (Receipt Double Raw))
      → ¬ (In id (map (λ (x : Receipt Double Raw). x.id) rows))
      → count_where (λ (r : Receipt Double Raw). id ==ℤ r.id) rows ≡ 0
  fresh_count id [] n = refl
  fresh_count id (r ∷ rows) n = elim (Bool-cases (id ==ℤ r.id)) [
    | inl e ↦ elim (n (inl ((==ℤ_iff id r.id).0 e))) [ ]
    | inr e ↦ rw (e) (fresh_count id rows (λ i. n (inr i)))
  ]

  id_count :
      (id : ℤ) (rows : List (Receipt Double Raw))
      → DistinctIds rows
      → count_where (λ (r : Receipt Double Raw). id ==ℤ r.id) rows ≤ 1
  id_count id [] d = omega arith
  id_count id (r ∷ rows) (n, d) = elim (Bool-cases (id ==ℤ r.id)) [
    | inl e ↦ rw (e, fresh_count id rows (rw ((==ℤ_iff id r.id).0 e) n)) (omega arith)
    | inr e ↦ rw (e) (id_count id rows d)
  ]

  none_picked : (rows : List (Receipt Double Raw)) → count_where (has_id_of []) rows ≤ 0
  none_picked [] = omega arith
  none_picked (r ∷ rows) = none_picked rows

  picked_count :
      (picked rows : List (Receipt Double Raw))
      → DistinctIds rows
      → count_where (has_id_of picked) rows ≤ length picked
  picked_count [] rows d = none_picked rows
  picked_count (p ∷ picked) rows d = omega (
    arith,
    count-or (λ r. p.id ==ℤ r.id) (has_id_of picked) rows,
    id_count p.id rows d,
    picked_count picked rows d,
  )

  -- A claim fills at most the free slots: with the ids distinct, the rows that are being scanned
  -- after it are at most `concurrency`, or no more than before it.
  pub claim-slots :
      (config : ScanWorkerConfig Double) (locked : ℤ → Bool) (clock : ℤ → ℕ)
      (rows : List (Receipt Double Raw))
      → DistinctIds rows
      → (count_where is_scanning (claim config locked clock rows).0 ≤ config.concurrency)
        ⊎ (count_where is_scanning (claim config locked clock rows).0
            ≤ count_where is_scanning rows)
  unfolding claim chosen
  claim-slots config locked clock rows d =
      let free = config.concurrency - count_where is_scanning rows in
      let waiting = ordered (keep (is_waiting locked) rows) in
      let picked = take free waiting in
      omega (
        arith,
        length-take free waiting,
        picked_count picked rows d,
        count-update is_scanning (has_id_of picked) (start_scan clock) rows,
      )

  pub All-insert_ordered :
      (P : Receipt Double Raw → Type 0) (r : Receipt Double Raw) (rows : List (Receipt Double Raw))
      → P r
      → All P rows
      → All P (insert_ordered r rows)
  unfolding insert_ordered
  All-insert_ordered P r [] p h = (p, tt)
  All-insert_ordered P r (x ∷ rows) p (q, h) = elim (Bool-cases (is_older r x)) [
    | inl e ↦ rw (e) (p, (q, h))
    | inr e ↦ rw (e) (q, All-insert_ordered P r rows p h)
  ]

  All-ordered :
      (P : Receipt Double Raw → Type 0) (rows : List (Receipt Double Raw))
      → All P rows
      → All P (ordered rows)
  unfolding ordered
  All-ordered P [] h = tt
  All-ordered P (r ∷ rows) (p, h) = All-insert_ordered P r (ordered rows) p (All-ordered P rows h)

  -- Every chosen row is a row of the table that waits and that no other transaction has locked.
  pub chosen-is_waiting :
      (config : ScanWorkerConfig Double) (locked : ℤ → Bool) (rows : List (Receipt Double Raw))
      → All (λ r. In r rows × (is_waiting locked r ≡ true)) (chosen config locked rows)
  unfolding chosen
  chosen-is_waiting config locked rows =
      let P = (λ (r : Receipt Double Raw). In r rows × (is_waiting locked r ≡ true)) in
      All-take P (config.concurrency - count_where is_scanning rows)
        (ordered (keep (is_waiting locked) rows))
        (All-ordered P (keep (is_waiting locked) rows)
          (All-keep P (is_waiting locked) rows (λ r i e. (i, e))))

  found :
      (P : Receipt Double Raw → Type 0) (picked : List (Receipt Double Raw))
      (r : Receipt Double Raw)
      → All P picked
      → has_id_of picked r ≡ true
      → (p : Receipt Double Raw) × P p × (p.id ≡ r.id)
  found P [] r h e = ground arith
  found P (p ∷ picked) r (q, h) e = elim (Bool-cases (p.id ==ℤ r.id)) [
    | inl same ↦ (p, q, (==ℤ_iff p.id r.id).0 same)
    | inr other ↦ found P picked r h (sym (rw (other) refl) ∙ e)
  ]

  -- A row whose id is chosen is itself one that waits.
  has_id_of-is_waiting :
      (config : ScanWorkerConfig Double) (locked : ℤ → Bool) (rows : List (Receipt Double Raw))
      (r : Receipt Double Raw)
      → DistinctIds rows
      → In r rows
      → has_id_of (chosen config locked rows) r ≡ true
      → is_waiting locked r ≡ true
  has_id_of-is_waiting config locked rows r d i e =
      let (p, (k, w), same) =
        found (λ p. In p rows × (is_waiting locked p ≡ true)) (chosen config locked rows) r
          (chosen-is_waiting config locked rows) e in
      rw (one_row r p rows d i k (sym same)) w

  pub Pairwise-update :
      (R : Receipt Double Raw → Receipt Double Raw → Type 0) (p : Receipt Double Raw → Bool)
      (f : Receipt Double Raw → Receipt Double Raw) (rows : List (Receipt Double Raw))
      → ((r : Receipt Double Raw) → In r rows → R r (if p r then f r else r))
      → Pairwise R rows (update_where p f rows)
  Pairwise-update R p f [] h = tt
  Pairwise-update R p f (r ∷ rows) h =
      (h r (inl refl), Pairwise-update R p f rows (λ x i. h x (inr i)))

  taken :
      (locked : ℤ → Bool) (clock : ℤ → ℕ) (mine : Bool) (r : Receipt Double Raw)
      → (mine ≡ true → is_waiting locked r ≡ true)
      → ((if mine then start_scan clock r else r) ≡ r)
        ⊎ ((r.scan_state ≡ uploaded)
            × (locked r.id ≡ false)
            × ((if mine then start_scan clock r else r) ≡ start_scan clock r))
  taken locked clock false r w = inl refl
  taken locked clock true r w = inr (
    (waits r.scan_state (locked r.id) (w refl)).0,
    (waits r.scan_state (locked r.id) (w refl)).1,
    refl,
  )

  -- A claim takes only rows that were uploaded and that no other transaction has locked: it puts
  -- them in scanning with their own start time, and leaves every other row as it was.
  pub claim-uploaded :
      (config : ScanWorkerConfig Double) (locked : ℤ → Bool) (clock : ℤ → ℕ)
      (rows : List (Receipt Double Raw))
      → DistinctIds rows
      → Pairwise
          (λ a b.
            (b ≡ a)
            ⊎ ((a.scan_state ≡ uploaded) × (locked a.id ≡ false) × (b ≡ start_scan clock a)))
          rows
          (claim config locked clock rows).0
  unfolding claim
  claim-uploaded config locked clock rows d =
      Pairwise-update _ (has_id_of (chosen config locked rows)) (start_scan clock) rows (λ r i.
        taken locked clock (has_id_of (chosen config locked rows) r) r
          (has_id_of-is_waiting config locked rows r d i))
