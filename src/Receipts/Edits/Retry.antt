-- ===== src/Receipts/Edits/Retry.antt =====
-- `retryScan` of ReceiptService.cpp on every state of the receipt.
use receipt_scanner.Prelude.{
  ℕ, ◌≡◌, ◌↔◌, refl, sym, inl, inr, true, false, some, In, All, Pairwise, Bool-cases, ==ℤ_iff, List,
  [], ◌∷◌, any, first, update_where, codes, ok, err, conflict_error, receipt_not_found_error, ℤ,
  is_some, Option-cases, arith,
}
use receipt_scanner.Database.{ScanState, idle, uploaded, scanning, scan_failed, Receipt, Ledger}
use receipt_scanner.ScanWorker.Queue.{state_eq}
use receipt_scanner.ItemService.{receipt_is}
use receipt_scanner.Receipts.Reads.{ReceiptSummary, row_to_summary, get_receipt}
use receipt_scanner.Receipts.Edits.{with_receipts, retryable, retried, retry_scan}

state_eq-failed : (s : ScanState) → (state_eq s scan_failed ≡ true) ↔ (s ≡ scan_failed)
state_eq-failed idle = ground arith
state_eq-failed uploaded = ground arith
state_eq-failed scanning = ground arith
state_eq-failed scan_failed = ground arith

module _ {Double Raw : Type 0} where
  -- The owner still finds the receipt after the update.
  found_after :
      (now : ℕ) (user receipt : ℤ) (rows : List (Receipt Double Raw))
      → is_some (
          first
            (receipt_is receipt user)
            (update_where (retryable user receipt) (retried now) rows))
        ≡ any (receipt_is receipt user) rows
  found_after now user receipt [] = refl
  found_after now user receipt (r ∷ rows) = ground (arith, found_after now user receipt rows)

  retryable-owned :
      (user receipt : ℤ) (rows : List (Receipt Double Raw))
      → any (retryable user receipt) rows ≡ true
      → any (receipt_is receipt user) rows ≡ true
  retryable-owned user receipt [] h = h
  retryable-owned user receipt (r ∷ rows) h = ground (arith, retryable-owned user receipt rows)

  -- A receipt of the user whose scan has failed.
  abbrev pub IsFailedOf : ℤ → ℤ → Receipt Double Raw → Type 0
  IsFailedOf user receipt a = (a.id ≡ receipt) × (a.user_id ≡ user) × (a.scan_state ≡ scan_failed)

  -- The queued row: back in the queue with both budgets whole, and otherwise as it was.
  abbrev pub Requeues : ℕ → ℤ → ℤ → Receipt Double Raw → Receipt Double Raw → Type 0
  Requeues now user receipt a b =
      (IsFailedOf user receipt a
        → b ≡ record a {
          scan_state = uploaded;
          scan_attempts = 0;
          reclaim_count = 0;
          updated_at = now;
        })
      × (¬ (IsFailedOf user receipt a) → b ≡ a)

  retryable_iff :
      (user receipt : ℤ) (a : Receipt Double Raw)
      → (retryable user receipt a ≡ true) ↔ IsFailedOf user receipt a
  retryable_iff user receipt a =
      ground (arith, ==ℤ_iff a.id receipt, ==ℤ_iff a.user_id user, state_eq-failed a.scan_state)

  any-retryable :
      (user receipt : ℤ) (rows : List (Receipt Double Raw)) (a : Receipt Double Raw)
      → In a rows
      → IsFailedOf user receipt a
      → any (retryable user receipt) rows ≡ true
  any-retryable user receipt [] a i h = elim i [ ]
  any-retryable user receipt (r ∷ rows) a (inl e) h =
      let mine = (retryable_iff user receipt r).1 (rw (sym e) h) in rw (mine) refl
  any-retryable user receipt (r ∷ rows) a (inr i) h =
      let rest = any-retryable user receipt rows a i h in ground arith

  no_retryable :
      (user receipt : ℤ) (rows : List (Receipt Double Raw))
      → All (λ a. ¬ (IsFailedOf user receipt a)) rows
      → any (retryable user receipt) rows ≡ false
  no_retryable user receipt [] h = refl
  no_retryable user receipt (r ∷ rows) (other, h) = elim (Bool-cases (retryable user receipt r)) [
    | inl e ↦ absurd (other ((retryable_iff user receipt r).0 e))
    | inr e ↦ rw (e) (no_retryable user receipt rows h)
  ]

  requeued :
      (now : ℕ) (user receipt : ℤ) (rows : List (Receipt Double Raw))
      → Pairwise
          (Requeues now user receipt)
          rows
          (update_where (retryable user receipt) (retried now) rows)
  requeued now user receipt [] = tt
  requeued now user receipt (r ∷ rows) = (
    (elim (Bool-cases (retryable user receipt r)) [
      | inl e ↦ rw (e) ((λ _. refl), (λ other. absurd (other ((retryable_iff user receipt r).0 e))))
      | inr e ↦
          rw (e) ((λ mine. absurd (cc (e, (retryable_iff user receipt r).1 mine))), (λ _. refl))
    ]),
    requeued now user receipt rows,
  )

  -- What a retry that succeeds leaves, and shows of it.
  abbrev pub Retries : ℕ → ℤ → ℤ → Ledger Double Raw → Type 0
  Retries now user receipt l =
      (l' : Ledger Double Raw) × (summary : ReceiptSummary Double) × (retry_scan now user receipt l
        ≡ ok (l', summary))
      × Pairwise (Requeues now user receipt) l.db.receipts l'.db.receipts
      × (get_receipt user receipt l' ≡ some summary)
      × (l' ≡ with_receipts l'.db.receipts l)

  -- A retry of the user's receipt in scan_failed puts it in uploaded with both budgets reset and a
  -- new time of update, changes nothing else of it, no other row and no other table, and shows the
  -- receipt as it then is. For any other receipt of the user it is a conflict, and without one not
  -- found.
  pub retry_scan_lem :
      (now : ℕ) (user receipt : ℤ) (l : Ledger Double Raw)
      → ((a : Receipt Double Raw)
          → In a l.db.receipts
          → IsFailedOf user receipt a
          → Retries now user receipt l)
        × (All (λ a. ¬ (IsFailedOf user receipt a)) l.db.receipts
            → any (receipt_is receipt user) l.db.receipts ≡ true
            → retry_scan now user receipt l
              ≡ err (conflict_error (codes "only a receipt in scan_failed can be retried")))
        × (any (receipt_is receipt user) l.db.receipts ≡ false
            → retry_scan now user receipt l ≡ err receipt_not_found_error)
  unfolding retry_scan get_receipt
  retry_scan_lem now user receipt l =
      let found = found_after now user receipt l.db.receipts in
      let mine = retryable-owned user receipt l.db.receipts in
      let rows = update_where (retryable user receipt) (retried now) l.db.receipts in
      elim (Option-cases (first (receipt_is receipt user) rows)) [
        | inl e ↦ (
          (λ a i h.
              let some_row = any-retryable user receipt l.db.receipts a i h in
              absurd (ground arith)),
          (λ h k. absurd (ground arith)),
          (λ h. ground arith),
        )
        | inr (r, e) ↦ (
          (λ a i h.
              let some_row = any-retryable user receipt l.db.receipts a i h in
              (
                with_receipts rows l,
                row_to_summary r,
                ground arith,
                requeued now user receipt l.db.receipts,
                ground arith,
                refl,
              )),
          (λ h k. let no_row = no_retryable user receipt l.db.receipts h in ground arith),
          (λ h. absurd (ground arith)),
        )
      ]
