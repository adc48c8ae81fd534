-- ===== src/ScanWorker/Write/Stale.antt =====
-- What `applyResult` writes, whatever other transactions do between its steps.
use receipt_scanner.Prelude.{
  ℕ, zero, suc, ◌≡◌, refl, ◌⊎◌, inl, inr, Bool, true, some, first, Text, Result, ok, err,
  Option-cases, Result-cases, Bool-cases, arith,
}
use receipt_scanner.Json.{Doubles}
use receipt_scanner.Database.{Receipt, Db}
use receipt_scanner.ScanProvider.{ScanResult}
use receipt_scanner.ScanWorker.Queue.{ScanWorkerConfig, Claim, is_claimed_by}
use receipt_scanner.ScanWorker.Results.{Taxonomy}
use receipt_scanner.ScanWorker.Write.{
  Snapshot, compare_with, unchanged, read_snapshot, commit, write_result, apply_attempts,
}

-- The databases that other transactions alone can make of one.
pub data Others {Db : Type 0} (before between : ℕ → Db → Db) : Db → Db → Type 0 where
  nobody : {db : Db} → Others before between db db
  first_read : {a b : Db} (n : ℕ) → Others before between (before n a) b → Others before between a b
  locked_read :
      {a b : Db} (n : ℕ) → Others before between (between n a) b → Others before between a b

module _ {Double Raw : Type 0} where
  pub read_snapshot-first :
      (claim : Claim) (db : Db Double Raw) (s : Snapshot)
      → read_snapshot db claim ≡ some s
      → (r : Receipt Double Raw) × (first (is_claimed_by claim) db.receipts ≡ some r)
  unfolding read_snapshot
  read_snapshot-first claim db s h = elim (Option-cases (first (is_claimed_by claim) db.receipts)) [
    | inl e ↦ ground arith
    | inr (r, e) ↦ (r, e)
  ]

  pub commit-cases :
      (db : Db Double Raw) (r : Result (Db Double Raw))
      → ((commit db r).0 ≡ db) ⊎ (r ≡ ok (commit db r).0)
  unfolding commit
  commit-cases db (ok db') = inr refl
  commit-cases db (err e) = inl refl

module _ (d : Doubles) {Raw : Type 0} (similarity : Text → Text → Result d.Double)
    (before between : ℕ → Db d.Double Raw → Db d.Double Raw) (config : ScanWorkerConfig d.Double)
    (now : ℕ) (claim : Claim) (result : ScanResult d.Double Raw) (taxonomy : Taxonomy) where
  open d use {Double}

  -- The result was compared with the receipt of the claim in `start`, and is written to `current`, in
  -- which the claim is still current and its receipt the one that was compared.
  abbrev pub Written : Db Double Raw → Db Double Raw → Db Double Raw → Type 0
  Written start current db' =
      (read locked : Snapshot) × (all_match : Bool) × (read_snapshot start claim ≡ some read)
      × (read_snapshot current claim ≡ some locked)
      × (compare_with d similarity config read result ≡ ok all_match)
      × (unchanged read locked ≡ true)
      × (write_result now claim result taxonomy locked all_match current ≡ ok db')

  abbrev pub Outcome : Db Double Raw → Db Double Raw → Type 0
  Outcome db db' =
      Others before between db db'
      ⊎ ((start : Db Double Raw) × (n : ℕ) × Others before between db start
          × Written start (between n start) db')

  -- Whatever other transactions do, the database after all attempts is one that they alone made,
  -- or else the result was compared with the receipt as it stood in such a one, and the end is what
  -- one write makes of that database after the transactions between the comparison and the lock.
  -- The claim was then current under the lock, and the receipt's time of update, its being reviewed
  -- and its number of items were those that were compared.
  pub apply_attempts_lem :
      (n : ℕ) (db : Db Double Raw)
      → Outcome db
          (apply_attempts d similarity before between n config now claim result taxonomy db).0
  unfolding apply_attempts
  apply_attempts_lem zero db = inl nobody
  apply_attempts_lem (suc n) db =
      let start = before n db in
      let current = between n start in
      elim (Option-cases (read_snapshot start claim)) [
        | inl e ↦ rw (e, apply_attempts) (inl (first_read n nobody))
        | inr (read, e) ↦ elim (Result-cases (compare_with d similarity config read result)) [
          | inr (x, k) ↦ rw (e, k, apply_attempts) (inl (first_read n nobody))
          | inl (all_match, k) ↦ elim (Option-cases (read_snapshot current claim)) [
            | inl l ↦ rw (e, k, l, apply_attempts) (inl (first_read n (locked_read n nobody)))
            | inr (locked, l) ↦ elim (Bool-cases (unchanged read locked)) [
              | inl u ↦
                  rw (e, k, l, u, apply_attempts)
                    (elim (commit-cases current
                      (write_result now claim result taxonomy locked all_match current)) [
                        | inl c ↦ inl (rw c (first_read n (locked_read n nobody)))
                        | inr c ↦ inr (
                          start,
                          n,
                          first_read n nobody,
                          (read, locked, all_match, e, l, k, u, c),
                        )
                      ])
              | inr u ↦
                  rw (e, k, l, u, apply_attempts)
                    (elim (apply_attempts_lem n current) [
                      | inl others ↦ inl (first_read n (locked_read n others))
                      | inr (start', m, others, how) ↦
                          inr (start', m, first_read n (locked_read n others), how)
                    ])
            ]
          ]
        ]
      ]
