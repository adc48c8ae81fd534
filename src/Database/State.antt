-- ===== src/Database/State.antt =====
-- The view `v_receipt_state`: the two states that are derived from the timestamps of a receipt.
use receipt_scanner.Prelude.{
  ℕ, ◌≡◌, ◌↔◌, Bool, false, not, ◌&&◌, ◌||◌, Option, none, some, ltb, leb, is_some, arith,
}

-- `p > r` and `r >= p` on nullable timestamps, where a NULL makes the comparison fail.
abbrev later : Option ℕ → Option ℕ → Bool
later (some p) (some r) = ltb r p
later _ _ = false

unfoldable pub needs_review : Option ℕ → Option ℕ → Bool
needs_review proposed_at reviewed_at =
    is_some proposed_at && (not (is_some reviewed_at) || later proposed_at reviewed_at)

abbrev not_before : Option ℕ → Option ℕ → Bool
not_before (some r) (some p) = leb p r
not_before _ _ = false

unfoldable pub is_confirmed : Option ℕ → Option ℕ → Bool
is_confirmed proposed_at reviewed_at =
    is_some reviewed_at && (not (is_some proposed_at) || not_before reviewed_at proposed_at)

-- A receipt is in at most one of the two states, and in none only if it was neither proposed nor
-- reviewed.
review_states :
    (proposed_at reviewed_at : Option ℕ)
    → ((needs_review proposed_at reviewed_at && is_confirmed proposed_at reviewed_at) ≡ false)
      × (((needs_review proposed_at reviewed_at ≡ false)
            × (is_confirmed proposed_at reviewed_at ≡ false))
          ↔ ((proposed_at ≡ none) × (reviewed_at ≡ none)))
unfolding needs_review is_confirmed
review_states none none = ground arith
review_states none (some r) = ground arith
review_states (some p) none = ground arith
review_states (some p) (some r) = ground arith
