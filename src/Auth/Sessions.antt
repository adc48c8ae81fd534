-- ===== src/Auth/Sessions.antt =====
-- Sessions: login, validation and logout.
use receipt_scanner.Prelude.{
  ℕ, ◌+◌, ◌<◌, ◌≡◌, refl, inl, inr, Bool, true, false, not, none, some, List, [], ◌∷◌, ◌++◌, any,
  keep, first, Text, text_eq, text_eq_refl, ok, ℤ, Bool-cases, Option-cases, arith,
}
use receipt_scanner.Auth.{
  Sodium, User, Session, AuthDb, session_matches, session_lifetime_seconds, hash_token,
  insert_session, user_with, login, validate_session, logout,
}
use receipt_scanner.Auth.Resets.{gone}

pub first-snoc :
    {A : Type 0} (p : A → Bool) (xs : List A) (x : A)
    → any p xs ≡ false
    → p x ≡ true
    → first p (xs ++ x ∷ []) ≡ some x
first-snoc p [] x n e = rw (e) refl
first-snoc p (y ∷ xs) x n e = elim (Bool-cases (p y)) [
  | inl k ↦ ground arith
  | inr k ↦ rw (k) (first-snoc p xs x (ground arith) e)
]

any-weaker :
    (hash : Text) (now : ℕ) (xs : List Session)
    → any (λ (s : Session). text_eq s.token_hash hash) xs ≡ false
    → any (session_matches hash now) xs ≡ false
any-weaker hash now [] h = refl
any-weaker hash now (s ∷ xs) h = elim (Bool-cases (text_eq s.token_hash hash)) [
  | inl k ↦ ground arith
  | inr k ↦ rw (k) (any-weaker hash now xs (ground arith))
]

module _ (sodium : Sodium) where
  abbrev NewSession : Text → ℕ → Text → Text → Text → AuthDb → AuthDb → Type 0
  NewSession raw now email password token db db' =
      (u : User) × (user_with sodium email db ≡ some u)
      × (sodium.pwhash_str_verify u.password_hash password ≡ true)
      × (token ≡ raw)
      × (any (λ (s : Session). text_eq s.token_hash (hash_token sodium raw)) db.sessions ≡ false)
      × (db'.sessions
          ≡ db.sessions
            ++ record {
              user_id = u.id;
              token_hash = hash_token sodium raw;
              expires_at = now + session_lifetime_seconds;
            }
              ∷ [])

  login-NewSession :
      (raw : Text) (now : ℕ) (email password token : Text) (db db' : AuthDb)
      → login sodium raw now email password db ≡ ok (db', some token)
      → NewSession raw now email password token db db'
  unfolding login insert_session
  login-NewSession raw now email password token db db' h =
      elim (Option-cases (user_with sodium email db)) [
        | inl e ↦ ground arith
        | inr (u, e) ↦ elim (Bool-cases (sodium.pwhash_str_verify u.password_hash password)) [
          | inl k ↦ (u, e, k, ground arith, ground arith, ground arith)
          | inr k ↦ ground arith
        ]
      ]

  found :
      (raw : Text) (now : ℕ) (db db' : AuthDb) (user : ℤ) (later : ℕ)
      → later < now + session_lifetime_seconds
      → any (λ (s : Session). text_eq s.token_hash (hash_token sodium raw)) db.sessions ≡ false
      → db'.sessions
        ≡ db.sessions
          ++ record {
            user_id = user;
            token_hash = hash_token sodium raw;
            expires_at = now + session_lifetime_seconds;
          }
            ∷ []
      → first (session_matches (hash_token sodium raw) later) db'.sessions
        ≡ some (record {
          user_id = user;
          token_hash = hash_token sodium raw;
          expires_at = now + session_lifetime_seconds;
        })
  found raw now db db' user later soon fresh stored = rw (stored) (
      first-snoc (session_matches (hash_token sodium raw) later) db.sessions _
        (any-weaker (hash_token sodium raw) later db.sessions fresh)
        (ground (arith, text_eq_refl (hash_token sodium raw))))

  logged_out :
      (raw : Text) (later : ℕ) (sessions : List Session)
      → first
          (session_matches (hash_token sodium raw) later)
          (keep (λ (s : Session). not (text_eq s.token_hash (hash_token sodium raw))) sessions)
        ≡ none
  logged_out raw later sessions =
      gone (λ (s : Session). not (text_eq s.token_hash (hash_token sodium raw)))
        (session_matches (hash_token sodium raw) later) sessions (λ a used. ground arith)

  -- A login that gives a token has checked the password of the account with the email, and gives
  -- the token that was generated. The token is valid for thirty days and names that account; once
  -- it is logged out it is valid no more.
  pub login_lem :
      (raw : Text) (now : ℕ) (email password token : Text) (db db' : AuthDb)
      → login sodium raw now email password db ≡ ok (db', some token)
      → (u : User) × (user_with sodium email db ≡ some u)
        × (sodium.pwhash_str_verify u.password_hash password ≡ true)
        × (token ≡ raw)
        × ((later touch_interval : ℕ)
            → later < now + session_lifetime_seconds
            → (validate_session sodium touch_interval later raw db').1 ≡ some u.id)
        × ((later touch_interval : ℕ)
            → (validate_session sodium touch_interval later raw (logout sodium raw db')).1 ≡ none)
  unfolding login validate_session logout insert_session
  login_lem raw now email password token db db' h =
      let (u, e, k, same, fresh, stored) = login-NewSession raw now email password token db db' h in
      (
        u,
        e,
        k,
        same,
        (λ later touch_interval soon.
            rw (found raw now db db' u.id later soon fresh stored, validate_session) refl),
        (λ later touch_interval.
            rw (logged_out raw later db'.sessions, validate_session, logout) refl),
      )
