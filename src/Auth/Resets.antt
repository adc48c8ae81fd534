-- ===== src/Auth/Resets.antt =====
-- The one-time tokens: password resets and email verification.
use receipt_scanner.Prelude.{
  ℕ, ◌≡◌, refl, sym, ◌≢◌, ◌⊎◌, inl, inr, Bool, true, false, not, none, some, List, [], ◌∷◌, keep,
  first, Text, text_eq, ok, ◌==ℤ◌, ==ℤ_iff, In, Bool-cases, Option-cases, if◌then◌else◌, arith,
}
use receipt_scanner.Auth.{
  Sodium, Session, AuthToken, AuthDb, reset, token_matches, hash_token, confirm_password_reset,
}

kept_here :
    {A : Type 0} (b : Bool) (x y : A) (ys : List A)
    → In x (if b then y ∷ ys else ys)
    → ((x ≡ y) × (b ≡ true)) ⊎ In x ys
kept_here true x y ys (inl e) = inl (e, refl)
kept_here true x y ys (inr i) = inr i
kept_here false x y ys i = inr i

In-keep :
    {A : Type 0} (p : A → Bool) (xs : List A) (x : A) → In x (keep p xs) → In x xs × (p x ≡ true)
In-keep p [] x i = elim i [ ]
In-keep p (y ∷ xs) x i = elim (kept_here (p y) x y (keep p xs) i) [
  | inl (e, k) ↦ (inl e, rw (e) k)
  | inr j ↦ let (old, k) = In-keep p xs x j in (inr old, k)
]

module _ {A : Type 0} (p q : A → Bool) where
  -- What was deleted is not found again.
  pub gone : (xs : List A) → ((a : A) → q a ≡ true → p a ≡ false) → first q (keep p xs) ≡ none
  gone [] h = refl
  gone (x ∷ xs) h = elim (Bool-cases (p x)) [
    | inl k ↦ elim (Bool-cases (q x)) [
      | inl e ↦ absurd (cc (k, h x e))
      | inr e ↦ rw (k, e) (gone xs h)
    ]
    | inr k ↦ rw (k) (gone xs h)
  ]

module _ (sodium : Sodium) where
  spent :
      (old new : List AuthToken) (raw : Text) (later : ℕ)
      → new ≡ keep (λ (t : AuthToken). not (text_eq t.token_hash (hash_token sodium raw))) old
      → first (token_matches (hash_token sodium raw) reset later) new ≡ none
  spent old new raw later e = rw (e) (
      gone (λ (t : AuthToken). not (text_eq t.token_hash (hash_token sodium raw)))
        (token_matches (hash_token sodium raw) reset later) old (λ a used. ground arith))

  reset_shape :
      (salt : Text) (now : ℕ) (raw new_password : Text) (db db' : AuthDb) (t : AuthToken)
      → first (token_matches (hash_token sodium raw) reset now) db.auth_tokens ≡ some t
      → confirm_password_reset sodium salt now raw new_password db ≡ ok (db', true)
      → (db'.sessions ≡ keep (λ (s : Session). not (s.user_id ==ℤ t.user_id)) db.sessions)
        × (db'.auth_tokens
            ≡ keep
                (λ (t : AuthToken). not (text_eq t.token_hash (hash_token sodium raw)))
                db.auth_tokens)
  unfolding confirm_password_reset
  reset_shape salt now raw new_password db db' t e h = ground arith

  -- After a reset that succeeds no session of the account is left, and the token does not work
  -- again: another reset with it changes nothing and returns false.
  pub confirm_password_reset_lem :
      (salt : Text) (now : ℕ) (raw new_password : Text) (db db' : AuthDb)
      → confirm_password_reset sodium salt now raw new_password db ≡ ok (db', true)
      → (t : AuthToken) × (first (token_matches (hash_token sodium raw) reset now) db.auth_tokens
          ≡ some t)
        × ((s : Session) → In s db'.sessions → In s db.sessions × (s.user_id ≢ t.user_id))
        × ((later : ℕ) (salt' password' : Text)
            → confirm_password_reset sodium salt' later raw password' db' ≡ ok (db', false))
  unfolding confirm_password_reset
  confirm_password_reset_lem salt now raw new_password db db' h =
      elim (Option-cases (first (token_matches (hash_token sodium raw) reset now) db.auth_tokens)) [
        | inl e ↦ ground arith
        | inr (t, e) ↦
            let (sessions, tokens) = reset_shape salt now raw new_password db db' t e h in
            (
              t,
              e,
              (λ s i.
                  let (old, other) =
                    In-keep (λ (s : Session). not (s.user_id ==ℤ t.user_id)) db.sessions s
                      (rw (sym sessions) i) in
                  (old, (λ same. cc (other, (==ℤ_iff s.user_id t.user_id).1 same)))),
              (λ later salt' password'.
                  rw (spent db.auth_tokens db'.auth_tokens raw later tokens, confirm_password_reset)
                    refl),
            )
      ]
