-- ===== src/Auth/Registration.antt =====
-- Registration: the account that it makes.
use receipt_scanner.Prelude.{
  ◌≡◌, refl, ◌∙◌, Bool, true, false, some, List, [], ◌∷◌, ◌++◌, any, throw_if, Text, ok, >>=-eq-ok,
  ℤ, pos, ◌+ℤ◌, Option-cases, inl, inr, arith,
}
use receipt_scanner.Auth.{
  Sodium, User, AuthDb, new_account, new_user, seed_categories, hash_password, register_user,
  user_with, income_categories, expense_categories,
}
use receipt_scanner.Auth.Sessions.{first-snoc}

seed_categories-users :
    (user : ℤ) (is_income : Bool) (names : List Text) (db : AuthDb)
    → (seed_categories user is_income names db).users ≡ db.users
unfolding seed_categories
seed_categories-users user is_income [] db = refl
seed_categories-users user is_income (name ∷ names) db =
    seed_categories-users user is_income names _

new_account-users :
    (email hash : Text) (db : AuthDb)
    → (new_account email hash db).users ≡ db.users ++ new_user db.next_user_id email hash ∷ []
unfolding new_account
new_account-users email hash db =
    let added = record db {
      users = db.users ++ new_user db.next_user_id email hash ∷ [];
      next_user_id = db.next_user_id +ℤ pos 1;
    } in
    let seeded = seed_categories db.next_user_id false expense_categories added in
    seed_categories-users db.next_user_id true income_categories seeded
    ∙ seed_categories-users db.next_user_id false expense_categories added

module _ (sodium : Sodium) where
  hash_password-verify :
      (salt password hash : Text)
      → hash_password sodium salt password ≡ ok hash
      → sodium.pwhash_str_verify hash password ≡ true
  unfolding hash_password
  hash_password-verify salt password hash h =
      elim (Option-cases (sodium.pwhash_str salt password)) [
        | inl e ↦ ground arith
        | inr (v, e) ↦ sodium.verify-str salt password hash (ground arith)
      ]

  -- A registration that succeeds makes an account that the email finds, whose id it returns and
  -- whose password hash accepts the password, so that the user can log in with them.
  pub register_user_lem :
      (salt email password : Text) (db db' : AuthDb) (id : ℤ)
      → register_user sodium salt email password db ≡ ok (db', id)
      → (u : User) × (user_with sodium email db' ≡ some u)
        × (u.id ≡ id)
        × (sodium.pwhash_str_verify u.password_hash password ≡ true)
  unfolding register_user
  register_user_lem salt email password db db' id h =
      let (hash, hashed, h1) = >>=-eq-ok (hash_password sodium salt password) _ h in
      let (_, free, h2) =
        >>=-eq-ok (throw_if (any (λ (u : User). sodium.citext_eq u.email email) db.users) _) _ h1 in
      let made : new_account email hash db ≡ db' = ground arith in
      let number : db.next_user_id ≡ id = ground arith in
      (
        new_user id email hash,
        rw (← made, new_account-users email hash db, number)
            (first-snoc (λ (u : User). sodium.citext_eq u.email email) db.users
              (new_user id email hash) (ground arith) (sodium.citext_eq_refl email)),
        refl,
        hash_password-verify salt password hash hashed,
      )
