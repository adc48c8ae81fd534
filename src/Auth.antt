-- ===== src/Auth.antt =====
-- auth/: accounts, sessions and one-time tokens (AuthService.cpp, PasswordHasher.cpp,
-- TokenUtils.cpp, seeds/DefaultSeeds.h). libsodium is the record `Sodium`, and the random bytes of
-- a token and of a salt are arguments. Times are seconds. An exception rolls back, so it carries no
-- database.
pub mod RateLimiter
pub mod Sessions
pub mod Resets
pub mod Registration
mod Tests
use receipt_scanner.Prelude.{
  ℕ, ◌+◌, ◌-◌, ◌*◌, ◌/◌, ◌%◌, ◌≡◌, Bool, true, false, not, ◌&&◌, Option, none, some, List, [], ◌∷◌,
  ◌++◌, map, any, keep, first, get_elem?, update_where, Text, codes, text_eq, Result, ok, err,
  ◌>>=◌, ◌>>◌, throw_if, duplicate_email_error, runtime_error, ℤ, pos, ◌+ℤ◌, ◌==ℤ◌, ltb,
}
use receipt_scanner.Database.{Category}

-- What the code calls of libsodium and Postgres: the email column is CITEXT, so its equality is
-- the extension's.
pub record Sodium : Type 0 where
  -- crypto_hash_sha256
  pub sha256 : Text → List ℕ
  -- crypto_pwhash_str, which can run out of memory, on a salt and a password
  pub pwhash_str : Text → Text → Option Text
  -- crypto_pwhash_str_verify(hash, password) == 0
  pub pwhash_str_verify : Text → Text → Bool
  pub citext_eq : Text → Text → Bool
  -- the documented relation of the two password functions
  pub verify-str :
      (salt password hash : Text)
      → pwhash_str salt password ≡ some hash
      → pwhash_str_verify hash password ≡ true
  pub citext_eq_refl : (s : Text) → citext_eq s s ≡ true

pub record User : Type 0 where
  pub id : ℤ
  pub email : Text
  pub password_hash : Text
  pub email_verified_at : Option ℕ

pub record Session : Type 0 where
  pub user_id : ℤ
  pub token_hash : Text
  pub expires_at : ℕ

pub data Purpose : Type 0 where
  verify reset : Purpose

pub record AuthToken : Type 0 where
  pub user_id : ℤ
  pub token_hash : Text
  pub purpose : Purpose
  pub expires_at : ℕ

pub record PaymentMethod : Type 0 where
  pub user_id : ℤ
  pub name : Text
  pub stored_value : Bool

pub record AuthDb : Type 0 where
  pub users : List User
  pub sessions : List Session
  pub auth_tokens : List AuthToken
  pub categories : List Category
  pub payment_methods : List PaymentMethod
  pub next_user_id : ℤ
  pub next_category_id : ℤ

-- toHex: the two digits of each byte.
abbrev hex_digit : ℕ → List ℕ
hex_digit n = elim (get_elem? (codes "0123456789abcdef") n) [ none ↦ [] | some c ↦ c ∷ [] ]

unfoldable pub to_hex : List ℕ → Text
to_hex [] = []
to_hex (b ∷ bytes) = hex_digit (b / 16) ++ hex_digit (b % 16) ++ to_hex bytes

abbrev pub session_lifetime_seconds : ℕ
session_lifetime_seconds = 30 * 24 * 60 * 60

abbrev pub reset_lifetime_seconds : ℕ
reset_lifetime_seconds = 60 * 60

abbrev pub verification_lifetime_seconds : ℕ
verification_lifetime_seconds = 24 * 60 * 60

abbrev pub expense_categories : List Text
expense_categories =
    codes "groceries"
    ∷ codes "dining/takeaway"
    ∷ codes "transport"
    ∷ codes "fuel"
    ∷ codes "household"
    ∷ codes "utilities"
    ∷ codes "subscriptions"
    ∷ codes "insurance"
    ∷ codes "health"
    ∷ codes "clothing"
    ∷ codes "entertainment"
    ∷ codes "gifts"
    ∷ codes "fees"
    ∷ codes "bonds/deposits"
    ∷ codes "rewards"
    ∷ codes "work-expenses"
    ∷ codes "junk food"
    ∷ codes "hobby"
    ∷ codes "other"
    ∷ []

abbrev pub income_categories : List Text
income_categories =
    codes "salary" ∷ codes "interest" ∷ codes "dividends/distributions" ∷ codes "other-income" ∷ []

abbrev pub purpose_is : Purpose → Purpose → Bool
purpose_is verify verify = true
purpose_is reset reset = true
purpose_is _ _ = false

-- `WHERE token_hash = $1 AND expires_at > now()`
abbrev pub session_matches : Text → ℕ → Session → Bool
session_matches hash now s = text_eq s.token_hash hash && ltb now s.expires_at

abbrev pub token_matches : Text → Purpose → ℕ → AuthToken → Bool
token_matches hash purpose now t =
    text_eq t.token_hash hash && purpose_is t.purpose purpose && ltb now t.expires_at

-- An INSERT under the unique index on token_hash.
unfoldable pub insert_session : ℤ → Text → ℕ → AuthDb → Result AuthDb
insert_session user hash expires_at db =
    throw_if (any (λ (s : Session). text_eq s.token_hash hash) db.sessions)
      (runtime_error (codes "duplicate key value violates unique constraint"))
    >>= λ _. ok (record db {
      sessions =
          db.sessions ++ record { user_id = user; token_hash = hash; expires_at = expires_at } ∷ [];
    })

unfoldable pub insert_token : ℤ → Text → Purpose → ℕ → AuthDb → Result AuthDb
insert_token user hash purpose expires_at db =
    throw_if (any (λ (t : AuthToken). text_eq t.token_hash hash) db.auth_tokens)
      (runtime_error (codes "duplicate key value violates unique constraint"))
    >>= λ _. ok (record db {
      auth_tokens =
          db.auth_tokens
          ++ record {
            user_id = user;
            token_hash = hash;
            purpose = purpose;
            expires_at = expires_at;
          }
            ∷ [];
    })

-- The loop over the seeds of one side.
unfoldable pub seed_categories : ℤ → Bool → List Text → AuthDb → AuthDb
seed_categories user is_income [] db = db
seed_categories user is_income (name ∷ names) db = seed_categories user is_income names (record db {
  categories =
      db.categories
      ++ record { id = db.next_category_id; user_id = user; name = name; is_income = is_income }
        ∷ [];
  next_category_id = db.next_category_id +ℤ pos 1;
})

abbrev pub new_user : ℤ → Text → Text → User
new_user id email hash = record {
  id = id;
  email = email;
  password_hash = hash;
  email_verified_at = none;
}

-- The inserts of a registration: the user, the seeds, and the first payment method.
unfoldable pub new_account : Text → Text → AuthDb → AuthDb
unfolding seed_categories
new_account email hash db =
    let user = db.next_user_id in
    let seeded = seed_categories user true income_categories (
      seed_categories user false expense_categories (record db {
        users = db.users ++ new_user user email hash ∷ [];
        next_user_id = user +ℤ pos 1;
      })) in
    record seeded {
      payment_methods =
          seeded.payment_methods
          ++ record { user_id = user; name = codes "cash"; stored_value = false } ∷ [];
    }

module _ (sodium : Sodium) where
  unfoldable pub hash_token : Text → Text
  unfolding to_hex
  hash_token token = to_hex (sodium.sha256 token)

  unfoldable pub hash_password : Text → Text → Result Text
  hash_password salt password = elim (sodium.pwhash_str salt password) [
    | none ↦
        err
          (runtime_error (codes "PasswordHasher::hash: crypto_pwhash_str failed (out of memory?)"))
    | some hash ↦ ok hash
  ]

  unfoldable pub register_user : Text → Text → Text → AuthDb → Result (AuthDb × ℤ)
  register_user salt email password db = do
    hash ← hash_password salt password
    throw_if (any (λ (u : User). sodium.citext_eq u.email email) db.users) duplicate_email_error
    ok (new_account email hash db, db.next_user_id)

  abbrev pub user_with : Text → AuthDb → Option User
  user_with email db = first (λ (u : User). sodium.citext_eq u.email email) db.users

  -- `raw` is the token that `generateToken` makes.
  unfoldable pub login : Text → ℕ → Text → Text → AuthDb → Result (AuthDb × Option Text)
  unfolding hash_token insert_session
  login raw now email password db = elim (user_with email db) [
    | none ↦ ok (db, none)
    | some u ↦ elim (sodium.pwhash_str_verify u.password_hash password) [
      | false ↦ ok (db, none)
      | true ↦ insert_session u.id (hash_token raw) (now + session_lifetime_seconds) db >>= λ db'.
          ok (db', some raw)
    ]
  ]

  abbrev pub needs_touch : Text → ℕ → ℕ → Session → Bool
  needs_touch hash touch_interval now s =
      text_eq s.token_hash hash
      && ltb s.expires_at (now + (session_lifetime_seconds - touch_interval))

  -- The SELECT, then the UPDATE that slides the expiry. `touch_interval` is below the lifetime.
  unfoldable pub validate_session : ℕ → ℕ → Text → AuthDb → AuthDb × Option ℤ
  unfolding hash_token
  validate_session touch_interval now raw db =
      elim (first (session_matches (hash_token raw) now) db.sessions) [
        | none ↦ (db, none)
        | some s ↦ (
          record db {
            sessions =
                update_where (needs_touch (hash_token raw) touch_interval now)
                  (λ (s : Session). record s { expires_at = now + session_lifetime_seconds })
                  db.sessions;
          },
          some s.user_id,
        )
      ]

  unfoldable pub logout : Text → AuthDb → AuthDb
  unfolding hash_token
  logout raw db = record db {
    sessions = keep (λ (s : Session). not (text_eq s.token_hash (hash_token raw))) db.sessions;
  }

  unfoldable pub request_password_reset : Text → ℕ → Text → AuthDb → Result (AuthDb × Text)
  unfolding hash_token insert_token
  request_password_reset raw now email db = elim (user_with email db) [
    | none ↦ ok (db, raw)
    | some u ↦ insert_token u.id (hash_token raw) reset (now + reset_lifetime_seconds) db >>= λ db'.
        ok (db', raw)
  ]

  unfoldable pub confirm_password_reset : Text → ℕ → Text → Text → AuthDb → Result (AuthDb × Bool)
  unfolding hash_token hash_password
  confirm_password_reset salt now raw new_password db =
      elim (first (token_matches (hash_token raw) reset now) db.auth_tokens) [
        | none ↦ ok (db, false)
        | some t ↦ do
          hash ← hash_password salt new_password
          ok (
            record db {
              users =
                  update_where (λ (u : User). u.id ==ℤ t.user_id)
                    (λ (u : User). record u { password_hash = hash }) db.users;
              sessions = keep (λ (s : Session). not (s.user_id ==ℤ t.user_id)) db.sessions;
              auth_tokens =
                  keep (λ (t : AuthToken). not (text_eq t.token_hash (hash_token raw)))
                    db.auth_tokens;
            },
            true,
          )
      ]

  unfoldable pub request_email_verification : Text → ℕ → ℤ → AuthDb → Result (AuthDb × Text)
  unfolding hash_token insert_token
  request_email_verification raw now user db =
      insert_token user (hash_token raw) verify (now + verification_lifetime_seconds) db >>= λ db'.
      ok (db', raw)

  unfoldable pub confirm_email_verification : ℕ → Text → AuthDb → AuthDb × Bool
  unfolding hash_token
  confirm_email_verification now raw db =
      elim (first (token_matches (hash_token raw) verify now) db.auth_tokens) [
        | none ↦ (db, false)
        | some t ↦ (
          record db {
            users =
                update_where (λ (u : User). u.id ==ℤ t.user_id)
                  (λ (u : User). record u { email_verified_at = some now }) db.users;
            auth_tokens =
                keep (λ (t : AuthToken). not (text_eq t.token_hash (hash_token raw)))
                  db.auth_tokens;
          },
          true,
        )
      ]
