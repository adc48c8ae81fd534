-- ===== src/Auth/Tests.antt =====
-- Accounts, sessions and the rate limiter at a small database.
use receipt_scanner.Prelude.{
  ℕ, ◌+◌, ◌-◌, ◌<◌, ◌≤◌, ◌≡◌, ◌≢◌, refl, true, false, none, some, [], ◌∷◌, count_where, first, Text,
  codes, text_eq, text_eq_refl, ok, ◌&&◌, In, pos, arith,
}
use receipt_scanner.Auth.{
  Sodium, User, Session, AuthToken, AuthDb, reset, hash_token, hash_password, to_hex, new_account,
  new_user, register_user, login, validate_session, logout, confirm_password_reset, user_with,
  token_matches, session_lifetime_seconds, insert_session,
}
use receipt_scanner.Auth.RateLimiter.{RateLimiter, Attempt, answers, answers-bound, allow, counted}
use receipt_scanner.Auth.Sessions.{login_lem}
use receipt_scanner.Auth.Registration.{register_user_lem}
use receipt_scanner.Auth.Resets.{confirm_password_reset_lem}

-- A stand-in whose hash of a password is the password.
abbrev plain : Sodium
plain = record {
  sha256 = λ token. token;
  pwhash_str = λ salt password. some password;
  pwhash_str_verify = λ hash password. text_eq hash password;
  citext_eq = text_eq;
  verify-str = λ salt password hash e. ground (arith, text_eq_refl hash);
  citext_eq_refl = text_eq_refl;
}

abbrev no_accounts : AuthDb
no_accounts = record {
  users = [];
  sessions = [];
  auth_tokens = [];
  categories = [];
  payment_methods = [];
  next_user_id = pos 1;
  next_category_id = pos 1;
}

abbrev email : Text
email = 97 ∷ []

abbrev password : Text
password = 98 ∷ []

abbrev one_account : AuthDb
one_account = new_account email password no_accounts

registered : register_user plain [] email password no_accounts ≡ ok (one_account, pos 1)
unfolding register_user hash_password
registered = refl

register_user_lem_example :
    (u : User) × (user_with plain email one_account ≡ some u)
    × (u.id ≡ pos 1)
    × (text_eq u.password_hash password ≡ true)
register_user_lem_example =
    register_user_lem plain [] email password no_accounts one_account (pos 1) registered

abbrev token : Text
token = 1 ∷ []

abbrev logged_in : AuthDb
logged_in = record no_accounts {
  users = new_user (pos 1) email password ∷ [];
  sessions =
      record {
        user_id = pos 1;
        token_hash = hash_token plain token;
        expires_at = 5 + session_lifetime_seconds;
      }
      ∷ [];
}

abbrev logged_out : AuthDb
logged_out = record logged_in { sessions = [] }

login_now : login plain token 5 email password logged_out ≡ ok (logged_in, some token)
unfolding login insert_session text_eq
login_now = refl

login_lem_example :
    (u : User) × (user_with plain email logged_out ≡ some u)
    × (text_eq u.password_hash password ≡ true)
    × (token ≡ token)
    × ((later touch_interval : ℕ)
        → later < 5 + session_lifetime_seconds
        → (validate_session plain touch_interval later token logged_in).1 ≡ some u.id)
    × ((later touch_interval : ℕ)
        → (validate_session plain touch_interval later token (logout plain token logged_in)).1
          ≡ none)
login_lem_example = login_lem plain token 5 email password token logged_out logged_in login_now

abbrev reset_asked : AuthDb
reset_asked = record logged_in {
  auth_tokens =
      record {
        user_id = pos 1;
        token_hash = hash_token plain token;
        purpose = reset;
        expires_at = 3605;
      }
      ∷ [];
}

abbrev new_password : Text
new_password = 99 ∷ []

abbrev reset_done : AuthDb
reset_done = record logged_out { users = new_user (pos 1) email new_password ∷ [] }

reset_now : confirm_password_reset plain [] 6 token new_password reset_asked ≡ ok (reset_done, true)
unfolding confirm_password_reset hash_password hash_token to_hex codes text_eq
reset_now = refl

confirm_password_reset_lem_example :
    (t : AuthToken) × (first
        (token_matches (hash_token plain token) reset 6)
        reset_asked.auth_tokens
      ≡ some t)
    × ((s : Session)
        → In s reset_done.sessions
        → In s reset_asked.sessions × (s.user_id ≢ t.user_id))
    × ((later : ℕ) (salt password' : Text)
        → confirm_password_reset plain salt later token password' reset_done
          ≡ ok (reset_done, false))
confirm_password_reset_lem_example =
    confirm_password_reset_lem plain [] 6 token new_password reset_asked reset_done reset_now

abbrev limiter : RateLimiter
limiter = record {
  max_attempts = 2;
  window = 300;
  attempts = λ k. some (record { window_start = 0; count = 1 });
}

abbrev at : ℕ → Attempt
at now = record { key = email; now = now; made = now }

limited : count_where (λ p. text_eq p.0 email && p.1) (answers limiter (at 1 ∷ at 2 ∷ [])) ≡ 1
unfolding answers allow counted text_eq
limited = refl

answers-bound_example :
    count_where (λ p. text_eq p.0 email && p.1) (answers limiter (at 1 ∷ at 2 ∷ [])) ≤ 2 - 1
answers-bound_example =
    answers-bound limiter email (record { window_start = 0; count = 1 }) (at 1 ∷ at 2 ∷ []) refl
      ((λ _. omega arith), ((λ _. omega arith), tt))
