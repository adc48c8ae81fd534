-- ===== src/Http/Accounts.antt =====
-- controllers/AuthController.cpp: the routes on accounts and sessions. A request is its decoded
-- body (none if it does not parse), its peer's address and its session cookie. The limiters of the
-- log-in and of the registration are arguments. An exception that a handler lets escape is the
-- result's, which Drogon answers with a 500, and it carries no tables but the limiters' new state.
pub mod Answers
mod Tests
use receipt_scanner.Prelude.{
  ℕ, ◌≡◌, refl, Bool, true, false, not, ◌&&◌, ◌||◌, Option, none, some, List, [], ◌∷◌, Text, codes,
  Exception, duplicate_email_error, json_type_error, Result, ok, err, ◌>>=◌, ℤ, if◌then◌else◌,
}
use receipt_scanner.Json.{Doubles, Json, contains, get_string_or_throw}
use receipt_scanner.Auth.{
  Sodium, AuthDb, register_user, login, logout, request_password_reset, confirm_password_reset,
  request_email_verification, confirm_email_verification, session_lifetime_seconds,
}
use receipt_scanner.Auth.RateLimiter.{RateLimiter, Attempt, check_rate_limit}
use receipt_scanner.Http.{ErrorResponse, error_response}

pub record Cookie : Type 0 where
  pub name : Text
  pub value : Text
  pub http_only : Bool
  pub secure : Bool
  pub same_site_lax : Bool
  pub path : Text
  pub max_age : ℕ

pub data AccountResponse : Type 0 where
  refuses : ErrorResponse → AccountResponse
  -- 201
  created : ℤ → AccountResponse
  -- 200, perhaps with a cookie
  status_ok : Option Cookie → AccountResponse

abbrev pub Limiters : Type 0
Limiters = RateLimiter × RateLimiter

abbrev pub invalid_request : Text → ErrorResponse
invalid_request message = error_response 400 (codes "invalid_request") message

unfoldable pub make_session_cookie : Bool → Text → Cookie
make_session_cookie secure raw = record {
  name = codes "session";
  value = raw;
  http_only = true;
  secure = secure;
  same_site_lax = true;
  path = codes "/";
  max_age = session_lifetime_seconds;
}

-- The cookie that clears the session at the client.
abbrev pub expired_cookie : Cookie
expired_cookie = record {
  name = codes "session";
  value = [];
  http_only = false;
  secure = false;
  same_site_lax = false;
  path = codes "/";
  max_age = 0;
}

-- The limiters, the tables, and the response of a route.
abbrev pub Routed : Type 0
Routed = Limiters × AuthDb × Result AccountResponse

abbrev pub respond : Limiters → AuthDb → AccountResponse → Routed
respond limiters db response = (limiters, db, ok response)

abbrev pub attempt : Text → ℕ → Attempt
attempt key now = record { key = key; now = now; made = now }

-- Both limiters count the attempt, and then the rest of the route runs or is refused.
unfoldable pub limited :
    Text → Text → Text → ℕ → Limiters → AuthDb → AuthDb × Result AccountResponse → Routed
limited message ip email now limiters db rest =
    let (limiters', allowed) =
      check_rate_limit (attempt ip now) (attempt email now) limiters.0 limiters.1 in
    if not allowed
    then respond limiters' db (refuses (error_response 429 (codes "rate_limited") message))
    else (limiters', rest.0, rest.1)

unfoldable pub login_response : Bool → Option Text → AccountResponse
unfolding make_session_cookie
login_response secure none =
    refuses (error_response 401 (codes "invalid_credentials") (codes "wrong email or password"))
login_response secure (some raw) = status_ok (some (make_session_cookie secure raw))

-- The one exception that the registration handles.
unfoldable pub register_error : Exception → Result AccountResponse
register_error duplicate_email_error = ok (
    refuses (
      error_response 409 (codes "email_taken") (codes "an account with this email already exists")))
register_error e = err e

abbrev pub token_response : Text → Bool → AccountResponse
token_response message false = refuses (error_response 400 (codes "invalid_token") message)
token_response message true = status_ok none

module _ (sodium : Sodium) where
  unfoldable pub register_account :
      Text → Text → ℕ → Text → Text → AuthDb → AuthDb × Result AccountResponse
  unfolding register_error
  register_account salt raw now email password db =
      elim (register_user sodium salt email password db) [
        | err e ↦ (db, register_error e)
        | ok (db', id) ↦ elim (request_email_verification sodium raw now id db') [
          | err e ↦ (db', register_error e)
          | ok (db'', _) ↦ (db'', ok (created id))
        ]
      ]

  unfoldable pub open_session :
      Bool → Text → ℕ → Text → Text → AuthDb → AuthDb × Result AccountResponse
  unfolding login_response
  open_session secure raw now email password db = elim (login sodium raw now email password db) [
    | err e ↦ (db, err e)
    | ok (db', session) ↦ (db', ok (login_response secure session))
  ]

  unfoldable pub logout_route : Text → AuthDb → AuthDb × AccountResponse
  logout_route token db = (logout sodium token db, status_ok (some expired_cookie))

module _ {d : Doubles} (j : Json d) where
  open j use {Value}

  -- `body[key].get<std::string>()`, after `contains`; a missing key would read as null.
  unfoldable pub text_at : Value → Text → Result Text
  text_at body key = elim (j.find body key) [
    | none ↦ err json_type_error
    | some v ↦ get_string_or_throw j v
  ]

  unfoldable pub credentials : Value → Result (Text × Text)
  unfolding text_at
  credentials body = do
    email ← text_at body (codes "email")
    password ← text_at body (codes "password")
    ok (email, password)

  abbrev pub has_credentials : Value → Bool
  has_credentials body = contains j body (codes "email") && contains j body (codes "password")

module _ {d : Doubles} (j : Json d) (sodium : Sodium) where
  open j use {Value}

  unfoldable pub register_route : Text → Text → ℕ → Text → Option Value → Limiters → AuthDb → Routed
  unfolding credentials limited register_account
  register_route salt raw now ip none limiters db =
      respond limiters db (refuses (invalid_request (codes "email and password are required")))
  register_route salt raw now ip (some body) limiters db =
      if not (has_credentials j body)
      then respond limiters db (refuses (invalid_request (codes "email and password are required")))
      else elim (credentials j body) [
        | err e ↦ (limiters, db, err e)
        | ok (email, password) ↦
            limited (codes "too many registration attempts") ip email now limiters db
              (register_account sodium salt raw now email password db)
      ]

  unfoldable pub login_route : Bool → Text → ℕ → Text → Option Value → Limiters → AuthDb → Routed
  unfolding credentials limited open_session
  login_route secure raw now ip none limiters db =
      respond limiters db (refuses (invalid_request (codes "email and password are required")))
  login_route secure raw now ip (some body) limiters db =
      if not (has_credentials j body)
      then respond limiters db (refuses (invalid_request (codes "email and password are required")))
      else elim (credentials j body) [
        | err e ↦ (limiters, db, err e)
        | ok (email, password) ↦
            limited (codes "too many login attempts") ip email now limiters db
              (open_session sodium secure raw now email password db)
      ]

  unfoldable pub verify_email_route : ℕ → Option Value → AuthDb → AuthDb × Result AccountResponse
  unfolding text_at
  verify_email_route now none db = (db, ok (refuses (invalid_request (codes "token is required"))))
  verify_email_route now (some body) db =
      if not (contains j body (codes "token"))
      then (db, ok (refuses (invalid_request (codes "token is required"))))
      else elim (text_at j body (codes "token")) [
        | err e ↦ (db, err e)
        | ok token ↦
            let (db', valid) = confirm_email_verification sodium now token db in
            (db', ok (token_response (codes "verification token is invalid or expired") valid))
      ]

  -- Always 200, whether or not there is such an account.
  unfoldable pub request_reset_route :
      Text → ℕ → Option Value → AuthDb → AuthDb × Result AccountResponse
  unfolding text_at
  request_reset_route raw now none db =
      (db, ok (refuses (invalid_request (codes "email is required"))))
  request_reset_route raw now (some body) db =
      if not (contains j body (codes "email"))
      then (db, ok (refuses (invalid_request (codes "email is required"))))
      else elim (text_at j body (codes "email") >>= λ email.
          request_password_reset sodium raw now email db) [
            | err e ↦ (db, err e)
            | ok (db', _) ↦ (db', ok (status_ok none))
          ]

  unfoldable pub confirm_reset_route :
      Text → ℕ → Option Value → AuthDb → AuthDb × Result AccountResponse
  unfolding text_at
  confirm_reset_route salt now none db =
      (db, ok (refuses (invalid_request (codes "token and password are required"))))
  confirm_reset_route salt now (some body) db =
      if not (contains j body (codes "token") && contains j body (codes "password"))
      then (db, ok (refuses (invalid_request (codes "token and password are required"))))
      else elim (text_at j body (codes "token") >>= λ token.
          text_at j body (codes "password") >>= λ password.
          confirm_password_reset sodium salt now token password db) [
            | err e ↦ (db, err e)
            | ok (db', valid) ↦
                (db', ok (token_response (codes "reset token is invalid or expired") valid))
          ]
