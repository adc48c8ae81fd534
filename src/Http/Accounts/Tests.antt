-- ===== src/Http/Accounts/Tests.antt =====
-- A log-in at an account that does not exist.
use receipt_scanner.Prelude.{
  ◌≡◌, refl, true, none, some, [], ◌∷◌, codes, text_eq, text_eq_iff, text_eq_refl, ok, pos, arith,
}
use receipt_scanner.Json.{contains, get_string_or_throw}
use receipt_scanner.Json.Concrete.{Node, str, obj, field, end, tree, find_in}
use receipt_scanner.Auth.{Sodium, AuthDb}
use receipt_scanner.Auth.RateLimiter.{RateLimiter}
use receipt_scanner.Http.Accounts.{Limiters, login_route, has_credentials, credentials, text_at}
use receipt_scanner.Http.Accounts.Answers.{Answered, login_route_lem}

abbrev plain : Sodium
plain = record {
  sha256 = λ token. token;
  pwhash_str = λ salt password. some password;
  pwhash_str_verify = λ hash password. text_eq hash password;
  citext_eq = text_eq;
  verify-str = λ salt password hash e. (text_eq_iff hash password).1 ground arith;
  citext_eq_refl = text_eq_refl;
}

abbrev open_limiter : RateLimiter
open_limiter = record { max_attempts = 10; window = 300; attempts = λ key. none }

abbrev limiters : Limiters
limiters = (open_limiter, open_limiter)

abbrev no_accounts : AuthDb
no_accounts = record {
  users = [];
  sessions = [];
  auth_tokens = [];
  categories = [];
  payment_methods = [];
  next_user_id = pos 1;
  next_category_id = pos 1;
}

abbrev body : Node
body =
    obj
      (field (codes "email") (str (codes "a@b")) (field (codes "password") (str (codes "pw")) end))

present : has_credentials tree body ≡ true
unfolding contains find_in text_eq codes
present = refl

read : credentials tree body ≡ ok (codes "a@b", codes "pw")
unfolding credentials text_at get_string_or_throw find_in text_eq codes
read = refl

login_route_lem_example :
    Answered tree plain
      (login_route tree plain true (1 ∷ []) 9 (codes "ip") (some body) limiters no_accounts)
      (codes "ip")
      (codes "a@b")
      (codes "pw")
      9
      limiters
      no_accounts
login_route_lem_example =
    login_route_lem tree plain true (1 ∷ []) 9 (codes "ip") (codes "a@b") (codes "pw") body limiters
      no_accounts present read
