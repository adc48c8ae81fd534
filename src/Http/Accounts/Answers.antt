-- ===== src/Http/Accounts/Answers.antt =====
-- What the routes of AuthController.cpp answer on each outcome, and what they give away.
use receipt_scanner.Prelude.{
  ℕ, suc, ◌-◌, ◌≤◌, ◌<◌, ◌≡◌, refl, ◌⊎◌, inl, inr, Bool, true, false, none, some, Text, codes,
  text_eq, text_eq_refl, ltb, ok, Bool-cases, arith,
}
use receipt_scanner.Json.{Doubles, Json}
use receipt_scanner.Auth.{Sodium, User, AuthDb, user_with, login}
use receipt_scanner.Auth.RateLimiter.{Entry, RateLimiter, Attempt, counted, allow, check_rate_limit}
use receipt_scanner.Http.{error_response}
use receipt_scanner.Http.Accounts.{
  Limiters, Routed, refuses, attempt, limited, has_credentials, credentials, login_response,
  open_session, login_route,
}

-- An account that does not let this password in: there is none, or its hash is another's.
abbrev pub Denies : Sodium → Text → Text → AuthDb → Type 0
Denies sodium email password db =
    (user_with sodium email db ≡ none)
    ⊎ ((u : User) × (user_with sodium email db ≡ some u)
        × (sodium.pwhash_str_verify u.password_hash password ≡ false))

login-Denies :
    (sodium : Sodium) (raw : Text) (now : ℕ) (email password : Text) (db : AuthDb)
    → Denies sodium email password db
    → login sodium raw now email password db ≡ ok (db, none)
unfolding login
login-Denies sodium raw now email password db (inl e) = rw (e, login) refl
login-Denies sodium raw now email password db (inr (u, e, wrong)) = rw (e, wrong, login) refl

-- An attempt was counted: its key's entry is `e`, with one more than before in the same window, or
-- with one in a new window, and no other key's entry has changed.
pub record Counts (limiter : RateLimiter) (a : Attempt) (limiter' : RateLimiter) (e : Entry)
    : Type 0 where
  pub stored : limiter'.attempts a.key ≡ some e
  pub again :
      (old : Entry)
      → limiter.attempts a.key ≡ some old
      → a.now - old.window_start ≤ limiter.window
      → e ≡ record { window_start = old.window_start; count = suc old.count }
  pub renewed :
      (old : Entry)
      → limiter.attempts a.key ≡ some old
      → limiter.window < a.now - old.window_start
      → e ≡ record { window_start = a.now; count = 1 }
  pub first : limiter.attempts a.key ≡ none → e.count ≡ 1
  pub others : (k : Text) → text_eq k a.key ≡ false → limiter'.attempts k ≡ limiter.attempts k
  pub budget : limiter'.max_attempts ≡ limiter.max_attempts

allow-Counts :
    (limiter : RateLimiter) (a : Attempt) → Counts limiter a (allow limiter a).0 (counted limiter a)
unfolding allow counted
allow-Counts limiter a = record {
  stored = rw (text_eq_refl a.key) refl;
  again = λ old e near. rw (e) (elim (Bool-cases (ltb limiter.window (a.now - old.window_start))) [
    | inl far ↦ ground arith
    | inr close ↦ rw (close) refl
  ]);
  renewed = λ old e far. rw (e) (elim (Bool-cases (ltb limiter.window (a.now - old.window_start))) [
    | inl more ↦ rw (more) refl
    | inr close ↦ ground arith
  ]);
  first = λ e. rw (e) (elim (Bool-cases (ltb limiter.window (a.now - a.made))) [
    | inl more ↦ rw (more) refl
    | inr close ↦ rw (close) refl
  ]);
  others = λ k e. rw (e) refl;
  budget = refl;
}

-- Both attempts are counted, and they pass together exactly if both are within their budgets.
check_rate_limit_lem :
    (by_ip by_email : Attempt) (ips accounts : RateLimiter)
    → let out = check_rate_limit by_ip by_email ips accounts in
      Counts ips by_ip out.0.0 (counted ips by_ip)
      × Counts accounts by_email out.0.1 (counted accounts by_email)
      × ((counted ips by_ip).count ≤ ips.max_attempts
          → (counted accounts by_email).count ≤ accounts.max_attempts
          → out.1 ≡ true)
      × ((ips.max_attempts < (counted ips by_ip).count)
            ⊎ (accounts.max_attempts < (counted accounts by_email).count)
          → out.1 ≡ false)
unfolding check_rate_limit allow
check_rate_limit_lem by_ip by_email ips accounts = (
  allow-Counts ips by_ip,
  allow-Counts accounts by_email,
  (λ h k. ground arith),
  (λ h. ground arith),
)

module _ {d : Doubles} (j : Json d) (sodium : Sodium) where
  open j use {Value}

  -- What a log-in with these credentials gives.
  pub record Answered (routed : Routed) (ip email password : Text) (now : ℕ) (limiters : Limiters)
      (db : AuthDb) : Type 0 where
    pub by_ip : Entry
    pub by_email : Entry
    pub ip_counts : Counts limiters.0 (attempt ip now) routed.0.0 by_ip
    pub email_counts : Counts limiters.1 (attempt email now) routed.0.1 by_email
    pub over :
        (limiters.0.max_attempts < by_ip.count) ⊎ (limiters.1.max_attempts < by_email.count)
        → (routed.1 ≡ db)
          × (routed.2
              ≡ ok (
                  refuses
                    (error_response 429 (codes "rate_limited") (codes "too many login attempts"))))
    pub denied :
        by_ip.count ≤ limiters.0.max_attempts
        → by_email.count ≤ limiters.1.max_attempts
        → Denies sodium email password db
        → (routed.1 ≡ db)
          × (routed.2
              ≡ ok (
                  refuses (
                    error_response 401
                      (codes "invalid_credentials")
                      (codes "wrong email or password"))))

  -- A log-in whose body holds an email and a password is counted in both limiters, whatever they
  -- say: the count of the address and that of the email rise by one within their windows, or start
  -- at one, and no other key's changes. Past either budget it is refused with a 429, and the tables
  -- stay. Within both, an unknown email and a wrong password get the same 401, and the tables stay.
  pub login_route_lem :
      (secure : Bool) (raw : Text) (now : ℕ) (ip email password : Text) (body : Value)
      (limiters : Limiters) (db : AuthDb)
      → has_credentials j body ≡ true
      → credentials j body ≡ ok (email, password)
      → Answered
          (login_route j sodium secure raw now ip (some body) limiters db)
          ip
          email
          password
          now
          limiters
          db
  unfolding login_route limited open_session login_response
  login_route_lem secure raw now ip email password body limiters db present read =
      let checked = check_rate_limit (attempt ip now) (attempt email now) limiters.0 limiters.1 in
      let (ip_counts, email_counts, passes, refuses_it) =
        check_rate_limit_lem (attempt ip now) (attempt email now) limiters.0 limiters.1 in
      let same : (login_route j sodium secure raw now ip (some body) limiters db).0 ≡ checked.0 =
        (elim (Bool-cases checked.1) [
          | inl e ↦ rw (present, read, e, login_route, limited) refl
          | inr e ↦ rw (present, read, e, login_route, limited) refl
        ]) in
      record {
        by_ip = counted limiters.0 (attempt ip now);
        by_email = counted limiters.1 (attempt email now);
        ip_counts = rw (same) ip_counts;
        email_counts = rw (same) email_counts;
        over = λ past.
            let e = refuses_it past in rw (present, read, e, login_route, limited) (refl, refl);
        denied = λ ip_within email_within denies.
            let e = passes ip_within email_within in
            let wrong = login-Denies sodium raw now email password db denies in
            rw (present, read, e, wrong, login_route, limited, open_session) (refl, refl);
      }
