-- ===== src/Auth/RateLimiter.antt =====
-- auth/RateLimiter.h, and `checkRateLimit` of controllers/AuthController.cpp. `now` is the steady
-- clock when a call begins and `made` when a missing entry is constructed; a clock that has not
-- yet reached a window's start is still inside that window.
use receipt_scanner.Prelude.{
  ℕ, suc, ◌-◌, ◌≤◌, ◌≡◌, refl, Bool, false, ◌&&◌, Option, none, some, List, [], ◌∷◌, count_where,
  Text, text_eq, text_eq_iff, text_eq_refl, ltb, leb, Bool-cases, inl, inr, All, if◌then◌else◌,
  arith, sym, ap,
}

pub record Entry : Type 0 where
  pub window_start : ℕ
  pub count : ℕ

pub record RateLimiter : Type 0 where
  pub max_attempts : ℕ
  pub window : ℕ
  pub attempts : Text → Option Entry

-- One call of `allow`.
pub record Attempt : Type 0 where
  pub key : Text
  pub now : ℕ
  pub made : ℕ

-- `attempts_[key]`
abbrev pub entry_or_new : Option Entry → ℕ → Entry
entry_or_new none made = record { window_start = made; count = 0 }
entry_or_new (some entry) made = entry

abbrev pub in_window : ℕ → ℕ → Entry → Entry
in_window window now entry =
    if ltb window (now - entry.window_start)
    then record { window_start = now; count = 0 }
    else entry

-- The count is an `int` in the source, whose overflow C++ leaves undefined; 2^31 attempts within one
-- window are out of reach.
unfoldable pub counted : RateLimiter → Attempt → Entry
counted limiter a =
    let entry = in_window limiter.window a.now (entry_or_new (limiter.attempts a.key) a.made) in
    record entry { count = suc entry.count }

unfoldable pub allow : RateLimiter → Attempt → RateLimiter × Bool
allow limiter a = (
  record limiter {
    attempts = λ k. if text_eq k a.key then some (counted limiter a) else limiter.attempts k;
  },
  leb (counted limiter a).count limiter.max_attempts,
)

-- `checkRateLimit`: both limiters record the attempt, whatever the first one says.
unfoldable pub check_rate_limit :
    Attempt → Attempt → RateLimiter → RateLimiter → (RateLimiter × RateLimiter) × Bool
unfolding allow
check_rate_limit by_ip by_email ips accounts =
    let (ips', ip_ok) = allow ips by_ip in
    let (accounts', account_ok) = allow accounts by_email in
    ((ips', accounts'), ip_ok && account_ok)

-- The attempts in order, each with its answer.
unfoldable pub answers : RateLimiter → List Attempt → List (Text × Bool)
unfolding allow
answers limiter [] = []
answers limiter (a ∷ rest) = (a.key, (allow limiter a).1) ∷ answers (allow limiter a).0 rest

-- The key's attempts all fall into the window that starts at `start`.
abbrev pub Within : Text → ℕ → ℕ → List Attempt → Type 0
Within key start window attempts =
    All (λ (a : Attempt). a.key ≡ key → a.now - start ≤ window) attempts

text_eq_flip : (s t : Text) → text_eq s t ≡ false → text_eq t s ≡ false
text_eq_flip s t e = elim (Bool-cases (text_eq t s)) [
  | inl k ↦ ground (arith, text_eq_iff t s, text_eq_refl s)
  | inr k ↦ k
]

same_window :
    (limiter : RateLimiter) (a : Attempt) (entry : Entry)
    → limiter.attempts a.key ≡ some entry
    → a.now - entry.window_start ≤ limiter.window
    → counted limiter a ≡ record { window_start = entry.window_start; count = suc entry.count }
unfolding counted
same_window limiter a entry found near =
    rw (found) (elim (Bool-cases (ltb limiter.window (a.now - entry.window_start))) [
      | inl e ↦ ground arith
      | inr e ↦ rw (e) refl
    ])

tally :
    (c : Entry) (spent most passed : ℕ)
    → c.count ≡ suc spent
    → passed ≤ most - suc spent
    → (if leb c.count most then suc passed else passed) ≤ most - spent
tally c spent most passed e h = ground arith

-- Within one window a key passes at most as often as its budget has left, however many attempts
-- are made and whatever other keys do in between.
pub answers-bound :
    (limiter : RateLimiter) (key : Text) (entry : Entry) (attempts : List Attempt)
    → limiter.attempts key ≡ some entry
    → Within key entry.window_start limiter.window attempts
    → count_where (λ p. text_eq p.0 key && p.1) (answers limiter attempts)
      ≤ limiter.max_attempts - entry.count
unfolding answers
answers-bound limiter key entry [] found within = omega arith
answers-bound limiter key entry (a ∷ rest) found (near, within) =
    elim (Bool-cases (text_eq a.key key)) [
      | inl e ↦
          let same = (text_eq_iff a.key key).0 e in
          let next : Entry = record {
            window_start = entry.window_start;
            count = suc entry.count;
          } in
          let here = same_window limiter a entry (rw (same) found) (near same) in
          let rest_bound =
            answers-bound (allow limiter a).0 key next rest
              (rw ((text_eq_iff key a.key).1 (sym same)) (ap some here)) within in
          rw (e) (
            tally (counted limiter a) entry.count limiter.max_attempts _
              (ap (λ (c : Entry). c.count) here) rest_bound)
      | inr e ↦
          let other = text_eq_flip a.key key e in
          let rest_bound =
            answers-bound (allow limiter a).0 key entry rest (rw (other) found) within in
          rw (e) rest_bound
    ]
