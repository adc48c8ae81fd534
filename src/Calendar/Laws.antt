-- ===== src/Calendar/Laws.antt =====
-- `std::stoi` on digits, and `year_month_day::ok()` against the calendar.
use receipt_scanner.Prelude.{
  ℕ, ◌+◌, ◌*◌, ◌%◌, ◌≤◌, ◌<◌, ◌≡◌, ◌≢◌, ◌↔◌, ◌⊎◌, true, false, [], ◌∷◌, Text, is_space, is_digit,
  ok, pos, arith,
}
use receipt_scanner.Calendar.{stoi_digits, stoi, is_leap, ymd_ok}

-- The character of a digit.
abbrev pub digit : ℕ → ℕ
digit a = b'0' + a

digit_lem : (a : ℕ) → a < 10 → (is_digit (digit a) ≡ true) × (is_space (digit a) ≡ false)
unfolding is_digit is_space
digit_lem a h = ground arith

stoi-digit : (a : ℕ) (s : Text) → a < 10 → stoi (digit a ∷ s) ≡ stoi_digits false (digit a ∷ s)
unfolding stoi
stoi-digit a s h = ground (arith, digit_lem a h)

pub stoi-two : (a b : ℕ) → a < 10 → b < 10 → stoi (digit a ∷ digit b ∷ []) ≡ ok (pos (10 * a + b))
unfolding stoi_digits
stoi-two a b ha hb =
    rw (stoi-digit a (digit b ∷ []) ha) (ground (arith, digit_lem a ha, digit_lem b hb))

pub stoi-four :
    (a b c e : ℕ)
    → a < 10
    → b < 10
    → c < 10
    → e < 10
    → stoi (digit a ∷ digit b ∷ digit c ∷ digit e ∷ []) ≡ ok (pos (1000 * a + 100 * b + 10 * c + e))
unfolding stoi_digits
stoi-four a b c e ha hb hc he =
    rw (stoi-digit a (digit b ∷ digit c ∷ digit e ∷ []) ha)
      (ground (arith, digit_lem a ha, digit_lem b hb, digit_lem c hc, digit_lem e he))

-- The number ends at the dash.
pub stoi-three :
    (a b c : ℕ)
    → a < 10
    → b < 10
    → c < 10
    → stoi (digit a ∷ digit b ∷ digit c ∷ b'-' ∷ []) ≡ ok (pos (100 * a + 10 * b + c))
unfolding stoi_digits is_digit
stoi-three a b c ha hb hc = rw (stoi-digit a (digit b ∷ digit c ∷ b'-' ∷ []) ha) (ground arith)

-- The Gregorian rule.
abbrev pub IsLeapYear : ℕ → Type 0
IsLeapYear y = (y % 4 ≡ 0) × ((y % 100 ≢ 0) ⊎ (y % 400 ≡ 0))

abbrev HasThirtyOne : ℕ → Type 0
HasThirtyOne m = (m ≡ 1) ⊎ (m ≡ 3) ⊎ (m ≡ 5) ⊎ (m ≡ 7) ⊎ (m ≡ 8) ⊎ (m ≡ 10) ⊎ (m ≡ 12)

abbrev HasThirty : ℕ → Type 0
HasThirty m = (m ≡ 4) ⊎ (m ≡ 6) ⊎ (m ≡ 9) ⊎ (m ≡ 11)

-- The dates of the calendar.
abbrev pub IsRealDate : ℕ → ℕ → ℕ → Type 0
IsRealDate y m day =
    (1 ≤ day)
    × ((HasThirtyOne m × (day ≤ 31))
        ⊎ (HasThirty m × (day ≤ 30))
        ⊎ ((m ≡ 2) × ((day ≤ 28) ⊎ ((day ≤ 29) × IsLeapYear y))))

is_leap_iff : (y : ℕ) → (is_leap (pos y) ≡ true) ↔ IsLeapYear y
unfolding is_leap
is_leap_iff y = ground arith

ymd_ok→IsRealDate : (y m day : ℕ) → ymd_ok (pos y) m day ≡ true → IsRealDate y m day
unfolding ymd_ok
ymd_ok→IsRealDate y m day h = ground (arith, is_leap_iff y)

IsRealDate→ymd_ok : (y m day : ℕ) → y ≤ 9999 → IsRealDate y m day → ymd_ok (pos y) m day ≡ true
unfolding ymd_ok
IsRealDate→ymd_ok y m day hy h = ground (arith, is_leap_iff y)

pub ymd_ok_iff : (y m day : ℕ) → y ≤ 9999 → (ymd_ok (pos y) m day ≡ true) ↔ IsRealDate y m day
ymd_ok_iff y m day hy = (ymd_ok→IsRealDate y m day, IsRealDate→ymd_ok y m day hy)
