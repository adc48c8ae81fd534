-- ===== src/Calendar.antt =====
-- The parts of the standard library that the program reads dates with: `std::stoi`, and the
-- validity and day count of `std::chrono::year_month_day`.
pub mod Laws
use receipt_scanner.Prelude.{
  ℕ, zero, suc, ◌+◌, ◌-◌, ◌*◌, ◌/◌, ◌%◌, ◌^◌, Bool, true, false, not, ◌&&◌, ◌||◌, Option, none,
  some, List, [], ◌∷◌, Text, is_space, is_digit, Result, ok, err, invalid_argument, out_of_range, ℤ,
  pos, negsuc, sub_ℕ, ltb, leb, ◌==◌, if◌then◌else◌,
}

-- The value of the leading digits.
unfoldable pub digits_value : ℕ → Text → ℕ
digits_value acc [] = acc
digits_value acc (c ∷ s) = if is_digit c then digits_value (acc * 10 + (c - b'0')) s else acc

unfoldable pub starts_digit : Text → Bool
starts_digit [] = false
starts_digit (c ∷ s) = is_digit c

unfoldable pub skip_space : Text → Text
skip_space [] = []
skip_space (c ∷ s) = if is_space c then skip_space s else c ∷ s

-- The number behind the sign; text after the digits is ignored.
unfoldable pub stoi_digits : Bool → Text → Result ℤ
unfolding digits_value starts_digit
stoi_digits negative s =
    if not (starts_digit s)
    then err invalid_argument
    else if negative
    then if leb (digits_value 0 s) (2 ^ 31)
      then ok (sub_ℕ 0 (digits_value 0 s))
      else err out_of_range
    else if ltb (digits_value 0 s) (2 ^ 31)
    then ok (pos (digits_value 0 s))
    else err out_of_range

unfoldable pub stoi_sign : Text → Result ℤ
unfolding stoi_digits
stoi_sign [] = err invalid_argument
stoi_sign (c ∷ s) =
    if c == b'-'
    then stoi_digits true s
    else if c == b'+'
    then stoi_digits false s
    else stoi_digits false (c ∷ s)

unfoldable pub stoi : Text → Result ℤ
unfolding stoi_sign skip_space
stoi s = stoi_sign (skip_space s)

-- What `month{unsigned(n)}` and `day{unsigned(n)}` hold: an unsigned char.
unfoldable pub as_byte : ℤ → ℕ
as_byte (pos n) = n % 2 ^ 32 % 256
as_byte (negsuc n) = (2 ^ 32 - 1 - n % 2 ^ 32) % 256

-- Divisibility does not depend on the sign.
unfoldable pub is_leap : ℤ → Bool
is_leap (pos y) = y % 4 == 0 && (not (y % 100 == 0) || y % 400 == 0)
is_leap (negsuc n) = suc n % 4 == 0 && (not (suc n % 100 == 0) || suc n % 400 == 0)

unfoldable pub last_day : ℤ → ℕ → ℕ
unfolding is_leap
last_day y m =
    if m == 2
    then (if is_leap y then 29 else 28)
    else if m == 4 || m == 6 || m == 9 || m == 11
    then 30
    else 31

-- A year holds -32767 to 32767, and every four-character number is in that range.
unfoldable pub year_ok : ℤ → Bool
year_ok (pos y) = leb y 32767
year_ok (negsuc n) = ltb n 32767

-- `year_month_day::ok()`
unfoldable pub ymd_ok : ℤ → ℕ → ℕ → Bool
unfolding year_ok last_day
ymd_ok y m d = year_ok y && leb 1 m && leb m 12 && leb 1 d && leb d (last_day y m)

-- The days before a month in a common year.
unfoldable pub days_before_month : ℕ → ℕ
days_before_month m =
    if m == 1
    then 0
    else if m == 2
    then 31
    else if m == 3
    then 59
    else if m == 4
    then 90
    else if m == 5
    then 120
    else if m == 6
    then 151
    else if m == 7
    then 181
    else if m == 8
    then 212
    else if m == 9
    then 243
    else if m == 10
    then 273
    else if m == 11
    then 304
    else 334

-- A year moved up by a hundred cycles of 400 years, so that every four-character year is a number.
unfoldable pub shifted_year : ℤ → ℕ
shifted_year (pos y) = y + 40000
shifted_year (negsuc n) = 39999 - n

-- The serial number of a day, which counts from the same origin for every date.
unfoldable pub day_number : ℤ → ℕ → ℕ → ℕ
unfolding shifted_year days_before_month is_leap
day_number y m d =
    let before = shifted_year y - 1 in
    365 * shifted_year y
    + before / 4
    - before / 100
    + before / 400
    + days_before_month m
    + (if is_leap y && ltb 2 m then 1 else 0)
    + d
