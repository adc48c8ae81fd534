-- ===== src/JsonInput/Tests.antt =====
-- The readers of JsonInput.cpp at concrete values.
use receipt_scanner.Prelude.{
  ◌≡◌, refl, ◌↔◌, none, Text, codes, is_space, is_digit, is_alpha, to_upper, ok, err,
  invalid_argument, pos, negsuc, ◌≤ℤ◌, IsInt64, arith, inl,
}
use receipt_scanner.Json.Concrete.{Node, null, num, str, tree, int64_of}
use receipt_scanner.Calendar.{stoi, ymd_ok, as_byte}
use receipt_scanner.Calendar.Laws.{IsRealDate}
use receipt_scanner.JsonInput.{
  fail, trim, cents, nullable_id, id_list, date, currency, required_string, nullable_string, shaped,
  substr, as_int64,
}
use receipt_scanner.JsonInput.Numbers.{Denotes, cents_iff}
use receipt_scanner.JsonInput.Dates.{iso, date_iff, short_year, date-short_year}

abbrev key : Text
key = codes "k"

readers : Unit {0}
unfolding cents nullable_id id_list date currency required_string nullable_string trim fail shaped
    substr stoi ymd_ok as_byte as_int64 codes is_space is_digit is_alpha to_upper int64_of
readers = tt

cents_tests :
    (cents tree (num (pos 0)) key ≡ ok (pos 0))
    × (cents tree (num (pos 0x7fff_ffff_ffff_ffff)) key ≡ ok (pos 0x7fff_ffff_ffff_ffff))
    × (cents tree (num (pos 0x8000_0000_0000_0000)) key
        ≡ err (fail key (codes "must be a non-negative integer (cents)")))
    × (cents tree (num (negsuc 0)) key
        ≡ err (fail key (codes "must be a non-negative integer (cents)")))
    × (cents tree (str key) key ≡ err (fail key (codes "must be a non-negative integer (cents)")))
unfolding cents as_int64 int64_of
cents_tests = (refl, refl, refl, refl, refl)

string_tests :
    (required_string tree (str (codes " a b ")) key ≡ ok (codes "a b"))
    × (required_string tree (str (codes "  ")) key ≡ err (fail key (codes "must not be empty")))
    × (nullable_string tree (str (codes " ")) key ≡ ok none)
    × (nullable_string tree null key ≡ ok none)
unfolding readers
string_tests = (refl, refl, refl, refl)

abbrev leap_day : Node
leap_day = str (codes "2028-02-29")

date_tests :
    (date tree leap_day key ≡ ok (codes "2028-02-29"))
    × (date tree (str (codes "2026-02-30")) key
        ≡ err (fail key (codes "is not a real calendar date")))
    × (date tree (str (codes "2026-2-30")) key
        ≡ err (fail key (codes "must be a YYYY-MM-DD string")))
    × (date tree (str (codes "-----01-02")) key ≡ err invalid_argument)
    × (date tree (str (codes "2026--1-01")) key
        ≡ err (fail key (codes "is not a real calendar date")))
    × (date tree (str (codes "-123-01-01")) key ≡ ok (codes "-123-01-01"))
unfolding readers
date_tests = (refl, refl, refl, refl, refl, refl)

cents_iff_example :
    (cents tree (num (pos 5)) key ≡ ok (pos 5))
    ↔ (Denotes tree (num (pos 5)) (pos 5) × (pos 0 ≤ℤ pos 5) × IsInt64 (pos 5))
cents_iff_example = cents_iff tree (num (pos 5)) key (pos 5)

date_iff_example : (date tree leap_day key ≡ ok (iso 2 0 2 8 0 2 2 9)) ↔ IsRealDate 2028 2 29
unfolding codes
date_iff_example = date_iff tree leap_day key 2 0 2 8 0 2 2 9 (omega arith) refl refl

date-short_year_example : date tree (str (codes "123--01-02")) key ≡ ok (short_year 1 2 3 0 1 0 2)
unfolding codes
date-short_year_example =
    date-short_year tree (str (codes "123--01-02")) key 1 2 3 0 1 0 2 (omega arith) refl refl
      (omega arith, inl (inl refl, omega arith))
