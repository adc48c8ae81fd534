-- ===== src/JsonInput/Dates.antt =====
-- The dates that `date` of JsonInput.cpp accepts, and its currency codes.
use receipt_scanner.Prelude.{
  ℕ, ◌+◌, ◌*◌, ◌<◌, ◌≡◌, refl, ◌↔◌, true, all, suc, ap, ◌∙◌, List, [], ◌∷◌, length, Text, is_digit,
  ok, pos, arith, All, is_upper, ℤ, map, is_alpha, to_upper,
}
use receipt_scanner.Json.{Doubles, Json}
use receipt_scanner.Calendar.{stoi, as_byte, ymd_ok}
use receipt_scanner.Calendar.Laws.{digit, stoi-two, stoi-three, stoi-four, IsRealDate, ymd_ok_iff}
use receipt_scanner.JsonInput.{shaped, substr, date, currency}

-- "YYYY-MM-DD", from its eight digits.
abbrev pub iso : ℕ → ℕ → ℕ → ℕ → ℕ → ℕ → ℕ → ℕ → Text
iso y1 y2 y3 y4 m1 m2 d1 d2 =
    digit y1
    ∷ digit y2
    ∷ digit y3
    ∷ digit y4
    ∷ b'-'
    ∷ digit m1
    ∷ digit m2
    ∷ b'-'
    ∷ digit d1
    ∷ digit d2
    ∷ []

as_byte-small : (n : ℕ) → n < 256 → as_byte (pos n) ≡ n
unfolding as_byte
as_byte-small n h = omega arith

-- `date` behind its first tests: what the three numbers decide.
date-shaped :
    {d : Doubles} (j : Json d) (v : j.Value) (field s : Text) (year month day : ℤ)
    → j.is_string v ≡ true
    → j.get_string v ≡ s
    → shaped s ≡ true
    → stoi (substr s 0 4) ≡ ok year
    → stoi (substr s 5 2) ≡ ok month
    → stoi (substr s 8 2) ≡ ok day
    → (date j v field ≡ ok s) ↔ (ymd_ok year (as_byte month) (as_byte day) ≡ true)
unfolding date
date-shaped j v field s year month day is_text text shape ey em ed =
    rw (is_text, text, shape, ey, em, ed) (ground arith)

abbrev pub AreDigits : List ℕ → Type 0
AreDigits xs = All (λ x. x < 10) xs

is_digit-digit : (a : ℕ) → a < 10 → is_digit (digit a) ≡ true
unfolding is_digit
is_digit-digit a h = ground arith

iso-shaped :
    (y1 y2 y3 y4 m1 m2 d1 d2 : ℕ)
    → AreDigits (y1 ∷ y2 ∷ y3 ∷ y4 ∷ m1 ∷ m2 ∷ d1 ∷ d2 ∷ [])
    → shaped (iso y1 y2 y3 y4 m1 m2 d1 d2) ≡ true
unfolding shaped
iso-shaped y1 y2 y3 y4 m1 m2 d1 d2 (h1, (h2, (h3, (h4, (h5, (h6, (h7, (h8, _)))))))) = ground (
  arith,
  is_digit-digit y1 h1,
  is_digit-digit y2 h2,
  is_digit-digit y3 h3,
  is_digit-digit y4 h4,
  is_digit-digit m1 h5,
  is_digit-digit m2 h6,
  is_digit-digit d1 h7,
  is_digit-digit d2 h8,
)

-- On ten characters with digits in the places of YYYY-MM-DD, `date` returns the text exactly if
-- it names a date of the calendar.
pub date_iff :
    {d : Doubles} (j : Json d) (v : j.Value) (field : Text) (y1 y2 y3 y4 m1 m2 d1 d2 : ℕ)
    → AreDigits (y1 ∷ y2 ∷ y3 ∷ y4 ∷ m1 ∷ m2 ∷ d1 ∷ d2 ∷ [])
    → j.is_string v ≡ true
    → j.get_string v ≡ iso y1 y2 y3 y4 m1 m2 d1 d2
    → (date j v field ≡ ok (iso y1 y2 y3 y4 m1 m2 d1 d2))
      ↔ IsRealDate (1000 * y1 + 100 * y2 + 10 * y3 + y4) (10 * m1 + m2) (10 * d1 + d2)
unfolding substr
date_iff j v field y1 y2 y3 y4 m1 m2 d1 d2 h is_text text =
    let (h1, (h2, (h3, (h4, (h5, (h6, (h7, (h8, _)))))))) = h in
    let run =
      date-shaped j v field (iso y1 y2 y3 y4 m1 m2 d1 d2)
        (pos (1000 * y1 + 100 * y2 + 10 * y3 + y4)) (pos (10 * m1 + m2)) (pos (10 * d1 + d2))
        is_text text (iso-shaped y1 y2 y3 y4 m1 m2 d1 d2 h) (stoi-four y1 y2 y3 y4 h1 h2 h3 h4)
        (stoi-two m1 m2 h5 h6) (stoi-two d1 d2 h7 h8) in
    let real =
      ymd_ok_iff (1000 * y1 + 100 * y2 + 10 * y3 + y4) (10 * m1 + m2) (10 * d1 + d2)
        (omega arith) in
    let month : as_byte (pos (10 * m1 + m2)) ≡ 10 * m1 + m2 = as_byte-small _ (omega arith) in
    let day : as_byte (pos (10 * d1 + d2)) ≡ 10 * d1 + d2 = as_byte-small _ (omega arith) in
    ((λ e. real.0 (rw (month, day) at (run.0 e))), (λ e. run.1 (rw (month, day) (real.1 e))))

-- Three digits and a dash: a year of three digits, for `std::stoi`.
abbrev pub short_year : ℕ → ℕ → ℕ → ℕ → ℕ → ℕ → ℕ → Text
short_year a b c m1 m2 d1 d2 =
    digit a
    ∷ digit b
    ∷ digit c
    ∷ b'-'
    ∷ b'-'
    ∷ digit m1
    ∷ digit m2
    ∷ b'-'
    ∷ digit d1
    ∷ digit d2
    ∷ []

short_year-shaped :
    (a b c m1 m2 d1 d2 : ℕ)
    → AreDigits (a ∷ b ∷ c ∷ m1 ∷ m2 ∷ d1 ∷ d2 ∷ [])
    → shaped (short_year a b c m1 m2 d1 d2) ≡ true
unfolding shaped
short_year-shaped a b c m1 m2 d1 d2 (h1, (h2, (h3, (h5, (h6, (h7, (h8, _))))))) = ground (
  arith,
  is_digit-digit a h1,
  is_digit-digit b h2,
  is_digit-digit c h3,
  is_digit-digit m1 h5,
  is_digit-digit m2 h6,
  is_digit-digit d1 h7,
  is_digit-digit d2 h8,
)

-- A text such as "123--01-02", with three digits and a dash for a year, has not the form
-- YYYY-MM-DD; `date` returns it if the three numbers name a date of the calendar.
pub date-short_year :
    {d : Doubles} (j : Json d) (v : j.Value) (field : Text) (a b c m1 m2 d1 d2 : ℕ)
    → AreDigits (a ∷ b ∷ c ∷ m1 ∷ m2 ∷ d1 ∷ d2 ∷ [])
    → j.is_string v ≡ true
    → j.get_string v ≡ short_year a b c m1 m2 d1 d2
    → IsRealDate (100 * a + 10 * b + c) (10 * m1 + m2) (10 * d1 + d2)
    → date j v field ≡ ok (short_year a b c m1 m2 d1 d2)
unfolding substr
date-short_year j v field a b c m1 m2 d1 d2 h is_text text real =
    let (h1, (h2, (h3, (h5, (h6, (h7, (h8, _))))))) = h in
    let year = 100 * a + 10 * b + c in
    let month : as_byte (pos (10 * m1 + m2)) ≡ 10 * m1 + m2 = as_byte-small _ (omega arith) in
    let day : as_byte (pos (10 * d1 + d2)) ≡ 10 * d1 + d2 = as_byte-small _ (omega arith) in
    (date-shaped j v field (short_year a b c m1 m2 d1 d2) (pos year) (pos (10 * m1 + m2))
        (pos (10 * d1 + d2)) is_text text (short_year-shaped a b c m1 m2 d1 d2 h)
        (stoi-three a b c h1 h2 h3) (stoi-two m1 m2 h5 h6) (stoi-two d1 d2 h7 h8)).1
      (rw (month, day) ((ymd_ok_iff year (10 * m1 + m2) (10 * d1 + d2) (omega arith)).1 real))

to_upper_lem :
    (c : ℕ)
    → is_alpha c ≡ true
    → (is_upper (to_upper c) ≡ true)
      × (is_alpha (to_upper c) ≡ true)
      × (to_upper (to_upper c) ≡ to_upper c)
unfolding is_alpha is_upper to_upper
to_upper_lem c h = ground arith

map-to_upper_IsUpper :
    (t : Text) → all is_alpha t ≡ true → All (λ c. is_upper c ≡ true) (map to_upper t)
map-to_upper_IsUpper [] h = tt
map-to_upper_IsUpper (c ∷ t) h = ground (arith, to_upper_lem c, map-to_upper_IsUpper t)

map-to_upper_alpha : (t : Text) → all is_alpha t ≡ true → all is_alpha (map to_upper t) ≡ true
map-to_upper_alpha [] h = refl
map-to_upper_alpha (c ∷ t) h = ground (arith, to_upper_lem c, map-to_upper_alpha t)

map-to_upper_idem :
    (t : Text) → all is_alpha t ≡ true → map to_upper (map to_upper t) ≡ map to_upper t
map-to_upper_idem [] h = refl
map-to_upper_idem (c ∷ t) h = ground (arith, to_upper_lem c, map-to_upper_idem t)

length-map-to_upper : (t : Text) → length (map to_upper t) ≡ length t
length-map-to_upper [] = refl
length-map-to_upper (c ∷ t) = ap suc (length-map-to_upper t)

currency-eq-ok :
    {d : Doubles} (j : Json d) (v : j.Value) (field s : Text)
    → currency j v field ≡ ok s
    → (length (j.get_string v) ≡ 3)
      × (all is_alpha (j.get_string v) ≡ true)
      × (s ≡ map to_upper (j.get_string v))
unfolding currency
currency-eq-ok j v field s h = ground arith

currency_again :
    {d : Doubles} (j : Json d) (field s : Text)
    → length s ≡ 3
    → all is_alpha s ≡ true
    → currency j (j.of_string s) field ≡ ok (map to_upper s)
unfolding currency
currency_again j field s three alpha =
    rw (j.is_string-of_string s, j.get_string-of_string s, three, alpha)

-- An accepted currency code is three upper-case letters, and reading it again gives it back.
currency_lem :
    {d : Doubles} (j : Json d) (v : j.Value) (field s : Text)
    → currency j v field ≡ ok s
    → (length s ≡ 3) × All (λ c. is_upper c ≡ true) s × (currency j (j.of_string s) field ≡ ok s)
currency_lem j v field s h =
    let (three, alpha, same) = currency-eq-ok j v field s h in
    let t = j.get_string v in
    let again : map to_upper s ≡ s = rw same (map-to_upper_idem t alpha) in
    let long : length s ≡ 3 = rw same (length-map-to_upper t ∙ three) in
    (
      long,
      rw same (map-to_upper_IsUpper t alpha),
      currency_again j field s long (rw same (map-to_upper_alpha t alpha)) ∙ ap ok again,
    )
