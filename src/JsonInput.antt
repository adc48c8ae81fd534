-- ===== src/JsonInput.antt =====
-- receipts/JsonInput.h and JsonInput.cpp: the typed readers of request-body fields. Each reader
-- throws a ValidationError that names the field.
pub mod Keys
pub mod Numbers
pub mod Trimming
pub mod Dates
mod Tests
use receipt_scanner.Prelude.{
  ℕ, zero, suc, ◌+◌, ◌-◌, Bool, true, false, not, ◌&&◌, ◌||◌, Option, none, some, List, [], ◌∷◌,
  ◌++◌, map, reverse, length, get_elem?, take, drop, all, any, Text, codes, text_eq, is_space,
  is_digit, is_alpha, to_upper, Exception, validation_error, Result, ok, err, ◌>>=◌, ◌>>◌, throw_if,
  ℤ, pos, negsuc, leb_ℤ, ltb_ℤ, ◌==ℤ◌, int64_max, ltb, leb, ◌==◌, is_some, if◌then◌else◌,
}
use receipt_scanner.Calendar.{stoi, as_byte, ymd_ok}
use receipt_scanner.Json.{Doubles, Json}

-- The exception of `fail(field, problem)`.
unfoldable pub fail : Text → Text → Exception
fail field problem = validation_error (field ++ codes " " ++ problem)

-- How many characters at the front are white space.
unfoldable pub leading : Text → ℕ
leading [] = 0
leading (c ∷ s) = if is_space c then suc (leading s) else 0

-- `begin` and `end` are the iterators of the source, as positions.
unfoldable pub trim : Text → Text
unfolding leading
trim s =
    let begin = leading s in
    let end = length s - leading (reverse s) in
    if ltb begin end then take (end - begin) (drop begin s) else []

unfoldable pub char_is : Text → ℕ → ℕ → Bool
char_is s i c = elim (get_elem? s i) [ none ↦ false | some x ↦ x == c ]

unfoldable pub shaped : Text → Bool
unfolding char_is
shaped s =
    length s == 10 && char_is s 4 b'-' && char_is s 7 b'-' && all (λ c. c == b'-' || is_digit c) s

unfoldable pub substr : Text → ℕ → ℕ → Text
substr s i n = take n (drop i s)

-- `push_back`, unless the id is there.
unfoldable pub add_unique : List ℤ → ℤ → List ℤ
add_unique ids n = if any (λ i. i ==ℤ n) ids then ids else ids ++ n ∷ []

module _ {d : Doubles} (j : Json d) where
  open j use {
    Value, is_object, is_array, is_null, is_string, is_boolean, is_number, is_number_integer,
    is_number_unsigned, get_string, get_bool, get_uint64, get_int64, get_double, elements, items,
    find,
  }

  unfoldable pub as_int64 : Value → Option ℤ
  as_int64 value =
      if is_number_unsigned value
      then (if ltb int64_max (get_uint64 value) then none else some (pos (get_uint64 value)))
      else if is_number_integer value
      then some (get_int64 value)
      else none

  unfoldable pub require_object : Value → Result (Unit {0})
  require_object body =
      throw_if (not (is_object body))
        (validation_error (codes "request body must be a JSON object"))

  unfoldable pub reject_unknown_in : List (Text × Value) → List Text → Result (Unit {0})
  reject_unknown_in [] allowed = ok tt
  reject_unknown_in ((key, _) ∷ rest) allowed =
      if any (text_eq key) allowed
      then reject_unknown_in rest allowed
      else err (fail key (codes "is not a recognized field"))

  unfoldable pub reject_unknown_keys : Value → List Text → Result (Unit {0})
  unfolding reject_unknown_in
  reject_unknown_keys body allowed = reject_unknown_in (items body) allowed

  unfoldable pub required_string : Value → Text → Result Text
  required_string value field = do
    throw_if (not (is_string value)) (fail field (codes "must be a string"))
    let s = trim (get_string value)
    throw_if (length s == 0) (fail field (codes "must not be empty"))
    ok s

  unfoldable pub nullable_string : Value → Text → Result (Option Text)
  nullable_string value field = if is_null value then ok none else (do
    throw_if (not (is_string value)) (fail field (codes "must be a string or null"))
    let s = trim (get_string value)
    ok (if length s == 0 then none else some s))

  -- The reader behind an optional test: `none` and what the test refuses are the same failure.
  unfoldable pub checked : Option ℤ → (ℤ → Bool) → Exception → Result ℤ
  checked none refuse e = err e
  checked (some n) refuse e = if refuse n then err e else ok n

  unfoldable pub cents : Value → Text → Result ℤ
  unfolding checked
  cents value field =
      checked (as_int64 value) (λ n. ltb_ℤ n (pos 0))
        (fail field (codes "must be a non-negative integer (cents)"))

  unfoldable pub nullable_cents : Value → Text → Result (Option ℤ)
  nullable_cents value field =
      if is_null value then ok none else (do n ← cents value field; ok (some n))

  unfoldable pub nullable_id : Value → Text → Result (Option ℤ)
  unfolding checked
  nullable_id value field = if is_null value then ok none else (do
    n ←
        checked (as_int64 value) (λ n. leb_ℤ n (pos 0))
          (fail field (codes "must be a positive integer id or null"))
    ok (some n))

  unfoldable pub boolean : Value → Text → Result Bool
  boolean value field = do
    throw_if (not (is_boolean value)) (fail field (codes "must be true or false"))
    ok (get_bool value)

  unfoldable pub date : Value → Text → Result Text
  date value field = do
    throw_if (not (is_string value)) (fail field (codes "must be a YYYY-MM-DD string"))
    let s = get_string value
    throw_if (not (shaped s)) (fail field (codes "must be a YYYY-MM-DD string"))
    year ← stoi (substr s 0 4)
    month ← stoi (substr s 5 2)
    day ← stoi (substr s 8 2)
    throw_if (not (ymd_ok year (as_byte month) (as_byte day)))
        (fail field (codes "is not a real calendar date"))
    ok s

  unfoldable pub nullable_date : Value → Text → Result (Option Text)
  nullable_date value field =
      if is_null value then ok none else (do s ← date value field; ok (some s))

  unfoldable pub currency : Value → Text → Result Text
  currency value field = do
    throw_if (not (is_string value)) (fail field (codes "must be a 3-letter currency code"))
    let s = get_string value
    throw_if (not (length s == 3) || not (all is_alpha s))
        (fail field (codes "must be a 3-letter currency code"))
    ok (map to_upper s)

  unfoldable pub nullable_positive_number : Value → Text → Result (Option d.Double)
  nullable_positive_number value field = if is_null value then ok none else (do
    throw_if
        (not (is_number value)
          || not (d.is_finite (get_double value))
          || d.is_le_zero (get_double value))
        (fail field (codes "must be a positive number or null"))
    ok (some (get_double value)))

  unfoldable pub id_list_from : Text → List ℤ → List Value → Result (List ℤ)
  unfolding checked add_unique
  id_list_from field ids [] = ok ids
  id_list_from field ids (element ∷ rest) = do
    n ←
        checked (as_int64 element) (λ n. leb_ℤ n (pos 0))
          (fail field (codes "must be an array of positive integer ids"))
    id_list_from field (add_unique ids n) rest

  unfoldable pub id_list : Value → Text → Result (List ℤ)
  unfolding id_list_from
  id_list value field = do
    throw_if (not (is_array value)) (fail field (codes "must be an array of ids"))
    id_list_from field [] (elements value)

  unfoldable pub set_if_present :
      {A : Type 0} → Value → Text → A → (Value → Text → Result A) → Result A
  set_if_present body key target read = elim (find body key) [
    | none ↦ ok target
    | some it ↦ read it key
  ]
