-- ===== src/Json.antt =====
-- What the program takes from outside src/: floating-point arithmetic and nlohmann::json.
--
-- `Doubles` is the type `double` with the operations that the program calls. `Json` is the
-- library's value type with its documented queries: the type tests, `get`, iteration, and `find`.
-- `find` returns nothing on a value that is no object, as `contains` returns false on it. Each
-- law is a documented fact of the library.
pub mod Concrete
use receipt_scanner.Prelude.{
  ℕ, ◌≡◌, ◌≢◌, ◌<◌, ◌^◌, Bool, true, false, Option, none, some, List, Text, ℤ, IsInt64, In, is_some,
  Result, ok, err, json_type_error, if◌then◌else◌,
}

pub record Doubles : Type 1 where
  pub Double : Type 0
  pub is_finite : Double → Bool
  -- `x <= 0`, `x < 0`, `x > 0` and `x >= 0`, which are not each other's negations on a NaN.
  pub is_le_zero : Double → Bool
  pub is_lt_zero : Double → Bool
  pub is_gt_zero : Double → Bool
  pub is_ge_zero : Double → Bool
  -- `a < b`
  pub lt : Double → Double → Bool
  pub zero : Double
  pub mul : Double → Double → Double
  pub of_int : ℤ → Double
  -- Its type is `long long`. What it gives for a value out of range is left open.
  pub llround : Double → ℤ
  pub llround_range : (x : Double) → IsInt64 (llround x)

pub record Json (d : Doubles) : Type 1 where
  pub Value : Type 0
  pub is_object : Value → Bool
  pub is_array : Value → Bool
  pub is_null : Value → Bool
  pub is_string : Value → Bool
  pub is_boolean : Value → Bool
  pub is_number : Value → Bool
  pub is_number_integer : Value → Bool
  pub is_number_unsigned : Value → Bool
  pub get_string : Value → Text
  pub get_bool : Value → Bool
  pub get_uint64 : Value → ℕ
  pub get_int64 : Value → ℤ
  pub get_double : Value → d.Double
  -- The values that a range-for visits, and the entries of `items()`.
  pub elements : Value → List Value
  pub items : Value → List (Text × Value)
  pub find : Value → Text → Option Value
  pub of_string : Text → Value
  -- `nlohmann::json::object()`, and `object[key] = value`.
  pub empty_object : Value
  pub set : Value → Text → Value → Value
  -- `get<int64_t>` returns an int64_t.
  pub get_int64_range : (v : Value) → IsInt64 (get_int64 v)
  -- What `find` finds is an entry.
  pub find-In : (v : Value) (k : Text) (x : Value) → find v k ≡ some x → In (k, x) (items v)
  -- An assignment to a key of an object leaves an object, in which the key finds the new value and
  -- any other key what it found before.
  pub is_object-empty_object : is_object empty_object ≡ true
  pub is_object-set :
      (v : Value) (k : Text) (x : Value) → is_object v ≡ true → is_object (set v k x) ≡ true
  pub find-set :
      (v : Value) (k : Text) (x : Value) → is_object v ≡ true → find (set v k x) k ≡ some x
  pub find-set_other : (v : Value) (k i : Text) (x : Value) → i ≢ k → find (set v k x) i ≡ find v i
  -- A value made from a string is a string, and holds that string.
  pub is_string-of_string : (s : Text) → is_string (of_string s) ≡ true
  pub get_string-of_string : (s : Text) → get_string (of_string s) ≡ s

module _ {d : Doubles} (j : Json d) where
  open j use {Value, find, is_string, get_string}

  -- `body.contains(key)`
  unfoldable pub contains : Value → Text → Bool
  contains body key = is_some (find body key)

  -- `get<std::string>()` throws on a value that is no string.
  unfoldable pub get_string_or_throw : Value → Result Text
  get_string_or_throw v = if is_string v then ok (get_string v) else err json_type_error
