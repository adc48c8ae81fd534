-- ===== src/Anthropic.antt =====
-- scan/AnthropicScanProvider.cpp: the lists that go into the request, the amounts, and the check
-- that items add up. Replies is the parsing of a reply, and Sending the request loop and the second
-- scan.
pub mod Replies
pub mod Sending
pub mod Requests
pub mod Names
mod Tests
use receipt_scanner.Prelude.{
  ℕ, Bool, true, false, ◌&&◌, ◌||◌, Option, none, some, List, [], ◌∷◌, ◌++◌, any, take, drop,
  length, Text, codes, text_eq, Result, ok, err, ◌>>=◌, scan_error, ℤ, pos, ◌+ℤ◌, ◌==ℤ◌, llabs,
  wrap64, leb, ◌==◌, if◌then◌else◌,
}
use receipt_scanner.Json.{Doubles, Json}
use receipt_scanner.Kinds.{rules_for}
use receipt_scanner.ScanProvider.{ScanContext, ScannedItem, ScanResult}
use receipt_scanner.ScanWorker.Results.{lower}

abbrev starts_with : Text → Text → Bool
starts_with prefix bytes = text_eq (take (length prefix) bytes) prefix

-- `mediaType`: by the first bytes of the image.
unfoldable pub media_type : Text → Result Text
media_type bytes =
    if leb 12 (length bytes)
      && starts_with (codes "RIFF") bytes
      && starts_with (codes "WEBP") (drop 8 bytes)
    then ok (codes "image/webp")
    else if leb 3 (length bytes) && starts_with (0xFF ∷ 0xD8 ∷ []) bytes
    then ok (codes "image/jpeg")
    else if leb 8 (length bytes) && starts_with (0x89 ∷ 80 ∷ 78 ∷ 71 ∷ 13 ∷ 10 ∷ 26 ∷ 10 ∷ []) bytes
    then ok (codes "image/png")
    else if leb 4 (length bytes) && starts_with (codes "GIF8") bytes
    then ok (codes "image/gif")
    else err (scan_error (codes "image is not WebP, JPEG, PNG or GIF"))

abbrev pub seen_in : List Text → Text → Bool
seen_in out name = any (λ seen. text_eq (lower seen) (lower name)) out

-- The inner loop of `uniqueNames`.
unfoldable pub add_names : List Text → List Text → List Text
add_names out [] = out
add_names out (name ∷ names) = add_names (if seen_in out name then out else out ++ name ∷ []) names

unfoldable pub unique_names_from : List Text → List (List Text) → List Text
unfolding add_names
unique_names_from out [] = out
unique_names_from out (names ∷ lists) = unique_names_from (add_names out names) lists

unfoldable pub unique_names : List (List Text) → List Text
unfolding unique_names_from
unique_names lists = unique_names_from [] lists

unfoldable pub categories_for : ScanContext → Result (List Text)
unfolding unique_names
categories_for context = elim context.known_kind [
  | none ↦ ok (unique_names (context.expense_categories ∷ context.income_categories ∷ []))
  | some kind ↦ rules_for kind >>= λ rules. ok (
      if rules.uses_income_categories
      then context.income_categories
      else context.expense_categories)
]

unfoldable pub joined_from : Text → List Text → Text
joined_from out [] = out
joined_from out (name ∷ names) =
    joined_from (out ++ (if text_eq out [] then [] else codes ", ") ++ name) names

unfoldable pub joined : List Text → Text
unfolding joined_from
joined [] = codes "(none)"
joined (name ∷ names) = joined_from [] (name ∷ names)

unfoldable pub retryable : ℕ → Bool
retryable status = status == 408 || status == 429 || leb 500 status

-- The sum of `itemsAddUp` in int64_t. An overflow, which C++ leaves undefined, wraps around.
unfoldable pub items_sum : {Double : Type 0} → List (ScannedItem Double) → ℤ
items_sum [] = pos 0
items_sum (item ∷ items) =
    if item.informational then items_sum items else wrap64 (item.amount_cents +ℤ items_sum items)

module _ {d : Doubles} (j : Json d) where
  open d use {Double, mul, of_int, llround}

  unfoldable pub to_cents : Double → ℤ
  to_cents amount = llround (mul amount (of_int (pos 100)))

  -- raw["output"]["subtotal"], where it is a number.
  unfoldable pub subtotal_of : j.Value → Option ℤ
  unfolding to_cents
  subtotal_of raw = elim (j.find raw (codes "output")) [
    | none ↦ none
    | some output ↦ elim (j.find output (codes "subtotal")) [
      | none ↦ none
      | some v ↦ if j.is_number v then some (llabs (to_cents (j.get_double v))) else none
    ]
  ]

  abbrev is_sum : ℤ → Option ℤ → Bool
  is_sum sum none = false
  is_sum sum (some n) = sum ==ℤ n

  abbrev is_empty_list : List (ScannedItem Double) → Bool
  is_empty_list [] = true
  is_empty_list (_ ∷ _) = false

  unfoldable pub items_add_up : ScanResult Double j.Value → Bool
  unfolding items_sum subtotal_of
  items_add_up result =
      is_empty_list result.items
      || items_sum result.items ==ℤ result.total_cents
      || is_sum (items_sum result.items) (subtotal_of result.raw)
