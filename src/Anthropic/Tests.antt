-- ===== src/Anthropic/Tests.antt =====
-- The request loop and the offered names at concrete inputs.
use receipt_scanner.Prelude.{
  ℕ, zero, suc, ◌+◌, ◌≤◌, ◌≡◌, refl, true, false, none, some, Option, ℤ, pos, List, [], ◌∷◌, map,
  Text, Result, ok, err, scan_error, runtime_error, json_type_error, In, All, Distinct, codes,
  text_eq, to_lower, is_upper, to_string,
}
use receipt_scanner.ScanWorker.Results.{lower}
use receipt_scanner.Json.{get_string_or_throw}
use receipt_scanner.Json.Concrete.{
  Node, null, bool, num, str, arr, obj, cons, nil, field, end, tree, find_in, set_in,
}
use receipt_scanner.ScanProvider.{ScanContext, ScanResult}
use receipt_scanner.Anthropic.{retryable, unique_names, to_cents}
use receipt_scanner.Anthropic.Replies.{
  parse_response, text_block, text_of_content, first_text, read_reply, read_output, read_items,
  to_item, keep_item, kind_of, tags_of, quantity_of, unit_price_of, opt_text, opt_number, caught,
  raw_of,
}
use receipt_scanner.Anthropic.Sending.{
  Response, error_object, api_error_message, message, attempt, send, scan_receipt,
}
use receipt_scanner.Anthropic.Requests.{Ends, send_lem, Outcome, scan_receipt_lem}
use receipt_scanner.Anthropic.Names.{unique_names_lem}

-- A receipt of one line that does not add up to its total.
abbrev receipt : Node
receipt = obj (
    field (codes "kind") (str (codes "purchase")) (
      field (codes "currency") (str (codes "AUD")) (
        field (codes "total") (num (pos 5)) (
          field (codes "items")
            (arr (
              cons
                (obj (
                  field (codes "amount") (num (pos 4))
                    (field (codes "informational") (bool false) end)))
                nil))
            end))))

abbrev reply : Node
reply = obj (
    field (codes "stop_reason") (str (codes "end_turn")) (
      field (codes "content")
        (arr (
          cons
            (obj (
              field (codes "type") (str (codes "text"))
                (field (codes "text") (str (codes "receipt")) end)))
            nil))
        end))

-- An error whose message is no string, and one that is well formed.
abbrev odd_error : Node
odd_error = obj (field (codes "error") (obj (field (codes "message") null end)) end)

abbrev plain_error : Node
plain_error = obj (
    field (codes "error")
      (obj
        (field (codes "type") (str (codes "bad")) (field (codes "message") (str (codes "no")) end)))
      end)

abbrev parse : Text → Option Node
parse body = elim (text_eq body (codes "receipt")) [
  | true ↦ some receipt
  | false ↦ elim (text_eq body (codes "reply")) [
    | true ↦ some reply
    | false ↦ elim (text_eq body (codes "odd")) [
      | true ↦ some odd_error
      | false ↦ elim (text_eq body (codes "plain")) [ true ↦ some plain_error | false ↦ none ]
    ]
  ]
]

-- Overloaded twice, then answered.
abbrev busy : ℕ → Result Response
busy zero = ok (record { status = 529; body = [] })
busy (suc zero) = ok (record { status = 429; body = [] })
busy (suc (suc n)) = ok (record { status = 200; body = codes "reply" })

abbrev refusing : Text → ℕ → Result Response
refusing text n = ok (record { status = 400; body = text })

answered : send tree parse busy 0 2 ≡ ok (codes "reply")
unfolding send attempt retryable message api_error_message error_object text_eq codes
answered = refl

rejected :
    send tree parse (refusing (codes "plain")) 0 2
    ≡ err (scan_error (codes "Anthropic API HTTP 400: bad: no"))
unfolding send attempt retryable message api_error_message error_object text_eq codes find_in
    get_string_or_throw to_string
rejected = refl

-- The error's message is null, so the refusal is no ScanError.
rejected_oddly : send tree parse (refusing (codes "odd")) 0 2 ≡ err json_type_error
unfolding send attempt retryable message api_error_message error_object text_eq codes find_in
    get_string_or_throw to_string
rejected_oddly = refl

send_lem_example :
    (k : ℕ) × (k ≤ 2) × Ends tree parse (k ≡ 2) (send tree parse busy 0 2) (busy (0 + k))
send_lem_example = send_lem tree parse busy 0 2

abbrev name_lists : List (List Text)
name_lists = ((79 ∷ []) ∷ (97 ∷ []) ∷ []) ∷ ((111 ∷ []) ∷ []) ∷ []

two_names : unique_names name_lists ≡ (79 ∷ []) ∷ (97 ∷ []) ∷ []
unfolding unique_names lower text_eq to_lower is_upper
two_names = refl

unique_names_lem_example :
    Distinct (map lower (unique_names name_lists))
    × All
        (λ names. All (λ name. In (lower name) (map lower (unique_names name_lists))) names)
        name_lists
unique_names_lem_example = unique_names_lem name_lists

abbrev context : ScanContext
context = record { known_kind = none; expense_categories = []; income_categories = []; tags = [] }

abbrev stored : Node
stored = obj (
    field (codes "provider") (str (codes "anthropic")) (
      field (codes "model") (str []) (
        field (codes "message_id") (str [])
          (field (codes "usage") (obj end) (field (codes "output") receipt end)))))

abbrev read : ScanResult ℤ Node
read = record {
  kind = codes "purchase";
  currency = codes "AUD";
  total_cents = pos 500;
  merchant = none;
  store_name_raw = none;
  purchase_date = none;
  items =
      record {
        name = none;
        quantity = none;
        unit_price_cents = none;
        amount_cents = pos 400;
        category = none;
        informational = false;
        tags = [];
      }
      ∷ [];
  raw = stored;
}

parses : parse_response tree parse [] (codes "reply") context ≡ ok read
unfolding parse_response text_block text_of_content first_text read_reply read_output read_items
    to_item keep_item kind_of tags_of quantity_of unit_price_of opt_text opt_number caught to_cents
    get_string_or_throw find_in set_in raw_of text_eq codes
parses = refl

abbrev offline : ℕ → Result Response
offline n = err (runtime_error [])

scan_receipt_lem_example :
    (out : ScanResult ℤ Node) × (scan_receipt tree parse [] context true 2 busy offline ≡ ok out)
    × Outcome tree parse [] context true offline read out
scan_receipt_lem_example =
    scan_receipt_lem tree parse [] context true 2 busy offline (codes "reply") read answered parses
