-- ===== src/Anthropic/Replies/Tests.antt =====
-- A reply with a refund docket, and one without a stop reason.
use receipt_scanner.Prelude.{
  ◌≡◌, refl, ◌⊎◌, true, false, Option, none, some, List, [], ◌∷◌, Text, codes, text_eq,
  json_type_error, scan_error, ok, err, ℤ, pos, negsuc,
}
use receipt_scanner.Json.Concrete.{
  Node, null, bool, num, str, arr, obj, cons, nil, field, end, tree, find_in, set_in,
}
use receipt_scanner.Json.{get_string_or_throw}
use receipt_scanner.ScanProvider.{ScanContext, ScannedItem, ScanResult}
use receipt_scanner.Anthropic.{to_cents}
use receipt_scanner.Anthropic.Replies.{
  parse_response, text_block, text_of_content, first_text, read_reply, read_output, read_items,
  to_item, keep_item, kind_of, tags_of, quantity_of, unit_price_of, opt_text, opt_number, caught,
  raw_of,
}
use receipt_scanner.Anthropic.Replies.Magnitudes.{parse_response-IsRead, IsRead}
use receipt_scanner.Anthropic.Replies.Errors.{parse_response-errors}

abbrev line : ℤ → Node
line amount =
    obj (field (codes "amount") (num amount) (field (codes "informational") (bool false) end))

-- Two lines, of which the second was returned, and a total in the negative.
abbrev docket : Node
docket = obj (
    field (codes "kind") (str (codes "refund")) (
      field (codes "currency") (str (codes "AUD")) (
        field (codes "total") (num (negsuc 1))
          (field (codes "items") (arr (cons (line (pos 5)) (cons (line (negsuc 2)) nil))) end))))

abbrev reply : Node
reply = obj (
    field (codes "stop_reason") (str (codes "end_turn")) (
      field (codes "content")
        (arr (
          cons
            (obj (
              field (codes "type") (str (codes "text"))
                (field (codes "text") (str (codes "docket")) end)))
            nil))
        end))

abbrev unfinished : Node
unfinished = obj (field (codes "stop_reason") null end)

abbrev parse : Text → Option Node
parse body = elim (text_eq body (codes "docket")) [
  | true ↦ some docket
  | false ↦ elim (text_eq body (codes "reply")) [ true ↦ some reply | false ↦ some unfinished ]
]

abbrev stored : Node
stored = obj (
    field (codes "provider") (str (codes "anthropic")) (
      field (codes "model") (str []) (
        field (codes "message_id") (str [])
          (field (codes "usage") (obj end) (field (codes "output") docket end)))))

abbrev context : Option Text → ScanContext
context known = record {
  known_kind = known;
  expense_categories = [];
  income_categories = [];
  tags = [];
}

abbrev priced : ℤ → ScannedItem ℤ
priced amount = record {
  name = none;
  quantity = none;
  unit_price_cents = none;
  amount_cents = amount;
  category = none;
  informational = false;
  tags = [];
}

abbrev refunded : List (ScannedItem ℤ) → Text → ScanResult ℤ Node
refunded lines the_kind = record {
  kind = the_kind;
  currency = codes "AUD";
  total_cents = pos 200;
  merchant = none;
  store_name_raw = none;
  purchase_date = none;
  items = lines;
  raw = stored;
}

reads_refund :
    parse_response tree parse [] (codes "reply") (context none)
    ≡ ok (refunded (priced (pos 500) ∷ priced (pos 300) ∷ []) (codes "refund"))
unfolding parse_response text_block text_of_content first_text read_reply read_output read_items
    to_item keep_item kind_of tags_of quantity_of unit_price_of opt_text opt_number caught to_cents
    get_string_or_throw find_in set_in raw_of text_eq codes
reads_refund = refl

-- A purchase loses its negative line.
reads_purchase :
    parse_response tree parse [] (codes "reply") (context (some (codes "purchase")))
    ≡ ok (refunded (priced (pos 500) ∷ []) (codes "purchase"))
unfolding parse_response text_block text_of_content first_text read_reply read_output read_items
    to_item keep_item kind_of tags_of quantity_of unit_price_of opt_text opt_number caught to_cents
    get_string_or_throw find_in set_in raw_of text_eq codes
reads_purchase = refl

no_stop_reason : parse_response tree parse [] (codes "") (context none) ≡ err json_type_error
unfolding parse_response text_block get_string_or_throw find_in text_eq codes
no_stop_reason = refl

parse_response-IsRead_example :
    IsRead tree none (refunded (priced (pos 500) ∷ priced (pos 300) ∷ []) (codes "refund"))
parse_response-IsRead_example =
    parse_response-IsRead tree parse [] (codes "reply") (context none)
      (refunded (priced (pos 500) ∷ priced (pos 300) ∷ []) (codes "refund")) reads_refund

parse_response-errors_example :
    ((s : Text) × (json_type_error ≡ scan_error s))
    ⊎ ((json_type_error ≡ json_type_error)
        × ((response : Node) × (parse (codes "") ≡ some response)
            × (text_block tree response ≡ err json_type_error)))
parse_response-errors_example =
    parse_response-errors tree parse [] (codes "") (context none) json_type_error no_stop_reason
