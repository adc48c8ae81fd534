-- ===== src/Anthropic/Replies.antt =====
-- AnthropicScanProvider::parseResponse, with optText, optNumber and toItem. json_type_error stands
-- for every exception of nlohmann::json.
pub mod Magnitudes
pub mod Errors
mod Tests
use receipt_scanner.Prelude.{
  ℕ, Bool, true, false, not, ◌&&◌, ◌||◌, Option, none, some, List, [], ◌∷◌, ◌++◌, all, Text, codes,
  text_eq, ◌==◌, Exception, json_type_error, scan_error, Result, ok, err, ◌>>=◌, ◌>>◌, throw_if, ℤ,
  pos, ltb_ℤ, negate64, llabs, if◌then◌else◌,
}
use receipt_scanner.Json.{Doubles, Json, get_string_or_throw}
use receipt_scanner.ScanProvider.{ScanContext, ScannedItem, ScanResult}
use receipt_scanner.Anthropic.{to_cents}

abbrev pub is_blank : ℕ → Bool
is_blank c = c == 32 || c == 9 || c == 13 || c == 10

module _ {d : Doubles} (j : Json d) where
  open d use {Double, is_gt_zero, is_ge_zero}
  open j use {
    Value, find, is_string, get_string, is_number, get_double, is_boolean, get_bool, is_array,
    is_object, elements, of_string, empty_object, set,
  }

  -- A text of blanks alone counts as missing.
  unfoldable pub opt_text : Value → Text → Option Text
  opt_text object key = elim (find object key) [
    | none ↦ none
    | some v ↦
        if is_string v && not (all is_blank (get_string v)) then some (get_string v) else none
  ]

  unfoldable pub opt_number : Value → Text → Option Double
  opt_number object key = elim (find object key) [
    | none ↦ none
    | some v ↦ if is_number v then some (get_double v) else none
  ]

  abbrev pub present : Option Value → Result Value
  present none = err json_type_error
  present (some v) = ok v

  -- `value.at(key)`, `get<double>()`, `get<bool>()` and `get<std::vector<std::string>>()`.
  abbrev pub at : Value → Text → Result Value
  at v key = present (find v key)

  abbrev pub double_of : Value → Result Double
  double_of v = if is_number v then ok (get_double v) else err json_type_error

  abbrev pub bool_of : Value → Result Bool
  bool_of v = if is_boolean v then ok (get_bool v) else err json_type_error

  abbrev pub texts_of : List Value → Result (List Text)
  texts_of [] = ok []
  texts_of (v ∷ vs) = get_string_or_throw j v >>= λ s. texts_of vs >>= λ ss. ok (s ∷ ss)

  abbrev pub text_or_empty : Option Value → Result Text
  text_or_empty none = ok []
  text_or_empty (some v) = get_string_or_throw j v

  -- `value.value(key, "")`
  abbrev pub value_or_empty : Value → Text → Result Text
  value_or_empty v key = if is_object v then text_or_empty (find v key) else err json_type_error

  unfoldable pub quantity_of : Option Double → Option Double
  quantity_of none = none
  quantity_of (some quantity) = if is_gt_zero quantity then some quantity else none

  unfoldable pub unit_price_of : Option Double → Option ℤ
  unfolding to_cents
  unit_price_of none = none
  unit_price_of (some price) = if is_ge_zero price then some (to_cents j price) else none

  unfoldable pub tags_of : Option Value → Result (List Text)
  tags_of none = ok []
  tags_of (some v) = if is_array v then texts_of (elements v) else err json_type_error

  unfoldable pub to_item : Value → Result (ScannedItem Double)
  unfolding to_cents opt_text opt_number quantity_of unit_price_of tags_of
  to_item line = do
    amount_value ← at line (codes "amount")
    amount ← double_of amount_value
    informational_value ← at line (codes "informational")
    is_informational ← bool_of informational_value
    tag_names ← tags_of (find line (codes "tags"))
    ok record {
      name = opt_text line (codes "name");
      quantity = quantity_of (opt_number line (codes "quantity"));
      unit_price_cents = unit_price_of (opt_number line (codes "unit_price"));
      amount_cents = to_cents j amount;
      category = opt_text line (codes "category");
      informational = is_informational;
      tags = tag_names;
    }

  -- A negative line is read by its magnitude on a refund, and is dropped elsewhere.
  unfoldable pub keep_item :
      Text → ScannedItem Double → List (ScannedItem Double) → List (ScannedItem Double)
  keep_item kind item rest =
      if ltb_ℤ item.amount_cents (pos 0)
      then if text_eq kind (codes "refund")
        then record item { amount_cents = negate64 item.amount_cents } ∷ rest
        else rest
      else item ∷ rest

  unfoldable pub read_items : Text → List Value → Result (List (ScannedItem Double))
  read_items kind [] = ok []
  read_items kind (line ∷ lines) = do
    item ← to_item line
    rest ← read_items kind lines
    ok (keep_item kind item rest)

  -- The first text block among the blocks of the content.
  unfoldable pub first_text : List Value → Result (Option Value)
  first_text [] = ok none
  first_text (block ∷ blocks) =
      let rest = first_text blocks in
      value_or_empty block (codes "type") >>= λ kind.
      if text_eq kind (codes "text") then ok (some block) else rest

  unfoldable pub text_of_content : Option Value → Result (Option Value)
  unfolding first_text
  text_of_content none = ok none
  text_of_content (some content) =
      if is_array content then first_text (elements content) else ok none

  abbrev pub some_block : Text → Option Value → Result Value
  some_block stop_reason none = err (
      scan_error
        (codes "Anthropic response has no text block (stop_reason " ++ stop_reason ++ codes ")"))
  some_block stop_reason (some block) = ok block

  unfoldable pub text_block : Value → Result Value
  unfolding text_of_content
  text_block response = do
    stop_reason ← value_or_empty response (codes "stop_reason")
    throw_if (text_eq stop_reason (codes "refusal"))
        (scan_error (codes "model refused to read the document"))
    throw_if (text_eq stop_reason (codes "max_tokens"))
        (scan_error (codes "model reply was cut off at max_tokens"))
    text ← text_of_content (find response (codes "content"))
    some_block stop_reason text

  unfoldable pub kind_of : Option Text → Value → Result Text
  kind_of none output = at output (codes "kind") >>= get_string_or_throw j
  kind_of (some kind) output = ok kind

  -- The raw reply that is stored: an object of five keys.
  unfoldable pub raw_of : Text → Text → Value → Value → Value
  raw_of model id usage output =
      set
        (set
          (set
            (set (set empty_object (codes "provider") (of_string (codes "anthropic")))
              (codes "model") (of_string model))
            (codes "message_id") (of_string id))
          (codes "usage") usage)
        (codes "output") output

  -- `parse` is json::parse, which gives nothing on a text that is no JSON.
  module _ (parse : Text → Option Value) where
    abbrev pub parsed : Text → Result Value
    parsed body = present (parse body)

    abbrev usage_of : Option Value → Value
    usage_of none = empty_object
    usage_of (some v) = v

    -- The fields of a document that could be read.
    unfoldable pub read_output : Option Text → Value → Value → Result (ScanResult Double Value)
    unfolding to_cents opt_text raw_of
    read_output known response output = do
      the_kind ← kind_of known output
      currency_value ← at output (codes "currency")
      the_currency ← get_string_or_throw j currency_value
      total_value ← at output (codes "total")
      total ← double_of total_value
      lines ← at output (codes "items")
      the_items ← read_items the_kind (elements lines)
      model ← value_or_empty response (codes "model")
      id ← value_or_empty response (codes "id")
      ok record {
        kind = the_kind;
        currency = the_currency;
        total_cents = llabs (to_cents j total);
        merchant = opt_text output (codes "merchant");
        store_name_raw = opt_text output (codes "store_name_raw");
        purchase_date = opt_text output (codes "purchase_date");
        items = the_items;
        raw = raw_of model id (usage_of (find response (codes "usage"))) output;
      }

    abbrev pub unless_unreadable : {A : Type 0} → Option Text → Result A → Result A
    unless_unreadable none read = read
    unless_unreadable (some reason) read =
        err (scan_error (codes "model could not read the document: " ++ reason))

    -- The body of the try block.
    unfoldable pub read_reply : Option Text → Value → Value → Result (ScanResult Double Value)
    unfolding opt_text
    read_reply known response block = do
      text_value ← at block (codes "text")
      text ← get_string_or_throw j text_value
      output ← parsed text
      unless_unreadable (opt_text output (codes "unreadable_reason"))
          (read_output known response output)

    -- The handler of json::exception; `what` is the exception's message.
    abbrev pub handled : Text → Exception → Exception
    handled what json_type_error =
        scan_error (codes "Anthropic reply doesn't match the extraction schema: " ++ what)
    handled what thrown = thrown

    unfoldable pub caught : {A : Type 0} → Text → Result A → Result A
    caught what (ok value) = ok value
    caught what (err thrown) = err (handled what thrown)

    abbrev pub object_of : Option Value → Result Value
    object_of none = err (scan_error (codes "Anthropic response is not JSON"))
    object_of (some response) =
        if is_object response
        then ok response
        else err (scan_error (codes "Anthropic response is not JSON"))

    unfoldable pub parse_response : Text → Text → ScanContext → Result (ScanResult Double Value)
    unfolding text_block read_reply
    parse_response what body context = do
      response ← object_of (parse body)
      block ← text_block response
      caught what (read_reply context.known_kind response block)
