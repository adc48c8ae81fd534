-- ===== src/Anthropic/Sending.antt =====
-- `apiErrorMessage`, `send` and `scanReceipt` of scan/AnthropicScanProvider.cpp. The HTTP client is a
-- parameter: `exchange n` is the answer to attempt `n`, or what it throws. `parse` is json::parse,
-- and `json_what` the message of an exception of nlohmann::json inside `parseResponse`.
use receipt_scanner.Prelude.{
  ℕ, zero, suc, Bool, not, ◌||◌, Option, none, some, ◌++◌, take, Text, codes, to_string,
  json_type_error, Result, ok, err, ◌>>=◌, scan_error, runtime_error, ◌==◌, if◌then◌else◌,
}
use receipt_scanner.Json.{Doubles, Json}
use receipt_scanner.ScanProvider.{ScanContext, ScanResult}
use receipt_scanner.ScanWorker.Process.{what}
use receipt_scanner.Anthropic.{retryable, items_add_up}
use receipt_scanner.Anthropic.Replies.{value_or_empty, parse_response}

pub record Response : Type 0 where
  pub status : ℕ
  pub body : Text

module _ {d : Doubles} (j : Json d) (parse : Text → Option j.Value) where
  open d use {Double}
  open j use {Value, is_object, find}

  -- The object under "error" of a body that has one.
  unfoldable pub error_object : Text → Option Value
  error_object body = elim (parse body) [
    | none ↦ none
    | some parsed ↦
        if is_object parsed
        then (elim (find parsed (codes "error")) [
          | none ↦ none
          | some e ↦ if is_object e then some e else none
        ])
        else none
  ]

  -- A type or message that is no string makes it throw.
  unfoldable pub api_error_message : Text → Result Text
  unfolding error_object
  api_error_message body = elim (error_object body) [
    | none ↦ ok (take 300 body)
    | some e ↦ value_or_empty j e (codes "type") >>= λ kind.
        value_or_empty j e (codes "message") >>= λ text. ok (kind ++ codes ": " ++ text)
  ]

  unfoldable pub message : Response → Result Text
  unfolding api_error_message
  message r = api_error_message r.body >>= λ text.
      ok (codes "Anthropic API HTTP " ++ to_string r.status ++ codes ": " ++ text)

  -- How an attempt ends, with what is done about a status that is worth a retry.
  unfoldable pub attempt : Result Response → (Text → Result Text) → Result Text
  unfolding message
  attempt answer again = answer >>= λ r.
      if r.status == 200
      then ok r.body
      else (message r >>= λ text.
          if not (retryable r.status) then err (scan_error text) else again text)

  -- The loop of `send`, with the retries that are left. The delays are not modelled.
  unfoldable pub send : (ℕ → Result Response) → ℕ → ℕ → Result Text
  unfolding attempt
  send exchange n zero = attempt (exchange n) (λ text. err (runtime_error text))
  send exchange n (suc left) =
      let rest = send exchange (suc n) left in attempt (exchange n) (λ _. rest)

  -- `scan.raw[key] = value`
  unfoldable pub note : Text → Value → ScanResult Double Value → Result (ScanResult Double Value)
  note key value scan =
      if is_object scan.raw || j.is_null scan.raw
      then ok (record scan { raw = j.set scan.raw key value })
      else err json_type_error

  -- The body of the try block: the second scan, which keeps the raw reply of the first.
  unfoldable pub try_second :
      Text
      → ScanContext
      → (ℕ → Result Response)
      → ScanResult Double Value
      → Result (ScanResult Double Value)
  unfolding send note
  try_second json_what context second scan = send second 0 0 >>= λ body.
      parse_response j parse json_what body context >>= λ better.
      note (codes "first_scan") scan.raw better

  -- Its handler, which keeps the first scan.
  unfoldable pub catch_second :
      ScanResult Double Value → Result (ScanResult Double Value) → Result (ScanResult Double Value)
  unfolding note
  catch_second scan (ok better) = ok better
  catch_second scan (err e) = note (codes "rescan_error") (j.of_string (what e)) scan

  unfoldable pub scan_receipt :
      Text
      → ScanContext
      → Bool
      → ℕ
      → (ℕ → Result Response)
      → (ℕ → Result Response)
      → Result (ScanResult Double Value)
  scan_receipt json_what context rescans max_retries first second =
      send first 0 max_retries >>= λ body. parse_response j parse json_what body context >>= λ scan.
      if items_add_up j scan || not rescans
      then ok scan
      else catch_second scan (try_second json_what context second scan)
