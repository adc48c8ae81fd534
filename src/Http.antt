-- ===== src/Http.antt =====
-- The HTTP layer's decisions: errorResponseFor of controllers/Responses.cpp, and the session filter
-- of filters/SessionAuthFilter.cpp. The cookie is its argument; Drogon is not modelled.
pub mod Receipts
pub mod Foreign
pub mod Accounts
mod Tests
use receipt_scanner.Prelude.{
  ℕ, none, some, [], ◌∷◌, Text, codes, Exception, not_found_error, receipt_not_found_error,
  validation_error, conflict_error, ℤ,
}
use receipt_scanner.Auth.{Sodium, AuthDb, validate_session}
use receipt_scanner.ScanWorker.Process.{what}

pub record ErrorResponse : Type 0 where
  pub status : ℕ
  pub code : Text
  pub message : Text

abbrev pub error_response : ℕ → Text → Text → ErrorResponse
error_response status code message = record { status = status; code = code; message = message }

-- The handlers in their order; ReceiptNotFoundError is a NotFoundError.
unfoldable pub error_response_for : Exception → ErrorResponse
error_response_for (not_found_error s) = error_response 404 (codes "not_found") s
error_response_for receipt_not_found_error =
    error_response 404 (codes "not_found") (what receipt_not_found_error)
error_response_for (validation_error s) = error_response 400 (codes "invalid_request") s
error_response_for (conflict_error s) = error_response 409 (codes "conflict") s
error_response_for _ = error_response 500 (codes "internal_error") (codes "internal error")

abbrev pub unauthorized : ErrorResponse
unauthorized = error_response 401 (codes "unauthorized") (codes "missing or invalid session")

-- How a request goes on: with a response, or to its handler with the user's id.
pub data Filtered : Type 0 where
  responds : ErrorResponse → Filtered
  passes : ℤ → Filtered

unfoldable pub do_filter : Sodium → ℕ → ℕ → Text → AuthDb → AuthDb × Filtered
do_filter sodium touch_interval now [] db = (db, responds unauthorized)
do_filter sodium touch_interval now (c ∷ token) db =
    let (db', user) = validate_session sodium touch_interval now (c ∷ token) db in
    (db', (elim user [ none ↦ responds unauthorized | some id ↦ passes id ]))
