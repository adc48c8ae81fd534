-- ===== src/Lib.antt =====
-- This library models the receipt scanner: the C++ server that takes photographed receipts and
-- manual entries into a ledger, and scans the photographs in the background.
--
-- The parts and how they interact. A request body is read by the JSON input readers and becomes a
-- validated struct in the ledger input; the item service stores items with their categories and
-- tags. The scan worker claims uploaded receipts from the table that is its queue, hands the images
-- and the user's names to a scan provider, checks the result, and writes it: over the row if nobody
-- has reviewed it, and only into its empty fields otherwise. Accounts, sessions and the rate limiter
-- stand in front of all of it. The receipt service is where a user's requests reach the same tables:
-- it stores images and queues their receipt for the worker, stores manual entries, and edits.
--
-- The files, and the code that each models (paths from the repository's root):
-- - Prelude and its children: tests and lists over the native numbers, texts as lists of bytes
--   (with the `isspace`, `isdigit` and `isalpha` of the C locale), integers, and exceptions as values.
-- - Json: nlohmann::json and `double` as interfaces; Json/Concrete has instances of both.
-- - Kinds, Kinds/Prompt, Kinds/Laws: src/receipts/Kinds.h and Kinds.cpp. `find_kind` is findKind,
--   `rules_for` is rulesFor.
-- - Schema, Database, Database/State: db/migrations/20260906000000_initial_schema.sql, as predicates
--   on columns, records for rows, and the view v_receipt_state; src/receipts/ReceiptStates.h.
-- - Calendar: std::stoi and std::chrono's calendar, as src/receipts/JsonInput.cpp and
--   src/scan/ScanWorker.cpp use them.
-- - JsonInput: src/receipts/JsonInput.cpp and JsonInput.h, one function per reader; Keys, Numbers,
--   Trimming and Dates have the proofs.
-- - LedgerInput: src/receipts/LedgerInput.cpp and LedgerInput.h. Validity is about validateReceipt
--   and categoryFitsKind, Entry about parseManualEntry, Patch and Confirm about applyReceiptPatch.
-- - ItemService: src/receipts/ItemService.cpp, with the database passed from step to step.
-- - Receipts/Reads, Images, Edits: src/receipts/ReceiptService.cpp and ReceiptService.h. Reads has
--   getReceipt, listReceipts, listImages and findImage; Images has uploadReceipt, addImages and
--   deleteReceipt with what they share; Edits has createManual, updateReceipt and retryScan. Their
--   children have the proofs, each named for what it proves.
-- - Lifecycle: the scan state and the budgets of a receipt as a machine of its own. Bound is about
--   its runs, Composition about rows along a list of operations, Refinement has the transactions of
--   src/scan/ScanWorker.cpp and src/receipts/ReceiptService.cpp that carry out its steps, and Traces
--   says which of them may do what.
-- - ReferenceData: src/receipts/ReferenceDataService.cpp. The parent creates and updates categories
--   and tags; Methods has the payment methods and the lists, Removals the removals.
-- - ScanProvider: src/scan/ScanProvider.h.
-- - ScanWorker/Queue, Results, Write, Process: src/scan/ScanWorker.cpp. Queue has reclaimStuck,
--   claim and recordFailure; Results has validateResult and toItemInput; Write has applyResult with
--   writeExtraction and writeVerify; Process has process. Under them Budgets, Slots, Order,
--   Extraction, Verify, Stale and Failures have the proofs.
-- - Auth: src/auth/AuthService.cpp, PasswordHasher.cpp, TokenUtils.cpp and src/seeds/DefaultSeeds.h.
--   Auth/RateLimiter: src/auth/RateLimiter.h and checkRateLimit of src/controllers/AuthController.cpp.
-- - Anthropic: src/scan/AnthropicScanProvider.cpp, without the prompt and the request's
--   JSON. Replies is parseResponse, with Magnitudes and Errors about it; Sending is send with
--   apiErrorMessage, and scanReceipt, with Requests about them; Names is about uniqueNames.
-- - Http: errorResponseFor of src/controllers/Responses.cpp, and src/filters/SessionAuthFilter.cpp.
--   Http/Receipts is src/controllers/ReceiptController.cpp and Http/Accounts
--   src/controllers/AuthController.cpp, one function per route; Foreign and Answers have the proofs.
-- - The modules named Tests run the definitions, and apply the theorems, at concrete inputs.
--
-- How state is modelled. A table is a list of rows; an operation takes the database and gives the new
-- one with its result. An exception is a value of `Result`, and since it rolls the transaction back
-- it carries no database. What other transactions do between two steps of applyResult is a function
-- on the database, one for each place and attempt, of which nothing is assumed. Timestamps are
-- numbers, and a clock is an argument. The image store takes no part in transactions: its objects are
-- passed on separately, so what was put before a rollback stays. A request of the receipt service is
-- one step, since its transaction locks the user's images; the tests before the lock see that state.
-- A rolled-back insert gives its id back, where a sequence of Postgres would skip it.
--
-- Parameters. The scan provider of the worker, the provider's HTTP client, the image store, the
-- merchant matcher, libsodium (record `Sodium`), the image normalizer, and the JSON library with its
-- parser are arguments. The laws that are assumed of them are fields of `Doubles`, `Json`,
-- `ImageStore` and `Sodium`: documented facts, each shown to be possible by an instance.
--
-- Bounds. applyResult makes two attempts, as the source does; its theorem holds for any number. Every
-- loop is over a list or over the attempts that are left, but for the digits of a number in
-- Prelude/Bytes, whose fuel is one more than the number, which each digit divides by ten. An int64_t
-- of a scanned amount keeps its range: the magnitude of the least one and a sum that overflows, which
-- C++ leaves undefined, wrap around. The `int` that counts the attempts of a rate limit within one
-- window is taken to stay below 2^31.
--
-- Not modelled: the routes that only pass on to a service, Drogon's parsing and printing of requests,
-- S3 and request signing, image decoding, process start, the poll timer with its concurrent scans, the
-- notifier's own delivery, and the command-line tools. They are input and output, or glue.
pub mod Prelude
pub mod Json
pub mod Kinds
pub mod Schema
pub mod Calendar
pub mod JsonInput
pub mod LedgerInput
pub mod Database
pub mod ItemService
pub mod ScanProvider
pub mod ScanWorker
pub mod Auth
pub mod Anthropic
pub mod Receipts
pub mod Lifecycle
pub mod ReferenceData
pub mod Http
