-- ===== src/Anthropic/Requests.antt =====
-- How a scan request ends.
use receipt_scanner.Prelude.{
  ℕ, zero, suc, ◌+◌, ◌≤◌, ◌≡◌, ◌≢◌, refl, ap, ◌∙◌, ◌⊎◌, inl, inr, Bool, true, false, not, ◌||◌,
  Option, none, some, Text, codes, Exception, json_type_error, Result, ok, err, ◌>>=◌, scan_error,
  runtime_error, >>=-eq-ok, ◌==◌, ==_iff, Bool-cases, Result-cases, Option-cases, arith,
}
use receipt_scanner.Json.{Doubles, Json, get_string_or_throw}
use receipt_scanner.ScanProvider.{ScanContext, ScanResult}
use receipt_scanner.ScanWorker.Process.{what}
use receipt_scanner.Anthropic.{retryable, items_add_up}
use receipt_scanner.Anthropic.Replies.{text_or_empty, value_or_empty, parse_response}
use receipt_scanner.Anthropic.Replies.Magnitudes.{IsRead, parse_response-IsRead}
use receipt_scanner.Anthropic.Sending.{
  Response, error_object, api_error_message, message, attempt, send, note, try_second, catch_second,
  scan_receipt,
}

plus_zero : (a : ℕ) → a + 0 ≡ a
plus_zero a = omega arith

shift : (a k : ℕ) → a + suc k ≡ suc a + k
shift a k = omega arith

bind-err :
    {A B : Type 0} (m : Result A) (k : A → Result B) (x : Exception)
    → ((e : Exception) → m ≡ err e → e ≡ x)
    → ((a : A) (e : Exception) → k a ≡ err e → e ≡ x)
    → (e : Exception) → (m >>= k) ≡ err e
    → e ≡ x
bind-err (ok a) k x h then_k e thrown = then_k a e thrown
bind-err (err y) k x h then_k e thrown = h e cc

module _ {d : Doubles} (j : Json d) (parse : Text → Option j.Value) where
  open d use {Double}
  open j use {Value}

  text_or_empty-err :
      (found : Option Value) (e : Exception) → text_or_empty j found ≡ err e → e ≡ json_type_error
  unfolding get_string_or_throw
  text_or_empty-err none e thrown = ground arith
  text_or_empty-err (some v) e thrown = ground arith

  value_or_empty-err :
      (v : Value) (key : Text) (e : Exception)
      → value_or_empty j v key ≡ err e
      → e ≡ json_type_error
  value_or_empty-err v key e thrown = elim (Bool-cases (j.is_object v)) [
    | inl o ↦ text_or_empty-err (j.find v key) e (rw (o) at thrown)
    | inr o ↦ ground arith
  ]

  api_error-err :
      (body : Text) (e : Exception) → api_error_message j parse body ≡ err e → e ≡ json_type_error
  unfolding api_error_message
  api_error-err body e thrown = elim (Option-cases (error_object j parse body)) [
    | inl o ↦ let quiet = (rw (o, api_error_message) at thrown) in absurd (cc quiet)
    | inr (v, o) ↦
        bind-err (value_or_empty j v (codes "type")) _ json_type_error
          (value_or_empty-err v (codes "type"))
          (λ kind.
            bind-err (value_or_empty j v (codes "message")) _ json_type_error
              (value_or_empty-err v (codes "message")) (λ text x h. absurd (cc h)))
          e (rw (o, api_error_message) at thrown)
  ]

  -- All that a message can throw is the exception of a type or a message that is no string.
  message-err : (r : Response) (e : Exception) → message j parse r ≡ err e → e ≡ json_type_error
  unfolding message
  message-err r e thrown =
      bind-err (api_error_message j parse r.body) _ json_type_error (api_error-err r.body)
        (λ text x h. absurd (cc h)) e thrown

  -- How the request ends with the answer to one attempt, which is the last one or not.
  abbrev pub Ends : Type 0 → Result Text → Result Response → Type 0
  Ends last out (err e) = out ≡ err e
  Ends last out (ok r) =
      ((r.status ≡ 200) × (out ≡ ok r.body))
      ⊎ ((r.status ≢ 200) × (message j parse r ≡ err json_type_error) × (out ≡ err json_type_error))
      ⊎ ((text : Text) × (r.status ≢ 200)
          × (message j parse r ≡ ok text)
          × (retryable r.status ≡ false)
          × (out ≡ err (scan_error text)))
      ⊎ ((text : Text) × (message j parse r ≡ ok text)
          × (retryable r.status ≡ true)
          × last
          × (out ≡ err (runtime_error text)))

  -- The attempt's answer may be worth a retry.
  Retried : Result Text → Result Response → (Text → Result Text) → Type 0
  Retried out m again =
      (r : Response) × (text : Text) × (m ≡ ok r)
      × (message j parse r ≡ ok text)
      × (retryable r.status ≡ true)
      × (out ≡ again text)

  attempt-cases :
      (m : Result Response) (again : Text → Result Text) (last : Type 0)
      → Ends last (attempt j parse m again) m ⊎ Retried (attempt j parse m again) m again
  unfolding attempt Retried
  attempt-cases (err e) again last = inl refl
  attempt-cases (ok r) again last = elim (Bool-cases (r.status == 200)) [
    | inl e ↦ inl (inl ((==_iff r.status 200).0 e, rw (e) refl))
    | inr e ↦
        let other : r.status ≢ 200 = (λ same. cc (e, (==_iff r.status 200).1 same)) in
        elim (Result-cases (message j parse r)) [
          | inr (x, thrown) ↦
              let json = message-err r x thrown in
              inl (inr (inl (other, thrown ∙ ap err json, rw (e, thrown) (ap err json))))
          | inl (text, told) ↦ elim (Bool-cases (retryable r.status)) [
            | inl k ↦ inr (r, text, refl, told, k, rw (e, told, k) refl)
            | inr k ↦ inl (inr (inr (inl (text, other, told, k, rw (e, told, k) refl))))
          ]
        ]
  ]

  Ends-weaken :
      (m : Result Response) (last last' : Type 0) (out out' : Result Text)
      → (last → last')
      → out' ≡ out
      → Ends last out m
      → Ends last' out' m
  Ends-weaken (err x) last last' out out' f e h = e ∙ h
  Ends-weaken (ok r) last last' out out' f e (inl (s, h)) = inl (s, e ∙ h)
  Ends-weaken (ok r) last last' out out' f e (inr (inl (s, k, h))) = inr (inl (s, k, e ∙ h))
  Ends-weaken (ok r) last last' out out' f e (inr (inr (inl (t, s, m, k, h)))) =
      inr (inr (inl (t, s, m, k, e ∙ h)))
  Ends-weaken (ok r) last last' out out' f e (inr (inr (inr (t, m, k, l, h)))) =
      inr (inr (inr (t, m, k, f l, e ∙ h)))

  last_answer :
      (m : Result Response)
      → Ends (◌≡◌ {A = ℕ} 0 0) (attempt j parse m (λ text. err (runtime_error text))) m
  unfolding Retried
  last_answer m = elim (attempt-cases m (λ text. err (runtime_error text)) (◌≡◌ {A = ℕ} 0 0)) [
    | inl ends ↦ ends
    | inr (r, text, answered, told, k, e) ↦
        rw (answered) (inr (inr (inr (text, told, k, refl, rw (← answered) e))))
  ]

  -- A request ends with one of its attempts, of which there are at most the allowed retries and
  -- one more: what the client throws is thrown, and a 200 gives the body. For any other status the
  -- message is made first, and if that throws, the exception is that of a JSON value of the wrong
  -- type. Otherwise a status that is not worth a retry is a ScanError, and one that is ends the
  -- request only at the last attempt, and then not as a ScanError.
  pub send_lem :
      (exchange : ℕ → Result Response) (n left : ℕ)
      → (k : ℕ) × (k ≤ left) × Ends (k ≡ left) (send j parse exchange n left) (exchange (n + k))
  unfolding send Retried
  send_lem exchange n zero = (0, omega arith, rw (plus_zero n) (last_answer (exchange n)))
  send_lem exchange n (suc left) =
      let rest = send j parse exchange (suc n) left in
      elim (attempt-cases (exchange n) (λ _. rest) (0 ≡ suc left)) [
        | inl ends ↦ (0, omega arith, rw (plus_zero n) ends)
        | inr (r, text, answered, told, again, e) ↦
            let (k, bound, ends) = send_lem exchange (suc n) left in
            (
              suc k,
              omega (arith, bound),
              rw (shift n k) (
                  Ends-weaken (exchange (suc n + k)) (k ≡ left) (suc k ≡ suc left) rest _
                    (λ same. ap suc same) e ends),
            )
      ]

  -- The second request and the reading of its reply.
  abbrev pub rescan : Text → ScanContext → (ℕ → Result Response) → Result (ScanResult Double Value)
  rescan json_what context second =
      send j parse second 0 0 >>= λ body. parse_response j parse json_what body context

  rescan-object :
      (json_what : Text) (context : ScanContext) (second : ℕ → Result Response)
      (better : ScanResult Double Value)
      → rescan json_what context second ≡ ok better
      → IsRead j context.known_kind better
  rescan-object json_what context second better s =
      let (body, _, parsed) = >>=-eq-ok (send j parse second 0 0) _ s in
      parse_response-IsRead j parse json_what body context better parsed

  note-object :
      (key : Text) (value : Value) (scan : ScanResult Double Value)
      → j.is_object scan.raw ≡ true
      → note j parse key value scan ≡ ok (record scan { raw = j.set scan.raw key value })
  unfolding note
  note-object key value scan o = rw (o) refl

  try_second-ok :
      (json_what : Text) (context : ScanContext) (second : ℕ → Result Response)
      (scan better : ScanResult Double Value)
      → rescan json_what context second ≡ ok better
      → try_second j parse json_what context second scan
        ≡ note j parse (codes "first_scan") scan.raw better
  unfolding try_second
  try_second-ok json_what context second scan better s =
      let (body, sent, parsed) = >>=-eq-ok (send j parse second 0 0) _ s in rw (sent, parsed) refl

  try_second-err :
      (json_what : Text) (context : ScanContext) (second : ℕ → Result Response)
      (scan : ScanResult Double Value) (e : Exception)
      → rescan json_what context second ≡ err e
      → try_second j parse json_what context second scan ≡ err e
  unfolding try_second
  try_second-err json_what context second scan e s = elim (Result-cases (send j parse second 0 0)) [
    | inr (x, thrown) ↦ rw (thrown) (rw (thrown) at s)
    | inl (body, sent) ↦
        let failed : parse_response j parse json_what body context ≡ err e = (rw (sent) at s) in
        rw (sent, failed) refl
  ]

  -- What becomes of a first scan.
  abbrev pub Outcome :
      Text
      → ScanContext
      → Bool
      → (ℕ → Result Response)
      → ScanResult Double Value
      → ScanResult Double Value
      → Type 0
  Outcome json_what context rescans second scan out =
      (((items_add_up j scan || not rescans) ≡ true) × (out ≡ scan))
      ⊎ ((e : Exception) × ((items_add_up j scan || not rescans) ≡ false)
          × (rescan json_what context second ≡ err e)
          × (out
              ≡ record scan { raw = j.set scan.raw (codes "rescan_error") (j.of_string (what e)) }))
      ⊎ ((better : ScanResult Double Value) × ((items_add_up j scan || not rescans) ≡ false)
          × (rescan json_what context second ≡ ok better)
          × (out ≡ record better { raw = j.set better.raw (codes "first_scan") scan.raw })
          × (j.find out.raw (codes "first_scan") ≡ some scan.raw))

  -- A first scan that can be read is never lost. If its items add up, or no second scan is made, it
  -- is the result. If the second scan throws, the result is the first one, with the exception's
  -- message under "rescan_error" of its raw reply. Otherwise it is what the second reply gave, with
  -- the raw reply of the first under "first_scan".
  pub scan_receipt_lem :
      (json_what : Text) (context : ScanContext) (rescans : Bool) (max_retries : ℕ)
      (first second : ℕ → Result Response) (body : Text) (scan : ScanResult Double Value)
      → send j parse first 0 max_retries ≡ ok body
      → parse_response j parse json_what body context ≡ ok scan
      → (out : ScanResult Double Value) × (scan_receipt j parse json_what context rescans
            max_retries first second
          ≡ ok out)
        × Outcome json_what context rescans second scan out
  unfolding scan_receipt catch_second
  scan_receipt_lem json_what context rescans max_retries first second body scan e k =
      let (_, _, _, o) = parse_response-IsRead j parse json_what body context scan k in
      elim (Bool-cases (items_add_up j scan || not rescans)) [
        | inl c ↦ (scan, rw (e, k, c) refl, inl (c, refl))
        | inr c ↦ elim (Result-cases (rescan json_what context second)) [
          | inl (better, s) ↦
              let done = try_second-ok json_what context second scan better s in
              let (_, _, _, b) = rescan-object json_what context second better s in
              let noted = note-object (codes "first_scan") scan.raw better b in
              (
                record better { raw = j.set better.raw (codes "first_scan") scan.raw },
                rw (e, k, c, done, noted) refl,
                inr (
                    inr
                      (better, c, s, refl, j.find-set better.raw (codes "first_scan") scan.raw b)),
              )
          | inr (x, s) ↦
              let thrown = try_second-err json_what context second scan x s in
              let noted = note-object (codes "rescan_error") (j.of_string (what x)) scan o in
              (
                record scan { raw = j.set scan.raw (codes "rescan_error") (j.of_string (what x)) },
                rw (e, k, c, thrown, catch_second) noted,
                inr (inl (x, c, s, refl)),
              )
        ]
      ]
