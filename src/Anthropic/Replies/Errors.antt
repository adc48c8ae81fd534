-- ===== src/Anthropic/Replies/Errors.antt =====
-- What reading a reply throws.
use receipt_scanner.Prelude.{
  ◌≡◌, refl, ◌⊎◌, inl, inr, Bool, true, false, Option, none, some, List, [], ◌∷◌, Text, codes,
  Exception, json_type_error, scan_error, Result, ok, err, ◌>>=◌, ◌>>◌, ◌++◌, Bool-cases, throw_if,
  text_eq, if◌then◌else◌,
}
use receipt_scanner.Json.{Doubles, Json, get_string_or_throw}
use receipt_scanner.ScanProvider.{ScanContext}
use receipt_scanner.Anthropic.Replies.{
  present, text_or_empty, some_block, to_item, tags_of, texts_of, read_items, kind_of, read_output,
  read_reply, parse_response, text_block, first_text, text_of_content, caught, handled, at,
  double_of, bool_of, value_or_empty, parsed, object_of, unless_unreadable, opt_text,
}

-- An exception of nlohmann::json or a ScanError.
abbrev pub IsReplyError : Exception → Type 0
IsReplyError e = (e ≡ json_type_error) ⊎ ((m : Text) × (e ≡ scan_error m))

-- A step that throws nothing else.
abbrev Throws : {A : Type 0} → Result A → Type 0
Throws (ok _) = Unit
Throws (err e) = IsReplyError e

>>=-Throws :
    {A B : Type 0} (m : Result A) (k : A → Result B)
    → Throws m
    → ((a : A) → Throws (k a))
    → Throws (m >>= k)
>>=-Throws (ok a) k h then_k = then_k a
>>=-Throws (err e) k h then_k = h

>>=-eq-err :
    {A B : Type 0} (m : Result A) (k : A → Result B) (e : Exception)
    → (m >>= k) ≡ err e
    → (m ≡ err e) ⊎ ((a : A) × (m ≡ ok a) × (k a ≡ err e))
>>=-eq-err (ok a) k e h = inr (a, refl, h)
>>=-eq-err (err x) k e h = inl cc

at_err : {A : Type 0} (m : Result A) (e : Exception) → Throws m → m ≡ err e → IsReplyError e
at_err (ok a) e h same = cc
at_err (err x) e (inl json) same = inl (cc (json, same))
at_err (err x) e (inr (s, scan)) same = inr (s, cc (scan, same))

guard-Throws : {A : Type 0} (c : Bool) (a : A) → Throws (if c then ok a else err json_type_error)
guard-Throws true a = tt
guard-Throws false a = inl refl

module _ {d : Doubles} (j : Json d) where
  open d use {Double}
  open j use {Value}

  get_string-Throws : (v : Value) → Throws (get_string_or_throw j v)
  unfolding get_string_or_throw
  get_string-Throws v = guard-Throws (j.is_string v) (j.get_string v)

  present-Throws : (found : Option Value) → Throws (present j found)
  present-Throws none = inl refl
  present-Throws (some v) = tt

  text_or_empty-Throws : (found : Option Value) → Throws (text_or_empty j found)
  text_or_empty-Throws none = tt
  text_or_empty-Throws (some v) = get_string-Throws v

  value_or_empty-Throws : (v : Value) (key : Text) → Throws (value_or_empty j v key)
  value_or_empty-Throws v key = elim (Bool-cases (j.is_object v)) [
    | inl object ↦ rw (object) (text_or_empty-Throws (j.find v key))
    | inr other ↦ rw (other) (inl refl)
  ]

  texts_of-Throws : (vs : List Value) → Throws (texts_of j vs)
  texts_of-Throws [] = tt
  texts_of-Throws (v ∷ vs) =
      >>=-Throws (get_string_or_throw j v) _ (get_string-Throws v)
        (λ s. >>=-Throws (texts_of j vs) _ (texts_of-Throws vs) (λ ss. tt))

  tags_of-Throws : (tags : Option Value) → Throws (tags_of j tags)
  unfolding tags_of
  tags_of-Throws none = tt
  tags_of-Throws (some v) = elim (Bool-cases (j.is_array v)) [
    | inl array ↦ rw (array) (texts_of-Throws (j.elements v))
    | inr other ↦ rw (other) (inl refl)
  ]

  to_item-Throws : (line : Value) → Throws (to_item j line)
  unfolding to_item
  to_item-Throws line = >>=-Throws (at j line (codes "amount")) _ (present-Throws _) λ v.
      >>=-Throws (double_of j v) _ (guard-Throws (j.is_number v) (j.get_double v)) λ amount.
        >>=-Throws (at j line (codes "informational")) _ (present-Throws _) λ b.
          >>=-Throws (bool_of j b) _ (guard-Throws (j.is_boolean b) (j.get_bool b)) λ informational.
            >>=-Throws (tags_of j (j.find line (codes "tags"))) _ (tags_of-Throws _) λ tags. tt

  read_items-Throws : (kind : Text) (lines : List Value) → Throws (read_items j kind lines)
  unfolding read_items
  read_items-Throws kind [] = tt
  read_items-Throws kind (line ∷ lines) =
      >>=-Throws (to_item j line) _ (to_item-Throws line)
        λ item. >>=-Throws (read_items j kind lines) _ (read_items-Throws kind lines) λ rest. tt

  throw_if-Throws :
      {A : Type 0} (c : Bool) (m : Text) (k : Result A)
      → Throws k
      → Throws (throw_if c (scan_error m) >> k)
  throw_if-Throws true m k h = inr (m, refl)
  throw_if-Throws false m k h = h

  first_text-Throws : (blocks : List Value) → Throws (first_text j blocks)
  unfolding first_text
  first_text-Throws [] = tt
  first_text-Throws (block ∷ blocks) =
      let rest = first_text-Throws blocks in
      >>=-Throws (value_or_empty j block (codes "type")) _ (value_or_empty-Throws block _) λ kind.
        elim (Bool-cases (text_eq kind (codes "text"))) [
          | inl same ↦ rw (same) tt
          | inr other ↦ rw (other) rest
        ]

  text_of_content-Throws : (content : Option Value) → Throws (text_of_content j content)
  unfolding text_of_content
  text_of_content-Throws none = tt
  text_of_content-Throws (some content) = elim (Bool-cases (j.is_array content)) [
    | inl array ↦ rw (array) (first_text-Throws (j.elements content))
    | inr other ↦ rw (other) tt
  ]

  some_block-Throws : (reason : Text) (text : Option Value) → Throws (some_block j reason text)
  some_block-Throws reason none = inr (_, refl)
  some_block-Throws reason (some block) = tt

  text_block-Throws : (response : Value) → Throws (text_block j response)
  unfolding text_block
  text_block-Throws response =
      >>=-Throws (value_or_empty j response (codes "stop_reason")) _
        (value_or_empty-Throws response _)
        λ reason. throw_if-Throws (text_eq reason (codes "refusal")) _ _ (
          throw_if-Throws (text_eq reason (codes "max_tokens")) _ _ (
            >>=-Throws (text_of_content j (j.find response (codes "content"))) _
              (text_of_content-Throws _) (λ text. some_block-Throws reason text)))

  kind_of-Throws : (known : Option Text) (output : Value) → Throws (kind_of j known output)
  unfolding kind_of
  kind_of-Throws none output =
      >>=-Throws (at j output (codes "kind")) _ (present-Throws _) λ v. get_string-Throws v
  kind_of-Throws (some kind) output = tt

  module _ (parse : Text → Option Value) where
    read_output-Throws :
        (known : Option Text) (response output : Value)
        → Throws (read_output j parse known response output)
    unfolding read_output
    read_output-Throws known response output =
        >>=-Throws (kind_of j known output) _ (kind_of-Throws known output) λ kind.
          >>=-Throws (at j output (codes "currency")) _ (present-Throws _) λ c.
            >>=-Throws (get_string_or_throw j c) _ (get_string-Throws c) λ currency.
              >>=-Throws (at j output (codes "total")) _ (present-Throws _) λ t.
                >>=-Throws (double_of j t) _ (guard-Throws (j.is_number t) (j.get_double t))
                  λ total. >>=-Throws (at j output (codes "items")) _ (present-Throws _) λ lines.
                    >>=-Throws (read_items j kind (j.elements lines)) _ (read_items-Throws kind _)
                      λ items.
                        >>=-Throws (value_or_empty j response (codes "model")) _
                          (value_or_empty-Throws response _)
                          λ model.
                            >>=-Throws (value_or_empty j response (codes "id")) _
                              (value_or_empty-Throws response _) λ id. tt

    unless_unreadable-Throws :
        {A : Type 0} (reason : Option Text) (read : Result A)
        → Throws read
        → Throws (unless_unreadable j parse reason read)
    unless_unreadable-Throws none read h = h
    unless_unreadable-Throws (some reason) read h = inr (_, refl)

    read_reply-Throws :
        (known : Option Text) (response block : Value)
        → Throws (read_reply j parse known response block)
    unfolding read_reply
    read_reply-Throws known response block =
        >>=-Throws (at j block (codes "text")) _ (present-Throws _) λ t.
          >>=-Throws (get_string_or_throw j t) _ (get_string-Throws t) λ text.
            >>=-Throws (parsed j parse text) _ (present-Throws _) λ output.
              unless_unreadable-Throws (opt_text j output (codes "unreadable_reason")) _
                (read_output-Throws known response output)

    handled-cases :
        (what : Text) (x : Exception)
        → IsReplyError x
        → (s : Text) × (handled j parse what x ≡ scan_error s)
    handled-cases what x (inl json) =
        (codes "Anthropic reply doesn't match the extraction schema: " ++ what, rw (json) refl)
    handled-cases what x (inr (s, scan)) = (s, rw (scan) refl)

    object_of-cases :
        (found : Option Value) (e : Exception)
        → object_of j parse found ≡ err e
        → (s : Text) × (e ≡ scan_error s)
    object_of-cases none e thrown = (codes "Anthropic response is not JSON", cc)
    object_of-cases (some v) e thrown = elim (Bool-cases (j.is_object v)) [
      | inl object ↦ cc (rw (object) at thrown)
      | inr other ↦ (codes "Anthropic response is not JSON", cc (rw (other) at thrown))
    ]

    object_of-eq-ok :
        (found : Option Value) (response : Value)
        → object_of j parse found ≡ ok response
        → found ≡ some response
    object_of-eq-ok none response e = cc
    object_of-eq-ok (some v) response e = elim (Bool-cases (j.is_object v)) [
      | inl object ↦ cc (rw (object) at e)
      | inr other ↦ cc (rw (other) at e)
    ]

    -- The body with its handler is read, or throws a ScanError.
    caught-cases :
        {A : Type 0} (what : Text) (m : Result A) (e : Exception)
        → Throws m
        → caught j parse what m ≡ err e
        → (s : Text) × (e ≡ scan_error s)
    unfolding caught
    caught-cases what (ok a) e h same = cc
    caught-cases what (err x) e h same =
        let (s, scan) = handled-cases what x h in (s, cc (same, scan))

    -- Reading a reply throws a ScanError, or json_type_error, and that only where the search for
    -- the text block throws it, which is before the handler.
    pub parse_response-errors :
        (what body : Text) (context : ScanContext) (e : Exception)
        → parse_response j parse what body context ≡ err e
        → ((s : Text) × (e ≡ scan_error s))
          ⊎ ((e ≡ json_type_error)
              × ((response : Value) × (parse body ≡ some response)
                  × (text_block j response ≡ err json_type_error)))
    unfolding parse_response
    parse_response-errors what body context e thrown =
        elim (>>=-eq-err (object_of j parse (parse body)) _ e thrown) [
          | inl h ↦ inl (object_of-cases (parse body) e h)
          | inr (response, o, h) ↦ elim (>>=-eq-err (text_block j response) _ e h) [
            | inl b ↦ elim (at_err (text_block j response) e (text_block-Throws response) b) [
              | inl json ↦
                  inr (json, (response, object_of-eq-ok (parse body) response o, cc (b, json)))
              | inr scan ↦ inl scan
            ]
            | inr (block, _, c) ↦ inl (
                caught-cases what (read_reply j parse _ response block) e
                  (read_reply-Throws _ response block) c)
          ]
        ]
