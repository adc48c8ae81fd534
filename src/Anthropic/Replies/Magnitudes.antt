-- ===== src/Anthropic/Replies/Magnitudes.antt =====
-- The amounts of a reply that was read.
use receipt_scanner.Prelude.{
  ◌≡◌, refl, sym, ◌⊎◌, inl, inr, true, false, Option, none, some, List, [], ◌∷◌, Text, codes,
  text_eq, Result, ok, err, ℤ, pos, negsuc, ltb_ℤ, llabs, negate64, int64_max, int64_min, ◌==◌, All,
  Bool-cases, >>=-eq-ok, arith,
}
use receipt_scanner.Json.{Doubles, Json, get_string_or_throw}
use receipt_scanner.ScanProvider.{ScanContext, ScannedItem, ScanResult}
use receipt_scanner.ScanWorker.Results.{is_not_positive}
use receipt_scanner.Anthropic.{to_cents}
use receipt_scanner.Anthropic.Replies.{
  keep_item, to_item, read_items, kind_of, read_output, read_reply, parse_response, text_block,
  tags_of, quantity_of, opt_number, bool_of, caught, at, double_of, value_or_empty, parsed,
  object_of, unless_unreadable, opt_text, raw_of, usage_of,
}

-- Not negative, but for the int64_t that has no magnitude.
pub IsMagnitude : ℤ → Type 0
IsMagnitude x = (ltb_ℤ x (pos 0) ≡ false) ⊎ (x ≡ int64_min)

llabs-IsMagnitude : (x : ℤ) → IsMagnitude (llabs x)
unfolding IsMagnitude
llabs-IsMagnitude (pos n) = inl (ground arith)
llabs-IsMagnitude (negsuc n) = elim (Bool-cases (n == int64_max)) [
  | inl e ↦ rw (e) (inr refl)
  | inr e ↦ rw (e) (inl (ground arith))
]

negated-IsMagnitude : (x : ℤ) → ltb_ℤ x (pos 0) ≡ true → IsMagnitude (negate64 x)
unfolding IsMagnitude
negated-IsMagnitude (pos n) h = absurd (ground arith)
negated-IsMagnitude (negsuc n) h = llabs-IsMagnitude (negsuc n)

ok-injective : {A : Type 0} {a b : A} → ok a ≡ ok b → a ≡ b
ok-injective e = cc

module _ {d : Doubles} (j : Json d) where
  open d use {Double}
  open j use {Value}

  abbrev IsSound : ScannedItem Double → Type 0
  IsSound item = is_not_positive d item.quantity ≡ false

  -- The amounts are magnitudes, and every quantity that is there is positive.
  abbrev pub AreMagnitudes : List (ScannedItem Double) → Type 0
  AreMagnitudes items = All (λ item. IsMagnitude item.amount_cents × IsSound item) items

  quantity_of-positive : (read : Option Double) → is_not_positive d (quantity_of j read) ≡ false
  unfolding quantity_of
  quantity_of-positive none = refl
  quantity_of-positive (some q) = elim (Bool-cases (d.is_gt_zero q)) [
    | inl positive ↦ rw (positive, positive) refl
    | inr other ↦ rw (other) refl
  ]

  to_item-IsSound :
      (line : Value) (item : ScannedItem Double) → to_item j line ≡ ok item → IsSound item
  unfolding to_item
  to_item-IsSound line item e =
      let (v, _, e1) = >>=-eq-ok (at j line (codes "amount")) _ e in
      let (amount, _, e2) = >>=-eq-ok (double_of j v) _ e1 in
      let (b, _, e3) = >>=-eq-ok (at j line (codes "informational")) _ e2 in
      let (informational, _, e4) = >>=-eq-ok (bool_of j b) _ e3 in
      let (tags, _, e5) = >>=-eq-ok (tags_of j (j.find line (codes "tags"))) _ e4 in
      rw (sym (ok-injective e5)) (quantity_of-positive (opt_number j line (codes "quantity")))

  keep_item-AreMagnitudes :
      (kind : Text) (item : ScannedItem Double) (rest : List (ScannedItem Double))
      → IsSound item
      → AreMagnitudes rest
      → AreMagnitudes (keep_item j kind item rest)
  unfolding keep_item IsMagnitude
  keep_item-AreMagnitudes kind item rest sound h =
      elim (Bool-cases (ltb_ℤ item.amount_cents (pos 0))) [
        | inl negative ↦ elim (Bool-cases (text_eq kind (codes "refund"))) [
          | inl refund ↦
              rw (negative, refund) ((negated-IsMagnitude item.amount_cents negative, sound), h)
          | inr other ↦ rw (negative, other) h
        ]
        | inr positive ↦ rw (positive) ((inl positive, sound), h)
      ]

  read_items-AreMagnitudes :
      (kind : Text) (lines : List Value) (items : List (ScannedItem Double))
      → read_items j kind lines ≡ ok items
      → AreMagnitudes items
  unfolding read_items
  read_items-AreMagnitudes kind [] items e = rw (sym (ok-injective e)) tt
  read_items-AreMagnitudes kind (line ∷ lines) items e =
      let (item, t, e1) = >>=-eq-ok (to_item j line) _ e in
      let (rest, r, e2) = >>=-eq-ok (read_items j kind lines) _ e1 in
      rw (sym (ok-injective e2)) (
        keep_item-AreMagnitudes kind item rest (to_item-IsSound line item t)
          (read_items-AreMagnitudes kind lines rest r))

  raw_of-is_object :
      (model id : Text) (usage output : Value) → j.is_object (raw_of j model id usage output) ≡ true
  unfolding raw_of
  raw_of-is_object model id usage output = j.is_object-set _ _ output (
      j.is_object-set _ _ usage (
        j.is_object-set _ _ _
          (j.is_object-set _ _ _ (j.is_object-set j.empty_object _ _ j.is_object-empty_object))))

  -- The amounts and quantities of a result, its kind if it was known, and its raw reply.
  abbrev pub IsRead : Option Text → ScanResult Double Value → Type 0
  IsRead known result =
      IsMagnitude result.total_cents
      × AreMagnitudes result.items
      × ((known ≡ none) ⊎ (known ≡ some result.kind))
      × (j.is_object result.raw ≡ true)

  module _ (parse : Text → Option Value) where
    kind_of_lem :
        (known : Option Text) (output : Value) (kind : Text)
        → kind_of j known output ≡ ok kind
        → (known ≡ none) ⊎ (known ≡ some kind)
    unfolding kind_of
    kind_of_lem none output kind e = inl refl
    kind_of_lem (some k) output kind e = inr cc

    read_output-IsRead :
        (known : Option Text) (response output : Value) (result : ScanResult Double Value)
        → read_output j parse known response output ≡ ok result
        → IsRead known result
    unfolding read_output
    read_output-IsRead known response output result e =
        let (kind, k, e1) = >>=-eq-ok (kind_of j known output) _ e in
        let (currency_value, _, e2) = >>=-eq-ok (at j output (codes "currency")) _ e1 in
        let (currency, _, e3) = >>=-eq-ok (get_string_or_throw j currency_value) _ e2 in
        let (total_value, _, e4) = >>=-eq-ok (at j output (codes "total")) _ e3 in
        let (total, _, e5) = >>=-eq-ok (double_of j total_value) _ e4 in
        let (lines, _, e6) = >>=-eq-ok (at j output (codes "items")) _ e5 in
        let (items, i, e7) = >>=-eq-ok (read_items j kind (j.elements lines)) _ e6 in
        let (model, _, e8) = >>=-eq-ok (value_or_empty j response (codes "model")) _ e7 in
        let (id, _, e9) = >>=-eq-ok (value_or_empty j response (codes "id")) _ e8 in
        rw (sym (ok-injective e9)) (
          llabs-IsMagnitude (to_cents j total),
          read_items-AreMagnitudes kind (j.elements lines) items i,
          kind_of_lem known output kind k,
          raw_of-is_object model id (usage_of j parse (j.find response (codes "usage"))) output,
        )

    unless_unreadable-eq-ok :
        (reason : Option Text) (read : Result (ScanResult Double Value))
        (result : ScanResult Double Value)
        → unless_unreadable j parse reason read ≡ ok result
        → read ≡ ok result
    unless_unreadable-eq-ok none read result e = e
    unless_unreadable-eq-ok (some reason) read result e = cc

    caught-eq-ok :
        (what : Text) (m : Result (ScanResult Double Value)) (result : ScanResult Double Value)
        → caught j parse what m ≡ ok result
        → m ≡ ok result
    unfolding caught
    caught-eq-ok what (ok value) result e = e
    caught-eq-ok what (err thrown) result e = cc

    read_reply-IsRead :
        (known : Option Text) (response block : Value) (result : ScanResult Double Value)
        → read_reply j parse known response block ≡ ok result
        → IsRead known result
    unfolding read_reply
    read_reply-IsRead known response block result e =
        let (text_value, _, e1) = >>=-eq-ok (at j block (codes "text")) _ e in
        let (text, _, e2) = >>=-eq-ok (get_string_or_throw j text_value) _ e1 in
        let (output, _, e3) = >>=-eq-ok (parsed j parse text) _ e2 in
        read_output-IsRead known response output result
          (unless_unreadable-eq-ok (opt_text j output (codes "unreadable_reason")) _ result e3)

    -- A reply that is read gives a total and items whose amounts are not negative, or are the least
    -- int64_t, which has no magnitude, and no quantity that the worker refuses. It is of the kind
    -- that was known, if one was, and its raw reply is an object.
    pub parse_response-IsRead :
        (what body : Text) (context : ScanContext) (result : ScanResult Double Value)
        → parse_response j parse what body context ≡ ok result
        → IsRead context.known_kind result
    unfolding parse_response
    parse_response-IsRead what body context result e =
        let (response, _, e1) = >>=-eq-ok (object_of j parse (parse body)) _ e in
        let (block, _, e2) = >>=-eq-ok (text_block j response) _ e1 in
        read_reply-IsRead context.known_kind response block result (caught-eq-ok what _ result e2)
