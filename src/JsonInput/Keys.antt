-- ===== src/JsonInput/Keys.antt =====
-- Which bodies the readers of JsonInput.cpp let through: known keys, and absent keys.
use receipt_scanner.Prelude.{
  ◌≡◌, ◌↔◌, true, any, List, [], ◌∷◌, Text, text_eq, text_eq_iff, ok, In, All, arith,
}
use receipt_scanner.Json.{Doubles, Json}
use receipt_scanner.JsonInput.{reject_unknown_in, reject_unknown_keys}

any-text_eq_iff : (k : Text) (ks : List Text) → (any (text_eq k) ks ≡ true) ↔ In k ks
any-text_eq_iff k [] = ((λ e. cc), (λ i. elim i [ ]))
any-text_eq_iff k (x ∷ xs) = ground (arith, text_eq_iff k x, any-text_eq_iff k xs)

module _ {d : Doubles} (j : Json d) where
  open j use {Value, items}

  reject_unknown_in_iff :
      (es : List (Text × Value)) (allowed : List Text)
      → (reject_unknown_in j es allowed ≡ ok tt) ↔ All (λ e. In e.0 allowed) es
  unfolding reject_unknown_in
  reject_unknown_in_iff [] allowed = ground arith
  reject_unknown_in_iff ((k, v) ∷ es) allowed =
      ground (arith, any-text_eq_iff k allowed, reject_unknown_in_iff es allowed)

-- `rejectUnknownKeys` returns exactly when every key of the body is an allowed one.
pub reject_unknown_keys_iff :
    {d : Doubles} (j : Json d) (body : j.Value) (allowed : List Text)
    → (reject_unknown_keys j body allowed ≡ ok tt) ↔ All (λ e. In e.0 allowed) (j.items body)
unfolding reject_unknown_keys
reject_unknown_keys_iff j body allowed = reject_unknown_in_iff j (j.items body) allowed
