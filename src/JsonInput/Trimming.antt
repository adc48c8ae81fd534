-- ===== src/JsonInput/Trimming.antt =====
-- `trim` of JsonInput.cpp, and the string readers that use it.
use receipt_scanner.Prelude.{
  ℕ, suc, ◌+◌, ◌-◌, ◌<◌, ◌≡◌, refl, sym, ap, ◌∙◌, ◌⊎◌, inl, inr, true, false, [], ◌∷◌, ◌++◌,
  reverse, length, length-append, take, drop, Text, is_space, All, All-append, append_assoc,
  append-nil, arith, Bool-cases, ltb,
}
use mathlib.Core.List.{reverse-append, reverse-cons}
use receipt_scanner.JsonInput.{leading, trim}

abbrev pub IsSpaces : Text → Type 0
IsSpaces s = All (λ c. is_space c ≡ true) s

-- What a text is cut into, if it is not all white space: no white space at either end of `core`.
pub record Cut (s : Text) : Type 0 where
  pub before : Text
  pub start : ℕ
  pub core : Text
  pub after : Text
  pub whole : s ≡ before ++ start ∷ (core ++ after)
  pub before_spaces : IsSpaces before
  pub after_spaces : IsSpaces after
  pub starts : is_space start ≡ false
  -- The last character, which is the first one of the reversed text.
  pub stop : ℕ
  pub init : Text
  pub ends : start ∷ core ≡ init ++ stop ∷ []
  pub stops : is_space stop ≡ false

leading-spaces :
    (s t : Text) (c : ℕ) → IsSpaces s → is_space c ≡ false → leading (s ++ c ∷ t) ≡ length s
unfolding leading
leading-spaces [] t c h n = rw n
leading-spaces (x ∷ s) t c (p, h) n = rw p (ap suc (leading-spaces s t c h n))

leading-IsSpaces : (s : Text) → IsSpaces s → leading s ≡ length s
unfolding leading
leading-IsSpaces [] h = refl
leading-IsSpaces (x ∷ s) (p, h) = rw p (ap suc (leading-IsSpaces s h))

IsSpaces-reverse : (s : Text) → IsSpaces s → IsSpaces (reverse s)
IsSpaces-reverse [] h = h
IsSpaces-reverse (x ∷ s) (p, h) =
    rw reverse-cons
      (All-append (λ c. is_space c ≡ true) (reverse s) (x ∷ []) (IsSpaces-reverse s h) (p, tt))

length-reverse : (s : Text) → length (reverse s) ≡ length s
length-reverse [] = refl
length-reverse (x ∷ s) =
    rw reverse-cons (omega (arith, length-append (reverse s) (x ∷ []), length-reverse s))

drop-append : (s t : Text) → drop (length s) (s ++ t) ≡ t
drop-append [] t = refl
drop-append (x ∷ s) t = drop-append s t

take-append : (s t : Text) → take (length s) (s ++ t) ≡ s
take-append [] t = refl
take-append (x ∷ s) t = ap (λ r. x ∷ r) (take-append s t)

trim_between :
    (s t r : Text) (b n a : ℕ)
    → leading s ≡ b
    → leading (reverse s) ≡ a
    → length s ≡ b + n + a
    → 0 < n
    → drop b s ≡ t
    → take n t ≡ r
    → trim s ≡ r
unfolding trim
trim_between s t r b n a hb ha hl pos_n hd ht =
    let inside : ltb (leading s) (length s - leading (reverse s)) ≡ true = ground arith in
    let width : length s - leading (reverse s) - leading s ≡ n = omega arith in
    rw (inside, width, hb, hd) ht

leading-reverse-Cut : (s : Text) (k : Cut s) → leading (reverse s) ≡ length k.after
leading-reverse-Cut s k =
    let shape : s ≡ (k.before ++ k.init) ++ k.stop ∷ k.after =
      k.whole ∙ ap (λ r. k.before ++ (r ++ k.after)) k.ends ∙ simp append_assoc refl in
    rw (shape, reverse-append, reverse-cons)
      (rw append_assoc (
        leading-spaces (reverse k.after) (reverse (k.before ++ k.init)) k.stop
          (IsSpaces-reverse k.after k.after_spaces) k.stops
        ∙ length-reverse k.after))

-- `trim` takes the white space off both ends of a text that holds anything else.
trim-Cut : (s : Text) (k : Cut s) → trim s ≡ k.start ∷ k.core
trim-Cut s k =
    trim_between s (k.start ∷ (k.core ++ k.after)) (k.start ∷ k.core) (length k.before)
      (length (k.start ∷ k.core)) (length k.after)
      (rw k.whole (leading-spaces k.before (k.core ++ k.after) k.start k.before_spaces k.starts))
      (leading-reverse-Cut s k)
      (rw k.whole (
        omega (
          arith,
          length-append k.before (k.start ∷ (k.core ++ k.after)),
          length-append k.core k.after,
        )))
      (omega arith) (rw k.whole (drop-append k.before (k.start ∷ (k.core ++ k.after))))
      (take-append (k.start ∷ k.core) k.after)

split-IsSpaces :
    (s : Text)
    → IsSpaces s
      ⊎ ((before : Text) × (c : ℕ) × (t : Text) × (s ≡ before ++ c ∷ t)
          × IsSpaces before
          × (is_space c ≡ false))
split-IsSpaces [] = inl tt
split-IsSpaces (c ∷ s) = elim (Bool-cases (is_space c)) [
  | inr e ↦ inr ([], c, s, refl, tt, e)
  | inl e ↦ elim (split-IsSpaces s) [
    | inl h ↦ inl (e, h)
    | inr (b, x, t, w, h, n) ↦ inr (c ∷ b, x, t, ap (λ r. c ∷ r) w, (e, h), n)
  ]
]

-- A text that ends in other than white space, and what follows.
split_end :
    (s : Text)
    → IsSpaces s
      ⊎ ((init : Text) × (c : ℕ) × (after : Text) × (s ≡ init ++ c ∷ after)
          × IsSpaces after
          × (is_space c ≡ false))
split_end [] = inl tt
split_end (x ∷ s) = elim (split_end s) [
  | inr (i, c, a, w, h, n) ↦ inr (x ∷ i, c, a, ap (λ r. x ∷ r) w, h, n)
  | inl h ↦ elim (Bool-cases (is_space x)) [
    | inl e ↦ inl (e, h)
    | inr e ↦ inr ([], x, s, refl, h, e)
  ]
]

Cut-from :
    (s before init after core : Text) (c z : ℕ)
    → s ≡ before ++ c ∷ core
    → IsSpaces before
    → is_space c ≡ false
    → c ∷ core ≡ init ++ z ∷ after
    → IsSpaces after
    → is_space z ≡ false
    → Cut s
Cut-from s before [] after core c z w hb hc e ha hz = record {
  before = before;
  start = c;
  core = [];
  after = after;
  whole = w ∙ ap (λ r. before ++ r) (cc e);
  before_spaces = hb;
  after_spaces = ha;
  starts = hc;
  stop = c;
  init = [];
  ends = refl;
  stops = hc;
}
Cut-from s before (x ∷ init) after core c z w hb hc e ha hz = record {
  before = before;
  start = c;
  core = init ++ z ∷ [];
  after = after;
  whole =
      w
      ∙ ap (λ r. before ++ c ∷ r)
          (let t : core ≡ init ++ z ∷ after = cc in t ∙ sym (append_assoc init (z ∷ []) after));
  before_spaces = hb;
  after_spaces = ha;
  starts = hc;
  stop = z;
  init = c ∷ init;
  ends = refl;
  stops = hz;
}

-- Every text is white space only, or has a cut.
cut : (s : Text) → IsSpaces s ⊎ Cut s
cut s = elim (split-IsSpaces s) [
  | inl h ↦ inl h
  | inr (b, c, t, w, hb, hc) ↦ elim (split_end (c ∷ t)) [
    | inl (p, _) ↦ absurd (ground arith)
    | inr (i, z, a, e, ha, hz) ↦ inr (Cut-from s b i a t c z w hb hc e ha hz)
  ]
]

trim-IsSpaces : (s : Text) → IsSpaces s → trim s ≡ []
unfolding trim
trim-IsSpaces s h =
    let all_leading : leading s ≡ length s = leading-IsSpaces s h in
    let empty : ltb (leading s) (length s - leading (reverse s)) ≡ false = ground arith in rw empty

-- `trim` gives the empty text for white space only, and otherwise what lies between the white
-- space at the two ends, which begins and ends with other characters.
trim_lem : (s : Text) → (IsSpaces s × (trim s ≡ [])) ⊎ ((k : Cut s) × (trim s ≡ k.start ∷ k.core))
trim_lem s = elim (cut s) [ inl h ↦ inl (h, trim-IsSpaces s h) | inr k ↦ inr (k, trim-Cut s k) ]

-- Trimming a second time changes nothing.
trim_idempotent : (s : Text) → trim (trim s) ≡ trim s
trim_idempotent s = elim (cut s) [
  | inl h ↦ rw (trim-IsSpaces s h) (trim-IsSpaces [] tt)
  | inr k ↦ rw (trim-Cut s k) (
      trim-Cut (k.start ∷ k.core) (record {
        before = [];
        start = k.start;
        core = k.core;
        after = [];
        whole = sym (append-nil (k.start ∷ k.core));
        before_spaces = tt;
        after_spaces = tt;
        starts = k.starts;
        stop = k.stop;
        init = k.init;
        ends = k.ends;
        stops = k.stops;
      }))
]
