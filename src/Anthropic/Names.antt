-- ===== src/Anthropic/Names.antt =====
-- The names that a request offers: `uniqueNames`.
use receipt_scanner.Prelude.{
  ◌≡◌, refl, sym, inl, inr, true, List, [], ◌∷◌, ◌++◌, map, Text, text_eq, text_eq_iff, In, All,
  Distinct, Distinct-snoc, All-weaken, In-append, Bool-cases, if◌then◌else◌, arith,
}
use receipt_scanner.ScanWorker.Results.{lower}
use receipt_scanner.Anthropic.{seen_in, add_names, unique_names_from, unique_names}

abbrev lowered : List Text → List Text
lowered names = map lower names

lowered-snoc :
    (out : List Text) (name : Text) → lowered (out ++ name ∷ []) ≡ lowered out ++ lower name ∷ []
lowered-snoc [] name = refl
lowered-snoc (x ∷ out) name = rw (lowered-snoc out name) refl

seen_in-In :
    (out : List Text) (name : Text) → seen_in out name ≡ true → In (lower name) (lowered out)
seen_in-In [] name h = ground arith
seen_in-In (x ∷ out) name h = elim (Bool-cases (text_eq (lower x) (lower name))) [
  | inl e ↦ inl (sym ((text_eq_iff (lower x) (lower name)).0 e))
  | inr e ↦ inr (seen_in-In out name (ground arith))
]

In-seen_in :
    (out : List Text) (name : Text) → In (lower name) (lowered out) → seen_in out name ≡ true
In-seen_in [] name i = elim i [ ]
In-seen_in (x ∷ out) name (inl e) = rw ((text_eq_iff (lower x) (lower name)).1 (sym e)) refl
In-seen_in (x ∷ out) name (inr i) = ground (arith, In-seen_in out name i)

-- What adding names keeps: no two spellings of one name, and every name that was there.
abbrev Grows : List Text → List Text → Type 0
Grows out out' =
    (Distinct (lowered out) → Distinct (lowered out'))
    × ((key : Text) → In key (lowered out) → In key (lowered out'))

add_one :
    (out : List Text) (name : Text)
    → let out' = if seen_in out name then out else out ++ name ∷ [] in
      Grows out out' × In (lower name) (lowered out')
add_one out name = elim (Bool-cases (seen_in out name)) [
  | inl e ↦ rw (e) (((λ d. d), (λ key i. i)), seen_in-In out name e)
  | inr e ↦
      rw (e, lowered-snoc out name)
        (
          (
            (λ d. Distinct-snoc (lowered out) (lower name) d (λ i. cc (e, In-seen_in out name i))),
            (λ key i. In-append key (lowered out) (lower name ∷ []) (inl i)),
          ),
          In-append (lower name) (lowered out) (lower name ∷ []) (inr (inl refl)),
        )
]

abbrev Holds : List Text → List Text → Type 0
Holds names out = All (λ name. In (lower name) (lowered out)) names

add_names-Grows :
    (out names : List Text) → Grows out (add_names out names) × Holds names (add_names out names)
unfolding add_names
add_names-Grows out [] = (((λ d. d), (λ key i. i)), tt)
add_names-Grows out (name ∷ names) =
    let (one, here) = add_one out name in
    let (rest, held) = add_names-Grows (if seen_in out name then out else out ++ name ∷ []) names in
    (
      ((λ d. rest.0 (one.0 d)), (λ key i. rest.1 key (one.1 key i))),
      (rest.1 (lower name) here, held),
    )

Holds-Grows : (names out out' : List Text) → Grows out out' → Holds names out → Holds names out'
Holds-Grows names out out' g h =
    All-weaken (λ name. In (lower name) (lowered out)) (λ name. In (lower name) (lowered out'))
      names (λ name i. g.1 (lower name) i) h

unique_names_from-Grows :
    (out : List Text) (lists : List (List Text))
    → Grows out (unique_names_from out lists)
      × All (λ names. Holds names (unique_names_from out lists)) lists
unfolding unique_names_from
unique_names_from-Grows out [] = (((λ d. d), (λ key i. i)), tt)
unique_names_from-Grows out (names ∷ lists) =
    let (first, held) = add_names-Grows out names in
    let (rest, all_held) = unique_names_from-Grows (add_names out names) lists in
    (
      ((λ d. rest.0 (first.0 d)), (λ key i. rest.1 key (first.1 key i))),
      (
        Holds-Grows names (add_names out names) (unique_names_from (add_names out names) lists) rest
            held,
        all_held,
      ),
    )

-- The offered names are pairwise different even in lower case, and every name of every list is
-- among them up to case.
pub unique_names_lem :
    (lists : List (List Text))
    → Distinct (map lower (unique_names lists))
      × All (λ names. All (λ name. In (lower name) (map lower (unique_names lists))) names) lists
unfolding unique_names
unique_names_lem lists = let (grows, held) = unique_names_from-Grows [] lists in (grows.0 tt, held)
