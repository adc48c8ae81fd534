-- ===== src/JsonInput/Numbers.antt =====
-- The integer readers of JsonInput.cpp: amounts in cents, ids, and lists of ids.
use receipt_scanner.Prelude.{
  ◌≡◌, refl, ap, ◌↔◌, ◌⊎◌, inl, inr, true, false, any, none, some, List, [], ◌∷◌, ◌++◌, Text, ok,
  In, All, All-append, Distinct, Distinct-snoc, In-append, In-append_cases, ℤ, pos, negsuc, ◌≤ℤ◌,
  ◌==ℤ◌, ==ℤ_iff, IsInt64, arith, Bool-cases, Option-cases,
}
use receipt_scanner.Json.{Doubles, Json}
use receipt_scanner.JsonInput.{add_unique, as_int64, cents, nullable_id, id_list_from, id_list}

-- The value is the integer `n`: an unsigned one as it is read, or else a signed one.
abbrev pub Denotes : {d : Doubles} (j : Json d) → j.Value → ℤ → Type 0
Denotes j v n =
    ((j.is_number_unsigned v ≡ true) × (n ≡ pos (j.get_uint64 v)))
    ⊎ ((j.is_number_unsigned v ≡ false) × (j.is_number_integer v ≡ true) × (n ≡ j.get_int64 v))

-- A positive number that an int64_t holds.
abbrev pub IsId : ℤ → Type 0
IsId n = (pos 1 ≤ℤ n) × IsInt64 n

module _ {d : Doubles} (j : Json d) (v : j.Value) where
  as_int64_iff : (n : ℤ) → (as_int64 j v ≡ some n) ↔ (Denotes j v n × IsInt64 n)
  unfolding as_int64
  as_int64_iff (pos n) = ground (arith, j.get_int64_range v)
  as_int64_iff (negsuc n) = ground (arith, j.get_int64_range v)

-- `cents` reads exactly the integers from 0 to the largest int64_t, and reads each as it is.
pub cents_iff :
    {d : Doubles} (j : Json d) (v : j.Value) (field : Text) (n : ℤ)
    → (cents j v field ≡ ok n) ↔ (Denotes j v n × (pos 0 ≤ℤ n) × IsInt64 n)
unfolding cents
cents_iff j v field n = elim (Option-cases (as_int64 j v)) [
  | inl e ↦ ground (arith, as_int64_iff j v n)
  | inr (m, e) ↦ ground (arith, as_int64_iff j v n, as_int64_iff j v m)
]

-- `nullableId` reads exactly null, as no id, and the integers from 1 to the largest int64_t.
nullable_id_iff :
    {d : Doubles} (j : Json d) (v : j.Value) (field : Text) (n : ℤ)
    → ((nullable_id j v field ≡ ok none) ↔ (j.is_null v ≡ true))
      × ((nullable_id j v field ≡ ok (some n)) ↔ ((j.is_null v ≡ false) × Denotes j v n × IsId n))
unfolding nullable_id
nullable_id_iff j v field n = elim (Option-cases (as_int64 j v)) [
  | inl e ↦ (ground arith, ground (arith, as_int64_iff j v n))
  | inr (m, e) ↦ (ground arith, ground (arith, as_int64_iff j v n, as_int64_iff j v m))
]

any-==ℤ_iff : (n : ℤ) (ids : List ℤ) → (any (λ i. i ==ℤ n) ids ≡ true) ↔ In n ids
any-==ℤ_iff n [] = ((λ e. cc), (λ i. elim i [ ]))
any-==ℤ_iff n (x ∷ xs) = ground (arith, ==ℤ_iff x n, any-==ℤ_iff n xs)

pub add_unique-cases :
    (ids : List ℤ) (n : ℤ)
    → (In n ids × (add_unique ids n ≡ ids)) ⊎ (¬ (In n ids) × (add_unique ids n ≡ ids ++ n ∷ []))
unfolding add_unique
add_unique-cases ids n = elim (Bool-cases (any (λ i. i ==ℤ n) ids)) [
  | inl e ↦ inl ((any-==ℤ_iff n ids).0 e, rw e)
  | inr e ↦ inr ((λ i. cc (e, (any-==ℤ_iff n ids).1 i)), rw e)
]

add_unique-Distinct : (ids : List ℤ) (n : ℤ) → Distinct ids → Distinct (add_unique ids n)
add_unique-Distinct ids n h = elim (add_unique-cases ids n) [
  | inl (_, e) ↦ rw e h
  | inr (fresh, e) ↦ rw e (Distinct-snoc ids n h fresh)
]

add_unique-All : (ids : List ℤ) (n : ℤ) → All IsId ids → IsId n → All IsId (add_unique ids n)
add_unique-All ids n h p = elim (add_unique-cases ids n) [
  | inl (_, e) ↦ rw e h
  | inr (_, e) ↦ rw e (All-append IsId ids (n ∷ []) h (p, tt))
]

In-add_unique : (ids : List ℤ) (n m : ℤ) → In m ids ⊎ (m ≡ n) → In m (add_unique ids n)
In-add_unique ids n m c = elim (add_unique-cases ids n) [
  | inl (old, e) ↦ rw e (elim c [ inl i ↦ i | inr s ↦ rw s old ])
  | inr (_, e) ↦ rw e (elim c [
    | inl i ↦ In-append m ids (n ∷ []) (inl i)
    | inr s ↦ In-append m ids (n ∷ []) (inr (inl s))
  ])
]

In-add_unique_cases : (ids : List ℤ) (n m : ℤ) → In m (add_unique ids n) → In m ids ⊎ (m ≡ n)
In-add_unique_cases ids n m i = elim (add_unique-cases ids n) [
  | inl (_, e) ↦ inl (rw e at i)
  | inr (_, e) ↦ elim (In-append_cases m ids (n ∷ []) (rw e at i)) [
    | inl old ↦ inl old
    | inr (inl s) ↦ inr s
    | inr (inr none_left) ↦ elim none_left [ ]
  ]
]

-- A number that some element denotes.
abbrev pub IsListed : {d : Doubles} (j : Json d) → List j.Value → ℤ → Type 0
IsListed j vs n = (v : j.Value) × In v vs × Denotes j v n

module _ {d : Doubles} (j : Json d) (field : Text) where
  -- One round of the loop: the element is an id, and the rest goes on with it added.
  id_list_from-cons :
      (ids : List ℤ) (v : j.Value) (vs : List j.Value) {out : List ℤ}
      → id_list_from j field ids (v ∷ vs) ≡ ok out
      → (n : ℤ) × (Denotes j v n × IsId n) × (id_list_from j field (add_unique ids n) vs ≡ ok out)
  unfolding id_list_from
  id_list_from-cons ids v vs h = elim (Option-cases (as_int64 j v)) [
    | inl e ↦ absurd (ground arith)
    | inr (n, e) ↦ (n, ground (arith, as_int64_iff j v n), ground arith)
  ]

  id_list_from-IsId :
      (ids : List ℤ) (vs : List j.Value) {out : List ℤ}
      → id_list_from j field ids vs ≡ ok out
      → Distinct ids × All IsId ids
      → Distinct out × All IsId out
  unfolding id_list_from
  id_list_from-IsId ids [] {out} e h = let s : ids ≡ out = cc in rw (← s) h
  id_list_from-IsId ids (v ∷ vs) e (fresh, good) =
      let (n, (_, p), rest) = id_list_from-cons ids v vs e in
      id_list_from-IsId (add_unique ids n) vs rest
        (add_unique-Distinct ids n fresh, add_unique-All ids n good p)

  id_list_from-In :
      (ids : List ℤ) (vs : List j.Value) (n : ℤ) {out : List ℤ}
      → id_list_from j field ids vs ≡ ok out
      → In n ids ⊎ IsListed j vs n
      → In n out
  unfolding id_list_from
  id_list_from-In ids [] n {out} e (inl i) = let s : ids ≡ out = cc in rw (← s) i
  id_list_from-In ids [] n e (inr (v, i, _)) = elim i [ ]
  id_list_from-In ids (v ∷ vs) n e c =
      let (m, (denotes, _), rest) = id_list_from-cons ids v vs e in
      id_list_from-In (add_unique ids m) vs n rest (elim c [
        | inl old ↦ inl (In-add_unique ids m n (inl old))
        | inr (w, inl s, e') ↦
            inl (In-add_unique ids m n (inr (Denotes_unique w v n m s e' denotes)))
        | inr (w, inr i, e') ↦ inr (w, i, e')
      ])
    where
      Denotes_unique : (w v : j.Value) (n m : ℤ) → w ≡ v → Denotes j w n → Denotes j v m → n ≡ m
      Denotes_unique w v n m s p q =
          ground (arith, ap j.is_number_unsigned s, ap j.get_uint64 s, ap j.get_int64 s)

  id_list_from-In_cases :
      (ids : List ℤ) (vs : List j.Value) (n : ℤ) {out : List ℤ}
      → id_list_from j field ids vs ≡ ok out
      → In n out
      → In n ids ⊎ IsListed j vs n
  unfolding id_list_from
  id_list_from-In_cases ids [] n {out} e i = let s : ids ≡ out = cc in inl (rw s i)
  id_list_from-In_cases ids (v ∷ vs) n e i =
      let (m, (denotes, _), rest) = id_list_from-cons ids v vs e in
      elim (id_list_from-In_cases (add_unique ids m) vs n rest i) [
        | inl old ↦ elim (In-add_unique_cases ids m n old) [
          | inl older ↦ inl older
          | inr s ↦ inr (v, inl refl, rw s denotes)
        ]
        | inr (w, k, e') ↦ inr (w, inr k, e')
      ]

-- An accepted id list holds positive int64_t numbers, none of them twice, and exactly those that
-- an element of the array denotes.
id_list_lem :
    {d : Doubles} (j : Json d) (v : j.Value) (field : Text) (ids : List ℤ) (n : ℤ)
    → id_list j v field ≡ ok ids
    → Distinct ids × All IsId ids × (In n ids ↔ IsListed j (j.elements v) n)
unfolding id_list
id_list_lem j v field ids n h = elim (Bool-cases (j.is_array v)) [
  | inr e ↦ absurd (ground arith)
  | inl e ↦
      let run : id_list_from j field [] (j.elements v) ≡ ok ids = ground arith in
      let (distinct, good) = id_list_from-IsId j field [] (j.elements v) run (tt, tt) in
      (
        distinct,
        good,
        (
          (λ i. elim (id_list_from-In_cases j field [] (j.elements v) n run i) [
            | inl none_yet ↦ elim none_yet [ ]
            | inr listed ↦ listed
          ]),
          (λ listed. id_list_from-In j field [] (j.elements v) n run (inr listed)),
        ),
      )
]
