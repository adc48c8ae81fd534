-- ===== src/Prelude/Lists.antt =====
-- Lists: lengths as native numbers, Boolean searches, and predicates by recursion.
use Prim.Native.Nat.{ℕ, zero, suc, ◌+◌}
use mathlib.Core.Path.{◌≡◌, refl, sym}
use mathlib.Core.Logic.{◌⊎◌, inl, inr}
use mathlib.Core.Bool.{Bool, true, false, ◌&&◌, ◌||◌}
use mathlib.Core.Option.{Option, none, some}
use mathlib.Core.List.{List, [], ◌∷◌, ◌++◌}
use native.Mathlib.Omega.{arith}
use receipt_scanner.Prelude.Tests.{if◌then◌else◌}

module _ {ℓ} {A : Type ℓ} where
  abbrev pub length : List A → ℕ
  length [] = 0
  length (x ∷ xs) = suc (length xs)

  abbrev pub get_elem? : List A → ℕ → Option A
  get_elem? [] i = none
  get_elem? (x ∷ xs) zero = some x
  get_elem? (x ∷ xs) (suc i) = get_elem? xs i

  abbrev pub take : ℕ → List A → List A
  take zero xs = []
  take (suc n) [] = []
  take (suc n) (x ∷ xs) = x ∷ take n xs

  abbrev pub drop : ℕ → List A → List A
  drop zero xs = xs
  drop (suc n) [] = []
  drop (suc n) (x ∷ xs) = drop n xs

  -- `std::all_of`, `std::any_of`, and the elements that pass a test.
  abbrev pub all : (A → Bool) → List A → Bool
  all p [] = true
  all p (x ∷ xs) = p x && all p xs

  abbrev pub any : (A → Bool) → List A → Bool
  any p [] = false
  any p (x ∷ xs) = p x || any p xs

  abbrev pub keep : (A → Bool) → List A → List A
  keep p [] = []
  keep p (x ∷ xs) = if p x then x ∷ keep p xs else keep p xs

  -- The first element that passes a test, as `LIMIT 1` or a loop with an early exit finds it.
  abbrev pub first : (A → Bool) → List A → Option A
  first p [] = none
  first p (x ∷ xs) = if p x then some x else first p xs

  -- `UPDATE ... WHERE`: the rows that pass are changed in place.
  abbrev pub update_where : (A → Bool) → (A → A) → List A → List A
  update_where p f [] = []
  update_where p f (x ∷ xs) = (if p x then f x else x) ∷ update_where p f xs

  abbrev pub count_where : (A → Bool) → List A → ℕ
  count_where p [] = 0
  count_where p (x ∷ xs) = if p x then suc (count_where p xs) else count_where p xs

  abbrev pub All {κ} : (A → Type κ) → List A → Type κ
  All P [] = Unit
  All P (x ∷ xs) = P x × All P xs

  pub length-append : (xs ys : List A) → length (xs ++ ys) ≡ length xs + length ys
  length-append [] ys = omega arith
  length-append (x ∷ xs) ys = omega (arith, length-append xs ys)

-- Membership, with the place kept.
abbrev pub In : {A : Type 0} → A → List A → Type 0
In a [] = ⊥
In a (x ∷ xs) = (a ≡ x) ⊎ In a xs

module _ {A : Type 0} (P : A → Type 0) where
  pub All-In : (xs : List A) (a : A) → All P xs → In a xs → P a
  All-In [] a h i = elim i [ ]
  All-In (x ∷ xs) a (p, h) (inl e) = rw e p
  All-In (x ∷ xs) a (p, h) (inr i) = All-In xs a h i

  pub All-weaken : (Q : A → Type 0) (xs : List A) → ((a : A) → P a → Q a) → All P xs → All Q xs
  All-weaken Q [] f h = tt
  All-weaken Q (x ∷ xs) f (p, h) = (f x p, All-weaken Q xs f h)

  pub All-append : (xs ys : List A) → All P xs → All P ys → All P (xs ++ ys)
  All-append [] ys h k = k
  All-append (x ∷ xs) ys (p, h) k = (p, All-append xs ys h k)

module _ {A : Type 0} (a : A) where
  pub In-append : (xs ys : List A) → In a xs ⊎ In a ys → In a (xs ++ ys)
  In-append [] ys (inl i) = elim i [ ]
  In-append [] ys (inr i) = i
  In-append (x ∷ xs) ys (inl (inl e)) = inl e
  In-append (x ∷ xs) ys (inl (inr i)) = inr (In-append xs ys (inl i))
  In-append (x ∷ xs) ys (inr i) = inr (In-append xs ys (inr i))

  pub In-append_cases : (xs ys : List A) → In a (xs ++ ys) → In a xs ⊎ In a ys
  In-append_cases [] ys i = inr i
  In-append_cases (x ∷ xs) ys (inl e) = inl (inl e)
  In-append_cases (x ∷ xs) ys (inr i) = elim (In-append_cases xs ys i) [
    | inl l ↦ inl (inr l)
    | inr r ↦ inr r
  ]

-- No element stands twice.
abbrev pub Distinct : {A : Type 0} → List A → Type 0
Distinct [] = Unit
Distinct (x ∷ xs) = ¬ (In x xs) × Distinct xs

pub Distinct-snoc :
    {A : Type 0} (xs : List A) (x : A) → Distinct xs → ¬ (In x xs) → Distinct (xs ++ x ∷ [])
Distinct-snoc [] x d n = ((λ i. elim i [ ]), tt)
Distinct-snoc (y ∷ ys) x (fresh, d) n = (
  (λ i. elim (In-append_cases y ys (x ∷ []) i) [
    | inl old ↦ fresh old
    | inr (inl e) ↦ n (inl (sym e))
    | inr (inr none_left) ↦ elim none_left [ ]
  ]),
  Distinct-snoc ys x d (λ i. n (inr i)),
)

-- Two lists of one length whose elements are related place by place.
abbrev pub Pairwise : {A : Type 0} → (A → A → Type 0) → List A → List A → Type 0
Pairwise R [] [] = Unit
Pairwise R (x ∷ xs) (y ∷ ys) = R x y × Pairwise R xs ys
Pairwise R _ _ = ⊥

-- An update does to the rows that pass its test what its change does, and nothing to the others.
module _ {A : Type 0} (R : A → A → Type 0) (p : A → Bool) (f : A → A) where
  changed_or_kept :
      (mine : Bool) (x : A)
      → (mine ≡ true → R x (f x))
      → (mine ≡ true → R x (if mine then f x else x))
        × (mine ≡ false → (if mine then f x else x) ≡ x)
  changed_or_kept true x h = (h, (λ e. ground arith))
  changed_or_kept false x h = ((λ e. ground arith), (λ _. refl))

  pub Pairwise-changed :
      (xs : List A)
      → ((x : A) → p x ≡ true → R x (f x))
      → Pairwise (λ a b. (p a ≡ true → R a b) × (p a ≡ false → b ≡ a)) xs (update_where p f xs)
  Pairwise-changed [] h = tt
  Pairwise-changed (x ∷ xs) h = (changed_or_kept (p x) x (h x), Pairwise-changed xs h)
