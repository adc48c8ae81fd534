-- ===== src/Lifecycle/Composition.antt =====
-- Steps of single rows, put together along a list of operations on the table.
use receipt_scanner.Prelude.{
  ◌≡◌, refl, sym, ◌⊎◌, inl, inr, List, [], ◌∷◌, map, Pairwise, In, Distinct,
}
use mathlib.Core.Path.{subst}
use receipt_scanner.Database.{Receipt, Db}
use receipt_scanner.ScanWorker.Queue.Slots.{DistinctIds}
use receipt_scanner.Lifecycle.{Life, life_of, Star, rests, goes}

-- Operations, one after the other.
unfoldable pub perform_all : {Op S : Type 0} → (Op → S → S) → List Op → S → S
perform_all perform [] s = s
perform_all perform (op ∷ rest) s = perform_all perform rest (perform op s)

module _ {A : Type 0} where
  pub Pairwise-trans :
      (R S T : A → A → Type 0) (xs ys zs : List A)
      → ((a b c : A) → R a b → S b c → T a c)
      → Pairwise R xs ys
      → Pairwise S ys zs
      → Pairwise T xs zs
  Pairwise-trans R S T [] [] [] f h k = tt
  Pairwise-trans R S T [] [] (z ∷ zs) f h k = elim k [ ]
  Pairwise-trans R S T [] (y ∷ ys) zs f h k = elim h [ ]
  Pairwise-trans R S T (x ∷ xs) [] zs f h k = elim h [ ]
  Pairwise-trans R S T (x ∷ xs) (y ∷ ys) [] f h k = elim k [ ]
  Pairwise-trans R S T (x ∷ xs) (y ∷ ys) (z ∷ zs) f (r, h) (s, k) =
      (f x y z r s, Pairwise-trans R S T xs ys zs f h k)

  pub Pairwise-weaken :
      (R S : A → A → Type 0) (xs ys : List A)
      → ((a b : A) → R a b → S a b)
      → Pairwise R xs ys
      → Pairwise S xs ys
  Pairwise-weaken R S [] [] f h = tt
  Pairwise-weaken R S [] (y ∷ ys) f h = elim h [ ]
  Pairwise-weaken R S (x ∷ xs) [] f h = elim h [ ]
  Pairwise-weaken R S (x ∷ xs) (y ∷ ys) f (r, h) = (f x y r, Pairwise-weaken R S xs ys f h)

  pub Pairwise-within :
      (R S : A → A → Type 0) (xs ys : List A)
      → ((a b : A) → In a xs → R a b → S a b)
      → Pairwise R xs ys
      → Pairwise S xs ys
  Pairwise-within R S [] [] f h = tt
  Pairwise-within R S [] (y ∷ ys) f h = elim h [ ]
  Pairwise-within R S (x ∷ xs) [] f h = elim h [ ]
  Pairwise-within R S (x ∷ xs) (y ∷ ys) f (r, h) =
      (f x y (inl refl) r, Pairwise-within R S xs ys (λ a b i. f a b (inr i)) h)

  pub Pairwise-refl : (R : A → A → Type 0) (xs : List A) → ((a : A) → R a a) → Pairwise R xs xs
  Pairwise-refl R [] f = tt
  Pairwise-refl R (x ∷ xs) f = (f x, Pairwise-refl R xs f)

module _ {Double Raw : Type 0} (R : Life → Life → Type 0) where
  -- A row that keeps its id, and whose life makes at most one step.
  abbrev pub Follows : Receipt Double Raw → Receipt Double Raw → Type 0
  Follows a b = (b.id ≡ a.id) × ((life_of b ≡ life_of a) ⊎ R (life_of a) (life_of b))

  -- A row whose life makes some steps.
  abbrev pub Runs : Receipt Double Raw → Receipt Double Raw → Type 0
  Runs a b = Star R (life_of a) (life_of b)

  pub Follows-ids :
      (xs ys : List (Receipt Double Raw))
      → Pairwise Follows xs ys
      → map (λ (r : Receipt Double Raw). r.id) ys ≡ map (λ (r : Receipt Double Raw). r.id) xs
  Follows-ids [] [] h = refl
  Follows-ids [] (y ∷ ys) h = elim h [ ]
  Follows-ids (x ∷ xs) [] h = elim h [ ]
  Follows-ids (x ∷ xs) (y ∷ ys) ((e, _), h) = cc (e, Follows-ids xs ys h)

  extended : (a b c : Receipt Double Raw) → Follows a b → Runs b c → Runs a c
  extended a b c (_, inl same) run = subst (λ x. Star R x (life_of c)) same run
  extended a b c (_, inr s) run = goes s run

  module _ {Op : Type 0} (perform : Op → Db Double Raw → Db Double Raw) where
    pub perform_all-Runs :
        ((op : Op) (db : Db Double Raw)
          → DistinctIds db.receipts
          → Pairwise Follows db.receipts (perform op db).receipts)
        → (ops : List Op) (db : Db Double Raw) → DistinctIds db.receipts
        → Pairwise Runs db.receipts (perform_all perform ops db).receipts
    unfolding perform_all
    perform_all-Runs each [] db d = Pairwise-refl Runs db.receipts (λ a. rests)
    perform_all-Runs each (op ∷ rest) db d =
        let first = each op db d in
        let next = perform op db in
        let kept : DistinctIds next.receipts =
          subst Distinct (sym (Follows-ids db.receipts next.receipts first)) d in
        Pairwise-trans Follows Runs Runs db.receipts next.receipts _ extended first
          (perform_all-Runs each rest next kept)
