-- ===== src/Kinds/Laws.antt =====
-- The kind table against the names of the kinds, and the compile-time check on it.
use receipt_scanner.Prelude.{
  ◌≡◌, refl, ◌≢◌, ◌↔◌, ◌⊎◌, inl, inr, true, false, some, Text, codes, text_eq, text_eq_iff, arith,
  ok,
}
use receipt_scanner.Kinds.{
  KindRules, purchase, refund, reimbursement, income, transfer, find_kind, scannable, rules_for,
}

-- `rules` is the row of the table for the kind `k`.
abbrev pub IsRow : Text → KindRules → Type 0
IsRow k rules =
    ((k ≡ codes "purchase") × (rules ≡ purchase))
    ⊎ ((k ≡ codes "refund") × (rules ≡ refund))
    ⊎ ((k ≡ codes "reimbursement") × (rules ≡ reimbursement))
    ⊎ ((k ≡ codes "income") × (rules ≡ income))
    ⊎ ((k ≡ codes "transfer") × (rules ≡ transfer))

purchase_name : purchase.name ≡ codes "purchase"
unfolding purchase
purchase_name = refl

refund_name : refund.name ≡ codes "refund"
unfolding refund
refund_name = refl

reimbursement_name : reimbursement.name ≡ codes "reimbursement"
unfolding reimbursement
reimbursement_name = refl

income_name : income.name ≡ codes "income"
unfolding income
income_name = refl

transfer_name : transfer.name ≡ codes "transfer"
unfolding transfer
transfer_name = refl

pub find_kind-IsRow : (k : Text) (rules : KindRules) → find_kind k ≡ some rules → IsRow k rules
unfolding find_kind
find_kind-IsRow k rules h = ground (
  arith,
  purchase_name,
  refund_name,
  reimbursement_name,
  income_name,
  transfer_name,
  text_eq_iff purchase.name k,
  text_eq_iff refund.name k,
  text_eq_iff reimbursement.name k,
  text_eq_iff income.name k,
  text_eq_iff transfer.name k,
)

text_ne : (s t : Text) → text_eq s t ≡ false → s ≢ t
text_ne s t h e = cc (h, (text_eq_iff s t).1 e)

-- The names are different texts.
pub names_ne :
    (codes "purchase" ≢ codes "refund")
    × (codes "purchase" ≢ codes "reimbursement")
    × (codes "purchase" ≢ codes "income")
    × (codes "purchase" ≢ codes "transfer")
    × (codes "refund" ≢ codes "reimbursement")
    × (codes "refund" ≢ codes "income")
    × (codes "refund" ≢ codes "transfer")
    × (codes "reimbursement" ≢ codes "income")
    × (codes "reimbursement" ≢ codes "transfer")
    × (codes "income" ≢ codes "transfer")
    × (codes "inflow" ≢ codes "outflow")
unfolding codes text_eq
names_ne = (
  text_ne _ _ refl,
  text_ne _ _ refl,
  text_ne _ _ refl,
  text_ne _ _ refl,
  text_ne _ _ refl,
  text_ne _ _ refl,
  text_ne _ _ refl,
  text_ne _ _ refl,
  text_ne _ _ refl,
  text_ne _ _ refl,
  text_ne _ _ refl,
)

pub find_kind-purchase : find_kind (codes "purchase") ≡ some purchase
unfolding find_kind purchase codes text_eq
find_kind-purchase = refl

pub find_kind-refund : find_kind (codes "refund") ≡ some refund
unfolding find_kind purchase refund codes text_eq
find_kind-refund = refl

pub find_kind-reimbursement : find_kind (codes "reimbursement") ≡ some reimbursement
unfolding find_kind purchase refund reimbursement codes text_eq
find_kind-reimbursement = refl

pub find_kind-income : find_kind (codes "income") ≡ some income
unfolding find_kind purchase refund reimbursement income codes text_eq
find_kind-income = refl

pub find_kind-transfer : find_kind (codes "transfer") ≡ some transfer
unfolding find_kind purchase refund reimbursement income transfer codes text_eq
find_kind-transfer = refl

pub rules_for-IsRow : (k : Text) (rules : KindRules) → rules_for k ≡ ok rules → IsRow k rules
unfolding rules_for
rules_for-IsRow k rules h = ground (arith, find_kind-IsRow k rules)

-- The table finds a row for exactly the five kind names, and that row is the name's own.
pub find_kind_iff : (k : Text) (rules : KindRules) → (find_kind k ≡ some rules) ↔ IsRow k rules
find_kind_iff k rules = (
  find_kind-IsRow k rules,
  (λ r. ground (
    arith, find_kind-purchase, find_kind-refund, find_kind-reimbursement, find_kind-income,
    find_kind-transfer,
  )),
)

-- A kind that the scanner can classify has a canonical direction: the static_assert of Kinds.h.
scannable-canonical_direction :
    (k : Text) (rules : KindRules)
    → find_kind k ≡ some rules
    → scannable rules ≡ true
    → (direction : Text) × (rules.canonical_direction ≡ some direction)
unfolding scannable purchase refund reimbursement income transfer
scannable-canonical_direction k rules found h = elim (find_kind-IsRow k rules found) [
  | inl (_, e) ↦ (codes "outflow", rw e)
  | inr (inl (_, e)) ↦ (codes "inflow", rw e)
  | inr (inr (inl (_, e))) ↦ (codes "inflow", rw e)
  | inr (inr (inr (inl (_, e)))) ↦ (codes "inflow", rw e)
  | inr (inr (inr (inr (_, e)))) ↦ absurd (cc h)
]
