-- ===== src/Kinds.antt =====
-- receipts/Kinds.h and Kinds.cpp: the transaction kinds and directions, and their rules. The
-- texts of a kind for the scanner's prompt are `scan_documents`, `scan_total` and `scan_rules`.
pub mod Laws
pub mod Prompt
use receipt_scanner.Prelude.{
  ℕ, Bool, true, false, not, Option, none, some, List, [], ◌∷◌, ◌++◌, Text, codes, text_eq, Result,
  ok, err, logic_error, any, is_some, if◌then◌else◌,
}
use receipt_scanner.Kinds.Prompt.{
  purchase_documents, purchase_total, refund_documents, refund_total, reimbursement_documents,
  reimbursement_total, reimbursement_rules, income_documents, income_total, income_rules,
}

pub record KindRules : Type 0 where
  pub name : Text
  pub canonical_direction : Option Text
  pub allows_tax_deductible : Bool
  pub can_offset : Bool
  pub is_offset_target : Bool
  pub uses_income_categories : Bool
  pub scan_documents : Text
  pub scan_total : Text
  pub scan_rules : Text

-- `s.empty()`
unfoldable pub is_empty : Text → Bool
is_empty [] = true
is_empty (_ ∷ _) = false

unfoldable pub scannable : KindRules → Bool
unfolding is_empty
scannable rules = not (is_empty rules.scan_documents)

unfoldable pub purchase : KindRules
purchase = record {
  name = codes "purchase";
  canonical_direction = some (codes "outflow");
  allows_tax_deductible = true;
  can_offset = false;
  is_offset_target = true;
  uses_income_categories = false;
  scan_documents = purchase_documents;
  scan_total = purchase_total;
  scan_rules = [];
}

unfoldable pub refund : KindRules
refund = record {
  name = codes "refund";
  canonical_direction = some (codes "inflow");
  allows_tax_deductible = false;
  can_offset = true;
  is_offset_target = false;
  uses_income_categories = false;
  scan_documents = refund_documents;
  scan_total = refund_total;
  scan_rules = [];
}

unfoldable pub reimbursement : KindRules
reimbursement = record {
  name = codes "reimbursement";
  canonical_direction = some (codes "inflow");
  allows_tax_deductible = false;
  can_offset = true;
  is_offset_target = false;
  uses_income_categories = false;
  scan_documents = reimbursement_documents;
  scan_total = reimbursement_total;
  scan_rules = reimbursement_rules;
}

unfoldable pub income : KindRules
income = record {
  name = codes "income";
  canonical_direction = some (codes "inflow");
  allows_tax_deductible = false;
  can_offset = false;
  is_offset_target = false;
  uses_income_categories = true;
  scan_documents = income_documents;
  scan_total = income_total;
  scan_rules = income_rules;
}

unfoldable pub transfer : KindRules
transfer = record {
  name = codes "transfer";
  canonical_direction = none;
  allows_tax_deductible = false;
  can_offset = false;
  is_offset_target = false;
  uses_income_categories = false;
  scan_documents = [];
  scan_total = [];
  scan_rules = [];
}

unfoldable pub kinds : List KindRules
kinds = purchase ∷ refund ∷ reimbursement ∷ income ∷ transfer ∷ []

unfoldable pub directions : List Text
directions = codes "inflow" ∷ codes "outflow" ∷ []

unfoldable pub default_kind : Text
default_kind = codes "purchase"

unfoldable pub find_kind_in : List KindRules → Text → Option KindRules
find_kind_in [] kind = none
find_kind_in (rules ∷ rest) kind =
    if text_eq rules.name kind then some rules else find_kind_in rest kind

unfoldable pub find_kind : Text → Option KindRules
unfolding find_kind_in kinds
find_kind kind = find_kind_in kinds kind

-- `rulesFor`, where an unknown kind is a std::logic_error.
unfoldable pub rules_or_throw : Option KindRules → Text → Result KindRules
rules_or_throw none kind = err (logic_error (codes "unknown kind: " ++ kind))
rules_or_throw (some rules) kind = ok rules

unfoldable pub rules_for : Text → Result KindRules
unfolding rules_or_throw
rules_for kind = rules_or_throw (find_kind kind) kind

unfoldable pub is_known_direction : Text → Bool
is_known_direction direction = any (λ d. text_eq d direction) directions

-- The separator goes before each name but the first.
unfoldable pub join_from : Text → Text → List Text → Text
unfolding is_empty
join_from sep out [] = out
join_from sep out (name ∷ names) =
    join_from sep (out ++ (if is_empty out then [] else sep) ++ name) names

unfoldable pub names_of : List KindRules → List Text
names_of [] = []
names_of (rules ∷ rest) = rules.name ∷ names_of rest

unfoldable pub kind_names : Text
unfolding join_from names_of
kind_names = join_from (codes ", ") [] (names_of kinds)

unfoldable pub income_names_from : Text → List KindRules → Text
unfolding is_empty
income_names_from list [] = list
income_names_from list (rules ∷ rest) =
    income_names_from
      (if rules.uses_income_categories
        then list ++ (if is_empty list then codes "'" else codes ", '") ++ rules.name ++ codes "'"
        else list)
      rest

unfoldable pub income_kinds_sql_list : Text
unfolding income_names_from
income_kinds_sql_list = codes "(" ++ income_names_from [] kinds ++ codes ")"
