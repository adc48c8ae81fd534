-- ===== src/Kinds/Prompt.antt =====
-- The texts of `kKinds` (receipts/Kinds.h) that the scanner's prompt is made of.
use receipt_scanner.Prelude.{Text, codes}

unfoldable pub purchase_documents : Text
purchase_documents = codes "a receipt, tax invoice or order confirmation for something bought"

unfoldable pub purchase_total : Text
purchase_total =
    codes
      "the final amount paid, after discounts and including tax, surcharges and tips that are printed"

unfoldable pub refund_documents : Text
refund_documents =
    codes "a return or refund docket from the business that sold something: money back for a return"

unfoldable pub refund_total : Text
refund_total = codes "the amount refunded"

unfoldable pub reimbursement_documents : Text
reimbursement_documents =
    codes
      "proof that someone (an employer, a friend) paid the user back for an expense: an expense app or claim marked reimbursed or paid, a remittance advice, a payment notification"

unfoldable pub reimbursement_total : Text
reimbursement_total =
    codes
      "the amount actually paid back to the user for the expense shown, in the currency it was paid in, which may differ from the expense's own amount (e.g. after currency conversion); if a deposit covers several expenses, only this expense's share"

unfoldable pub reimbursement_rules : Text
reimbursement_rules =
    codes
      "merchant is whoever paid the user back (an employer, a friend, a perks program), or null if the documents don't name them; not the business where the expense was made. purchase_date is the date the money was paid back (null if only the expense date is shown).\n- The items say what the money was paid back for, in the total's currency, and add up to the total. When the documents say what each part of the payment was for (a payment note such as \"pho\", an expense claim that lists its lines), list one item per part, with the category that fits it. Otherwise (a lump sum, a vague note such as \"dinner\", or expense lines that don't add up to the amount paid back), list exactly one item: name \"Reimbursement\", amount equal to the total, category the one that best fits the expense."

unfoldable pub income_documents : Text
income_documents = codes "a payslip, pay advice or paycheck"

unfoldable pub income_total : Text
income_total = codes "the NET pay (the take-home amount paid into the bank), never the gross"

unfoldable pub income_rules : Text
income_rules =
    codes
      "merchant and store_name_raw are the employer, and purchase_date is the pay date.\n- Exactly one item with informational=false: name \"Net pay\", amount equal to the total.\n- Optionally, gross pay, tax withheld, superannuation and other deductions as separate items with informational=true and category null."
