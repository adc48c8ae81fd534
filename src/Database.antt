-- ===== src/Database.antt =====
-- The tables that the services read and write (db/migrations). A table is the list of its rows in
-- the order of insertion. A timestamp is a number of microseconds, and an id drawn from a sequence
-- is the sequence's next value. Rows are typed as their readers type them.
pub mod State
use receipt_scanner.Prelude.{ℕ, Bool, Option, List, Text, ℤ}
use receipt_scanner.LedgerInput.{EditableReceipt}

-- scan_state: receipts/ReceiptStates.h
pub data ScanState : Type 0 where
  idle uploaded scanning scan_failed : ScanState

-- source: receipts/ReceiptStates.h
pub data Source : Type 0 where
  scanned manual recurring : Source

-- A row of `receipts`. `Raw` is the type of the stored provider reply.
pub record Receipt (Double Raw : Type 0) : Type 0 where
  pub id : ℤ
  pub user_id : ℤ
  pub fields : EditableReceipt Double
  pub aud_equivalent_cents : Option ℤ
  pub source : Source
  pub scan_state : ScanState
  pub scan_attempts : ℕ
  pub reclaim_count : ℕ
  pub scan_started_at : Option ℕ
  pub proposed_at : Option ℕ
  pub reviewed_at : Option ℕ
  pub raw_ocr_json : Option Raw
  pub created_at : ℕ
  pub updated_at : ℕ

-- A row of `items`.
pub record Item (Double : Type 0) : Type 0 where
  pub id : ℤ
  pub receipt_id : ℤ
  pub name : Option Text
  pub quantity : Option Double
  pub unit_price_cents : Option ℤ
  pub amount_cents : ℤ
  pub category_id : Option ℤ
  pub informational : Bool

pub record Category : Type 0 where
  pub id : ℤ
  pub user_id : ℤ
  pub name : Text
  pub is_income : Bool

pub record Tag : Type 0 where
  pub id : ℤ
  pub user_id : ℤ
  pub name : Text

pub record Db (Double Raw : Type 0) : Type 0 where
  pub receipts : List (Receipt Double Raw)
  pub items : List (Item Double)
  -- (item_id, tag_id)
  pub item_tags : List (ℤ × ℤ)
  pub categories : List Category
  pub tags : List Tag
  pub next_item_id : ℤ

-- A row of `receipt_images`.
pub record ReceiptImage : Type 0 where
  pub id : ℤ
  pub receipt_id : ℤ
  pub user_id : ℤ
  pub image_key : Text
  pub image_sha256 : Text
  pub created_at : ℕ

-- A row of `payment_methods`.
pub record PaymentMethod : Type 0 where
  pub id : ℤ
  pub user_id : ℤ
  pub name : Text
  pub stored_value : Bool

-- The tables that the receipt service works on.
pub record Ledger (Double Raw : Type 0) : Type 0 where
  pub db : Db Double Raw
  pub images : List ReceiptImage
  pub payment_methods : List PaymentMethod
  pub next_receipt_id : ℤ
  pub next_image_id : ℤ
