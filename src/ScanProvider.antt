-- ===== src/ScanProvider.antt =====
-- scan/ScanProvider.h: what the worker hands to a scan provider, and what it gets back.
use receipt_scanner.Prelude.{Bool, Option, List, Text, ℤ}

pub record ScanContext : Type 0 where
  pub known_kind : Option Text
  pub expense_categories : List Text
  pub income_categories : List Text
  pub tags : List Text

pub record ScannedItem (Double : Type 0) : Type 0 where
  pub name : Option Text
  pub quantity : Option Double
  pub unit_price_cents : Option ℤ
  pub amount_cents : ℤ
  pub category : Option Text
  pub informational : Bool
  pub tags : List Text

pub record ScanResult (Double Raw : Type 0) : Type 0 where
  pub kind : Text
  pub currency : Text
  pub total_cents : ℤ
  pub merchant : Option Text
  pub store_name_raw : Option Text
  pub purchase_date : Option Text
  pub items : List (ScannedItem Double)
  pub raw : Raw
