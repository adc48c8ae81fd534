-- ===== src/ScanWorker/Queue/Order.antt =====
-- The order in which a claim takes the rows that wait.
use receipt_scanner.Prelude.{◌<◌, ◌≡◌, ◌⊎◌, List, [], ◌∷◌, All, ◌≤ℤ◌}
use receipt_scanner.Database.{Receipt}

module _ {Double Raw : Type 0} where
  -- `a` comes no later than `b`: it was created before, or at the same time with no greater id.
  abbrev pub Older : Receipt Double Raw → Receipt Double Raw → Type 0
  Older a b = (a.created_at < b.created_at) ⊎ ((a.created_at ≡ b.created_at) × (a.id ≤ℤ b.id))

  abbrev IsOrdered : List (Receipt Double Raw) → Type 0
  IsOrdered [] = Unit
  IsOrdered (r ∷ rows) = All (Older r) rows × IsOrdered rows
