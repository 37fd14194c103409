-- ===== src/Common/Tables.antt =====
-- SQL statements over a table, a list of rows: each clause of a statement is a function of a row.
use Prim.Native.Nat.{ℕ, ◌+◌}
use mathlib.Core.Bool.{Bool, true, not, ◌&&◌}
use mathlib.Core.List.{List, [], ◌∷◌}
use mathlib.Core.Option.{Option, none, some}
use i_phone_loadly.Common.Tests.{if◌then◌else◌}
use i_phone_loadly.Common.Lists.{any}

module _ {ℓ} {A : Type ℓ} where
  -- SELECT … WHERE test, all rows in order
  unfoldable pub select : (A → Bool) → List A → List A
  select test [] = []
  select test (r ∷ rs) = let rest = select test rs in if test r then r ∷ rest else rest

  -- SELECT … WHERE test, the first row
  unfoldable pub first : (A → Bool) → List A → Option A
  first test [] = none
  first test (r ∷ rs) = let rest = first test rs in if test r then some r else rest

  -- UPDATE … SET change WHERE test
  unfoldable pub update : (A → Bool) → (A → A) → List A → List A
  update test change [] = []
  update test change (r ∷ rs) = (if test r then change r else r) ∷ update test change rs

  -- the number of rows that a statement changed
  unfoldable pub count : (A → Bool) → List A → ℕ
  count test [] = 0
  count test (r ∷ rs) = (if test r then 1 else 0) + count test rs

  -- DELETE … WHERE test
  unfoldable pub delete : (A → Bool) → List A → List A
  delete test [] = []
  delete test (r ∷ rs) = let rest = delete test rs in if test r then rest else r ∷ rest

  -- No two rows clash: what the UNIQUE clauses of a table ask after a statement.
  unfoldable pub is_unique : (A → A → Bool) → List A → Bool
  is_unique clash [] = true
  is_unique clash (r ∷ rs) = not (any (clash r) rs) && is_unique clash rs

  abbrev pub insert_sorted : (A → A → Bool) → A → List A → List A
  insert_sorted before r [] = r ∷ []
  insert_sorted before r (s ∷ rs) =
      let rest = insert_sorted before r rs in if before s r then s ∷ rest else r ∷ s ∷ rs

  -- SELECT … ORDER BY: `before s r` says that `s` comes first
  unfoldable pub order_by : (A → A → Bool) → List A → List A
  order_by before [] = []
  order_by before (r ∷ rs) = insert_sorted before r (order_by before rs)
