-- ===== src/Base/Table.antt =====
-- A table of the database: its rows in the order of their ids, and the AUTOINCREMENT sequence.
pub mod Rows
use Prim.Native.Nat.{ℕ, ◌+◌}
use mathlib.Core.Bool.{Bool}
use mathlib.Core.List.{List, [], ◌∷◌, ◌++◌}
use readsync.Base.Tests.{if◌then◌else◌}

pub record Table (R : Type 0) : Type 0 where
  pub rows : List R
  pub seq : ℕ

-- UPDATE … WHERE.
abbrev pub update_where {ℓ} : {R : Type ℓ} → (R → Bool) → (R → R) → List R → List R
update_where p f [] = []
update_where p f (r ∷ rs) = (if p r then f r else r) ∷ update_where p f rs

module _ {R : Type 0} where
  abbrev pub empty_table : Table R
  empty_table = record { rows = []; seq = 0 }

  abbrev pub update : (R → Bool) → (R → R) → Table R → Table R
  update p f t = record t { rows = update_where p f t.rows }

  -- INSERT of a row, which is given its id.
  abbrev pub insert : (ℕ → R) → Table R → Table R
  insert row t = record { rows = t.rows ++ row (t.seq + 1) ∷ []; seq = t.seq + 1 }
