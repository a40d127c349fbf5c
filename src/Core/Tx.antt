-- ===== src/Core/Tx.antt =====
-- A transaction of database/sql: statements that read and change the tables, each of which the
-- database may refuse. `faults` says of the statements to come which are refused; when it runs out,
-- none is. `none` is an error, and what follows is not done.
pub mod Steady
pub mod Moves
use readsync.Base.{Bool, true, false, List, [], ◌∷◌, Option, none, some, ◌≡◌, refl, arith}
use readsync.Core.Db.{Db}

pub record Session (W : Type 0) : Type 0 where
  pub db : Db W
  pub faults : List Bool

abbrev pub Tx : Type 0 → Type 0 → Type 0
Tx W A = Session W → Option (A × Session W)

infixl 5 ◌>>=◌ ◌>>◌
abbrev pub ◌>>=◌ : {W A B : Type 0} → Tx W A → (A → Tx W B) → Tx W B
◌>>=◌ m f s = elim (m s) [ none ↦ none | some (a, s') ↦ f a s' ]

abbrev pub ◌>>◌ : {W A B : Type 0} → Tx W A → Tx W B → Tx W B
m >> k = m >>= λ _. k

abbrev pub ret : {W A : Type 0} → A → Tx W A
ret a s = some (a, s)

abbrev pub fail : {W A : Type 0} → Tx W A
fail s = none

-- One statement.
abbrev pub exec_on : {W A : Type 0} → (Db W → A × Db W) → Db W → List Bool → Option (A × Session W)
exec_on f db [] = some ((f db).0, record { db = (f db).1; faults = [] })
exec_on f db (true ∷ fs) = none
exec_on f db (false ∷ fs) = some ((f db).0, record { db = (f db).1; faults = fs })

unfoldable pub exec : {W A : Type 0} → (Db W → A × Db W) → Tx W A
exec f s = exec_on f s.db s.faults
