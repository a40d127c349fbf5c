-- ===== src/Core/Tx/Steady.antt =====
-- A transaction that gets through whatever the database refuses does what it does unhindered.
use readsync.Base.{Bool, true, false, List, [], ◌∷◌, none, some, ◌≡◌, refl, if◌then◌else◌}
use readsync.Core.Db.{Db}
use readsync.Core.Tx.{Tx, ◌>>=◌, ret, fail, exec}

pub data Steady {W A : Type 0} (m : Tx W A) (db : Db W) (faults : List Bool) : Type 0 where
  refused : m (record { db = db; faults = faults }) ≡ none → Steady m db faults
  passed :
      (a : A) (db' : Db W) (rest : List Bool)
      → m (record { db = db; faults = faults }) ≡ some (a, record { db = db'; faults = rest })
      → m (record { db = db; faults = [] }) ≡ some (a, record { db = db'; faults = [] })
      → Steady m db faults

abbrev pub IsSteady : {W A : Type 0} → Tx W A → Type 0
IsSteady {W} m = (db : Db W) (faults : List Bool) → Steady m db faults

module _ {W A : Type 0} where
  pub ret-IsSteady : (a : A) → IsSteady {W = W} (ret a)
  ret-IsSteady a db faults = passed a db faults refl refl

  pub fail-IsSteady : IsSteady {W = W} {A = A} fail
  fail-IsSteady db faults = refused refl

  pub exec-IsSteady : (f : Db W → A × Db W) → IsSteady (exec f)
  unfolding exec
  exec-IsSteady f db [] = passed _ _ [] refl refl
  exec-IsSteady f db (true ∷ fs) = refused refl
  exec-IsSteady f db (false ∷ fs) = passed _ _ fs refl refl

  pub bind-IsSteady :
      {B : Type 0} (m : Tx W A) (f : A → Tx W B)
      → IsSteady m
      → ((a : A) → IsSteady (f a))
      → IsSteady (m >>= f)
  bind-IsSteady {B} m f hm hf db faults = go (hm db faults)
    where
      go : Steady m db faults → Steady (m >>= f) db faults
      go (refused e) = refused (rw (e, ◌>>=◌))
      go (passed a db' rest e e') = elim (hf a db' rest) [
        | refused k ↦ refused (rw (e, ◌>>=◌) k)
        | passed b db'' rest' k k' ↦ passed b db'' rest' (rw (e, ◌>>=◌) k) (rw (e', ◌>>=◌) k')
      ]

  pub if-IsSteady :
      (b : Bool) (m k : Tx W A) → IsSteady m → IsSteady k → IsSteady (if b then m else k)
  if-IsSteady true m k hm hk = hm
  if-IsSteady false m k hm hk = hk
