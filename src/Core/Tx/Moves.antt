-- ===== src/Core/Tx/Moves.antt =====
-- A relation between the tables before and after a transaction, from that of its statements.
use readsync.Base.{Bool, true, false, List, [], ◌∷◌, Option, none, some, ◌≡◌, refl}
use readsync.Core.Db.{Db}
use readsync.Core.Tx.{Session, Tx, ◌>>=◌, ret, fail, exec_on, exec}

none-ne-some : {A : Type 0} {x : A} → none ≡ some x → ⊥
none-ne-some h = cc

module _ {W : Type 0} (R : Db W → Db W → Type 0) where
  abbrev pub Moves : {A : Type 0} → Tx W A → Type 0
  Moves {A} m = (s s' : Session W) (a : A) → m s ≡ some (a, s') → R s.db s'.db

  pub fail-Moves : {A : Type 0} → Moves {A = A} fail
  fail-Moves s s' a e = cc

  pub exec-Moves :
      {A : Type 0} (f : Db W → A × Db W) → ((db : Db W) → R db (f db).1) → Moves (exec f)
  unfolding exec
  exec-Moves {A} f h s s' a = go s.db s.faults
    where
      go : (db : Db W) (fs : List Bool) → exec_on f db fs ≡ some (a, s') → R db s'.db
      go db [] e = let same : s'.db ≡ (f db).1 = cc in rw same (h db)
      go db (true ∷ fs) e = cc
      go db (false ∷ fs) e = let same : s'.db ≡ (f db).1 = cc in rw same (h db)

  module _ (R-refl : (db : Db W) → R db db) (R-trans : (a b c : Db W) → R a b → R b c → R a c) where
    pub ret-Moves : {A : Type 0} (a : A) → Moves (ret a)
    ret-Moves a s s' a' e = let same : s'.db ≡ s.db = cc in rw same (R-refl s.db)

    pub bind-Moves :
        {A B : Type 0} (m : Tx W A) (f : A → Tx W B)
        → Moves m
        → ((a : A) → Moves (f a))
        → Moves (m >>= f)
    bind-Moves {A} {B} m f hm hf s s' b = go (m s) refl
      where
        go : (o : Option (A × Session W)) → m s ≡ o → (m >>= f) s ≡ some (b, s') → R s.db s'.db
        go none p e = absurd (none-ne-some (rw (p, ◌>>=◌) at e))
        go (some (a, s1)) p e =
            R-trans s.db s1.db s'.db (hm s s1 a p) (hf a s1 s' b (rw (p, ◌>>=◌) at e))
