-- ===== src/Repair/Tests.antt =====
-- internal/repair/actions.go: runs of the repair actions and the witness of the theorem.
use readsync.Base.{Text, List, [], ◌∷◌, ◌++◌, codes, some, none, ◌≡◌, refl}
use readsync.Repair.{safe_child_path}
use readsync.Repair.Paths.{safe_child_path-below}

abbrev library : List Text
library = codes "srv" ∷ codes "lib" ∷ []

safe_child_path-below_example :
    safe_child_path (λ t. t) library (codes "a/./metadata.db")
    ≡ some (library ++ (codes "a" ∷ codes "metadata.db" ∷ []))
safe_child_path-below_example =
    safe_child_path-below (λ t. t) library (codes "a/./metadata.db")
      (
        record { not_blank = refl; not_parent = refl; one = refl },
        (record { not_blank = refl; not_parent = refl; one = refl }, tt),
      )

outside_run : safe_child_path (λ t. t) library (codes "a\\..\\metadata.db") ≡ none
unfolding safe_child_path
outside_run = refl
