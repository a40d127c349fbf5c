-- ===== src/Webdav/Files/Parents.antt =====
-- The directories that `ensureParent` makes.
use readsync.Base.{
  true, List, [], ◌∷◌, ◌++◌, Option, none, some, ◌≡◌, refl, sym, subst, Text, All, Bool-cases, inl,
  inr,
}
use mathlib.Core.Option.{none-ne-some}
use readsync.Webdav.Files.{
  InnerFs, FsError, exists_already, other_error, anonymous, pass_exists, and_then, ensure_dir,
  ensure_dirs, ensure_parent, dir_of,
}

-- The paths of directories on the way down from `cur`.
abbrev pub ways : List Text → List Text → List (List Text)
ways cur [] = []
ways cur (p ∷ ps) = (cur ++ p ∷ []) ∷ ways (cur ++ p ∷ []) ps

module _ {S H : Type 0} (fs : InnerFs S H) where
  -- What a file system documents of `Mkdir`: a directory is there once it is made, or if the error says
  -- that it exists; nothing goes away by that.
  pub record IsFs : Type 0 where
    pub made : (p : List Text) (s : S) → (fs.mkdir p s).0 ≡ none → fs.stat p (fs.mkdir p s).1 ≡ true
    pub there :
        (p : List Text) (s : S)
        → (fs.mkdir p s).0 ≡ some exists_already
        → fs.stat p (fs.mkdir p s).1 ≡ true
    pub keeps : (p q : List Text) (s : S) → fs.stat q s ≡ true → fs.stat q (fs.mkdir p s).1 ≡ true

  module _ (law : IsFs) where
    passed :
        (p : List Text) (s : S) (o : Option FsError)
        → (fs.mkdir p s).0 ≡ o
        → pass_exists o ≡ none
        → fs.stat p (fs.mkdir p s).1 ≡ true
    passed p s none e h = law.made p s e
    passed p s (some exists_already) e h = law.there p s e
    passed p s (some other_error) e h = absurd (none-ne-some other_error (sym h))
    passed p s (some anonymous) e h = absurd (none-ne-some anonymous (sym h))

    ensure_dir-stat :
        (p : List Text) (s : S)
        → (ensure_dir fs p s).0 ≡ none
        → fs.stat p (ensure_dir fs p s).1 ≡ true
    unfolding ensure_dir
    ensure_dir-stat p s h = elim (Bool-cases (fs.stat p s)) [
      | inl e ↦ rw e e
      | inr e ↦ rw e (passed p s (fs.mkdir p s).0 refl (rw e at h))
    ]

    Keeps-stat :
        (p q : List Text) (s : S) → fs.stat q s ≡ true → fs.stat q (ensure_dir fs p s).1 ≡ true
    unfolding ensure_dir
    Keeps-stat p q s h = elim (Bool-cases (fs.stat p s)) [
      | inl e ↦ rw e h
      | inr e ↦ rw e (law.keeps p q s h)
    ]

    and_then-stat :
        (q : List Text) (o : Option FsError) (s : S) (rest : Option FsError × S)
        → fs.stat q s ≡ true
        → fs.stat q rest.1 ≡ true
        → fs.stat q (and_then o s rest).1 ≡ true
    and_then-stat q none s rest h k = k
    and_then-stat q (some e) s rest h k = h

    ensure_dirs-Keeps :
        (q : List Text) (cur ps : List Text) (s : S)
        → fs.stat q s ≡ true
        → fs.stat q (ensure_dirs fs cur ps s).1 ≡ true
    unfolding ensure_dirs
    ensure_dirs-Keeps q cur [] s h = h
    ensure_dirs-Keeps q cur (p ∷ ps) s h =
        let next = cur ++ p ∷ [] in
        let r = ensure_dir fs next s in
        let made = Keeps-stat next q s h in
        and_then-stat q r.0 r.1 (ensure_dirs fs next ps r.1) made
          (ensure_dirs-Keeps q next ps r.1 made)

    and_then-none :
        (o : Option FsError) (s : S) (rest : Option FsError × S)
        → (and_then o s rest).0 ≡ none
        → (o ≡ none) × (rest.0 ≡ none) × (and_then o s rest ≡ rest)
    and_then-none none s rest h = (refl, h, refl)
    and_then-none (some e) s rest h = absurd (none-ne-some e (sym h))

    ensure_dirs-All :
        (cur ps : List Text) (s : S)
        → (ensure_dirs fs cur ps s).0 ≡ none
        → All (λ q. fs.stat q (ensure_dirs fs cur ps s).1 ≡ true) (ways cur ps)
    unfolding ensure_dirs
    ensure_dirs-All cur [] s h = tt
    ensure_dirs-All cur (p ∷ ps) s h =
        let next = cur ++ p ∷ [] in
        let r = ensure_dir fs next s in
        let rest = ensure_dirs fs next ps r.1 in
        let (first, later, same) = and_then-none r.0 r.1 rest h in
        let made = ensure_dirs-Keeps next next ps r.1 (ensure_dir-stat next s first) in
        subst (λ x. (fs.stat next x.1 ≡ true) × All (λ q. fs.stat q x.1 ≡ true) (ways next ps))
          (sym same) (made, ensure_dirs-All next ps r.1 later)

    -- If the inner file system keeps what it documents of `Mkdir`, then `ensureParent` without an error
    -- leaves every directory on the way to the file, whichever of them were there before.
    pub ensure_parent-All :
        (scoped : List Text) (s : S)
        → (ensure_parent fs scoped s).0 ≡ none
        → All (λ q. fs.stat q (ensure_parent fs scoped s).1 ≡ true) (ways [] (dir_of scoped))
    unfolding ensure_parent
    ensure_parent-All scoped s h = ensure_dirs-All [] (dir_of scoped) s h
