-- ===== src/Calibre/Columns.antt =====
-- The columns that are there once `EnsureColumns` has made the missing ones.
use readsync.Base.{
  Bool, true, false, not, List, [], ◌∷◌, ◌++◌, Option, none, some, Text, codes, text_eq, text_eq→≡,
  text_eq_refl, map, exists, select, All, ◌≡◌, refl, sym, ap, ◌∙◌, subst, arith, Bool-cases, inl,
  inr,
}
use mathlib.Core.Bool.{true≢false}
use readsync.Resolver.Normalize.{Unicode}
use readsync.Calibre.{
  Calibredb, ColumnDef, required_columns, lookup_name, exists_lower, missing_of, missing_from,
  create_missing, missing_columns, create_column, go_on-false, create_columns, ensure_columns,
  quote_enum_values,
}

exists-lower :
    (u : Unicode) (name : Text) (existing : List Text)
    → exists (text_eq name) existing ≡ true
    → exists_lower u existing name ≡ true
exists-lower u name [] h = h
exists-lower u name (c ∷ existing) h = elim (Bool-cases (text_eq name c)) [
  | inl e ↦
      let same : name ≡ c = text_eq→≡ name c e in
      rw (sym same, text_eq_refl (map u.to_lower name)) refl
  | inr e ↦ let rest = exists-lower u name existing (rw e at h) in ground (arith, rest)
]

module _ {L : Type 0} (db : Calibredb L) (u : Unicode) where
  -- The names of `to` include those of `from`.
  Includes : List Text → List Text → Type 0
  Includes from to = (p : Text → Bool) → exists p from ≡ true → exists p to ≡ true

  -- What calibredb documents of `add_custom_column`: no column goes away, and one that is added without
  -- an error is listed afterwards under its lookup name behind a hash sign.
  pub record IsListing : Type 0 where
    pub extended :
        (lookup label data_type values : Text) (l : L) (from : List Text)
        → db.custom_columns l ≡ some from
        → (to : List Text) × (db.custom_columns
              (db.add_custom_column lookup label data_type values l).1
            ≡ some to)
          × ((p : Text → Bool) → exists p from ≡ true → exists p to ≡ true)
          × ((db.add_custom_column lookup label data_type values l).0 ≡ false
              → exists (text_eq (codes "#" ++ lookup)) to ≡ true)

  module _ (law : IsListing) where
    -- The lookup name of a column is its name without the hash sign.
    abbrev IsHashed : ColumnDef → Type 0
    IsHashed c = codes "#" ++ lookup_name c.name ≡ c.name

    create_columns-All :
        (cols : List ColumnDef) (l : L) (from : List Text)
        → db.custom_columns l ≡ some from
        → All IsHashed cols
        → (create_columns db u cols l).0 ≡ false
        → (to : List Text) × (db.custom_columns (create_columns db u cols l).1 ≡ some to)
          × ((p : Text → Bool) → exists p from ≡ true → exists p to ≡ true)
          × All (λ c. exists_lower u to c.name ≡ true) cols
    unfolding create_columns
    create_columns-All [] l from listed hashed h = (from, listed, λ p k. k, tt)
    create_columns-All (c ∷ cols) l from listed hashed h =
        let r = create_column db u c l in
        let rest = create_columns db u cols r.1 in
        let (made, later, same) = go_on-false r.0 r.1 rest h in
        let (mid, listed', keeps, added) =
          law.extended (lookup_name c.name) c.label c.data_type (quote_enum_values u c.values) l
            from listed in
        let (to, listed'', keeps', all) = create_columns-All cols r.1 mid listed' hashed.1 later in
        let own : exists (text_eq c.name) to ≡ true =
          keeps' (text_eq c.name)
            (subst (λ n. exists (text_eq n) mid ≡ true) hashed.0 (added made)) in
        (
          to,
          ap (λ x. db.custom_columns x.1) same ∙ listed'',
          λ p k. keeps' p (keeps p k),
          (exists-lower u c.name to own, all),
        )

    nothing_missing :
        (from to : List Text) (cols : List ColumnDef)
        → ((p : Text → Bool) → exists p from ≡ true → exists p to ≡ true)
        → All (λ c. exists_lower u to c.name ≡ true) (missing_of u from cols)
        → missing_of u to cols ≡ []
    nothing_missing from to [] keeps h = refl
    nothing_missing from to (c ∷ cols) keeps h = elim (Bool-cases (exists_lower u from c.name)) [
      | inl e ↦
          let there = keeps (λ x. text_eq (map u.to_lower x) (map u.to_lower c.name)) e in
          let rest = nothing_missing from to cols keeps (rw e at h) in rw there rest
      | inr e ↦
          let (there, later) : (exists_lower u to c.name ≡ true)
              × All (λ c. exists_lower u to c.name ≡ true) (missing_of u from cols) =
            rw e at h in
          rw there (nothing_missing from to cols keeps later)
    ]

    IsHashed-select :
        (p : ColumnDef → Bool) (cols : List ColumnDef)
        → All IsHashed cols
        → All IsHashed (select p cols)
    IsHashed-select p [] h = tt
    IsHashed-select p (c ∷ cols) h = elim (Bool-cases (p c)) [
      | inl e ↦ rw e (h.0, IsHashed-select p cols h.1)
      | inr e ↦ rw e (IsHashed-select p cols h.1)
    ]

    ensured :
        (o : Option (List Text)) (l : L)
        → db.custom_columns l ≡ o
        → let r = create_missing db u (missing_from db u o) l in
          r.0 ≡ false → missing_columns db u r.1 ≡ some []
    ensured none l listed h = absurd (true≢false h)
    ensured (some from) l listed h =
        let cols = missing_of u from required_columns in
        let hashed : All IsHashed required_columns =
          (refl, (refl, (refl, (refl, (refl, (refl, (refl, (refl, tt)))))))) in
        let (to, listed', keeps, all) =
          create_columns-All cols l from listed
            (IsHashed-select (λ c. not (exists_lower u from c.name)) required_columns hashed) h in
        ap (missing_from db u) listed'
        ∙ ap some (nothing_missing from to required_columns keeps all)

    -- If calibredb keeps what it documents of `add_custom_column`, then after `EnsureColumns` without an
    -- error no required column is missing, whichever were there before.
    pub ensure_columns-missing :
        (gui_running : Bool) (l : L)
        → (ensure_columns db u gui_running l).0 ≡ false
        → missing_columns db u (ensure_columns db u gui_running l).1 ≡ some []
    unfolding ensure_columns
    ensure_columns-missing true l h = absurd (true≢false h)
    ensure_columns-missing false l h = ensured (db.custom_columns l) l refl h
