-- ===== src/Search/Driving.antt =====
-- The table that drives the join, and the rows that the conditions of a batch select, with the
-- truth values of SQL.
use db_app.Base.{
  ℕ, String, ◌≡◌, refl, sym, ap, ◌∙◌, Bool, true, false, ◌&&◌, Option, none, some, List, [], ◌∷◌,
  arith, Dict, nat_eq, string_eq, ◌==◌, eq_of_beq, Bool-cases, Option-cases, inl, inr, contains,
}
use db_app.Search.{
  Filter, pgc_one_of, and_filter, or_filter, designation_equals, designation_close,
  designation_like, coordinates_in_radius, Filters, nil, cons, same_table, only_table,
  driving_table, first_driving_table, driving_tables,
}

-- the truth values of SQL
pub data Truth : Type 0 where
  yes no unknown : Truth

abbrev pub is_yes : Truth → Bool
is_yes yes = true
is_yes no = false
is_yes unknown = false

abbrev pub and3 : Truth → Truth → Truth
and3 yes b = b
and3 no b = no
and3 unknown yes = unknown
and3 unknown no = no
and3 unknown unknown = unknown

abbrev pub or3 : Truth → Truth → Truth
or3 yes b = yes
or3 no b = b
or3 unknown yes = yes
or3 unknown no = unknown
or3 unknown unknown = unknown

abbrev pub of_bool : Bool → Truth
of_bool true = yes
of_bool false = no

-- A row of the joined tables: the object's number, the tables that have it, and what a condition on
-- the columns of one table says of it and the search, where the table has it.
pub record Row (R : Type 0) : Type 0 where
  pub pgc : ℕ
  pub has : String → Bool
  pub says : Filter R → Bool

-- a condition on the columns of a table, which are null where the table has no row
abbrev pub on_table : Bool → Bool → Truth
on_table true says = of_bool says
on_table false says = unknown

module _ {R : Type 0} where
  -- what the condition of a filter says of a row
  unfoldable mutual
    pub holds : Row R → Filter R → Truth
    holds row (pgc_one_of pgcs) = of_bool (contains pgcs row.pgc)
    holds row (and_filter filters) = all_hold row filters
    holds row (or_filter filters) = some_holds row filters
    holds row (designation_equals d) =
        on_table (row.has "layer2.designation") (row.says (designation_equals d))
    holds row (designation_close d) =
        on_table (row.has "layer2.designation") (row.says (designation_close d))
    holds row designation_like =
        on_table (row.has "layer2.designations") (row.says designation_like)
    holds row (coordinates_in_radius r) =
        on_table (row.has "layer2.icrs") (row.says (coordinates_in_radius r))

    pub all_hold : Row R → Filters R → Truth
    all_hold row nil = yes
    all_hold row (cons f filters) = and3 (holds row f) (all_hold row filters)

    -- `1=1` for no filters
    pub some_holds : Row R → Filters R → Truth
    some_holds row nil = yes
    some_holds row (cons f nil) = holds row f
    some_holds row (cons f (cons g filters)) = or3 (holds row f) (some_holds row (cons g filters))

and3-not_yes : (a b : Truth) → (is_yes a && is_yes b) ≡ false → is_yes (and3 a b) ≡ false
and3-not_yes yes b h = h
and3-not_yes no b h = refl
and3-not_yes unknown yes h = refl
and3-not_yes unknown no h = refl
and3-not_yes unknown unknown h = refl

or3-not_yes : (a b : Truth) → is_yes a ≡ false → is_yes b ≡ false → is_yes (or3 a b) ≡ false
or3-not_yes yes b h k = h
or3-not_yes no b h k = k
or3-not_yes unknown yes h k = k
or3-not_yes unknown no h k = refl
or3-not_yes unknown unknown h k = refl

-- a table that is the only one is that of the first, and of the rest
same_table-eq : (a b : Option String) → same_table a b ≡ true → a ≡ b
same_table-eq none none h = refl
same_table-eq none (some b) h = absurd (cc h)
same_table-eq (some a) none h = absurd (cc h)
same_table-eq (some a) (some b) h = ap some (eq_of_beq a b h)

only_table-cons :
    (t next : Option String) (tables : List (Option String)) (table : String)
    → only_table (t ∷ next ∷ tables) ≡ some table
    → (t ≡ some table) × (only_table (next ∷ tables) ≡ some table)
unfolding only_table
only_table-cons t next tables table h =
    elim (Bool-cases (same_table t (only_table (next ∷ tables)))) [
      | inl same ↦
          let e : t ≡ only_table (next ∷ tables) = same_table-eq t _ same in
          let here : t ≡ some table = ground (arith, h, same) in (here, sym e ∙ here)
      | inr other ↦ absurd (ground (arith, h, other))
    ]

on_table-absent : (has says : Bool) → has ≡ false → is_yes (on_table has says) ≡ false
on_table-absent true says h = absurd (cc h)
on_table-absent false says h = refl

same_name : {a b : String} → some a ≡ some b → a ≡ b
same_name e = cc e

module _ {R : Type 0} where
  mutual
    unfolding driving_table holds

    holds-absent :
        (row : Row R) (f : Filter R) (table : String)
        → driving_table f ≡ some table
        → row.has table ≡ false
        → is_yes (holds row f) ≡ false
    holds-absent row (pgc_one_of pgcs) table h absent = absurd (cc h)
    holds-absent row (and_filter filters) table h absent =
        all_hold-absent row filters table h absent
    holds-absent row (or_filter filters) table h absent =
        some_holds-absent row filters table h absent
    holds-absent row (designation_equals d) table h absent =
        on_table-absent _ _ (ap row.has (same_name h) ∙ absent)
    holds-absent row (designation_close d) table h absent =
        on_table-absent _ _ (ap row.has (same_name h) ∙ absent)
    holds-absent row designation_like table h absent =
        on_table-absent _ _ (ap row.has (same_name h) ∙ absent)
    holds-absent row (coordinates_in_radius r) table h absent =
        on_table-absent _ _ (ap row.has (same_name h) ∙ absent)

    all_hold-absent :
        (row : Row R) (filters : Filters R) (table : String)
        → first_driving_table filters ≡ some table
        → row.has table ≡ false
        → is_yes (all_hold row filters) ≡ false
    all_hold-absent row nil table h absent = absurd (cc h)
    all_hold-absent row (cons f filters) table h absent = elim (Option-cases (driving_table f)) [
      | inl e ↦
          and3-not_yes (holds row f) (all_hold row filters)
            (rw (all_hold-absent row filters table (rw e at h) absent) (ground arith))
      | inr (t, e) ↦
          and3-not_yes (holds row f) (all_hold row filters)
            (rw (holds-absent row f table (e ∙ rw e at h) absent) refl)
    ]

    some_holds-absent :
        (row : Row R) (filters : Filters R) (table : String)
        → only_table (driving_tables filters) ≡ some table
        → row.has table ≡ false
        → is_yes (some_holds row filters) ≡ false
    some_holds-absent row nil table h absent = absurd (cc h)
    some_holds-absent row (cons f nil) table h absent = holds-absent row f table h absent
    some_holds-absent row (cons f (cons g filters)) table h absent =
        let (first, rest) =
          only_table-cons (driving_table f) (driving_table g) (driving_tables filters) table h in
        or3-not_yes (holds row f) (some_holds row (cons g filters))
          (holds-absent row f table first absent)
          (some_holds-absent row (cons g filters) table rest absent)

  -- the conditions of the batch, for a search of one type
  unfoldable pub selects : Row R → String → Dict String (Filter R) → Truth
  unfolding holds
  selects row kind [] = no
  selects row kind (entry ∷ entries) =
      or3 (and3 (of_bool (kind == entry.0)) (holds row entry.1)) (selects row kind entries)
