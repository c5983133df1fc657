-- ===== src/Layer1/Pages.antt =====
-- The pages that `_query_new_pgc_records` returns.
use mathlib.Core.List.{map-append}
use db_app.Base.{
  ℕ, ◌<◌, ◌≡◌, refl, sym, ap, ◌∙◌, true, ◌||◌, Option, some, String, List, [], ◌∷◌, map, arith,
  nat_eq, string_eq, ◌==◌, ltb, Bool-cases, Option-cases, inl, inr, lookup, contains, filter,
  filter-filter, take, flat_map, foldl, All, All-of_contains, contains-filter, if◌then◌else◌,
}
use db_app.Containers.Batch.{Ascending, page, IsKeyed}
use db_app.Layer0.{Db, Record}
use db_app.Layer1.{
  insert_distinct, sort_distinct, join_row, joined, modified_since, no_join, new_pgcs,
  query_new_pgc_records,
}

All-insert_distinct :
    (m x : ℕ) (ys : List ℕ) → m < x → All (λ y. m < y) ys → All (λ y. m < y) (insert_distinct x ys)
unfolding insert_distinct
All-insert_distinct m x [] h k = (h, tt)
All-insert_distinct m x (y ∷ ys) h k = ground (arith, All-insert_distinct m x ys)

pub All-above_trans : (m x : ℕ) (ys : List ℕ) → m < x → All (λ y. x < y) ys → All (λ y. m < y) ys
All-above_trans m x [] h k = tt
All-above_trans m x (y ∷ ys) h k = (omega arith, All-above_trans m x ys h k.1)

insert_distinct-Ascending : (x : ℕ) (ys : List ℕ) → Ascending ys → Ascending (insert_distinct x ys)
unfolding insert_distinct
insert_distinct-Ascending x [] h = (tt, tt)
insert_distinct-Ascending x (y ∷ ys) h =
    ground
      (arith, insert_distinct-Ascending x ys, All-insert_distinct y x ys, All-above_trans x y ys)

pub sort_distinct-Ascending : (xs : List ℕ) → Ascending (sort_distinct xs)
unfolding sort_distinct
sort_distinct-Ascending [] = tt
sort_distinct-Ascending (x ∷ xs) =
    insert_distinct-Ascending x (sort_distinct xs) (sort_distinct-Ascending xs)

contains-insert_distinct :
    (x a : ℕ) (ys : List ℕ) → contains (insert_distinct x ys) a ≡ (a == x || contains ys a)
unfolding insert_distinct
contains-insert_distinct x a [] = refl
contains-insert_distinct x a (y ∷ ys) = ground (arith, contains-insert_distinct x a ys)

pub contains-sort_distinct : (a : ℕ) (xs : List ℕ) → contains (sort_distinct xs) a ≡ contains xs a
unfolding sort_distinct
contains-sort_distinct a [] = refl
contains-sort_distinct a (x ∷ xs) =
    rw (contains-insert_distinct x a (sort_distinct xs), contains-sort_distinct a xs)

filter-insert_distinct :
    (o x : ℕ) (ys : List ℕ)
    → filter (ltb o) (insert_distinct x ys)
      ≡ (if ltb o x then insert_distinct x (filter (ltb o) ys) else filter (ltb o) ys)
unfolding insert_distinct
filter-insert_distinct o x [] = ground arith
filter-insert_distinct o x (y ∷ ys) = ground (arith, filter-insert_distinct o x ys)

filter-sort_distinct :
    (o : ℕ) (xs : List ℕ) → filter (ltb o) (sort_distinct xs) ≡ sort_distinct (filter (ltb o) xs)
unfolding sort_distinct
filter-sort_distinct o [] = refl
filter-sort_distinct o (x ∷ xs) = elim (Bool-cases (ltb o x)) [
  | inl e ↦ rw (filter-insert_distinct o x (sort_distinct xs), e, filter-sort_distinct o xs)
  | inr e ↦ rw (filter-insert_distinct o x (sort_distinct xs), e, filter-sort_distinct o xs)
]

-- the rows of one number
unfoldable pub rows_of :
    {V B : Type 0} → (Db → Record → V → Option B) → Db → List (String × V) → ℕ → List (ℕ × B)
rows_of extra_join db layer1_table pgc =
    filter (λ row. row.0 == pgc) (joined extra_join db layer1_table)

-- every number that the import has to look at, in ascending order
unfoldable pub updated_pgcs : {V : Type 0} → Db → List (String × V) → ℕ → List ℕ
updated_pgcs db layer1_table dt =
    sort_distinct
      (filter (modified_since db dt) (map (λ row. row.0) (joined no_join db layer1_table)))

-- A query with a limit and an offset returns one page of the rows of `updated_pgcs`.
pub query_new_pgc_records-page :
    {V B : Type 0} (extra_join : Db → Record → V → Option B) (db : Db)
    (layer1_table : List (String × V)) (dt limit offset : ℕ)
    → query_new_pgc_records extra_join db layer1_table dt limit offset
      ≡ page
          (λ row. row.0)
          (updated_pgcs db layer1_table dt)
          (rows_of extra_join db layer1_table)
          limit
          offset
unfolding query_new_pgc_records new_pgcs updated_pgcs rows_of
query_new_pgc_records-page extra_join db layer1_table dt limit offset =
    ap (λ (pgcs : List ℕ). flat_map (rows_of extra_join db layer1_table) (take limit pgcs))
      (sym (
        filter-sort_distinct offset _
        ∙ ap sort_distinct (filter-filter (ltb offset) (modified_since db dt) _)))

last_key_same :
    {B : Type 0} (t d : ℕ) (rows : List (ℕ × B))
    → foldl (λ (_ : ℕ) (row : ℕ × B). row.0) t (filter (λ row. row.0 == t) rows) ≡ t
last_key_same t d [] = refl
last_key_same t d (row ∷ rows) = ground (arith, last_key_same t d rows)

filter_has_row :
    {B : Type 0} (t : ℕ) (rows : List (ℕ × B))
    → contains (map (λ row. row.0) rows) t ≡ true
    → (row : ℕ × B) × (rest : List (ℕ × B)) × (filter (λ row'. row'.0 == t) rows ≡ row ∷ rest)
      × (row.0 ≡ t)
filter_has_row t [] h = absurd (cc)
filter_has_row t (row ∷ rows) h = elim (Bool-cases (row.0 == t)) [
  | inl same ↦ (row, filter (λ row'. row'.0 == t) rows, rw same, ground arith)
  | inr other ↦
      let (row', rest, found, named) = filter_has_row t rows (ground arith) in
      (row', rest, rw other found, named)
]

last_key_of_row :
    {B : Type 0} (t d : ℕ) (row : ℕ × B) (rest rows : List (ℕ × B))
    → filter (λ row'. row'.0 == t) rows ≡ row ∷ rest
    → foldl (λ (_ : ℕ) (row' : ℕ × B). row'.0) d (filter (λ row'. row'.0 == t) rows) ≡ t
last_key_of_row {B = B} t d row rest rows found =
    ap (foldl last d) found ∙ sym (ap (foldl last t) found) ∙ last_key_same t t rows
  where
    last : ℕ → ℕ × B → ℕ
    last _ row' = row'.0

-- The extra join finds a row for every record: for `join_table`, the foreign key of `table_id`.
abbrev pub JoinsAll : {V B : Type 0} → (Db → Record → V → Option B) → Db → Type 0
JoinsAll {V} {B} extra_join db =
    (id : String) (record' : Record) (v : V)
    → lookup id db.records ≡ some record'
    → (b : B) × (extra_join db record' v ≡ some b)

module _ {V B : Type 0} (extra_join : Db → Record → V → Option B) (db : Db)
    (joins : JoinsAll extra_join db) where
  join_row_pgcs :
      (row : String × V)
      → map (λ r. r.0) (join_row extra_join db row) ≡ map (λ r. r.0) (join_row no_join db row)
  join_row_pgcs row = elim (Option-cases (lookup row.0 db.records)) [
    | inl e ↦ ground arith
    | inr (record', e) ↦ elim (Option-cases record'.pgc) [
      | inl none_yet ↦ ground arith
      | inr (pgc, numbered) ↦ let (b, found) = joins row.0 record' row.1 e in ground arith
    ]
  ]

  joined_pgcs :
      (rows : List (String × V))
      → map (λ r. r.0) (joined extra_join db rows) ≡ map (λ r. r.0) (joined no_join db rows)
  joined_pgcs [] = refl
  joined_pgcs (row ∷ rows) = rw (map-append, map-append, join_row_pgcs row, joined_pgcs rows)

  -- Every number that the import looks at has rows.
  pub updated_pgcs-IsKeyed :
      (rows : List (String × V)) (dt : ℕ)
      → All
          (IsKeyed (λ row. row.0) (updated_pgcs db rows dt) (rows_of extra_join db rows))
          (updated_pgcs db rows dt)
  unfolding updated_pgcs rows_of
  updated_pgcs-IsKeyed rows dt = All-of_contains _ (updated_pgcs db rows dt) λ t m.
      let (row, rest, found, named) = filter_has_row t (joined extra_join db rows) (is_there t m) in
      record {
        row = row;
        rest = rest;
        rows = found;
        last = λ d. last_key_of_row t d row rest (joined extra_join db rows) found;
      }
    where
      is_there :
          (t : ℕ)
          → contains (updated_pgcs db rows dt) t ≡ true
          → contains (map (λ r. r.0) (joined extra_join db rows)) t ≡ true
      is_there t m = rw (joined_pgcs rows) (
          ground (
            arith,
            m,
            contains-sort_distinct t
                (filter (modified_since db dt) (map (λ r. r.0) (joined no_join db rows))),
            contains-filter (modified_since db dt) (map (λ r. r.0) (joined no_join db rows)) t,
          ))

pub updated_pgcs-Ascending :
    {V : Type 0} (db : Db) (layer1_table : List (String × V)) (dt : ℕ)
    → Ascending (updated_pgcs db layer1_table dt)
unfolding updated_pgcs
updated_pgcs-Ascending db layer1_table dt = sort_distinct-Ascending _
