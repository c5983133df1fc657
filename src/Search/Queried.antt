-- ===== src/Search/Queried.antt =====
-- What an object of layer 2 has: the rows of its number.
use mathlib.Core.Path.{ap₂}
use db_app.Base.{
  ℕ, ◌≡◌, ◌≢◌, refl, ap, ◌∙◌, Bool, true, false, Option, none, some, List, [], ◌∷◌, ◌++◌, map,
  append_assoc, arith, Dict, nat_eq, string_eq, ◌==◌, eq_of_beq, or_else, lookup, lookup-insert,
  insert, update, contains, filter, foldl, foldl-append, flat_map, take, drop, if◌then◌else◌, All,
  All-of_contains, Bool-cases, Option-cases, inl, inr,
}
use db_app.Search.Objects.{
  RawCatalog, icrs, designation, additional_designations, redshift, nature, note, photometry_total,
  is_asked, sourced, Layer2Object, Layer2Tables, chosen, query_one, append_row, query_many,
  coordinates, both_there, if_asked, get_if, sorted_numbers, layer2_object, query_pgc,
}

-- the last of the rows of a number that the conversion takes
abbrev pub row_of : {A B : Type 0} → (A → Option B) → ℕ → List (ℕ × A) → Option B → Option B
row_of convert pgc [] found = found
row_of convert pgc ((other, row) ∷ rows) found =
    row_of convert pgc rows
      (if other == pgc then elim (convert row) [ none ↦ found | some b ↦ some b ] else found)

-- all rows of a number, if there are any
abbrev pub rows_of : {A B : Type 0} → (A → B) → ℕ → List (ℕ × A) → List B
rows_of convert pgc rows = map (λ row. convert row.1) (filter (λ row. row.0 == pgc) rows)

abbrev pub if_any : {B : Type 0} → List B → Option (List B)
if_any [] = none
if_any (b ∷ bs) = some (b ∷ bs)

module _ {A B : Type 0} (convert : A → Option B) where
  lookup-chosen :
      (pgcs : List ℕ) (pgc other : ℕ) (row : A) (d : Dict ℕ B)
      → contains pgcs pgc ≡ true
      → lookup pgc (update d (chosen convert pgcs (other, row))) ≡ (
          if other == pgc
          then elim (convert row) [ none ↦ lookup pgc d | some b ↦ some b ]
          else lookup pgc d)
  lookup-chosen pgcs pgc other row d h = elim (Option-cases (convert row)) [
    | inl skipped ↦ ground (arith, skipped)
    | inr (b, taken) ↦ elim (Bool-cases (other == pgc)) [
      | inl same ↦
          let wanted : contains pgcs other ≡ true =
            ap (contains pgcs) (eq_of_beq other pgc same) ∙ h in
          rw (wanted, taken, same) (lookup-insert other pgc b d ∙ rw same refl)
      | inr different ↦ elim (Bool-cases (contains pgcs other)) [
        | inl wanted ↦
            rw (wanted, taken, different) (lookup-insert other pgc b d ∙ rw different refl)
        | inr unwanted ↦ rw (unwanted, different) refl
      ]
    ]
  ]

  update-chosen :
      (pgcs : List ℕ) (pgc : ℕ) (rows : List (ℕ × A)) (d : Dict ℕ B)
      → contains pgcs pgc ≡ true
      → lookup pgc (update d (flat_map (chosen convert pgcs) rows))
        ≡ row_of convert pgc rows (lookup pgc d)
  update-chosen pgcs pgc [] d h = refl
  update-chosen pgcs pgc ((other, row) ∷ rows) d h =
      ap (lookup pgc) (
        foldl-append (λ (r : Dict ℕ B) e. insert e.0 e.1 r) d (chosen convert pgcs (other, row))
          (flat_map (chosen convert pgcs) rows))
      ∙ update-chosen pgcs pgc rows (update d (chosen convert pgcs (other, row))) h
      ∙ ap (row_of convert pgc rows) (lookup-chosen pgcs pgc other row d h)

  pub lookup-query_one :
      (pgcs : List ℕ) (pgc : ℕ) (rows : List (ℕ × A))
      → contains pgcs pgc ≡ true
      → lookup pgc (query_one convert pgcs rows) ≡ row_of convert pgc rows none
  unfolding query_one
  lookup-query_one [] pgc rows h = absurd (cc h)
  lookup-query_one (p ∷ pgcs) pgc rows h = update-chosen (p ∷ pgcs) pgc rows [] h

module _ {A B : Type 0} (convert : A → B) where
  with_list : Option (List B) → List B → Option (List B)
  with_list old [] = old
  with_list old (x ∷ xs) = some (or_else old [] ++ x ∷ xs)

  with_list-cons :
      (b : Bool) (old : Option (List B)) (x : B) (ys : List B)
      → with_list (if b then some (or_else old [] ++ x ∷ []) else old) ys
        ≡ with_list old (if b then x ∷ ys else ys)
  unfolding with_list
  with_list-cons false old x ys = refl
  with_list-cons true old x [] = refl
  with_list-cons true old x (y ∷ ys) = ap some (append_assoc (or_else old []) (x ∷ []) (y ∷ ys))

  lookup-append_one :
      (pgcs : List ℕ) (pgc other : ℕ) (row : A) (d : Dict ℕ (List B))
      → contains pgcs pgc ≡ true
      → lookup pgc (append_row convert pgcs d (other, row)) ≡ (
          if other == pgc
          then some (or_else (lookup pgc d) [] ++ convert row ∷ [])
          else lookup pgc d)
  unfolding append_row
  lookup-append_one pgcs pgc other row d h = elim (Bool-cases (other == pgc)) [
    | inl same ↦
        let is_pgc : other ≡ pgc = eq_of_beq other pgc same in
        let wanted : contains pgcs other ≡ true = ap (contains pgcs) is_pgc ∙ h in
        rw (wanted, lookup-insert, same, is_pgc) refl
    | inr different ↦ elim (Bool-cases (contains pgcs other)) [
      | inl wanted ↦ rw (wanted, lookup-insert, different) refl
      | inr unwanted ↦ rw (unwanted, different) refl
    ]
  ]

  rows_of-cons :
      (pgc other : ℕ) (row : A) (rows : List (ℕ × A))
      → rows_of convert pgc ((other, row) ∷ rows) ≡ (
          if other == pgc then convert row ∷ rows_of convert pgc rows else rows_of convert pgc rows)
  rows_of-cons pgc other row rows = ground arith

  lookup-append_row :
      (pgcs : List ℕ) (pgc : ℕ) (rows : List (ℕ × A)) (d : Dict ℕ (List B))
      → contains pgcs pgc ≡ true
      → lookup pgc (foldl (append_row convert pgcs) d rows)
        ≡ with_list (lookup pgc d) (rows_of convert pgc rows)
  unfolding append_row with_list
  lookup-append_row pgcs pgc [] d h = refl
  lookup-append_row pgcs pgc ((other, row) ∷ rows) d h =
      lookup-append_row pgcs pgc rows (append_row convert pgcs d (other, row)) h
      ∙ rw (lookup-append_one pgcs pgc other row d h, rows_of-cons pgc other row rows)
          (with_list-cons (other == pgc) (lookup pgc d) (convert row) (rows_of convert pgc rows))

  with_list-none : (xs : List B) → with_list none xs ≡ if_any xs
  unfolding with_list
  with_list-none [] = refl
  with_list-none (x ∷ xs) = refl

  pub lookup-query_many :
      (pgcs : List ℕ) (pgc : ℕ) (rows : List (ℕ × A))
      → contains pgcs pgc ≡ true
      → lookup pgc (query_many convert pgcs rows) ≡ if_any (rows_of convert pgc rows)
  unfolding query_many
  lookup-query_many [] pgc rows h = absurd (cc h)
  lookup-query_many (p ∷ pgcs) pgc rows h =
      lookup-append_row (p ∷ pgcs) pgc rows [] h ∙ with_list-none (rows_of convert pgc rows)

get_if-asked :
    {A : Type 0} (asked : Bool) (pgc : ℕ) (result : Dict ℕ A) (expected : Option A)
    → lookup pgc result ≡ expected
    → get_if asked (lookup pgc (if_asked asked result)) ≡ get_if asked expected
get_if-asked true pgc result expected h = h
get_if-asked false pgc result expected h = refl

module _ {R : Type 0} where
  -- The object of a number, straight from the tables.
  abbrev pub object_of : List RawCatalog → Layer2Tables R → ℕ → Layer2Object R
  object_of catalogs tables pgc = record {
    pgc = pgc;
    catalogs = record {
      designation =
          get_if (is_asked designation catalogs) (row_of some pgc tables.designation none);
      additional_designations =
          get_if (is_asked additional_designations catalogs)
            (if_any (rows_of sourced pgc tables.designations));
      icrs = get_if (is_asked icrs catalogs) (row_of coordinates pgc tables.icrs none);
      redshift = get_if (is_asked redshift catalogs) (row_of both_there pgc tables.cz none);
      nature = get_if (is_asked nature catalogs) (row_of (λ t. t) pgc tables.nature none);
      notes = get_if (is_asked note catalogs) (if_any (rows_of sourced pgc tables.notes));
      photometry_total =
          get_if (is_asked photometry_total catalogs)
            (if_any (rows_of (λ m. m) pgc tables.photometry_total));
    };
  }

  layer2_object-object_of :
      (catalogs : List RawCatalog) (tables : Layer2Tables R) (pgcs : List ℕ) (pgc : ℕ)
      → contains pgcs pgc ≡ true
      → layer2_object catalogs tables pgcs pgc ≡ object_of catalogs tables pgc
  unfolding layer2_object
  layer2_object-object_of catalogs tables pgcs pgc h =
      rw
        (
          get_if-asked (is_asked designation catalogs) pgc _ _
              (lookup-query_one some pgcs pgc tables.designation h),
          get_if-asked (is_asked additional_designations catalogs) pgc _ _
              (lookup-query_many sourced pgcs pgc tables.designations h),
          get_if-asked (is_asked icrs catalogs) pgc _ _
              (lookup-query_one coordinates pgcs pgc tables.icrs h),
          get_if-asked (is_asked redshift catalogs) pgc _ _
              (lookup-query_one both_there pgcs pgc tables.cz h),
          get_if-asked (is_asked nature catalogs) pgc _ _
              (lookup-query_one (λ t. t) pgcs pgc tables.nature h),
          get_if-asked (is_asked note catalogs) pgc _ _
              (lookup-query_many sourced pgcs pgc tables.notes h),
          get_if-asked (is_asked photometry_total catalogs) pgc _ _
              (lookup-query_many (λ m. m) pgcs pgc tables.photometry_total h),
        )
        refl

  objects_of_page :
      (catalogs : List RawCatalog) (tables : Layer2Tables R) (pgcs some_pgcs : List ℕ)
      → All (λ pgc. contains pgcs pgc ≡ true) some_pgcs
      → map (layer2_object catalogs tables pgcs) some_pgcs
        ≡ map (object_of catalogs tables) some_pgcs
  objects_of_page catalogs tables pgcs [] h = refl
  objects_of_page catalogs tables pgcs (pgc ∷ some_pgcs) h =
      ap₂ (λ x xs. x ∷ xs) (layer2_object-object_of catalogs tables pgcs pgc h.0)
        (objects_of_page catalogs tables pgcs some_pgcs h.1)

  -- The objects of some numbers are those of the page of the sorted numbers, in order: each has its
  -- number and, of the catalogs that are asked for, what the tables have for the number, be it in any
  -- place of the page, and nothing of the other catalogs.
  pub query_pgc-object_of :
      (catalogs : List RawCatalog) (pgc_numbers : List ℕ) (limit offset : ℕ)
      (tables : Layer2Tables R)
      → catalogs ≢ []
      → query_pgc catalogs pgc_numbers limit offset tables
        ≡ map (object_of catalogs tables) (take limit (drop offset (sorted_numbers pgc_numbers)))
  unfolding query_pgc
  query_pgc-object_of [] pgc_numbers limit offset tables some_catalog = absurd (some_catalog refl)
  query_pgc-object_of (catalog ∷ catalogs) pgc_numbers limit offset tables some_catalog =
      objects_of_page (catalog ∷ catalogs) tables _ _ (
        All-of_contains _ (take limit (drop offset (sorted_numbers pgc_numbers)))
          (λ pgc there. there))
