-- ===== src/Search/Catalogs.antt =====
-- The catalogs that a query asks for (app/dataapi/domain/parameterized_query.py,
-- `resolve_query_catalogs`).
use db_app.Base.{
  String, ◌≡◌, ◌≢◌, refl, sym, ap, subst, ◌∙◌, ◌⊎◌, inl, inr, true, false, Option, none, some, List,
  [], ◌∷◌, ◌++◌, map, arith, string_eq, ◌==◌, ==_comm, eq_of_beq, contains, unique_after,
  Bool-cases, if◌then◌else◌,
}
use db_app.Search.Objects.{
  RawCatalog, icrs, designation, additional_designations, redshift, nature, photometry_total,
  photometry_isophotal, geometry, spectroscopy_integrated_flux_density, spectroscopy_energy_flux,
  kinematics_line_width, note, catalog_value,
}

pub data QueryError : Type 0 where
  no_catalogs : QueryError
  unknown unavailable : String → QueryError

abbrev pub all_catalogs : List RawCatalog
all_catalogs =
    icrs ∷ designation ∷ additional_designations ∷ redshift ∷ nature ∷ photometry_total
    ∷ photometry_isophotal ∷ geometry ∷ spectroscopy_integrated_flux_density
    ∷ spectroscopy_energy_flux ∷ kinematics_line_width ∷ note ∷ []

-- `RawCatalog(name)`
unfoldable pub find_catalog : String → List RawCatalog → Option RawCatalog
unfolding catalog_value
find_catalog name [] = none
find_catalog name (catalog ∷ catalogs) =
    let rest = find_catalog name catalogs in
    if catalog_value catalog == name then some catalog else rest

abbrev pub with_first : RawCatalog → QueryError ⊎ List RawCatalog → QueryError ⊎ List RawCatalog
with_first catalog (inl e) = inl e
with_first catalog (inr catalogs) = inr (catalog ∷ catalogs)

-- The body of the loop, for the catalog of the name, if there is one; `rest` is the rest of the loop,
-- for the catalogs that are seen then.
abbrev pub next_name :
    List RawCatalog
    → List RawCatalog
    → String
    → (List RawCatalog → QueryError ⊎ List RawCatalog)
    → Option RawCatalog
    → QueryError ⊎ List RawCatalog
next_name allowed seen name rest none = inl (unknown name)
next_name allowed seen name rest (some catalog) =
    if contains (map catalog_value allowed) (catalog_value catalog)
    then (if contains (map catalog_value seen) (catalog_value catalog)
        then rest seen
        else with_first catalog (rest (seen ++ catalog ∷ [])))
    else inl (unavailable name)

-- The catalogs that the loop appends after those that it has seen, which are those before them.
unfoldable pub resolve_names :
    List RawCatalog → List RawCatalog → List String → QueryError ⊎ List RawCatalog
unfolding find_catalog
resolve_names allowed seen [] = inr []
resolve_names allowed seen (name ∷ names) =
    next_name allowed seen name (λ s. resolve_names allowed s names)
      (find_catalog name all_catalogs)

unfoldable pub resolve_query_catalogs :
    Option (List String) → List RawCatalog → QueryError ⊎ List RawCatalog
unfolding resolve_names
resolve_query_catalogs none default_catalogs = inr default_catalogs
resolve_query_catalogs (some []) default_catalogs = inl no_catalogs
resolve_query_catalogs (some (name ∷ names)) default_catalogs =
    resolve_names default_catalogs [] (name ∷ names)

catalog_value-all :
    (catalog : RawCatalog)
    → contains (map catalog_value all_catalogs) (catalog_value catalog) ≡ true
unfolding catalog_value
catalog_value-all icrs = refl
catalog_value-all designation = refl
catalog_value-all additional_designations = refl
catalog_value-all redshift = refl
catalog_value-all nature = refl
catalog_value-all photometry_total = refl
catalog_value-all photometry_isophotal = refl
catalog_value-all geometry = refl
catalog_value-all spectroscopy_integrated_flux_density = refl
catalog_value-all spectroscopy_energy_flux = refl
catalog_value-all kinematics_line_width = refl
catalog_value-all note = refl

find_catalog-found :
    (name : String) (catalogs : List RawCatalog)
    → contains (map catalog_value catalogs) name ≡ true
    → (catalog : RawCatalog) × (find_catalog name catalogs ≡ some catalog)
      × (catalog_value catalog ≡ name)
unfolding find_catalog
find_catalog-found name [] h = absurd (cc h)
find_catalog-found name (c ∷ catalogs) h = elim (Bool-cases (catalog_value c == name)) [
  | inl same ↦ (c, rw same refl, eq_of_beq (catalog_value c) name same)
  | inr other ↦
      let (catalog, found, value) =
        find_catalog-found name catalogs
          (ground (arith, h, other, ==_comm name (catalog_value c))) in
      (catalog, rw other found, value)
]

find_catalog-missing :
    (name : String) (catalogs : List RawCatalog)
    → contains (map catalog_value catalogs) name ≡ false
    → find_catalog name catalogs ≡ none
unfolding find_catalog
find_catalog-missing name [] h = refl
find_catalog-missing name (c ∷ catalogs) h =
    ground (arith, ==_comm name (catalog_value c), find_catalog-missing name catalogs)

all_has :
    (name : String) (allowed : List RawCatalog)
    → contains (map catalog_value allowed) name ≡ true
    → contains (map catalog_value all_catalogs) name ≡ true
all_has name allowed h =
    let (catalog, found, value) = find_catalog-found name allowed h in
    ap (contains (map catalog_value all_catalogs)) (sym value) ∙ catalog_value-all catalog

-- the first name that is not the name of a catalog of the list
abbrev pub first_bad : List RawCatalog → List String → Option String
first_bad allowed [] = none
first_bad allowed (name ∷ names) =
    let rest = first_bad allowed names in
    if contains (map catalog_value allowed) name then rest else some name

abbrev pub error_of : String → QueryError
error_of name =
    if contains (map catalog_value all_catalogs) name then unavailable name else unknown name

-- What the query is to have: an error about the bad name, or the catalogs of the names.
abbrev pub Outcome : Option String → List String → QueryError ⊎ List RawCatalog → Type 0
Outcome none names result =
    (catalogs : List RawCatalog) × (result ≡ inr catalogs) × (map catalog_value catalogs ≡ names)
Outcome (some bad) names result = result ≡ inl (error_of bad)

Outcome-with_first :
    (bad : Option String) (catalog : RawCatalog) (name : String) (names : List String)
    (result : QueryError ⊎ List RawCatalog)
    → catalog_value catalog ≡ name
    → Outcome bad names result
    → Outcome bad (name ∷ names) (with_first catalog result)
Outcome-with_first none catalog name names result value (catalogs, e, same) =
    (catalog ∷ catalogs, ap (with_first catalog) e, rw (value, same) refl)
Outcome-with_first (some bad) catalog name names result value e = ap (with_first catalog) e

map_value-append :
    (seen : List RawCatalog) (catalog : RawCatalog)
    → map catalog_value (seen ++ catalog ∷ [])
      ≡ map catalog_value seen ++ catalog_value catalog ∷ []
map_value-append [] catalog = refl
map_value-append (c ∷ seen) catalog =
    ap (λ names. catalog_value c ∷ names) (map_value-append seen catalog)

resolve_bad :
    (allowed seen : List RawCatalog) (name : String) (names : List String)
    → contains (map catalog_value allowed) name ≡ false
    → resolve_names allowed seen (name ∷ names) ≡ inl (error_of name)
unfolding resolve_names
resolve_bad allowed seen name names h =
    elim (Bool-cases (contains (map catalog_value all_catalogs) name)) [
      | inl known ↦
          let (catalog, found, value) = find_catalog-found name all_catalogs known in
          rw (found, known, value, h) refl
      | inr unheard ↦ rw (find_catalog-missing name all_catalogs unheard, unheard) refl
    ]

resolve_names-Outcome :
    (allowed seen : List RawCatalog) (names : List String)
    → Outcome
        (first_bad allowed names)
        (unique_after (map catalog_value seen) names)
        (resolve_names allowed seen names)
unfolding resolve_names
resolve_names-Outcome allowed seen [] = ([], refl, refl)
resolve_names-Outcome allowed seen (name ∷ names) =
    elim (Bool-cases (contains (map catalog_value allowed) name)) [
      | inr bad ↦ rw (bad, resolve_bad allowed seen name names bad) refl
      | inl good ↦
          let (catalog, found, value) =
            find_catalog-found name all_catalogs (all_has name allowed good) in
          elim (Bool-cases (contains (map catalog_value seen) name)) [
            | inl old ↦
                rw (good, found, value, good, old) (resolve_names-Outcome allowed seen names)
            | inr unseen ↦
                rw (good, found, value, good, unseen)
                  (Outcome-with_first (first_bad allowed names) catalog name _ _ value (
                    subst
                      (λ s.
                        Outcome (first_bad allowed names) (unique_after s names)
                          (resolve_names allowed (seen ++ catalog ∷ []) names))
                      (map_value-append seen catalog
                        ∙ ap (λ v. map catalog_value seen ++ v ∷ []) value)
                      (resolve_names-Outcome allowed (seen ++ catalog ∷ []) names)))
          ]
    ]

-- A list of names, which must not be empty, gives the catalogs of these names, each once in the
-- order of first occurrence. If a name is not that of a catalog of the default list, the query fails
-- and says so of the first such name, and whether there is a catalog of the name at all.
pub resolve_query_catalogs-Outcome :
    (default_catalogs : List RawCatalog) (names : List String)
    → names ≢ []
    → Outcome
        (first_bad default_catalogs names)
        (unique_after [] names)
        (resolve_query_catalogs (some names) default_catalogs)
unfolding resolve_query_catalogs
resolve_query_catalogs-Outcome default_catalogs [] some_name = absurd (some_name refl)
resolve_query_catalogs-Outcome default_catalogs (name ∷ names) some_name =
    resolve_names-Outcome default_catalogs [] (name ∷ names)
