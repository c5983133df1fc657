-- ===== src/Progress/Complete.antt =====
-- The tables and the catalogs of the result of `get_table_progress`.
use db_app.Base.{
  ℕ, String, ◌≡◌, refl, ap, ◌∙◌, true, ◌&&◌, not, Option, List, [], ◌∷◌, map, arith, Dict, nat_eq,
  string_eq, ◌==◌, ==_refl, Bool-cases, Option-cases, inl, inr, length, lookup, keys,
  keys-insert_old, or_else, contains, All, All-map, All-insert, All-lookup, foldl,
}
use db_app.Layer0.{Db}
use db_app.Progress.{
  CatalogProgress, TableProgress, CatalogSource, wanted, records_of_table, funnel_row, funnel,
  catalog_progress, empty_catalogs_of, no_records, add_progress, get_table_progress,
}

abbrev pub Lists : List String → String × TableProgress → Type 0
Lists aliases entry = keys entry.1.catalogs ≡ aliases

funnel-Lists :
    (db : Db) (names : Dict ℕ String) (table_names : Option (List String))
    (empty_catalogs : Dict String CatalogProgress)
    → All (Lists (keys empty_catalogs)) (funnel db names table_names empty_catalogs)
unfolding funnel funnel_row
funnel-Lists db [] table_names empty_catalogs = tt
funnel-Lists db ((id, name) ∷ names) table_names empty_catalogs =
    elim (Bool-cases (wanted table_names name && not (length (records_of_table db id) == 0))) [
      | inl shown ↦ rw shown (refl, funnel-Lists db names table_names empty_catalogs)
      | inr hidden ↦ rw hidden (funnel-Lists db names table_names empty_catalogs)
    ]

old_keys :
    (empty_catalogs : Dict String CatalogProgress) (result : Dict String TableProgress)
    (name : String)
    → All (Lists (keys empty_catalogs)) result
    → keys (or_else (lookup name result) (no_records empty_catalogs)).catalogs ≡ keys empty_catalogs
old_keys empty_catalogs result name h = elim (Option-cases (lookup name result)) [
  | inl e ↦ rw e refl
  | inr (table, e) ↦ rw e (All-lookup (Lists (keys empty_catalogs)) name table result h e)
]

add_progress-Lists :
    (empty_catalogs : Dict String CatalogProgress) (alias : String)
    (result : Dict String TableProgress) (rows : List (String × CatalogProgress))
    → contains (keys empty_catalogs) alias ≡ true
    → All (Lists (keys empty_catalogs)) result
    → All (Lists (keys empty_catalogs)) (foldl (add_progress empty_catalogs alias) result rows)
unfolding add_progress
add_progress-Lists empty_catalogs alias result [] known h = h
add_progress-Lists empty_catalogs alias result ((name, progress) ∷ rows) known h =
    let old = old_keys empty_catalogs result name h in
    add_progress-Lists empty_catalogs alias
      (add_progress empty_catalogs alias result (name, progress)) rows known
      (All-insert (Lists (keys empty_catalogs)) name _ result h
        (keys-insert_old alias progress _ (ap (λ ks. contains ks alias) old ∙ known) ∙ old))

sources-Lists :
    (db : Db) (names : Dict ℕ String) (table_names : Option (List String))
    (empty_catalogs : Dict String CatalogProgress) (sources : List CatalogSource)
    (result : Dict String TableProgress)
    → All (λ source. contains (keys empty_catalogs) source.alias ≡ true) sources
    → All (Lists (keys empty_catalogs)) result
    → All (Lists (keys empty_catalogs)) (
        foldl
          (λ r source.
            foldl
              (add_progress empty_catalogs source.alias)
              r
              (catalog_progress db names table_names source))
          result
          sources)
sources-Lists db names table_names empty_catalogs [] result known h = h
sources-Lists db names table_names empty_catalogs (source ∷ sources) result known h =
    let rows = catalog_progress db names table_names source in
    sources-Lists db names table_names empty_catalogs sources
      (foldl (add_progress empty_catalogs source.alias) result rows) known.1
      (add_progress-Lists empty_catalogs source.alias result rows known.0 h)

all_known :
    (sources : List CatalogSource)
    → All (λ source. contains (keys (empty_catalogs_of sources)) source.alias ≡ true) sources
all_known [] = tt
all_known (source ∷ sources) =
    (rw ==_refl refl, All-map _ _ (λ other h. rw h (ground arith)) sources (all_known sources))

keys-empty_catalogs :
    (sources : List CatalogSource) → keys (empty_catalogs_of sources) ≡ map (λ s. s.alias) sources
keys-empty_catalogs [] = refl
keys-empty_catalogs (source ∷ sources) =
    ap (λ names. source.alias ∷ names) (keys-empty_catalogs sources)

-- Every table of the result has an entry for every catalog, in the order of the catalogs, also a
-- table that has no row in the catalog.
pub get_table_progress_complete :
    (db : Db) (names : Dict ℕ String) (sources : List CatalogSource)
    (table_names : Option (List String))
    → All
        (λ entry. keys entry.1.catalogs ≡ map (λ source. source.alias) sources)
        (get_table_progress db names sources table_names)
unfolding get_table_progress
get_table_progress_complete db names sources table_names =
    All-map _ _ (λ entry h. h ∙ keys-empty_catalogs sources) _
      (sources-Lists db names table_names (empty_catalogs_of sources) sources
        (funnel db names table_names (empty_catalogs_of sources)) (all_known sources)
        (funnel-Lists db names table_names (empty_catalogs_of sources)))
