-- ===== src/Progress.antt =====
-- The progress of each table through the layers (app/data/repositories/layer0/records.py,
-- `get_table_progress` and what it calls). The statements for the catalogs and the funnel run in
-- threads, and read the same tables. A result is a dictionary by the table's name.
pub mod Funnel
pub mod Complete
use db_app.Base.{
  ℕ, zero, String, Bool, true, false, ◌&&◌, ◌||◌, not, Option, none, some, List, [], ◌∷◌, ◌++◌, map,
  Dict, nat_eq, string_eq, ◌==◌, length, lookup, insert, keys, is_some, or_else, contains, filter,
  foldl, unique_after, if◌then◌else◌,
}
use db_app.Layer0.{Db, Record, Crossmatch, RecordTriageStatus, pending, resolved}
use db_app.Layer0.Records.{is_resolved}
use db_app.Layer1.{modified_since}

pub record CatalogProgress : Type 0 where
  pub structured : ℕ
  pub in_layer2 : ℕ
  pub layer2_pending : ℕ

pub record TableProgress : Type 0 where
  pub total_records : ℕ
  pub unprocessed : ℕ
  pub pending_triage : ℕ
  pub resolved_unsubmitted : ℕ
  pub submitted : ℕ
  pub catalogs : Dict String CatalogProgress

-- A catalog's name, the records of its rows of layer 1, and its numbers of layer 2 with the time of
-- the last update, if the catalog has a table there.
pub record CatalogSource : Type 0 where
  pub alias : String
  pub record_ids : List String
  pub layer2 : Option (List ℕ × ℕ)

-- `_progress_table_filter`
abbrev pub wanted : Option (List String) → String → Bool
wanted none name = true
wanted (some table_names) name = contains table_names name

-- the conditions of the funnel on a record with its crossmatch result
abbrev pub is_unprocessed : Db → String × Record → Bool
is_unprocessed db row = not (is_some (lookup row.0 db.crossmatch))

abbrev pub triage_resolved : Option Crossmatch → Bool
triage_resolved none = false
triage_resolved (some c) = is_resolved c.triage_status

abbrev pub is_pending : Db → String × Record → Bool
is_pending db row =
    is_some (lookup row.0 db.crossmatch) && not (triage_resolved (lookup row.0 db.crossmatch))

abbrev pub is_unsubmitted : Db → String × Record → Bool
is_unsubmitted db row = triage_resolved (lookup row.0 db.crossmatch) && not (is_some row.1.pgc)

abbrev pub is_submitted : String × Record → Bool
is_submitted row = is_some row.1.pgc

abbrev pub records_of_table : Db → ℕ → List (String × Record)
records_of_table db table_id = filter (λ row. row.1.table_id == table_id) db.records

unfoldable pub funnel_row : Db → Dict String CatalogProgress → ℕ → TableProgress
funnel_row db empty_catalogs table_id =
    let rows = records_of_table db table_id in
    record {
      total_records = length rows;
      unprocessed = length (filter (is_unprocessed db) rows);
      pending_triage = length (filter (is_pending db) rows);
      resolved_unsubmitted = length (filter (is_unsubmitted db) rows);
      submitted = length (filter is_submitted rows);
      catalogs = empty_catalogs;
    }

-- `_get_table_progress_funnel`, with the empty catalogs that `get_table_progress` adds; a table
-- without records has no group. `names` is `layer0.tables`.
unfoldable pub funnel :
    Db
    → Dict ℕ String
    → Option (List String)
    → Dict String CatalogProgress
    → Dict String TableProgress
unfolding funnel_row
funnel db [] table_names empty_catalogs = []
funnel db ((table_id, name) ∷ names) table_names empty_catalogs =
    let rest = funnel db names table_names empty_catalogs in
    if wanted table_names name && not (length (records_of_table db table_id) == 0)
    then (name, funnel_row db empty_catalogs table_id) ∷ rest
    else rest

-- a record's number is in layer 2, or it is missing there or has changed since
abbrev pub in_table : List ℕ → Option ℕ → Bool
in_table pgcs none = false
in_table pgcs (some pgc) = contains pgcs pgc

abbrev pub is_stale : Db → List ℕ → ℕ → Option ℕ → Bool
is_stale db pgcs dt none = false
is_stale db pgcs dt (some pgc) = not (contains pgcs pgc) || modified_since db dt pgc

abbrev pub counts_of : Db → Option (List ℕ × ℕ) → List (String × Record) → CatalogProgress
counts_of db none rows = record { structured = length rows; in_layer2 = 0; layer2_pending = 0 }
counts_of db (some (pgcs, dt)) rows = record {
  structured = length rows;
  in_layer2 = length (filter (λ row. in_table pgcs row.1.pgc) rows);
  layer2_pending = length (filter (λ row. is_stale db pgcs dt row.1.pgc) rows);
}

-- `_get_catalog_progress`
unfoldable pub catalog_progress :
    Db → Dict ℕ String → Option (List String) → CatalogSource → Dict String CatalogProgress
catalog_progress db [] table_names source = []
catalog_progress db ((table_id, name) ∷ names) table_names source =
    let rows =
      filter (λ row. contains (unique_after [] source.record_ids) row.0)
        (records_of_table db table_id) in
    let rest = catalog_progress db names table_names source in
    if wanted table_names name && not (length rows == 0)
    then (name, counts_of db source.layer2 rows) ∷ rest
    else rest

abbrev pub no_progress : CatalogProgress
no_progress = record { structured = 0; in_layer2 = 0; layer2_pending = 0 }

abbrev pub empty_catalogs_of : List CatalogSource → Dict String CatalogProgress
empty_catalogs_of = map (λ source. (source.alias, no_progress))

abbrev pub no_records : Dict String CatalogProgress → TableProgress
no_records empty_catalogs = record {
  total_records = 0;
  unprocessed = 0;
  pending_triage = 0;
  resolved_unsubmitted = 0;
  submitted = 0;
  catalogs = empty_catalogs;
}

-- the body of the inner loop
unfoldable pub add_progress :
    Dict String CatalogProgress
    → String
    → Dict String TableProgress
    → String × CatalogProgress
    → Dict String TableProgress
add_progress empty_catalogs alias result (table_name, progress) =
    let table = or_else (lookup table_name result) (no_records empty_catalogs) in
    insert table_name (record table { catalogs = insert alias progress table.catalogs }) result

unfoldable pub get_table_progress :
    Db → Dict ℕ String → List CatalogSource → Option (List String) → Dict String TableProgress
unfolding funnel catalog_progress add_progress
get_table_progress db names sources table_names =
    let empty_catalogs = empty_catalogs_of sources in
    foldl
      (λ result source.
        foldl (add_progress empty_catalogs source.alias) result
          (catalog_progress db names table_names source))
      (funnel db names table_names empty_catalogs) sources
