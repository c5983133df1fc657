-- ===== src/Progress/Funnel.antt =====
-- The counts of the funnel, `funnel_row`.
use db_app.Base.{
  ℕ, String, ◌+◌, ◌≡◌, Bool, ◌&&◌, not, List, [], ◌∷◌, arith, Dict, nat_eq, string_eq, length,
  lookup, is_some, filter,
}
use db_app.Layer0.{Db, Record}
use db_app.Progress.{
  CatalogProgress, is_unprocessed, is_pending, triage_resolved, is_unsubmitted, is_submitted,
  records_of_table, funnel_row,
}

-- a record with a number whose crossmatch result is missing or pending
abbrev pub is_unresolved_submission : Db → String × Record → Bool
is_unresolved_submission db row =
    is_some row.1.pgc && not (triage_resolved (lookup row.0 db.crossmatch))

stages :
    (db : Db) (rows : List (String × Record))
    → length (filter (is_unprocessed db) rows)
        + length (filter (is_pending db) rows)
        + length (filter (is_unsubmitted db) rows)
        + length (filter is_submitted rows)
      ≡ length rows + length (filter (is_unresolved_submission db) rows)
stages db [] = omega arith
stages db (row ∷ rows) = ground (arith, stages db rows)

-- The four stages of a table's records add up to their number and the number of records that count
-- twice, those with a number whose crossmatch result is missing or pending.
pub funnel_stages :
    (db : Db) (empty_catalogs : Dict String CatalogProgress) (table_id : ℕ)
    → (funnel_row db empty_catalogs table_id).unprocessed
        + (funnel_row db empty_catalogs table_id).pending_triage
        + (funnel_row db empty_catalogs table_id).resolved_unsubmitted
        + (funnel_row db empty_catalogs table_id).submitted
      ≡ (funnel_row db empty_catalogs table_id).total_records
        + length (filter (is_unresolved_submission db) (records_of_table db table_id))
unfolding funnel_row
funnel_stages db empty_catalogs table_id = stages db (records_of_table db table_id)
