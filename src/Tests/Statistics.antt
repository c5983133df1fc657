-- ===== src/Tests/Statistics.antt =====
-- The theorems on the progress of tables, at the sample tables.
use db_app.Base.{
  ◌+◌, ◌≡◌, none, some, List, [], ◌∷◌, map, nat_eq, string_eq, length, keys, filter, All,
}
use db_app.Progress.{CatalogSource, records_of_table, funnel_row, get_table_progress}
use db_app.Progress.Funnel.{is_unresolved_submission, funnel_stages}
use db_app.Progress.Complete.{get_table_progress_complete}
use db_app.Tests.{sample}

abbrev sources : List CatalogSource
sources =
    record { alias = "icrs"; record_ids = "a" ∷ "a" ∷ "e" ∷ []; layer2 = some (5 ∷ [], 70) }
    ∷ record { alias = "note"; record_ids = "c" ∷ []; layer2 = none }
    ∷ []

funnel_stages_example :
    (funnel_row sample [] 1).unprocessed
      + (funnel_row sample [] 1).pending_triage
      + (funnel_row sample [] 1).resolved_unsubmitted
      + (funnel_row sample [] 1).submitted
    ≡ (funnel_row sample [] 1).total_records
      + length (filter (is_unresolved_submission sample) (records_of_table sample 1))
funnel_stages_example = funnel_stages sample [] 1

get_table_progress_complete_example :
    All
      (λ entry. keys entry.1.catalogs ≡ map (λ source. source.alias) sources)
      (get_table_progress sample ((1, "first") ∷ (2, "second") ∷ []) sources none)
get_table_progress_complete_example =
    get_table_progress_complete sample ((1, "first") ∷ (2, "second") ∷ []) sources none
