-- ===== src/Tests/Submit.antt =====
-- The theorems on records, their crossmatch results and their numbers, at the sample tables.
use db_app.Base.{
  inr, ℕ, String, ◌≡◌, refl, true, false, none, some, List, [], ◌∷◌, map, arith, nat_eq, string_eq,
  length, contains, lookup, take, All-contains, sym,
}
use db_app.Crossmatch.Processed.{status_matches, status_value, RecordRow}
use db_app.Layer0.{Db, int, resolved, metadata_to_candidates, candidates_to_metadata, new, collided}
use db_app.Layer0.Records.{raised, done, precondition, is_invalid}
use db_app.Layer0.Assign.{IsFresh}
use db_app.Layer0.Assigned.{IsAssignable}
use db_app.Layer0.Submit.{IsNumberFor}
use db_app.Layer0.Merge.{merge, merged_records}
use db_app.Layer0.Merged.{
  checked, first_missing, after_merge, merge_result, merge_orphans, merge_imports,
}
use db_app.Layer1.Pages.{updated_pgcs}
use db_app.Tasks.{has_source}
use db_app.Crossmatch.{
  StatusesPayload, Rows, crossmatch_rows, set_results, is_valid_statuses, candidates_to_status,
  assign,
}
use db_app.Crossmatch.Results.{
  metadata_to_candidates-candidates_to_metadata, status_matches-candidates, latest, records_of,
  all_ids, set_results_stores,
}
use db_app.Crossmatch.Assigning.{unassignable, assign_refuses, assign_numbers, assign_keeps}
use db_app.Base.{Dict, All}
use db_app.Layer0.{pending}
use db_app.Crossmatch.Responses.{
  RecordCrossmatch, convert_to_record_crossmatch, agrees, shown_parts, row_parts, convert_agrees,
}
use db_app.Tests.{sample, names}

abbrev as_listed : List String → List String
as_listed ids = ids

read_back_example :
    metadata_to_candidates (some (candidates_to_metadata (5 ∷ 9 ∷ []))) ≡ some (5 ∷ 9 ∷ [])
read_back_example = metadata_to_candidates-candidates_to_metadata (5 ∷ 9 ∷ [])

status_matches_example :
    status_matches (new ∷ collided ∷ []) (candidates_to_metadata (5 ∷ 9 ∷ []))
    ≡ contains
        (map status_value (new ∷ collided ∷ []))
        (status_value (candidates_to_status (5 ∷ 9 ∷ [])))
status_matches_example = status_matches-candidates (new ∷ collided ∷ []) (5 ∷ 9 ∷ [])

abbrev statuses : StatusesPayload
statuses = record {
  new_records = some (record { record_ids = "d" ∷ []; candidates = []; triage_statuses = [] });
  existing_records = none;
  collided_records = some (record {
    record_ids = "e" ∷ "d" ∷ [];
    candidates = (5 ∷ 9 ∷ []) ∷ (7 ∷ []) ∷ [];
    triage_statuses = none ∷ some resolved ∷ [];
  });
}

set_results_stores_example :
    (rows : Rows) × (db' : Db) × (crossmatch_rows statuses ≡ some rows)
    × (records_of rows ≡ all_ids statuses)
    × (set_results statuses sample ≡ done db')
    × ((id : String) → lookup id db'.crossmatch ≡ latest rows id (lookup id sample.crossmatch))
unfolding is_valid_statuses
set_results_stores_example = set_results_stores statuses sample refl (refl, (refl, (refl, tt)))

assign_refuses_example :
    assign as_listed as_listed ("c" ∷ "e" ∷ "a" ∷ "e" ∷ []) sample
    ≡ raised (
        precondition
          (take 100 (unassignable sample ("c" ∷ "e" ∷ "a" ∷ "e" ∷ [])))
          (length (unassignable sample ("c" ∷ "e" ∷ "a" ∷ "e" ∷ []))))
unfolding is_invalid
assign_refuses_example =
    assign_refuses as_listed as_listed (λ ids. refl) ("c" ∷ "e" ∷ "a" ∷ "e" ∷ []) sample
      (omega arith)

sample-IsFresh : IsFresh sample
sample-IsFresh p h = ground (arith, h)

sample-IsAssignable : (id : String) → contains ("c" ∷ "d" ∷ []) id ≡ true → IsAssignable sample id
unfolding candidates_to_metadata
sample-IsAssignable id h =
    All-contains (IsAssignable sample) ("c" ∷ "d" ∷ []) id
      (
        record {
          row = record { triage_status = resolved; metadata = ("pgc", int 7) ∷ [] };
          found = refl;
          triaged = refl;
          candidate = some 7;
          metadata_same = refl;
          known = λ p e. (let same : 7 ≡ p = cc e in rw (sym same) refl);
        },
        (
          record {
            row = record { triage_status = resolved; metadata = [] };
            found = refl;
            triaged = refl;
            candidate = none;
            metadata_same = refl;
            known = λ p e. absurd (cc e);
          },
          tt,
        ),
      )
      h

assign_numbers_example :
    (db' : Db) × (assign as_listed as_listed ("c" ∷ "d" ∷ []) sample ≡ done db')
    × (p : ℕ) × (lookup "d" db'.records ≡ some (record { table_id = 1; pgc = some p }))
    × IsNumberFor sample db' "d" p
assign_numbers_example =
    assign_numbers as_listed as_listed (λ ids. refl) (λ ids id. refl) "c" ("d" ∷ []) sample
      sample-IsAssignable sample-IsFresh "d" (record { table_id = 1; pgc = none }) refl refl refl

assign_keeps_example :
    (db' : Db) × (assign as_listed as_listed ("c" ∷ "d" ∷ []) sample ≡ done db')
    × (lookup "a" db'.records ≡ lookup "a" sample.records)
assign_keeps_example =
    assign_keeps as_listed as_listed (λ ids. refl) (λ ids id. refl) "c" ("d" ∷ []) sample
      sample-IsAssignable sample-IsFresh "a"
      (inr (record { table_id = 1; pgc = some 5 }, 5, refl, refl))

merge_result_example :
    merge 9 (5 ∷ []) sample
    ≡ checked
        (first_missing sample (9 ∷ 5 ∷ []))
        (after_merge 9 (5 ∷ []) sample, length (merged_records (5 ∷ []) sample))
merge_result_example = merge_result 9 (5 ∷ []) sample

merge_orphans_example : has_source (after_merge 9 (5 ∷ []) sample) names 5 ≡ false
merge_orphans_example = merge_orphans 9 (5 ∷ []) sample names 5 refl (λ same. cc same)

merge_imports_example : contains (updated_pgcs (after_merge 9 (5 ∷ []) sample) names 100) 9 ≡ true
merge_imports_example =
    merge_imports 9 (5 ∷ []) sample names "b" (record { table_id = 2; pgc = some 5 }) 100 refl refl
      refl refl (omega arith)

abbrev rows : List RecordRow
rows =
    record { id = "c"; triage = resolved; candidates = 7 ∷ [] }
    ∷ record { id = "e"; triage = pending; candidates = 5 ∷ 9 ∷ [] }
    ∷ []

abbrev catalogs_of : List String → Dict String String
catalogs_of ids = ("e", "M 31") ∷ ("c", "M 33") ∷ []

convert_agrees_example :
    (shown : List (RecordCrossmatch String)) × (convert_to_record_crossmatch catalogs_of rows
      ≡ done shown)
    × (map shown_parts shown ≡ map (row_parts (catalogs_of (map (λ r. r.id) rows))) rows)
    × All (λ r. agrees r.status r.pgc r.possible_matches ≡ true) shown
convert_agrees_example = convert_agrees catalogs_of rows (refl, (refl, tt))
