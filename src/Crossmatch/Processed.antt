-- ===== src/Crossmatch/Processed.antt =====
-- Reading the crossmatched records (app/data/repositories/layer0/records.py,
-- `get_processed_records`).

use db_app.Base.{
  ℕ, String, Bool, true, false, ◌&&◌, ◌||◌, Option, none, some, List, [], ◌∷◌, map, Dict, nat_eq,
  string_eq, ◌==◌, lookup, keys, or_else, contains, filter, take, drop,
}
use db_app.Layer0.{
  Db, Record, Crossmatch, RecordTriageStatus, pending, resolved, RecordCrossmatchStatus,
  unprocessed, new, collided, existing, Metadata, metadata_to_candidates,
}
use db_app.Layer0.Records.{Outcome, raised, done, rejected, and_then, is_empty_object}
use db_app.Crossmatch.{all_of}

-- the values of the enumeration
unfoldable pub status_value : RecordCrossmatchStatus → String
status_value unprocessed = "unprocessed"
status_value new = "new"
status_value collided = "collided"
status_value existing = "existing"

-- the statement's condition on the status
unfoldable pub status_matches : List RecordCrossmatchStatus → Metadata → Bool
unfolding status_value
status_matches statuses metadata =
    let values = map status_value statuses in
    (is_empty_object (some metadata) && contains values "new")
    || ((contains (keys metadata) "pgc" && contains values "existing")
        || (contains (keys metadata) "possible_matches" && contains values "collided"))

abbrev pub triage_value : RecordTriageStatus → String
triage_value pending = "pending"
triage_value resolved = "resolved"

-- The arguments of `get_processed_records` but for the limit; an empty list of statuses is no
-- condition.
pub record Query : Type 0 where
  pub offset : Option String
  pub row_offset : Option ℕ
  pub table_name : Option String
  pub status : List RecordCrossmatchStatus
  pub triage_status : List RecordTriageStatus
  pub record_id : Option String

abbrev pub no_query : Query
no_query = record {
  offset = none;
  row_offset = none;
  table_name = none;
  status = [];
  triage_status = [];
  record_id = none;
}

pub record RecordRow : Type 0 where
  pub id : String
  pub triage : RecordTriageStatus
  pub candidates : List ℕ

-- `registry` has the tables' ids by name; `collate` and `after` are the order of texts.
module _ (registry : Dict String ℕ) (collate : List String → List String)
    (after : String → String → Bool) where
  abbrev in_table : Option String → Record → Bool
  in_table none r = true
  in_table (some name) r = elim (lookup name registry) [ none ↦ false | some id ↦ id == r.table_id ]

  abbrev if_any : {A : Type 0} → List A → Bool → Bool
  if_any [] test = true
  if_any (x ∷ xs) test = test

  abbrev selects_row : Query → String → Record → Option Crossmatch → Bool
  selects_row query id r none = false
  selects_row query id r (some c) =
      in_table query.table_name r
      && (all_of (after id) query.offset
          && (if_any query.status (status_matches query.status c.metadata)
              && (if_any query.triage_status
                    (contains (map triage_value query.triage_status) (triage_value c.triage_status))
                  && all_of (λ wanted. id == wanted) query.record_id)))

  unfoldable pub selected_ids : Query → Db → List String
  unfolding status_matches
  selected_ids query db =
      map (λ row. row.0)
        (filter (λ row. selects_row query row.0 row.1 (lookup row.0 db.crossmatch)) db.records)

  abbrev row_of : String → Option Crossmatch → Outcome RecordRow
  row_of id none = raised rejected
  row_of id (some c) = elim (metadata_to_candidates (some c.metadata)) [
    | none ↦ raised rejected
    | some cs ↦ done (record { id = id; triage = c.triage_status; candidates = cs })
  ]

  abbrev pub rows_of_ids : Db → List String → Outcome (List RecordRow)
  rows_of_ids db [] = done []
  rows_of_ids db (id ∷ ids) =
      and_then (row_of id (lookup id db.crossmatch))
        λ row. and_then (rows_of_ids db ids) λ rows. done (row ∷ rows)

  unfoldable pub get_processed_records : ℕ → Query → Db → Outcome (List RecordRow)
  unfolding selected_ids metadata_to_candidates
  get_processed_records limit query db =
      rows_of_ids db
        (take limit (drop (or_else query.row_offset 0) (collate (selected_ids query db))))
