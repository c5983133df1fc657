-- ===== src/Tables/Fetch.antt =====
-- `fetch_records` of `Layer0TableRepository`: the rows of a raw table with their records and
-- crossmatch results. `ORDER BY` the key of the raw rows is applied to them before the join, which
-- has at most one row for each.
use mathlib.Core.Option
use db_app.Base.{
  ℕ, String, Bool, true, false, ◌&&◌, ◌||◌, not, Option, none, some, List, [], ◌∷◌, map, Dict,
  nat_eq, string_eq, ◌==◌, is_some, lookup, update, keys, contains, flat_map, take, drop,
  if◌then◌else◌,
}
use db_app.Layer0.{Db, Record, Crossmatch, RecordTriageStatus, Metadata, metadata_to_candidates}
use db_app.Crossmatch.Processed.{triage_value}
use db_app.Tables.{Result, failed, ok, ◌>>=◌, rejected, internal_id_column, Item, RawTable, State}

-- what a column of the result has
pub data Field (V : Type 0) : Type 0 where
  null : Field V
  key : String → Field V
  cell : V → Field V
  pgc_number : ℕ → Field V
  status : RecordTriageStatus → Field V
  object : Metadata → Field V

-- The order of the keys, descending or not, and what the code does to the values of raw cells: it
-- writes dates as texts and leaves out what is not a number, and where a statement adds no column of
-- the name, it takes them for a status or for metadata.
pub record Reading (V : Type 0) : Type 0 where
  pub order : Bool → Dict String (Dict String V) → Dict String (Dict String V)
  pub serialize : V → Option V
  pub text_of : V → String
  pub candidates_in : V → Option (List ℕ)

-- the choice of the statement by `triage_status`
pub data Variant : Type 0 where
  unprocessed everything : Variant
  triaged : String → Variant

abbrev pub variant_of : Option String → Variant
variant_of none = everything
variant_of (some triage_status) =
    if triage_status == "unprocessed"
    then unprocessed
    else if triage_status == "pending" || triage_status == "resolved"
    then triaged triage_status
    else everything

pub record RecordsQuery : Type 0 where
  pub limit : ℕ
  pub row_offset : ℕ
  pub order_direction : String
  pub has_pgc : Option Bool
  pub pgc_value : Option ℕ
  pub triage_status : Option String

pub record TableRecord (V : Type 0) : Type 0 where
  pub id : String
  pub original_data : Dict String (Option V)
  pub pgc : Option ℕ
  pub triage_status : String
  pub crossmatch_candidates : List ℕ

-- the conditions on `o.pgc`
abbrev pub pgc_matches : Option Bool → Option ℕ → Option ℕ → Bool
pgc_matches has_pgc pgc_value pgc = matches_has has_pgc && matches_value pgc_value pgc
  where
    matches_has : Option Bool → Bool
    matches_has none = true
    matches_has (some true) = is_some pgc
    matches_has (some false) = not (is_some pgc)

    matches_value : Option ℕ → Option ℕ → Bool
    matches_value none found = true
    matches_value (some wanted) none = false
    matches_value (some wanted) (some found) = found == wanted

module _ {V : Type 0} where
  abbrev pub pgc_field : Option ℕ → Field V
  pgc_field none = null
  pgc_field (some pgc) = pgc_number pgc

  -- `r.*`
  abbrev pub raw_field : String → Dict String V → String → Field V
  raw_field id row column =
      if column == internal_id_column
      then key id
      else elim (lookup column row) [ none ↦ null | some v ↦ cell v ]

  abbrev pub raw_fields : List String → String → Dict String V → Dict String (Field V)
  raw_fields columns id row = map (λ column. (column, raw_field id row column)) columns

  abbrev pub crossmatch_fields : Option Crossmatch → List (String × Field V)
  crossmatch_fields none = ("triage_status", null) ∷ ("crossmatch_metadata", null) ∷ []
  crossmatch_fields (some c) =
      ("triage_status", status c.triage_status) ∷ ("crossmatch_metadata", object c.metadata) ∷ []

  -- The columns that a statement adds to `r.*`, if the joins and conditions have a row. A later
  -- column of the same name replaces an earlier one.
  unfoldable pub added_fields :
      Variant → Option ℕ → Option Crossmatch → Option (List (String × Field V))
  added_fields unprocessed pgc none = some (("pgc", pgc_field pgc) ∷ [])
  added_fields unprocessed pgc (some c) = none
  added_fields (triaged wanted) pgc none = none
  added_fields (triaged wanted) pgc (some c) =
      if triage_value c.triage_status == wanted
      then some (("pgc", pgc_field pgc) ∷ crossmatch_fields (some c))
      else none
  added_fields everything pgc c = some (("pgc", pgc_field pgc) ∷ crossmatch_fields c)

  abbrev pub with_fields :
      Dict String (Field V)
      → String
      → Option (List (String × Field V))
      → List (String × Dict String (Field V))
  with_fields raw id none = []
  with_fields raw id (some added) = (id, update raw added) ∷ []

  -- for the record of the row, if there is one
  unfoldable pub join_found :
      List String
      → Db
      → ℕ
      → RecordsQuery
      → Variant
      → String × Dict String V
      → Option Record
      → List (String × Dict String (Field V))
  unfolding added_fields
  join_found columns db table_id query variant (id, row) none = []
  join_found columns db table_id query variant (id, row) (some r) =
      if r.table_id == table_id && pgc_matches query.has_pgc query.pgc_value r.pgc
      then with_fields (raw_fields columns id row) id
          (added_fields variant r.pgc (lookup id db.crossmatch))
      else []

  abbrev pub join_record :
      List String
      → Db
      → ℕ
      → RecordsQuery
      → Variant
      → String × Dict String V
      → List (String × Dict String (Field V))
  join_record columns db table_id query variant e =
      join_found columns db table_id query variant e (lookup e.0 db.records)

abbrev pub drop_labels : List String
drop_labels = internal_id_column ∷ "pgc" ∷ "triage_status" ∷ "crossmatch_metadata" ∷ []

abbrev pub page : {A : Type 0} → ℕ → ℕ → List A → List A
page limit row_offset xs = take limit (drop row_offset xs)

abbrev pub table_id_of : String → Dict String Item → Option ℕ
table_id_of table_name registry = Option.map (λ item. item.id) (lookup table_name registry)

module _ {V : Type 0} (reading : Reading V) where
  open reading use {order, serialize, text_of, candidates_in}

  abbrev pub serialized : Field V → Option V
  serialized (cell v) = serialize v
  serialized field = none

  -- `_row_to_serializable_dict`
  unfoldable pub row_to_serializable_dict :
      List String → Dict String (Field V) → Dict String (Option V)
  row_to_serializable_dict drop [] = []
  row_to_serializable_dict drop ((column, field) ∷ row) =
      let rest = row_to_serializable_dict drop row in
      if contains drop column then rest else (column, serialized field) ∷ rest

  abbrev pub pgc_of : Option (Field V) → Option ℕ
  pgc_of (some (pgc_number pgc)) = some pgc
  pgc_of field = none

  abbrev pub triage_of : Option (Field V) → String
  triage_of (some (status s)) = triage_value s
  triage_of (some (cell v)) = text_of v
  triage_of field = "unprocessed"

  abbrev pub candidates_of : Option (Field V) → Option (List ℕ)
  candidates_of (some (object metadata)) = metadata_to_candidates (some metadata)
  candidates_of (some (cell v)) = candidates_in v
  candidates_of field = some []

  unfoldable pub to_record : String × Dict String (Field V) → Result (TableRecord V)
  unfolding row_to_serializable_dict
  to_record (id, row) = elim (candidates_of (lookup "crossmatch_metadata" row)) [
    | none ↦ failed rejected
    | some candidates ↦ ok (record {
      id = id;
      original_data = row_to_serializable_dict drop_labels row;
      pgc = pgc_of (lookup "pgc" row);
      triage_status = triage_of (lookup "triage_status" row);
      crossmatch_candidates = candidates;
    })
  ]

  unfoldable pub to_records : List (String × Dict String (Field V)) → Result (List (TableRecord V))
  unfolding to_record
  to_records [] = ok []
  to_records (row ∷ rows) = to_record row >>= λ first. to_records rows >>= λ rest. ok (first ∷ rest)

  -- the rows of the statement, before `LIMIT` and `OFFSET`; a table that is not registered has none
  unfoldable pub joined_rows :
      RawTable V → Option ℕ → RecordsQuery → Db → List (String × Dict String (Field V))
  unfolding join_found
  joined_rows raw_table none query db = []
  joined_rows raw_table (some table_id) query db =
      flat_map
        (join_record (keys raw_table.columns) db table_id query (variant_of query.triage_status))
        (order (query.order_direction == "desc") raw_table.rows)

  unfoldable pub fetch_records :
      State V → Db → String → RecordsQuery → Result (List (TableRecord V))
  unfolding joined_rows to_records
  fetch_records tables db table_name query = elim (lookup table_name tables.raw) [
    | none ↦ failed rejected
    | some raw_table ↦ to_records (
        page query.limit query.row_offset
          (joined_rows raw_table (table_id_of table_name tables.registry) query db))
  ]
