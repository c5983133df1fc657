-- ===== src/Tests/Rows.antt =====
-- The theorems on rows: their upload, the records that are shown, measurements and objects of layer 2.
use db_app.Base.{
  ◌&&◌, is_some, lookup-insert, lookup-insert_self, ℕ, String, ◌≡◌, refl, ◌<>◌, true, none, some,
  List, [], ◌∷◌, map, arith, Dict, nat_eq, string_eq, ◌==◌, keys, lookup, contains, filter, foldl,
  All, take, drop,
}
use db_app.Layer0.{Db, regular, metadata_to_candidates}
use db_app.Layer1.Pages.{updated_pgcs}
use db_app.Layer1.Saving.{
  Rules, cell_of, update_columns_of, updated_row, Row, saved, rows_of, save_structured_data,
}
use db_app.Layer1.Saved.{AcceptsUpdates, save_structured_data-updated_pgcs}
use db_app.Search.Objects.{
  designation, note, redshift, Layer2Tables, nobody, query_pgc, sorted_numbers,
}
use db_app.Search.Queried.{object_of, query_pgc-object_of}
use db_app.Tables.{ok, initiated, Item, RawTable, State, internal_id_column}
use db_app.Tables.Fetch.{Reading, RecordsQuery, TableRecord, page, fetch_records}
use db_app.Tables.Statuses.{fetch_records-status}
use db_app.Upload.Rows.{Frames, frame_of, has_misfit, add_data}
use db_app.Upload.Added.{add_data_again}
use db_app.Upload.Again.{IsRegistered}
use db_app.Layer1.ByRecord.{Layer1Tables}
use db_app.Upload.Schemas.{Info}
use db_app.Upload.Listing.{GetRecordsRequest, GetRecordsResponse, get_records}
use db_app.Upload.Listed.{values_of, shown_parts, record_parts, get_records-shown}
use db_app.Tests.{sample}

abbrev frames : Frames String
frames = record {
  from_records = λ records. records;
  dumps = λ entries. some (foldl (λ text e. text <> e.0 <> "=" <> e.1 <> ";") "" entries);
  hashfunc = λ text. text;
  is_null = λ v. v == "";
  fits = λ data_type v. true;
}

abbrev named : RawTable String
named = record {
  columns =
      (internal_id_column, record { data_type = "text"; constraint = "PRIMARY KEY"; params = none })
      ∷ ("name", record { data_type = "text"; constraint = ""; params = none })
      ∷ [];
  description = none;
  rows = ("a", ("name", "M 1") ∷ []) ∷ ("c", []) ∷ ("e", ("name", "M 31") ∷ []) ∷ [];
}

abbrev item : Item
item = record { id = 1; bib = 8; datatype = regular; status = initiated; modification_dt = 50 }

abbrev tables : State String
tables = record {
  registry = ("named", item) ∷ [];
  next_id = 3;
  raw = ("named", named) ∷ [];
  bibs = [];
  next_bib = 9;
  now = 100;
}

abbrev uploaded : List (Dict String String)
uploaded = (("name", "M 33") ∷ []) ∷ (("name", "") ∷ []) ∷ (("name", "M 33") ∷ []) ∷ []

add_data_again_example :
    (tables' : State String) × (db' : Db) × (raw_table' : RawTable String) × (add_data frames
        "named" uploaded
        (tables, sample)
      ≡ ((tables', db'), true))
    × (lookup "named" tables'.raw ≡ some raw_table')
    × All
        (λ id. (contains (keys raw_table'.rows) id ≡ true) × IsRegistered 1 db'.records id)
        ("named_name=;" ∷ "named_name=M 33;" ∷ [])
    × (add_data frames "named" uploaded (tables', db') ≡ ((tables', db'), true))
unfolding frame_of has_misfit
add_data_again_example =
    add_data_again frames "named" uploaded tables sample item named
      ("named_name=;", ("name", "") ∷ []) (("named_name=M 33;", ("name", "M 33") ∷ []) ∷ []) refl
      refl refl refl

abbrev reading : Reading String
reading = record {
  order = λ descending rows. rows;
  serialize = some;
  text_of = λ v. v;
  candidates_in = λ v. none;
}

abbrev query : RecordsQuery
query = record {
  limit = 1;
  row_offset = 0;
  order_direction = "asc";
  has_pgc = none;
  pgc_value = none;
  triage_status = none;
}

abbrev shown_records : List (TableRecord String)
shown_records =
    record {
      id = "a";
      original_data = ("name", some "M 1") ∷ [];
      pgc = some 5;
      triage_status = "unprocessed";
      crossmatch_candidates = [];
    }
    ∷ record {
      id = "c";
      original_data = ("name", none) ∷ [];
      pgc = none;
      triage_status = "resolved";
      crossmatch_candidates = 7 ∷ [];
    }
    ∷ record {
      id = "e";
      original_data = ("name", some "M 31") ∷ [];
      pgc = some 9;
      triage_status = "pending";
      crossmatch_candidates = 5 ∷ 9 ∷ [];
    }
    ∷ []

fetch_records-status_example :
    fetch_records reading tables sample "named" (record query { triage_status = some "resolved" })
    ≡ ok (page 1 0 (filter (λ rec. rec.triage_status == "resolved") shown_records))
unfolding fetch_records metadata_to_candidates
fetch_records-status_example =
    fetch_records-status reading tables sample "named" "resolved" query 4 named shown_records refl
      (refl, refl) (refl, (refl, (refl, tt))) refl refl (omega arith)

-- velocities, of one method at most for a record; both columns are not NULL
abbrev velocities : Rules ℕ
velocities = record {
  defaults = ("cz", none) ∷ ("e_cz", none) ∷ ("method", some 0) ∷ [];
  unique_key = "record_id" ∷ "method" ∷ [];
  nulls_distinct = true;
  accepts = λ row. is_some (cell_of "cz" row) && is_some (cell_of "method" row);
}

abbrev method_keys : List String
method_keys = "record_id" ∷ "method" ∷ []

velocities-AcceptsUpdates : AcceptsUpdates velocities (update_columns_of method_keys ("cz" ∷ []))
unfolding updated_row
velocities-AcceptsUpdates new old h k =
    rw
      (
        lookup-insert_self "cz" (cell_of "cz" new) old.1,
        lookup-insert "cz" "method" (cell_of "cz" new) old.1,
      )
      (ground (arith, h, k))

abbrev new_rows : List (Row ℕ)
new_rows = ("a", ("cz", some 300) ∷ []) ∷ []

save_structured_data-updated_pgcs_example :
    (table' : List (Row ℕ)) × (db' : Db) × (save_structured_data velocities
        ("cz" ∷ [])
        ("a" ∷ [])
        ((some 300 ∷ []) ∷ [])
        method_keys
        (("a", ("cz", some 200) ∷ ("method", some 0) ∷ []) ∷ [])
        sample
      ≡ saved (table', db'))
    × All (λ row. contains (map (λ row'. row'.0) table') row.0 ≡ true) new_rows
    × (contains (updated_pgcs db' table' 150) 5 ≡ true)
unfolding rows_of
save_structured_data-updated_pgcs_example =
    save_structured_data-updated_pgcs velocities ("cz" ∷ []) ("a" ∷ []) method_keys
      ((some 300 ∷ []) ∷ []) (("a", ("cz", some 200) ∷ ("method", some 0) ∷ []) ∷ []) new_rows
      sample "a" (record { table_id = 1; pgc = some 5 }) 5 150 refl refl ((refl, refl), tt)
      (refl, tt) velocities-AcceptsUpdates refl refl refl refl refl refl refl (omega arith)

abbrev layer2 : Layer2Tables ℕ
layer2 = record {
  designation = (9, "M 31") ∷ (5, "M 1") ∷ [];
  icrs = [];
  cz = (9, (some 300, none)) ∷ [];
  nature = [];
  designations = [];
  notes =
      (
        5,
        record {
          words = some "a remnant";
          source = record { code = some "private"; title = none; author = nobody; year = none };
        },
      )
      ∷ [];
  photometry_total = [];
}

query_pgc-object_of_example :
    query_pgc (designation ∷ redshift ∷ note ∷ []) (9 ∷ 5 ∷ 7 ∷ []) 2 0 layer2
    ≡ map
        (object_of (designation ∷ redshift ∷ note ∷ []) layer2)
        (take 2 (drop 0 (sorted_numbers (9 ∷ 5 ∷ 7 ∷ []))))
query_pgc-object_of_example =
    query_pgc-object_of (designation ∷ redshift ∷ note ∷ []) (9 ∷ 5 ∷ 7 ∷ []) 2 0 layer2
      (λ same. cc same)

abbrev measured : Layer1Tables ℕ
measured = record {
  designation = ("a", "M 1") ∷ ("a", "NGC 1952") ∷ ("z", "M 42") ∷ [];
  icrs = ("c", record { ra = 23; e_ra = 1; dec = 30; e_dec = 2 }) ∷ [];
  cz = ("e", record { cz = 300; e_cz = none }) ∷ [];
  nature = [];
}

abbrev descriptions : Info
descriptions = record {
  table_info = λ schema_name table_name. some none;
  column_info = λ schema_name table_name. [];
}

abbrev first_page : GetRecordsRequest
first_page = record {
  table_name = "named";
  page = 0;
  page_size = 4;
  pgc = none;
  upload_status = none;
  triage_status = none;
}

get_records-shown_example :
    (response : GetRecordsResponse String ℕ) × (get_records
        (λ cz. cz)
        50
        reading
        tables
        sample
        measured
        descriptions
        []
        first_page
      ≡ ok response)
    × (map shown_parts response.records
        ≡ map (record_parts (values_of (λ cz. cz) 50 measured)) shown_records)
unfolding fetch_records metadata_to_candidates
get_records-shown_example =
    get_records-shown (λ cz. cz) 50 measured reading tables sample descriptions [] first_page
      shown_records refl (refl, (refl, (refl, tt))) refl
