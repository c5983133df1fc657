-- ===== src/Tests/Uploads.antt =====
-- The theorems on uploaded tables, at small tables of a database with one source.
use db_app.Base.{
  lookup, contains, ℕ, String, ◌≡◌, refl, sym, Bool, true, false, Option, none, some, List, [], ◌∷◌,
  map, nat_eq, string_eq, or_else,
}
use db_app.Layer0.{regular, preliminary}
use db_app.Layer0.Records.{has_duplicates}
use db_app.Tables.{
  written_types, Error, failed, ok, MetaStore, Units, ColumnDescription, TableMeta, initiated,
  archived, Item, State,
}
use db_app.Tables.Registry.{create_table, fetch_metadata_by_name}
use db_app.Tables.Described.{filled, shown}
use db_app.Tables.Created.{created_meta, create_table-fetch_metadata_by_name}
use db_app.Upload.{Publication, CreateTableRequest, data_type_of, ensure_source_id}
use db_app.Upload.Manager.{create, PatchTableRequest, new_name, or_old, patch_table}
use db_app.Upload.Columns.{is_valid}
use db_app.Upload.Patched.{patch_all}
use db_app.Tables.Others.{Others}
use db_app.Upload.Created.{described_meta, create-fetch_metadata_by_name, create_refuses}
use db_app.Upload.Presented.{get_columns, presented, get_columns-created}
use db_app.Upload.Settings.{patch_table-fetch_metadata_by_name}

-- comments that keep the new object only
abbrev comments : MetaStore
comments = record {
  set_column = λ old params. params;
  set_table = λ old description. description;
  set_column_new = λ params. refl;
  set_column_over = λ old params h. refl;
  set_table_lem = λ old description. refl;
  is_type = contains written_types;
  is_type_written = (refl, (refl, (refl, (refl, (refl, tt)))));
}

-- units that are their texts
abbrev text_units : Units String
text_units = record { parse = some; to_string = λ u. u; parse-to_string = λ u. refl }

abbrev any_ucd : Option String → Bool
any_ucd ucd = true

abbrev no_bibcode : String → Bool
no_bibcode code = false

abbrev no_ads : String → Option (List Publication)
no_ads code = none

abbrev no_year : List ℕ → Option ℕ
no_year digits = none

abbrev empty : State String
empty = record {
  registry = [];
  next_id = 3;
  raw = [];
  bibs = ("private", record { id = 8; year = 2024; authors = []; title = "A list" }) ∷ [];
  next_bib = 9;
  now = 100;
}

abbrev name_column : ColumnDescription String
name_column = record {
  name = "name";
  data_type = "text";
  is_primary_key = true;
  unit = none;
  description = some "a name";
  ucd = none;
}

abbrev velocity : ColumnDescription String
velocity = record {
  name = "cz";
  data_type = "double precision";
  is_primary_key = false;
  unit = some "km/s";
  description = none;
  ucd = some "spect.dopplerVeloc";
}

abbrev galaxies : TableMeta String
galaxies = record {
  table_name = "galaxies";
  column_descriptions = name_column ∷ velocity ∷ [];
  bibliography_id = 8;
  datatype = regular;
  status = initiated;
  modification_dt = none;
  description = some "some galaxies";
  table_id = none;
}

create_table-fetch_metadata_by_name_example :
    (created : State String) × (create_table comments text_units galaxies empty
      ≡ ok (3, true, created))
    × (fetch_metadata_by_name text_units "galaxies" created ≡ ok (created_meta galaxies 3 100))
    × (create_table comments text_units galaxies created ≡ ok (3, false, created))
unfolding has_duplicates
create_table-fetch_metadata_by_name_example =
    create_table-fetch_metadata_by_name comments text_units galaxies empty refl refl refl
      (record { distinct = refl; typed = refl; one_key = refl })

abbrev request : CreateTableRequest
request = record {
  table_name = "galaxies";
  columns =
      record { name = "name"; data_type = " str"; ucd = none; unit = none; description = none }
      ∷ record {
        name = "flux";
        data_type = "float";
        ucd = some "phot.flux";
        unit = some "log(Jy)";
        description = none;
      }
      ∷ [];
  bibcode = "private";
  datatype = regular;
  description = "some galaxies";
}

create-fetch_metadata_by_name_example :
    (created : State String) × (create comments text_units any_ucd no_bibcode no_ads no_year request
        empty
      ≡ (ok (3, true), created))
    × (fetch_metadata_by_name text_units "galaxies" created
        ≡ ok (created_meta (described_meta some request 8) 3 100))
unfolding ensure_source_id data_type_of is_valid has_duplicates
create-fetch_metadata_by_name_example =
    create-fetch_metadata_by_name comments text_units any_ucd no_bibcode no_ads no_year request
      empty empty 8 refl refl refl refl refl

abbrev bad_request : CreateTableRequest
bad_request = record request {
  columns =
      record { name = "n"; data_type = "complex"; ucd = none; unit = none; description = none }
      ∷ [];
}

create_refuses_example :
    (e : Error) × (left : State String) × (create comments text_units any_ucd no_bibcode no_ads
        no_year bad_request empty
      ≡ (failed e, left))
    × (left.registry ≡ empty.registry)
    × (left.raw ≡ empty.raw)
unfolding ensure_source_id data_type_of is_valid
create_refuses_example =
    create_refuses comments text_units any_ucd no_bibcode no_ads no_year bad_request empty empty 8
      refl refl

abbrev galaxies_item : Item
galaxies_item = record {
  id = 3;
  bib = 8;
  datatype = regular;
  status = initiated;
  modification_dt = 50;
}

abbrev columns : List (ColumnDescription String)
columns = name_column ∷ velocity ∷ []

abbrev stored_tables : State String
stored_tables = record empty {
  registry =
      ("galaxies", galaxies_item)
      ∷ ("stars", record galaxies_item { id = 4; modification_dt = 60 })
      ∷ [];
  raw =
      (
        "galaxies",
        record {
          columns = map (filled text_units) columns;
          description = some "some galaxies";
          rows = [];
        },
      )
      ∷ [];
}

abbrev changes : PatchTableRequest
changes = record {
  table_name = "galaxies";
  new_table_name = some "velocities";
  description = none;
  datatype = some preliminary;
  status = some archived;
  columns = ("cz", record { ucd = none; unit = some "m/s"; description = some "a velocity" }) ∷ [];
}

patch_table-fetch_metadata_by_name_example :
    (changed : State String) × (patch_table comments text_units changes stored_tables ≡ ok changed)
    × (fetch_metadata_by_name text_units (or_else (new_name changes) "galaxies") changed
        ≡ ok (record {
          table_name = or_else (new_name changes) "galaxies";
          column_descriptions = map shown (patch_all text_units changes.columns columns);
          bibliography_id = 8;
          datatype = preliminary;
          status = archived;
          modification_dt = some 100;
          description = or_old changes.description (some "some galaxies");
          table_id = some 3;
        }))
    × (lookup (or_else (new_name changes) "galaxies") changed.raw
        ≡ some (record {
          columns = map (filled text_units) (patch_all text_units changes.columns columns);
          description = or_old changes.description (some "some galaxies");
          rows = [];
        }))
    × Others "galaxies" (or_else (new_name changes) "galaxies") stored_tables changed
unfolding has_duplicates
patch_table-fetch_metadata_by_name_example =
    patch_table-fetch_metadata_by_name comments text_units changes galaxies_item columns
      (some "some galaxies") [] stored_tables (record { registered = refl; in_rawdata = refl }) refl
      refl (refl, (refl, tt))
      (λ n e.
        (let same : "velocities" ≡ n = cc e in
          record { unregistered = rw (sym same) refl; unused = rw (sym same) refl }))
      refl ((refl, refl), tt)

abbrev long_request : CreateTableRequest
long_request = record request {
  columns =
      record { name = "n"; data_type = "long"; ucd = none; unit = none; description = none } ∷ [];
}

get_columns-created_example :
    (created : State String) × (create comments text_units any_ucd no_bibcode no_ads no_year
        long_request empty
      ≡ (ok (3, true), created))
    × (get_columns text_units "galaxies" created ≡ presented text_units long_request.columns)
unfolding ensure_source_id data_type_of is_valid has_duplicates
get_columns-created_example =
    get_columns-created text_units any_ucd comments no_bibcode no_ads no_year long_request empty
      empty 8 refl refl refl refl refl
