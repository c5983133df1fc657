-- ===== src/Upload/Settings.antt =====
-- A change of a table's metadata (app/adminapi/domain/table_upload.py, `patch_table`), and the tables
-- that are there then.

use db_app.Base.{
  Bool, any, ◌||◌, if◌then◌else◌, String, ◌≡◌, sym, ap, subst, ◌∙◌, false, Option, none, some, List,
  map, Dict, nat_eq, string_eq, ◌==◌, is_some, or_else, keys, lookup, All,
}
use db_app.Layer0.Records.{has_duplicates}
use db_app.Tables.{ok, MetaStore, Units, ColumnDescription, TableMeta, Item, State}
use db_app.Tables.Registry.{fetch_metadata_by_name}
use db_app.Tables.Described.{shown, filled}
use db_app.Tables.Kept.{IsTable, Keeps-trans, names_of}
use db_app.Tables.Patched.{fetch-IsTable}
use db_app.Tables.Others.{IsOnly, Others, Keeps-Others}
use db_app.Upload.Manager.{
  PatchTableRequest, is_change, or_old, by_name, new_name, change_datatype, change_status,
  check_name, rename, change_description, patch_columns, patch_table,
}
use db_app.Upload.Changed.{Leaves, patch_columns-Leaves}
use db_app.Upload.Patched.{patch_all, AreKnown}
use db_app.Upload.Steps.{
  updated_item, IsFree, check_name-free, Pending-all, description-Leaves, datatype-Leaves,
  status-Leaves, rename-Others, IsFree-Keeps, IsTable-latest,
}

-- The request changes something.
abbrev pub is_patch : PatchTableRequest → Bool
is_patch r =
    (((is_some r.description || is_some r.datatype) || is_some r.status)
      || any (λ e. is_change e.1) r.columns)
    || is_some (new_name r)

module _ {V U : Type 0} (meta : MetaStore) (units : Units U) where
  -- All steps but that of the name.
  changes-Leaves :
      (r : PatchTableRequest) (item : Item) (cols : List (ColumnDescription U))
      (description : Option String) (rows : Dict String (Dict String V)) (db : State V)
      → IsTable units r.table_name item cols description rows db
      → has_duplicates (names_of cols) ≡ false
      → has_duplicates (keys r.columns) ≡ false
      → AreKnown units cols r.columns
      → (described : State V) × (change_description meta r.table_name r.description db
          ≡ ok described)
        × Leaves units r.table_name
            (updated_item r.datatype r.status item)
            (patch_all units r.columns cols)
            (or_old r.description description)
            rows
            db
            item.modification_dt
            (((is_some r.description || is_some r.datatype) || is_some r.status)
              || any (λ e. is_change e.1) r.columns)
            (patch_columns meta units r.table_name (by_name (map shown cols)) r.columns (
              change_status r.table_name r.status
                (change_datatype r.table_name r.datatype described)))
  changes-Leaves r item cols description rows db h distinct once known =
      let t = r.table_name in
      let text = or_old r.description description in
      let at = item.modification_dt in
      let d1 = is_some r.description in
      let d2 = d1 || is_some r.datatype in
      let d3 = d2 || is_some r.status in
      let item2 = updated_item r.datatype none item in
      let item3 = updated_item r.datatype r.status item in
      let (db1, e1, kept1, k1) =
        description-Leaves meta units t item cols description r.description rows db h in
      let db2 = change_datatype t r.datatype db1 in
      let (step2, k2) =
        datatype-Leaves meta units t item cols text rows db1 (if d1 then db.now else at) r.datatype
          k1 in
      let kept2 = Keeps-trans t item.id db db1 db2 kept1 step2 in
      let l2 =
        IsTable-latest units t t item2 cols text rows db db1 db2 at d1 (is_some r.datatype)
          kept1.same_rest k2 in
      let db3 = change_status t r.status db2 in
      let (step3, k3) =
        status-Leaves meta units t item2 cols text rows db2 (if d2 then db.now else at) r.status
          l2 in
      let kept3 = Keeps-trans t item.id db db2 db3 kept2 step3 in
      let l3 =
        IsTable-latest units t t item3 cols text rows db db2 db3 at d2 (is_some r.status)
          kept2.same_rest k3 in
      let (db4, e4, step4, k4) =
        patch_columns-Leaves meta units t item3 cols text rows db3 (if d3 then db.now else at)
          (by_name (map shown cols)) r.columns l3 distinct once known
          (Pending-all cols r.columns) in
      (
        db1,
        e1,
        (
          db4,
          e4,
          Keeps-trans t item.id db db3 db4 kept3 step4,
          IsTable-latest units t t item3 (patch_all units r.columns cols) text rows db db3 db4 at d3
              (any (λ e. is_change e.1) r.columns) kept3.same_rest k4,
        ),
      )

  patch_table-runs :
      (r : PatchTableRequest) (db db1 db4 db5 : State V) (table_metadata : TableMeta U)
      → fetch_metadata_by_name units r.table_name db ≡ ok table_metadata
      → check_name (new_name r) db ≡ ok tt
      → change_description meta r.table_name r.description db ≡ ok db1
      → patch_columns meta units r.table_name
          (by_name table_metadata.column_descriptions)
          r.columns
          (change_status r.table_name r.status (change_datatype r.table_name r.datatype db1))
        ≡ ok db4
      → rename r.table_name (new_name r) db4 ≡ ok db5
      → patch_table meta units r db ≡ ok db5
  unfolding patch_table
  patch_table-runs r db db1 db4 db5 table_metadata fetched checked described patched_all named =
      rw (fetched, checked, described, patched_all) named

  -- A request for a table whose metadata was written by the program changes what it names and
  -- nothing else, if it names columns of the table, known units and, for a new name, one that is
  -- free. The metadata read under the new name has the given description, datatype and status and
  -- the time of the request, or the old ones, and every column has the properties that the request
  -- gives it and its old ones. The columns and the rows of the table are kept, no table is made or
  -- dropped, none of another name changes, and the sources and the numbers to come are as before.
  pub patch_table-fetch_metadata_by_name :
      (r : PatchTableRequest) (item : Item) (cols : List (ColumnDescription U))
      (description : Option String) (rows : Dict String (Dict String V)) (db : State V)
      → IsTable units r.table_name item cols description rows db
      → has_duplicates (names_of cols) ≡ false
      → has_duplicates (keys db.registry) ≡ false
      → IsOnly r.table_name item.id db.registry
      → ((n : String) → new_name r ≡ some n → IsFree n db)
      → has_duplicates (keys r.columns) ≡ false
      → AreKnown units cols r.columns
      → (changed : State V) × (patch_table meta units r db ≡ ok changed)
        × (fetch_metadata_by_name units (or_else (new_name r) r.table_name) changed
            ≡ ok (record {
              table_name = or_else (new_name r) r.table_name;
              column_descriptions = map shown (patch_all units r.columns cols);
              bibliography_id = item.bib;
              datatype = or_else r.datatype item.datatype;
              status = or_else r.status item.status;
              modification_dt = some (if is_patch r then db.now else item.modification_dt);
              description = or_old r.description description;
              table_id = some item.id;
            }))
        × (lookup (or_else (new_name r) r.table_name) changed.raw
            ≡ some (record {
              columns = map (filled units) (patch_all units r.columns cols);
              description = or_old r.description description;
              rows = rows;
            }))
        × Others r.table_name (or_else (new_name r) r.table_name) db changed
  unfolding patch_table
  patch_table-fetch_metadata_by_name r item cols description rows db h distinct names only free once
        known =
      let t = r.table_name in
      let name = or_else (new_name r) t in
      let item3 = updated_item r.datatype r.status item in
      let left = patch_all units r.columns cols in
      let text = or_old r.description description in
      let (db1, e1, (db4, e4, kept, k4)) =
        changes-Leaves r item cols description rows db h distinct once known in
      let (db5, e5, others, k5) =
        rename-Others units t (new_name r) item3 left text rows db4 _ k4
          (ap has_duplicates kept.same_names ∙ names)
          (subst (All (λ e. (e.1 == item.id) ≡ (e.0 == t))) (sym kept.same_ids) only)
          (λ n e. IsFree-Keeps t item.id n db db4 kept (free n e)) in
      let dated_last =
        IsTable-latest units t name item3 left text rows db db4 db5 item.modification_dt _
          (is_some (new_name r)) kept.same_rest k5 in
      (
        db5,
        patch_table-runs r db db1 db4 db5 _ (fetch-IsTable units t item cols description rows db h)
            (check_name-free (new_name r) db free) e1 e4 e5,
        fetch-IsTable units name _ left text rows db5 dated_last,
        dated_last.in_rawdata,
        Keeps-Others t name item.id db db4 db5 only kept others,
      )
