-- ===== src/Upload/Manager.antt =====
-- `TableUploadManager`: creating, changing and showing tables.

use db_app.Base.{
  ℕ, String, Bool, ◌||◌, Option, none, some, List, [], ◌∷◌, Dict, nat_eq, string_eq, ◌==◌, is_some,
  lookup, if◌then◌else◌,
}
use db_app.Layer0.{DataType}
use db_app.Tables.{
  TableStatus, name_taken, no_column, bad_unit, Result, failed, ok, ◌>>=◌, ColumnDescription,
  initiated, MetaStore, Units, State,
}
use db_app.Tables.Registry.{
  create_table, fetch_metadata_by_name, update_table_metadata, update_table_datatype,
  update_table_status, update_column_metadata, is_raw_table_name_taken, rename_raw_table,
}
use db_app.Upload.{
  domain_descriptions_to_data, ensure_source_id, Publication, CreateTableRequest, check_names,
}

module _ {V : Type 0} where
  -- an error with the tables that it leaves
  abbrev pub or_keep : State V → Result (ℕ × Bool × State V) → Result (ℕ × Bool) × State V
  or_keep db (failed e) = (failed e, db)
  or_keep db (ok (table_id, created, changed)) = (ok (table_id, created), changed)

module _ (meta : MetaStore) {U : Type 0} (units : Units U) (check_ucd : Option String → Bool)
    {V : Type 0} where
  open units use {parse, to_string}

  -- The table that a request describes, once its source has a number.
  unfoldable pub create_described : CreateTableRequest → ℕ → State V → Result (ℕ × Bool × State V)
  create_described r source_id db = check_names r.columns >>= λ u.
      domain_descriptions_to_data parse check_ucd r.columns >>= λ columns.
      create_table meta units
        (record {
          table_name = r.table_name;
          column_descriptions = columns;
          bibliography_id = source_id;
          datatype = r.datatype;
          status = initiated;
          modification_dt = none;
          description = some r.description;
          table_id = none;
        })
        db

  -- The source is stored before the columns are looked at, and stays if they are refused.
  unfoldable pub create :
      (String → Bool)
      → (String → Option (List Publication))
      → (List ℕ → Option ℕ)
      → CreateTableRequest
      → State V
      → Result (ℕ × Bool) × State V
  unfolding create_described
  create is_bibcode ads int_of r db = elim (ensure_source_id is_bibcode ads int_of r.bibcode db) [
    | failed e ↦ (failed e, db)
    | ok (source_id, sourced) ↦ or_keep sourced (create_described r source_id sourced)
  ]

-- `PatchColumnSpec`
pub record PatchColumnSpec : Type 0 where
  pub ucd : Option String
  pub unit : Option String
  pub description : Option String

pub record PatchTableRequest : Type 0 where
  pub table_name : String
  pub new_table_name : Option String
  pub description : Option String
  pub datatype : Option DataType
  pub status : Option TableStatus
  pub columns : Dict String PatchColumnSpec

abbrev pub or_old : {A : Type 0} → Option A → Option A → Option A
or_old none old = old
or_old (some new) old = some new

abbrev pub is_change : PatchColumnSpec → Bool
is_change spec = is_some spec.ucd || is_some spec.unit || is_some spec.description

-- `{col.name: col for col in column_descriptions}`; the columns of a table have distinct names
abbrev pub by_name : {U : Type 0} → List (ColumnDescription U) → Dict String (ColumnDescription U)
by_name [] = []
by_name (col ∷ columns) = (col.name, col) ∷ by_name columns

-- the new name, if the request has one that is not the old one
abbrev pub new_name : PatchTableRequest → Option String
new_name r = elim r.new_table_name [
  | none ↦ none
  | some name ↦ if name == r.table_name then none else some name
]

module _ {V : Type 0} where
  abbrev pub change_datatype : String → Option DataType → State V → State V
  change_datatype table_name none db = db
  change_datatype table_name (some datatype) db = update_table_datatype table_name datatype db

  abbrev pub change_status : String → Option TableStatus → State V → State V
  change_status table_name none db = db
  change_status table_name (some status) db = update_table_status table_name status db

  abbrev pub check_name : Option String → State V → Result (Unit {0})
  check_name none db = ok tt
  check_name (some name) db =
      if is_raw_table_name_taken name db then failed (name_taken name) else ok tt

  abbrev pub rename : String → Option String → State V → Result (State V)
  rename table_name none db = ok db
  rename table_name (some name) db = rename_raw_table table_name name db

module _ {U : Type 0} (units : Units U) where
  open units use {parse}

  -- `if spec.unit is not None: column_metadata.unit = units.Unit(spec.unit)`
  abbrev pub patched_unit : Option String → Option U → Result (Option U)
  patched_unit none old = ok old
  patched_unit (some text) old = elim (parse text) [
    | none ↦ failed bad_unit
    | some unit ↦ ok (some unit)
  ]

  abbrev pub patched : PatchColumnSpec → ColumnDescription U → Result (ColumnDescription U)
  patched spec column = patched_unit spec.unit column.unit >>= λ unit. ok (record column {
    ucd = or_old spec.ucd column.ucd;
    unit = unit;
    description = or_old spec.description column.description;
  })

module _ (meta : MetaStore) {V : Type 0} where
  abbrev pub change_description : String → Option String → State V → Result (State V)
  change_description table_name none db = ok db
  change_description table_name (some description) db =
      update_table_metadata meta table_name description db

module _ (meta : MetaStore) {U : Type 0} (units : Units U) where
  module _ {V : Type 0} where
    unfoldable pub patch_column :
        String
        → Dict String (ColumnDescription U)
        → String
        → PatchColumnSpec
        → State V
        → Result (State V)
    patch_column table_name columns column_name spec db = elim (lookup column_name columns) [
      | none ↦ failed (no_column column_name)
      | some column ↦ patched units spec column >>= λ changed.
          if is_change spec then update_column_metadata meta units table_name changed db else ok db
    ]

    unfoldable pub patch_columns :
        String
        → Dict String (ColumnDescription U)
        → Dict String PatchColumnSpec
        → State V
        → Result (State V)
    unfolding patch_column
    patch_columns table_name columns [] db = ok db
    patch_columns table_name columns ((column_name, spec) ∷ specs) db =
        patch_column table_name columns column_name spec db >>= λ changed.
        patch_columns table_name columns specs changed

    -- A failure in the transaction rolls back.
    unfoldable pub patch_table : PatchTableRequest → State V → Result (State V)
    unfolding patch_columns fetch_metadata_by_name is_raw_table_name_taken rename_raw_table
    patch_table r db = fetch_metadata_by_name units r.table_name db >>= λ table_metadata.
        check_name (new_name r) db >>= λ u.
        change_description meta r.table_name r.description db >>= λ described.
        patch_columns r.table_name (by_name table_metadata.column_descriptions) r.columns
          (change_status r.table_name r.status (change_datatype r.table_name r.datatype described))
        >>= λ changed. rename r.table_name (new_name r) changed
