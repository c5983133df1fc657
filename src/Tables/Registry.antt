-- ===== src/Tables/Registry.antt =====
-- The operations of `Layer0TableRepository` on the registry and on metadata.
use mathlib.Core.Option
use db_app.Base.{
  ℕ, suc, String, Bool, true, false, not, ◌&&◌, ◌||◌, Option, none, some, List, [], ◌∷◌, map, Dict,
  nat_eq, string_eq, ◌==◌, keys, values, lookup, insert, contains, any, if◌then◌else◌,
}
use db_app.Layer0.{DataType}
use db_app.Layer0.Records.{has_duplicates}
use db_app.Tables.{
  TableStatus, initiated, rejected, no_row, bad_unit, missing_key, not_registered, Result, failed,
  ok, ◌>>=◌, ColumnParams, MetaStore, Units, ColumnDescription, TableMeta, Item, Column, State,
  get_table_id, update_registry, alter,
}

module _ {U : Type 0} where
  -- the fields of `build_create_table_query`
  abbrev pub field_of : ColumnDescription U → String × Column
  field_of column_descr = (
    column_descr.name,
    record {
      data_type = column_descr.data_type;
      constraint = if column_descr.is_primary_key then "PRIMARY KEY" else "";
      params = none;
    },
  )

abbrev pub is_key : Column → Bool
is_key column = column.constraint == "PRIMARY KEY"

-- more than one primary key
abbrev pub has_keys : List Column → Bool
has_keys [] = false
has_keys (column ∷ columns) = (is_key column && any is_key columns) || has_keys columns

module _ (meta : MetaStore) where
  open meta use {is_type}

  -- what `CREATE TABLE` does not take: a name twice, an unknown type, or two primary keys
  unfoldable pub is_refused : List (String × Column) → Bool
  is_refused fields =
      has_duplicates (keys fields)
      || (any (λ column. not (is_type column.data_type)) (values fields)
          || has_keys (values fields))

module _ (meta : MetaStore) {V : Type 0} where
  -- `CREATE TABLE`
  unfoldable pub create_raw : String → List (String × Column) → State V → Result (State V)
  unfolding is_refused
  create_raw name fields db =
      if contains (keys db.raw) name
      then failed rejected
      else if is_refused meta fields
      then failed rejected
      else ok (record db {
        raw = insert name (record { columns = fields; description = none; rows = [] }) db.raw;
      })

module _ {V U : Type 0} where
  -- `INSERT_TABLE_REGISTRY_ITEM`: the source is a foreign key, and the name is unique.
  unfoldable pub insert_item : TableMeta U → State V → Result (State V)
  insert_item table_meta db =
      if any (λ bib. bib.id == table_meta.bibliography_id) (values db.bibs)
      then (if contains (keys db.registry) table_meta.table_name
          then failed rejected
          else ok (record db {
            registry =
                insert table_meta.table_name
                  (record {
                    id = db.next_id;
                    bib = table_meta.bibliography_id;
                    datatype = table_meta.datatype;
                    status = initiated;
                    modification_dt = db.now;
                  })
                  db.registry;
            next_id = suc db.next_id;
          }))
      else failed rejected

module _ {U : Type 0} (units : Units U) where
  open units use {to_string, parse}

  abbrev pub column_params : ColumnDescription U → ColumnParams
  column_params column_description = record {
    description = column_description.description;
    data_type = column_description.data_type;
    unit = Option.map to_string column_description.unit;
    ucd = column_description.ucd;
  }

  -- `unit = u.Unit(metadata["unit"])`, if there is one
  abbrev pub unit_of : Option String → Result (Option U)
  unit_of none = ok none
  unit_of (some text) = elim (parse text) [ none ↦ failed bad_unit | some unit ↦ ok (some unit) ]

  -- a column without comment has an object with a null description, and no data type
  unfoldable pub describe_column : String → Column → Result (ColumnDescription U)
  describe_column column_name column = elim column.params [
    | none ↦ failed (missing_key "data_type")
    | some params ↦ unit_of params.unit >>= λ unit. ok (record {
      name = column_name;
      data_type = params.data_type;
      is_primary_key = false;
      unit = unit;
      description = params.description;
      ucd = params.ucd;
    })
  ]

  unfoldable pub describe_columns : Dict String Column → Result (List (ColumnDescription U))
  unfolding describe_column
  describe_columns [] = ok []
  describe_columns ((column_name, column) ∷ columns) =
      describe_column column_name column >>= λ first.
      describe_columns columns >>= λ rest. ok (first ∷ rest)

module _ {V U : Type 0} (units : Units U) where
  -- The columns of a table that is not in `rawdata` are none; its own comment is asked for then.
  unfoldable pub fetch_metadata_by_name : String → State V → Result (TableMeta U)
  unfolding describe_columns
  fetch_metadata_by_name table_name db = elim (lookup table_name db.registry) [
    | none ↦ failed no_row
    | some item ↦ elim (lookup table_name db.raw) [
      | none ↦ failed no_row
      | some raw_table ↦ describe_columns units raw_table.columns >>= λ descriptions. ok (record {
        table_name = table_name;
        column_descriptions = descriptions;
        bibliography_id = item.bib;
        datatype = item.datatype;
        status = item.status;
        modification_dt = some item.modification_dt;
        description = raw_table.description;
        table_id = some item.id;
      })
    ]
  ]

module _ (meta : MetaStore) {V : Type 0} where
  open meta use {set_column, set_table}

  unfoldable pub set_description : String → String → State V → Result (State V)
  unfolding alter
  set_description table_name description = alter table_name λ raw_table.
      ok (record raw_table { description = some (set_table raw_table.description description) })

  unfoldable pub set_params : String → String → ColumnParams → State V → Result (State V)
  unfolding alter
  set_params table_name column_name params = alter table_name λ raw_table.
      elim (lookup column_name raw_table.columns) [
        | none ↦ failed rejected
        | some column ↦ ok (record raw_table {
          columns =
              insert column_name (record column { params = some (set_column column.params params) })
                raw_table.columns;
        })
      ]

  unfoldable pub update_table_metadata : String → String → State V → Result (State V)
  unfolding set_description get_table_id update_registry
  update_table_metadata table_name description db =
      set_description table_name description db >>= λ changed.
      ok (update_registry (λ item. item) (get_table_id table_name db).0 changed)

  unfoldable pub set_if_given : String → Option String → State V → Result (State V)
  unfolding set_description
  set_if_given table_name none db = ok db
  set_if_given table_name (some description) db = set_description table_name description db

  module _ {U : Type 0} (units : Units U) where
    unfoldable pub update_column_metadata :
        String → ColumnDescription U → State V → Result (State V)
    unfolding set_params get_table_id update_registry
    update_column_metadata table_name column_description db =
        set_params table_name column_description.name (column_params units column_description) db
        >>= λ changed. ok (update_registry (λ item. item) (get_table_id table_name db).0 changed)

    unfoldable pub update_columns : String → List (ColumnDescription U) → State V → Result (State V)
    unfolding update_column_metadata
    update_columns table_name [] db = ok db
    update_columns table_name (column_descr ∷ rest) db =
        update_column_metadata table_name column_descr db >>= λ changed.
        update_columns table_name rest changed

    -- the number, whether the table was created, and the tables; a failure rolls back
    unfoldable pub create_table : TableMeta U → State V → Result (ℕ × Bool × State V)
    unfolding insert_item create_raw set_if_given update_columns
    create_table table_meta db = elim (lookup table_meta.table_name db.registry) [
      | some item ↦ ok (item.id, false, db)
      | none ↦ insert_item table_meta db >>= λ registered.
          create_raw meta table_meta.table_name (map field_of table_meta.column_descriptions)
            registered
          >>= λ created.
              set_if_given table_meta.table_name table_meta.description created >>= λ described.
              update_columns table_meta.table_name table_meta.column_descriptions described
              >>= λ updated. ok (db.next_id, true, updated)
    ]

-- `ALTER TABLE … RENAME`: the comments and rows stay with the table
unfoldable pub rename_key : {A : Type 0} → String → String → Dict String A → Dict String A
rename_key old new [] = []
rename_key old new ((name, a) ∷ rest) =
    (if name == old then new else name, a) ∷ rename_key old new rest

-- `UPDATE layer0.tables SET table_name, modification_dt WHERE id`
unfoldable pub rename_items : ℕ → String → ℕ → Dict String Item → Dict String Item
rename_items now new table_id [] = []
rename_items now new table_id ((name, item) ∷ registry) =
    (if item.id == table_id then (new, record item { modification_dt = now }) else (name, item))
    ∷ rename_items now new table_id registry

module _ {V : Type 0} where
  unfoldable pub update_table_datatype : String → DataType → State V → State V
  unfolding get_table_id update_registry
  update_table_datatype table_name datatype db =
      update_registry (λ item. record item { datatype = datatype }) (get_table_id table_name db).0
        db

  unfoldable pub update_table_status : String → TableStatus → State V → State V
  unfolding get_table_id update_registry
  update_table_status table_name status db =
      update_registry (λ item. record item { status = status }) (get_table_id table_name db).0 db

  unfoldable pub is_raw_table_name_taken : String → State V → Bool
  unfolding get_table_id
  is_raw_table_name_taken table_name db = (get_table_id table_name db).1

  unfoldable pub rename_raw_table : String → String → State V → Result (State V)
  unfolding rename_key rename_items
  rename_raw_table old new db = elim (lookup old db.registry) [
    | none ↦ failed (not_registered old)
    | some item ↦
        if contains (keys db.raw) old
        then (if contains (keys db.raw) new
            then failed rejected
            else if has_duplicates (keys (rename_items db.now new item.id db.registry))
            then failed rejected
            else ok (record db {
              raw = rename_key old new db.raw;
              registry = rename_items db.now new item.id db.registry;
            }))
        else failed rejected
  ]
