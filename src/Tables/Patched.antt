-- ===== src/Tables/Patched.antt =====
-- The metadata of a table whose columns are changed one by one.
use mathlib.Core.Option
use db_app.Base.{
  String, ◌≡◌, refl, ap, ◌∙◌, false, Option, some, List, map, arith, Dict, nat_eq, string_eq,
  lookup, lookup-insert_self, insert,
}
use db_app.Layer0.Records.{has_duplicates}
use db_app.Tables.{
  ok, HasKeys, MetaStore, Units, ColumnDescription, Item, State, get_table_id, update_items, dated,
  update_registry,
}
use db_app.Tables.Registry.{
  set_params, set_description, update_table_metadata, fetch_metadata_by_name, column_params,
  update_column_metadata,
}
use db_app.Tables.Described.{filled, shown, describe_columns-filled, alter-done, get_table_id-found}
use db_app.Tables.Kept.{
  find, names_of, written, change, lookup-filled, insert-filled, IsTable, Keeps, lookup-updated,
  Keeps-insert,
}

module _ {U : Type 0} (meta : MetaStore) (units : Units U) where
  open meta use {set_column, set_column_over}

  -- the column that is written in the place of `c`
  written_column :
      (new c : ColumnDescription U)
      → new.data_type ≡ c.data_type
      → HasKeys (column_params units c) (column_params units new)
      → record (filled units c).1 {
        params = some (set_column (some (column_params units c)) (column_params units new));
      }
        ≡ (filled units (written new c)).1
  written_column new c typed has_keys =
      rw (set_column_over (column_params units c) (column_params units new) has_keys, typed) refl

module _ {V U : Type 0} (meta : MetaStore) (units : Units U) where
  open meta use {set_table, set_table_lem}

  set_params-IsTable :
      (t : String) (cols : List (ColumnDescription U)) (description : Option String)
      (rows : Dict String (Dict String V)) (db : State V) (new c : ColumnDescription U)
      → lookup t db.raw
        ≡ some
            (record { columns = map (filled units) cols; description = description; rows = rows })
      → has_duplicates (names_of cols) ≡ false
      → find new.name cols ≡ some c
      → new.data_type ≡ c.data_type
      → HasKeys (column_params units c) (column_params units new)
      → set_params meta t new.name (column_params units new) db
        ≡ ok (record db {
          raw =
              insert t
                (record {
                  columns = map (filled units) (change new.name new cols);
                  description = description;
                  rows = rows;
                })
                db.raw;
        })
  unfolding set_params
  set_params-IsTable t cols description rows db new c h distinct found typed has_keys =
      alter-done t _
        (record { columns = map (filled units) cols; description = description; rows = rows })
        (record {
          columns = map (filled units) (change new.name new cols);
          description = description;
          rows = rows;
        })
        db h
        (ground (
          arith,
          lookup-filled units new.name cols ∙ ap (Option.map (λ k. (filled units k).1)) found,
          ap (λ column. insert new.name column (map (filled units) cols))
                (written_column meta units new c typed has_keys)
              ∙ insert-filled units new.name new c cols distinct found,
        ))

  pub update_column_metadata-IsTable :
      (t : String) (item : Item) (cols : List (ColumnDescription U)) (description : Option String)
      (rows : Dict String (Dict String V)) (db : State V) (new c : ColumnDescription U)
      → IsTable units t item cols description rows db
      → has_duplicates (names_of cols) ≡ false
      → find new.name cols ≡ some c
      → new.data_type ≡ c.data_type
      → HasKeys (column_params units c) (column_params units new)
      → (changed : State V) × (update_column_metadata meta units t new db ≡ ok changed)
        × Keeps t item.id db changed
        × IsTable units t (dated db.now item) (change new.name new cols) description rows changed
  unfolding update_column_metadata set_params update_registry
  update_column_metadata-IsTable t item cols description rows db new c h distinct found typed
        has_keys =
      (
        record db {
          registry = update_items (dated db.now) item.id db.registry;
          raw =
              insert t
                (record {
                  columns = map (filled units) (change new.name new cols);
                  description = description;
                  rows = rows;
                })
                db.raw;
        },
        ground (
          arith,
          set_params-IsTable t cols description rows db new c h.in_rawdata distinct found typed
              has_keys,
          get_table_id-found t item db h.registered,
        ),
        Keeps-insert t item.id _ _ db h.in_rawdata,
        record {
          registered = lookup-updated (dated db.now) t item db.registry h.registered;
          in_rawdata = lookup-insert_self t _ db.raw;
        },
      )

  -- Changes of the registry alone.
  pub update_registry-IsTable :
      (f : Item → Item) (t : String) (item : Item) (cols : List (ColumnDescription U))
      (description : Option String) (rows : Dict String (Dict String V)) (db : State V)
      → IsTable units t item cols description rows db
      → IsTable units t
          (dated db.now (f item))
          cols
          description
          rows
          (update_registry f (get_table_id t db).0 db)
  unfolding update_registry
  update_registry-IsTable f t item cols description rows db h =
      rw (get_table_id-found t item db h.registered) (record {
        registered = lookup-updated (λ i. dated db.now (f i)) t item db.registry h.registered;
        in_rawdata = h.in_rawdata;
      })

  pub update_table_metadata-IsTable :
      (t : String) (item : Item) (cols : List (ColumnDescription U)) (old : Option String)
      (rows : Dict String (Dict String V)) (db : State V) (text : String)
      → IsTable units t item cols old rows db
      → (changed : State V) × (update_table_metadata meta t text db ≡ ok changed)
        × Keeps t item.id db changed
        × IsTable units t (dated db.now item) cols (some text) rows changed
  unfolding update_table_metadata set_description update_registry
  update_table_metadata-IsTable t item cols old rows db text h = (
    record db {
      registry = update_items (dated db.now) item.id db.registry;
      raw =
          insert t
            (record { columns = map (filled units) cols; description = some text; rows = rows })
            db.raw;
    },
    ground (
      arith,
      alter-done t
          (λ found. ok (record found { description = some (set_table found.description text) }))
          (record { columns = map (filled units) cols; description = old; rows = rows })
          (record { columns = map (filled units) cols; description = some text; rows = rows }) db
          h.in_rawdata (rw (set_table_lem old text) refl),
      get_table_id-found t item db h.registered,
    ),
    Keeps-insert t item.id _ _ db h.in_rawdata,
    record {
      registered = lookup-updated (dated db.now) t item db.registry h.registered;
      in_rawdata = lookup-insert_self t _ db.raw;
    },
  )

module _ {V U : Type 0} (units : Units U) where
  pub fetch-IsTable :
      (t : String) (item : Item) (cols : List (ColumnDescription U)) (description : Option String)
      (rows : Dict String (Dict String V)) (db : State V)
      → IsTable units t item cols description rows db
      → fetch_metadata_by_name units t db
        ≡ ok (record {
          table_name = t;
          column_descriptions = map shown cols;
          bibliography_id = item.bib;
          datatype = item.datatype;
          status = item.status;
          modification_dt = some item.modification_dt;
          description = description;
          table_id = some item.id;
        })
  unfolding fetch_metadata_by_name
  fetch-IsTable t item cols description rows db h =
      ground (arith, h.registered, h.in_rawdata, describe_columns-filled units cols)
