-- ===== src/Upload/Added.antt =====
-- What an upload of rows stores, and the same upload once more.
use mathlib.Core.Option
use db_app.Base.{
  ℕ, String, ◌≡◌, refl, sym, ap, ◌∙◌, true, false, some, List, [], ◌∷◌, map, arith, Dict, nat_eq,
  string_eq, keys, lookup, lookup-insert_self, insert, contains, foldl, All, All-both,
  All-of_contains,
}
use db_app.Layer0.{Db}
use db_app.Layer0.Records.{done, register_record, register_records}
use db_app.Tables.{ok, Item, RawTable, State}
use db_app.Tables.Described.{alter-done}
use db_app.Tables.Kept.{ids}
use db_app.Upload.Rows.{Frames, frame_of, insert_row, stored, has_misfit, insert_raw_data, add_data}
use db_app.Upload.Again.{
  contains-foldl, insert_row_again, insert_same, IsRegistered, IsRegistered-all, register_again,
}

lookup-ids :
    (name : String) (registry : Dict String Item)
    → lookup name (ids registry) ≡ Option.map (λ item. item.id) (lookup name registry)
lookup-ids name [] = refl
lookup-ids name ((other, item) ∷ registry) = ground (arith, lookup-ids name registry)

module _ {V : Type 0} (frames : Frames V) where
  -- the rows as they are stored
  abbrev pub stored_rows : List (String × Dict String V) → List (String × Dict String V)
  stored_rows = map (λ r. (r.0, stored frames r.1))

  abbrev pub with_rows : List (String × Dict String V) → RawTable V → RawTable V
  with_rows rows raw_table = record raw_table {
    rows = foldl insert_row raw_table.rows (stored_rows rows);
  }

  abbrev pub after_insert : String → RawTable V → List (String × Dict String V) → State V → State V
  after_insert t raw_table rows tables = record tables {
    raw = insert t (with_rows rows raw_table) tables.raw;
  }

  insert_raw_data-done :
      (t : String) (rows : List (String × Dict String V)) (raw_table : RawTable V)
      (tables : State V)
      → lookup t tables.raw ≡ some raw_table
      → has_misfit frames raw_table.columns rows ≡ false
      → insert_raw_data frames t rows tables ≡ ok (after_insert t raw_table rows tables)
  unfolding insert_raw_data
  insert_raw_data-done t [] raw_table tables found fits =
      ap (λ raw. ok (record tables { raw = raw })) (sym (insert_same t raw_table tables.raw found))
  insert_raw_data-done t (row ∷ rows) raw_table tables found fits =
      alter-done t _ raw_table (with_rows (row ∷ rows) raw_table) tables found (rw fits refl)

  insert_raw_data_again :
      (t : String) (rows : List (String × Dict String V)) (raw_table : RawTable V)
      (tables : State V)
      → lookup t tables.raw ≡ some raw_table
      → has_misfit frames raw_table.columns rows ≡ false
      → insert_raw_data frames t rows (after_insert t raw_table rows tables)
        ≡ ok (after_insert t raw_table rows tables)
  insert_raw_data_again t rows raw_table tables found fits =
      insert_raw_data-done t rows (with_rows rows raw_table) (after_insert t raw_table rows tables)
        (lookup-insert_self t (with_rows rows raw_table) tables.raw) fits
      ∙ ap
          (λ stored_again. ok (record tables {
            raw =
                insert t (record raw_table { rows = stored_again })
                  (insert t (with_rows rows raw_table) tables.raw);
          }))
          (insert_row_again raw_table.rows (stored_rows rows))
      ∙ ap (λ raw. ok (record tables { raw = raw }))
          (insert_same t (with_rows rows raw_table) (insert t (with_rows rows raw_table) tables.raw)
            (lookup-insert_self t (with_rows rows raw_table) tables.raw))

  keys-stored_rows : (rows : List (String × Dict String V)) → keys (stored_rows rows) ≡ keys rows
  keys-stored_rows [] = refl
  keys-stored_rows (row ∷ rows) = ap (λ names. row.0 ∷ names) (keys-stored_rows rows)

  has_ids :
      (rows : List (String × Dict String V)) (raw_table : RawTable V)
      → All (λ id. contains (keys (with_rows rows raw_table).rows) id ≡ true) (keys rows)
  has_ids rows raw_table = All-of_contains _ (keys rows) λ id there.
      contains-foldl raw_table.rows (stored_rows rows) id
      ∙ ground (arith, ap (λ names. contains names id) (keys-stored_rows rows) ∙ there)

abbrev pub after_register : ℕ → List String → Db → Db
after_register table_id record_ids db = record db {
  records = foldl (register_record table_id) db.records record_ids;
}

register_records-done :
    (registry : Dict String ℕ) (t : String) (table_id : ℕ) (record_id : String)
    (record_ids : List String) (db : Db)
    → lookup t registry ≡ some table_id
    → register_records registry t (record_id ∷ record_ids) db
      ≡ done (after_register table_id (record_id ∷ record_ids) db)
unfolding register_records
register_records-done registry t table_id record_id record_ids db found =
    rw (found, register_records) refl

module _ {V : Type 0} (frames : Frames V) where
  add_data-runs :
      (t : String) (records : List (Dict String V)) (tables tables' : State V) (db db' : Db)
      (rows : List (String × Dict String V))
      → frame_of frames t records ≡ some rows
      → insert_raw_data frames t rows tables ≡ ok tables'
      → register_records (ids tables.registry) t (keys rows) db ≡ done db'
      → add_data frames t records (tables, db) ≡ ((tables', db'), true)
  unfolding add_data
  add_data-runs t records tables tables' db db' rows framed inserted registered =
      ground (arith, framed, inserted, registered)

  -- An upload to a registered table succeeds, if its values are of JSON, so that every row has an id,
  -- its frame has a row, and every cell fits a column of the table: the table then has a row with the
  -- id of each row of the frame, and each of these records belongs to the table. The same upload once
  -- more succeeds too and changes nothing.
  pub add_data_again :
      (t : String) (records : List (Dict String V)) (tables : State V) (db : Db) (item : Item)
      (raw_table : RawTable V) (row : String × Dict String V) (rows : List (String × Dict String V))
      → lookup t tables.registry ≡ some item
      → lookup t tables.raw ≡ some raw_table
      → frame_of frames t records ≡ some (row ∷ rows)
      → has_misfit frames raw_table.columns (row ∷ rows) ≡ false
      → (tables' : State V) × (db' : Db) × (raw_table' : RawTable V) × (add_data frames t records
            (tables, db)
          ≡ ((tables', db'), true))
        × (lookup t tables'.raw ≡ some raw_table')
        × All
            (λ id.
              (contains (keys raw_table'.rows) id ≡ true) × IsRegistered item.id db'.records id)
            (keys (row ∷ rows))
        × (add_data frames t records (tables', db') ≡ ((tables', db'), true))
  unfolding add_data
  add_data_again t records tables db item raw_table row rows registered raw framed fits = (
    after_insert frames t raw_table (row ∷ rows) tables,
    after_register item.id (keys (row ∷ rows)) db,
    with_rows frames (row ∷ rows) raw_table,
    add_data-runs t records tables _ db _ (row ∷ rows) framed
        (insert_raw_data-done frames t (row ∷ rows) raw_table tables raw fits)
        (register_records-done (ids tables.registry) t item.id row.0 (keys rows) db
          (lookup-ids t tables.registry ∙ ap (Option.map (λ i. i.id)) registered)),
    lookup-insert_self t _ tables.raw,
    All-both _ _ (keys (row ∷ rows)) (has_ids frames (row ∷ rows) raw_table)
        (IsRegistered-all item.id db.records (keys (row ∷ rows))),
    add_data-runs t records (after_insert frames t raw_table (row ∷ rows) tables) _
        (after_register item.id (keys (row ∷ rows)) db) _ (row ∷ rows) framed
        (insert_raw_data_again frames t (row ∷ rows) raw_table tables raw fits)
        (register_records-done (ids tables.registry) t item.id row.0 (keys rows)
            (after_register item.id (keys (row ∷ rows)) db)
            (lookup-ids t tables.registry ∙ ap (Option.map (λ i. i.id)) registered)
          ∙ ap (λ rs. done (record db { records = rs }))
              (register_again item.id db.records (keys (row ∷ rows)))),
  )
