-- ===== src/Tables/Created.antt =====
-- Creating a table, and reading its metadata back.
use mathlib.Core.Path.{ap₂}
use db_app.Base.{
  ℕ, suc, String, ◌≡◌, refl, sym, ap, ◌∙◌, Bool, true, false, not, ◌&&◌, ◌||◌, Bool-cases, inl, inr,
  Option, none, some, List, [], ◌∷◌, map, arith, nat_eq, string_eq, ◌==◌, keys, values, lookup,
  lookup-insert_self, insert, is_some-lookup, is_some, contains, any,
}
use db_app.Layer0.Records.{has_duplicates}
use db_app.Tables.{
  initiated, ok, MetaStore, Units, ColumnDescription, TableMeta, Item, RawTable, State,
}
use db_app.Tables.Registry.{
  field_of, is_key, has_keys, is_refused, create_raw, insert_item, set_description, set_if_given,
  update_columns, create_table, fetch_metadata_by_name,
}
use db_app.Tables.Described.{
  Holds, filled, shown, Fresh-columns, alter-done, update_columns-Holds, describe_columns-filled,
}

module _ {U : Type 0} where
  keys-fields :
      (cols : List (ColumnDescription U)) → keys (map field_of cols) ≡ map (λ c. c.name) cols
  keys-fields [] = refl
  keys-fields (c ∷ cols) = ap (λ names. c.name ∷ names) (keys-fields cols)

  -- a column before another of the primary key
  abbrev pub two_keys : List (ColumnDescription U) → Bool
  two_keys [] = false
  two_keys (c ∷ cols) = (c.is_primary_key && any (λ d. d.is_primary_key) cols) || two_keys cols

  is_key-field : (c : ColumnDescription U) → is_key (field_of c).1 ≡ c.is_primary_key
  is_key-field c = elim (Bool-cases c.is_primary_key) [
    | inl key ↦ rw key refl
    | inr no_key ↦ rw no_key refl
  ]

  any_key-fields :
      (cols : List (ColumnDescription U))
      → any is_key (values (map field_of cols)) ≡ any (λ d. d.is_primary_key) cols
  any_key-fields [] = refl
  any_key-fields (c ∷ cols) =
      ap₂ (λ first rest. first || rest) (is_key-field c) (any_key-fields cols)

  -- what `fetch_metadata_by_name` reads of a table that was created at `now` with the number `id`
  abbrev pub created_meta : TableMeta U → ℕ → ℕ → TableMeta U
  created_meta table_meta id now = record table_meta {
    column_descriptions = map shown table_meta.column_descriptions;
    status = initiated;
    modification_dt = some now;
    table_id = some id;
  }

  keys_of-fields :
      (cols : List (ColumnDescription U)) → has_keys (values (map field_of cols)) ≡ two_keys cols
  keys_of-fields [] = refl
  keys_of-fields (c ∷ cols) =
      ap₂ (λ first rest. first || rest)
        (ap₂ (λ key others. key && others) (is_key-field c) (any_key-fields cols))
        (keys_of-fields cols)

module _ {U : Type 0} (meta : MetaStore) where
  open meta use {is_type}

  -- Distinct columns of types that the database has, at most one of them the primary key.
  pub record IsPossible (table_meta : TableMeta U) : Type 0 where
    pub distinct : has_duplicates (map (λ c. c.name) table_meta.column_descriptions) ≡ false
    pub typed : any (λ c. not (is_type c.data_type)) table_meta.column_descriptions ≡ false
    pub one_key : two_keys table_meta.column_descriptions ≡ false

  types-fields :
      (cols : List (ColumnDescription U))
      → any (λ column. not (is_type column.data_type)) (values (map field_of cols))
        ≡ any (λ c. not (is_type c.data_type)) cols
  types-fields [] = refl
  types-fields (c ∷ cols) = ap (λ rest. not (is_type c.data_type) || rest) (types-fields cols)

module _ {U : Type 0} (meta : MetaStore) (table_meta : TableMeta U) where
  is_refused-fields :
      IsPossible meta table_meta
      → is_refused meta (map field_of table_meta.column_descriptions) ≡ false
  unfolding is_refused
  is_refused-fields possible =
      let cols = table_meta.column_descriptions in
      rw
        (
          keys-fields cols,
          possible.distinct,
          types-fields meta cols,
          possible.typed,
          keys_of-fields cols,
          possible.one_key,
        )
        refl

module _ {V U : Type 0} (meta : MetaStore) (units : Units U) where
  open meta use {set_table_lem}

  set_if_given-Holds :
      (t : String) (item : Item) (raw_table : RawTable V) (now : ℕ) (db : State V)
      (description : Option String)
      → Holds t item raw_table now db
      → raw_table.description ≡ none
      → (changed : State V) × (set_if_given meta t description db ≡ ok changed)
        × Holds t item (record raw_table { description = description }) now changed
  unfolding set_if_given set_description
  set_if_given-Holds t item raw_table now db none h e = (db, refl, rw (sym e) h)
  set_if_given-Holds t item raw_table now db (some text) h e = (
    record db { raw = insert t (record raw_table { description = some text }) db.raw },
    alter-done t
        (λ found. ok (record found { description = some (meta.set_table found.description text) }))
        raw_table (record raw_table { description = some text }) db h.in_rawdata
        (rw (set_table_lem raw_table.description text) refl),
    record {
      registered = h.registered;
      raised_at = h.raised_at;
      at_time = h.at_time;
      in_rawdata = lookup-insert_self t _ db.raw;
    },
  )

  abbrev new_item : TableMeta U → State V → Item
  new_item table_meta db = record {
    id = db.next_id;
    bib = table_meta.bibliography_id;
    datatype = table_meta.datatype;
    status = initiated;
    modification_dt = db.now;
  }

  abbrev new_raw : TableMeta U → RawTable V
  new_raw table_meta = record {
    columns = map field_of table_meta.column_descriptions;
    description = none;
    rows = [];
  }

  abbrev registered : TableMeta U → State V → State V
  registered table_meta db = record db {
    registry = insert table_meta.table_name (new_item table_meta db) db.registry;
    next_id = suc db.next_id;
  }

  abbrev made : TableMeta U → State V → State V
  made table_meta db = record (registered table_meta db) {
    raw = insert table_meta.table_name (new_raw table_meta) db.raw;
  }

  made-Holds :
      (table_meta : TableMeta U) (db : State V)
      → Holds table_meta.table_name
          (new_item table_meta db)
          (new_raw table_meta)
          db.now
          (made table_meta db)
  made-Holds table_meta db = record {
    registered = lookup-insert_self table_meta.table_name _ db.registry;
    raised_at = refl;
    at_time = refl;
    in_rawdata = lookup-insert_self table_meta.table_name _ db.raw;
  }

  insert_item-done :
      (table_meta : TableMeta U) (db : State V)
      → lookup table_meta.table_name db.registry ≡ none
      → any (λ bib. bib.id == table_meta.bibliography_id) (values db.bibs) ≡ true
      → insert_item table_meta db ≡ ok (registered table_meta db)
  unfolding insert_item
  insert_item-done table_meta db fresh source =
      let absent : contains (keys db.registry) table_meta.table_name ≡ false =
        sym (is_some-lookup table_meta.table_name db.registry) ∙ ap is_some fresh in
      rw (source, absent) refl

  create_raw-done :
      (table_meta : TableMeta U) (db : State V)
      → contains (keys db.raw) table_meta.table_name ≡ false
      → IsPossible meta table_meta
      → create_raw meta table_meta.table_name
          (map field_of table_meta.column_descriptions)
          (registered table_meta db)
        ≡ ok (made table_meta db)
  unfolding create_raw
  create_raw-done table_meta db fresh possible =
      rw (fresh, is_refused-fields meta table_meta possible) refl

  create_table-done :
      (table_meta : TableMeta U) (db described updated : State V)
      → lookup table_meta.table_name db.registry ≡ none
      → insert_item table_meta db ≡ ok (registered table_meta db)
      → create_raw meta table_meta.table_name
          (map field_of table_meta.column_descriptions)
          (registered table_meta db)
        ≡ ok (made table_meta db)
      → set_if_given meta table_meta.table_name table_meta.description (made table_meta db)
        ≡ ok described
      → update_columns meta units table_meta.table_name table_meta.column_descriptions described
        ≡ ok updated
      → create_table meta units table_meta db ≡ ok (db.next_id, true, updated)
  unfolding create_table
  create_table-done table_meta db described updated fresh inserted raw describes updates =
      ground (arith, fresh, inserted, raw, describes, updates)

  fetch-Holds :
      (table_meta : TableMeta U) (db : State V) (id now : ℕ)
      → Holds table_meta.table_name
          (record {
            id = id;
            bib = table_meta.bibliography_id;
            datatype = table_meta.datatype;
            status = initiated;
            modification_dt = now;
          })
          (record {
            columns = map (filled units) table_meta.column_descriptions;
            description = table_meta.description;
            rows = [];
          })
          now
          db
      → fetch_metadata_by_name units table_meta.table_name db ≡ ok (created_meta table_meta id now)
  unfolding fetch_metadata_by_name
  fetch-Holds table_meta db id now h = ground (
    arith,
    h.registered,
    h.in_rawdata,
    describe_columns-filled units table_meta.column_descriptions,
  )

  create_table_again :
      (table_meta : TableMeta U) (db : State V) (item : Item)
      → lookup table_meta.table_name db.registry ≡ some item
      → create_table meta units table_meta db ≡ ok (item.id, false, db)
  unfolding create_table
  create_table_again table_meta db item found = ground (arith, found)

  -- A table with a new name, an existing source and distinct columns, of types that the database has
  -- and with one primary key at most, is created under the next number. Its metadata is then read back as it was given, but for the mark of the primary key, and
  -- creating it again returns its number and changes nothing.
  pub create_table-fetch_metadata_by_name :
      (table_meta : TableMeta U) (db : State V)
      → lookup table_meta.table_name db.registry ≡ none
      → contains (keys db.raw) table_meta.table_name ≡ false
      → any (λ bib. bib.id == table_meta.bibliography_id) (values db.bibs) ≡ true
      → IsPossible meta table_meta
      → (created : State V) × (create_table meta units table_meta db
          ≡ ok (db.next_id, true, created))
        × (fetch_metadata_by_name units table_meta.table_name created
            ≡ ok (created_meta table_meta db.next_id db.now))
        × (create_table meta units table_meta created ≡ ok (db.next_id, false, created))
  unfolding create_table fetch_metadata_by_name
  create_table-fetch_metadata_by_name table_meta db fresh_name fresh_raw source possible =
      let (described, e, k) =
        set_if_given-Holds table_meta.table_name (new_item table_meta db) (new_raw table_meta)
          db.now (made table_meta db) table_meta.description (made-Holds table_meta db) refl in
      let (updated, e', l) =
        update_columns-Holds meta units table_meta.table_name (new_item table_meta db) _ db.now
          described [] table_meta.column_descriptions k refl
          (Fresh-columns units [] table_meta.column_descriptions possible.distinct) in
      (
        updated,
        create_table-done table_meta db described updated fresh_name
            (insert_item-done table_meta db fresh_name source)
            (create_raw-done table_meta db fresh_raw possible) e e',
        fetch-Holds table_meta updated db.next_id db.now l,
        create_table_again table_meta updated (new_item table_meta db) l.registered,
      )
