-- ===== src/Tables/Described.antt =====
-- How the metadata of columns is written, one column after the other, and read back.
use mathlib.Core.Option
use mathlib.Core.List.{map-append}
use db_app.Base.{
  ℕ, String, ◌≡◌, refl, sym, ap, ◌∙◌, true, false, Option, none, some, List, [], ◌∷◌, ◌++◌, map,
  append_assoc, arith, Dict, nat_eq, string_eq, ◌==◌, ==_refl, ==_comm, Eq, keys, lookup,
  lookup-insert_self, insert, contains, if◌then◌else◌, append-nil,
}
use db_app.Layer0.Records.{has_duplicates, has_duplicates-append}
use db_app.Tables.{
  Result, ok, MetaStore, Units, ColumnDescription, Item, Column, RawTable, State, get_table_id,
  update_items, dated, update_registry, alter,
}
use db_app.Tables.Registry.{
  field_of, set_params, column_params, update_column_metadata, update_columns, unit_of,
  describe_columns,
}

module _ {K V : Type 0} ⦃e : Eq K⦄ where
  lookup-append_new :
      (k : K) (v : V) (pre rest : Dict K V)
      → contains (keys pre) k ≡ false
      → lookup k (pre ++ (k, v) ∷ rest) ≡ some v
  lookup-append_new k v [] rest h = rw ==_refl
  lookup-append_new k v ((j, w) ∷ pre) rest h =
      ground (arith, ==_comm k j, lookup-append_new k v pre rest)

  insert-append_new :
      (k : K) (v w : V) (pre rest : Dict K V)
      → contains (keys pre) k ≡ false
      → insert k w (pre ++ (k, v) ∷ rest) ≡ pre ++ (k, w) ∷ rest
  insert-append_new k v w [] rest h = rw ==_refl
  insert-append_new k v w ((j, u) ∷ pre) rest h =
      ground (arith, ==_comm k j, insert-append_new k v w pre rest)

pub lookup-update_items :
    (f : Item → Item) (id : ℕ) (name : String) (registry : Dict String Item)
    → lookup name (update_items f id registry)
      ≡ Option.map (λ item. if item.id == id then f item else item) (lookup name registry)
unfolding update_items
lookup-update_items f id name [] = refl
lookup-update_items f id name ((other, item) ∷ registry) =
    ground (arith, lookup-update_items f id name registry)

module _ {U : Type 0} where
  -- what is read back, which does not say whether a column is the primary key
  abbrev pub shown : ColumnDescription U → ColumnDescription U
  shown c = record c { is_primary_key = false }

module _ {U : Type 0} (units : Units U) where
  open units use {parse-to_string}

  -- a column after its metadata was written for the first time
  abbrev pub filled : ColumnDescription U → String × Column
  filled c = ((field_of c).0, record (field_of c).1 { params = some (column_params units c) })

  abbrev pub Fresh : Dict String Column → List (ColumnDescription U) → Type 0
  Fresh pre [] = Unit
  Fresh pre (c ∷ cols) = (contains (keys pre) c.name ≡ false) × Fresh (pre ++ filled c ∷ []) cols

  keys-filled :
      (pre : Dict String Column) (c : ColumnDescription U) (names : List String)
      → keys (pre ++ filled c ∷ []) ++ names ≡ keys pre ++ c.name ∷ names
  keys-filled pre c names =
      ap (λ ks. ks ++ names) (map-append (λ (e : String × Column). e.0) pre (filled c ∷ []))
      ∙ append_assoc (keys pre) (c.name ∷ []) names

  pub Fresh-columns :
      (pre : Dict String Column) (cols : List (ColumnDescription U))
      → has_duplicates (keys pre ++ map (λ c. c.name) cols) ≡ false
      → Fresh pre cols
  Fresh-columns pre [] h = tt
  Fresh-columns pre (c ∷ cols) h = (
    has_duplicates-append (keys pre) c.name (map (λ c. c.name) cols) h,
    Fresh-columns (pre ++ filled c ∷ []) cols
        (ap has_duplicates (keys-filled pre c (map (λ c. c.name) cols)) ∙ h),
  )

  pub unit_of-some : (unit : Option U) → unit_of units (Option.map units.to_string unit) ≡ ok unit
  unit_of-some none = refl
  unit_of-some (some unit) = ground (arith, parse-to_string unit)

  pub describe_columns-filled :
      (cols : List (ColumnDescription U))
      → describe_columns units (map filled cols) ≡ ok (map shown cols)
  unfolding describe_columns
  describe_columns-filled [] = refl
  describe_columns-filled (c ∷ cols) = rw (unit_of-some c.unit, describe_columns-filled cols) refl

module _ {V : Type 0} where
  -- The table `t` is registered as `item`, which was changed in this transaction, with `raw_table`.
  pub record Holds (t : String) (item : Item) (raw_table : RawTable V) (now : ℕ) (db : State V)
      : Type 0 where
    pub registered : lookup t db.registry ≡ some item
    pub raised_at : item.modification_dt ≡ now
    pub at_time : db.now ≡ now
    pub in_rawdata : lookup t db.raw ≡ some raw_table

  pub alter-done :
      (t : String) (change : RawTable V → Result (RawTable V)) (raw_table changed : RawTable V)
      (db : State V)
      → lookup t db.raw ≡ some raw_table
      → change raw_table ≡ ok changed
      → alter t change db ≡ ok (record db { raw = insert t changed db.raw })
  unfolding alter
  alter-done t change raw_table changed db found done = ground (arith, found, done)

  pub get_table_id-found :
      (t : String) (item : Item) (db : State V)
      → lookup t db.registry ≡ some item
      → get_table_id t db ≡ (item.id, true)
  unfolding get_table_id
  get_table_id-found t item db found = ground (arith, found)

module _ {V U : Type 0} (meta : MetaStore) (units : Units U) where
  open meta use {set_column_new}

  set_params-done :
      (t : String) (raw_table : RawTable V) (db : State V) (c : ColumnDescription U)
      (pre rest : Dict String Column)
      → lookup t db.raw ≡ some raw_table
      → raw_table.columns ≡ pre ++ field_of c ∷ rest
      → contains (keys pre) c.name ≡ false
      → set_params meta t c.name (column_params units c) db
        ≡ ok (record db {
          raw = insert t (record raw_table { columns = pre ++ filled units c ∷ rest }) db.raw;
        })
  unfolding set_params
  set_params-done t raw_table db c pre rest found columns new =
      alter-done t _ raw_table (record raw_table { columns = pre ++ filled units c ∷ rest }) db
        found
        (ground (
          arith,
          ap (lookup c.name) columns ∙ lookup-append_new c.name (field_of c).1 pre rest new,
          ap (insert c.name (filled units c).1) columns
              ∙ insert-append_new c.name (field_of c).1 (filled units c).1 pre rest new,
          set_column_new (column_params units c),
        ))

  set_params-Holds :
      (t : String) (item : Item) (raw_table : RawTable V) (now : ℕ) (db : State V)
      (c : ColumnDescription U) (pre rest : Dict String Column)
      → Holds t item raw_table now db
      → raw_table.columns ≡ pre ++ field_of c ∷ rest
      → contains (keys pre) c.name ≡ false
      → (changed : State V) × (update_column_metadata meta units t c db ≡ ok changed)
        × Holds t item (record raw_table { columns = pre ++ filled units c ∷ rest }) now changed
  unfolding update_column_metadata set_params alter get_table_id update_registry
  set_params-Holds t item raw_table now db c pre rest h columns new = (
    record db {
      registry = update_items (dated db.now) item.id db.registry;
      raw = insert t (record raw_table { columns = pre ++ filled units c ∷ rest }) db.raw;
    },
    ground (
      arith,
      set_params-done t raw_table db c pre rest h.in_rawdata columns new,
      get_table_id-found t item db h.registered,
    ),
    record {
      registered = ground (
        arith,
        lookup-update_items (dated db.now) item.id t db.registry,
        h.registered,
        h.raised_at,
        h.at_time,
      );
      raised_at = h.raised_at;
      at_time = h.at_time;
      in_rawdata = lookup-insert_self t _ db.raw;
    },
  )

  pub update_columns-Holds :
      (t : String) (item : Item) (raw_table : RawTable V) (now : ℕ) (db : State V)
      (pre : Dict String Column) (cols : List (ColumnDescription U))
      → Holds t item raw_table now db
      → raw_table.columns ≡ pre ++ map field_of cols
      → Fresh units pre cols
      → (changed : State V) × (update_columns meta units t cols db ≡ ok changed)
        × Holds t item (record raw_table { columns = pre ++ map (filled units) cols }) now changed
  unfolding update_columns
  update_columns-Holds t item raw_table now db pre [] h columns fresh =
      (db, refl, rw (append-nil pre, sym (append-nil pre), sym columns) h)
  update_columns-Holds t item raw_table now db pre (c ∷ cols) h columns fresh =
      let (changed, e, k) =
        set_params-Holds t item raw_table now db c pre (map field_of cols) h columns fresh.0 in
      let (final, e', l) =
        update_columns-Holds t item
          (record raw_table { columns = pre ++ filled units c ∷ map field_of cols }) now changed
          (pre ++ filled units c ∷ []) cols k
          (sym (append_assoc pre (filled units c ∷ []) (map field_of cols))) fresh.1 in
      (final, rw e e', rw (append_assoc pre (filled units c ∷ []) (map (filled units) cols)) at l)
