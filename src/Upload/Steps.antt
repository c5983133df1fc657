-- ===== src/Upload/Steps.antt =====
-- The steps of a change of a table's metadata.

use db_app.Base.{
  Bool, ◌||◌, if◌then◌else◌, ℕ, String, ◌≡◌, refl, ap, subst, ◌∙◌, false, Option, none, some, List,
  [], ◌∷◌, map, arith, Dict, nat_eq, string_eq, is_some, is_some-lookup, or_else, keys, lookup,
  contains, Option-cases, inl, inr,
}
use db_app.Layer0.Records.{has_duplicates}
use db_app.Layer0.{DataType}
use db_app.Tables.{
  get_table_id, TableStatus, ok, MetaStore, Units, ColumnDescription, Item, State, dated,
}
use db_app.Tables.Registry.{update_table_datatype, update_table_status, is_raw_table_name_taken}
use db_app.Tables.Described.{shown, get_table_id-found}
use db_app.Tables.Kept.{rest_of, IsTable, Keeps, Keeps-refl, update_registry-Keeps}
use db_app.Tables.Patched.{update_registry-IsTable, update_table_metadata-IsTable}
use db_app.Tables.Others.{IsOnly, Others, Others-refl}
use db_app.Tables.Renamed.{rename_raw_table-IsTable}
use db_app.Upload.Manager.{
  PatchColumnSpec, or_old, by_name, change_datatype, change_status, check_name, rename,
  change_description,
}
use db_app.Upload.Changed.{same_now, latest, Leaves, Pending, lookup-by_name}

-- The datatype and the status, with the date of the last change.
abbrev pub updated_item : Option DataType → Option TableStatus → Item → Item
updated_item datatype status item = record item {
  datatype = or_else datatype item.datatype;
  status = or_else status item.status;
}

module _ {V : Type 0} where
  -- A name that no table has.
  pub record IsFree (name : String) (db : State V) : Type 0 where
    pub unregistered : contains (keys db.registry) name ≡ false
    pub unused : contains (keys db.raw) name ≡ false

  pub check_name-free :
      (name : Option String) (db : State V)
      → ((n : String) → name ≡ some n → IsFree n db)
      → check_name name db ≡ ok tt
  unfolding is_raw_table_name_taken get_table_id
  check_name-free none db free = refl
  check_name-free (some n) db free = elim (Option-cases (lookup n db.registry)) [
    | inl missing ↦ ground (arith, missing)
    | inr (item, found) ↦ absurd (
        ground (arith, is_some-lookup n db.registry ∙ (free n refl).unregistered, ap is_some found))
  ]

module _ {U : Type 0} where
  pub Pending-all :
      (cols : List (ColumnDescription U)) (specs : Dict String PatchColumnSpec)
      → Pending (by_name (map shown cols)) cols specs
  Pending-all cols [] = tt
  Pending-all cols (e ∷ specs) = (lookup-by_name e.0 cols, Pending-all cols specs)

module _ {V U : Type 0} (meta : MetaStore) (units : Units U) where
  pub description-Leaves :
      (t : String) (item : Item) (cols : List (ColumnDescription U)) (old new : Option String)
      (rows : Dict String (Dict String V)) (db : State V)
      → IsTable units t item cols old rows db
      → Leaves units t item cols
          (or_old new old)
          rows
          db
          item.modification_dt
          (is_some new)
          (change_description meta t new db)
  description-Leaves t item cols old none rows db h = (db, refl, Keeps-refl t item.id db, h)
  description-Leaves t item cols old (some text) rows db h =
      update_table_metadata-IsTable meta units t item cols old rows db text h

  pub datatype-Leaves :
      (t : String) (item : Item) (cols : List (ColumnDescription U)) (description : Option String)
      (rows : Dict String (Dict String V)) (db : State V) (time : ℕ) (datatype : Option DataType)
      → IsTable units t (dated time item) cols description rows db
      → Keeps t item.id db (change_datatype t datatype db)
        × IsTable units t
            (dated (if is_some datatype then db.now else time) (updated_item datatype none item))
            cols
            description
            rows
            (change_datatype t datatype db)
  unfolding update_table_datatype
  datatype-Leaves t item cols description rows db time none h = (Keeps-refl t item.id db, h)
  datatype-Leaves t item cols description rows db time (some datatype) h = (
    rw (get_table_id-found t (dated time item) db h.registered)
        (update_registry-Keeps t item.id (λ i. record i { datatype = datatype }) db (λ i. refl)),
    update_registry-IsTable meta units (λ i. record i { datatype = datatype }) t (dated time item)
        cols description rows db h,
  )

  pub status-Leaves :
      (t : String) (item : Item) (cols : List (ColumnDescription U)) (description : Option String)
      (rows : Dict String (Dict String V)) (db : State V) (time : ℕ) (status : Option TableStatus)
      → IsTable units t (dated time item) cols description rows db
      → Keeps t item.id db (change_status t status db)
        × IsTable units t
            (dated (if is_some status then db.now else time) (updated_item none status item))
            cols
            description
            rows
            (change_status t status db)
  unfolding update_table_status
  status-Leaves t item cols description rows db time none h = (Keeps-refl t item.id db, h)
  status-Leaves t item cols description rows db time (some status) h = (
    rw (get_table_id-found t (dated time item) db h.registered)
        (update_registry-Keeps t item.id (λ i. record i { status = status }) db (λ i. refl)),
    update_registry-IsTable meta units (λ i. record i { status = status }) t (dated time item) cols
        description rows db h,
  )

module _ {V U : Type 0} (units : Units U) where
  pub rename-Others :
      (t : String) (name : Option String) (item : Item) (cols : List (ColumnDescription U))
      (description : Option String) (rows : Dict String (Dict String V)) (db : State V) (time : ℕ)
      → IsTable units t (dated time item) cols description rows db
      → has_duplicates (keys db.registry) ≡ false
      → IsOnly t item.id db.registry
      → ((n : String) → name ≡ some n → IsFree n db)
      → (changed : State V) × (rename t name db ≡ ok changed)
        × Others t (or_else name t) db changed
        × IsTable units
            (or_else name t)
            (dated (if is_some name then db.now else time) item)
            cols
            description
            rows
            changed
  rename-Others t none item cols description rows db time h distinct only free =
      (db, refl, Others-refl t db, h)
  rename-Others t (some n) item cols description rows db time h distinct only free =
      rename_raw_table-IsTable t n units (dated time item) cols description rows db h distinct only
        (free n refl).unregistered (free n refl).unused

  -- Two steps, of which the second starts with the date that the first leaves.
  pub IsTable-latest :
      (t t' : String) (item : Item) (cols : List (ColumnDescription U))
      (description : Option String) (rows : Dict String (Dict String V)) (db middle last : State V)
      (time : ℕ) (a b : Bool)
      → rest_of middle ≡ rest_of db
      → IsTable units t'
          (dated (if b then middle.now else (if a then db.now else time)) item)
          cols
          description
          rows
          last
      → IsTable units t' (dated (if a || b then db.now else time) item) cols description rows last
  IsTable-latest t t' item cols description rows db middle last time a b same =
      subst (λ (at : ℕ). IsTable units t' (dated at item) cols description rows last)
        (latest db.now middle.now time a b (same_now db middle same))

module _ {V : Type 0} where
  pub IsFree-Keeps :
      (t : String) (id : ℕ) (name : String) (db changed : State V)
      → Keeps t id db changed
      → IsFree name db
      → IsFree name changed
  IsFree-Keeps t id name db changed h free = record {
    unregistered = ap (λ names. contains names name) h.same_names ∙ free.unregistered;
    unused = ap (λ names. contains names name) h.same_raw ∙ free.unused;
  }
