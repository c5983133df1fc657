-- ===== src/Tables.antt =====
-- The uploaded tables (app/data/repositories/layer0/tables.py, app/data/template.py,
-- app/data/model/table.py): their registry `layer0.tables`, by name, and the tables of `rawdata` with
-- their columns. Metadata is kept in the comments of tables and columns; the functions of the
-- database that write it and the units of astropy are interfaces. `V` are the values of cells.
pub mod Registry
pub mod Described
pub mod Created
pub mod Kept
pub mod Patched
pub mod Others
pub mod Renamed
pub mod Fetch
pub mod Filtered
pub mod Triage
pub mod Statuses
use mathlib.Core.Option
use db_app.Base.{
  ℕ, zero, suc, String, ◌≡◌, Bool, true, false, not, ◌||◌, Option, none, some, List, [], ◌∷◌, ◌++◌,
  map, Dict, nat_eq, string_eq, ◌==◌, is_some, keys, values, lookup, insert, All, contains, any,
  foldl, if◌then◌else◌,
}
use db_app.Layer0.{DataType}
use db_app.Layer0.Records.{has_duplicates}

abbrev pub internal_id_column : String
internal_id_column = "hyperleda_internal_id"

pub data TableStatus : Type 0 where
  initiated archived : TableStatus

-- What a call raises: an error of the database, a row that is not there, a missing key of a
-- dictionary, or an error of the rules, whose text is not modelled but for the name it is about.
pub data Error : Type 0 where
  rejected no_row no_id bad_unit invalid_ucd : Error
  missing_key not_registered name_taken no_column reserved unknown_type no_source : String → Error

pub data Result {ℓ} (A : Type ℓ) : Type ℓ where
  failed : Error → Result A
  ok : A → Result A

infixl 5 ◌>>=◌
abbrev pub ◌>>=◌ {ℓ κ} : {A : Type ℓ} {B : Type κ} → Result A → (A → Result B) → Result B
failed e >>= f = failed e
ok a >>= f = f a

-- the JSON object of a column's comment; a missing key is `none`, as is a null description
pub record ColumnParams : Type 0 where
  pub description : Option String
  pub data_type : String
  pub unit : Option String
  pub ucd : Option String

abbrev pub implies : Bool → Bool → Bool
implies a b = not a || b

-- the keys of `old` are keys of `new`
abbrev pub HasKeys : ColumnParams → ColumnParams → Type 0
HasKeys old new =
    (implies (is_some old.unit) (is_some new.unit) ≡ true)
    × (implies (is_some old.ucd) (is_some new.ucd) ≡ true)

-- the types of app/lib/storage/mapping.py
abbrev pub written_types : List String
written_types =
    "text" ∷ "integer" ∷ "bigint" ∷ "double precision" ∷ "timestamp without time zone" ∷ []

-- `meta.setparams` on the comments of columns and of tables, whose object has a description only.
-- Whether it keeps old keys that the new object does not have is left open. The database also says
-- which texts are types of columns; those that the program writes are.
pub record MetaStore : Type 0 where
  pub set_column : Option ColumnParams → ColumnParams → ColumnParams
  pub set_table : Option String → String → String
  pub set_column_new : (params : ColumnParams) → set_column none params ≡ params
  pub set_column_over : (old new : ColumnParams) → HasKeys old new → set_column (some old) new ≡ new
  pub set_table_lem :
      (old : Option String) (description : String) → set_table old description ≡ description
  pub is_type : String → Bool
  pub is_type_written : All (λ data_type. is_type data_type ≡ true) written_types

-- `astropy.units`: the units that `Unit` makes of a text are read back from their own text
pub record Units (U : Type 0) : Type 0 where
  pub parse : String → Option U
  pub to_string : U → String
  pub parse-to_string : (u : U) → parse (to_string u) ≡ some u

module _ (U : Type 0) where
  pub record ColumnDescription : Type 0 where
    pub name : String
    pub data_type : String
    pub is_primary_key : Bool
    pub unit : Option U
    pub description : Option String
    pub ucd : Option String

  -- `Layer0TableMeta`
  pub record TableMeta : Type 0 where
    pub table_name : String
    pub column_descriptions : List ColumnDescription
    pub bibliography_id : ℕ
    pub datatype : DataType
    pub status : TableStatus
    pub modification_dt : Option ℕ
    pub description : Option String
    pub table_id : Option ℕ

-- a row of `layer0.tables`, without its name
pub record Item : Type 0 where
  pub id : ℕ
  pub bib : ℕ
  pub datatype : DataType
  pub status : TableStatus
  pub modification_dt : ℕ

pub record Column : Type 0 where
  pub data_type : String
  pub constraint : String
  pub params : Option ColumnParams

pub record RawTable (V : Type 0) : Type 0 where
  pub columns : Dict String Column
  pub description : Option String
  -- by primary key; a cell without a value is NULL
  pub rows : Dict String (Dict String V)

pub record Bibliography : Type 0 where
  pub id : ℕ
  pub year : ℕ
  pub authors : List String
  pub title : String

pub record State (V : Type 0) : Type 0 where
  pub registry : Dict String Item
  pub next_id : ℕ
  pub raw : Dict String (RawTable V)
  -- `common.bib`, by code
  pub bibs : Dict String Bibliography
  pub next_bib : ℕ
  pub now : ℕ

-- `UPDATE layer0.tables SET … WHERE id = table_id`
unfoldable pub update_items : (Item → Item) → ℕ → Dict String Item → Dict String Item
update_items f table_id [] = []
update_items f table_id ((name, item) ∷ registry) =
    (name, if item.id == table_id then f item else item) ∷ update_items f table_id registry

abbrev pub dated : ℕ → Item → Item
dated now item = record item { modification_dt = now }

module _ {V : Type 0} where
  -- `_get_table_id`
  unfoldable pub get_table_id : String → State V → ℕ × Bool
  get_table_id table_name db = elim (lookup table_name db.registry) [
    | none ↦ (0, false)
    | some item ↦ (item.id, true)
  ]

  unfoldable pub update_registry : (Item → Item) → ℕ → State V → State V
  unfolding update_items
  update_registry f table_id db = record db {
    registry = update_items (λ item. dated db.now (f item)) table_id db.registry;
  }

  -- `COMMENT ON TABLE`, `COMMENT ON COLUMN`, and other changes of one table of `rawdata`
  unfoldable pub alter : String → (RawTable V → Result (RawTable V)) → State V → Result (State V)
  alter table_name change db = elim (lookup table_name db.raw) [
    | none ↦ failed rejected
    | some raw_table ↦
        change raw_table >>= λ changed. ok (record db { raw = insert table_name changed db.raw })
  ]
