-- ===== src/Upload/Rows.antt =====
-- Uploading rows: `add_data` of `TableUploadManager` and `insert_raw_data` of
-- `Layer0TableRepository`. `V` are the values of a data frame, with its missing ones.
use mathlib.Core.Option
use db_app.Base.{
  String, ◌<>◌, Bool, true, false, ◌&&◌, not, Option, none, some, List, [], ◌∷◌, ◌++◌, map, Dict,
  string_eq, lookup, keys, contains, any, foldl, if◌then◌else◌, text_leb,
}
use db_app.Layer0.{Db}
use db_app.Layer0.Records.{Outcome, raised, done, register_records}
use db_app.Tables.{Result, failed, ok, rejected, Column, State, alter}
use db_app.Tables.Kept.{ids}

-- What pandas, the encoder, the hash and the database do: the frame of a list of records, which has
-- the same columns in every row, the text of sorted entries, the id that is made of a text, whether a
-- value is stored as NULL, and whether a column of a type takes it. `dumps` raises on values that are
-- not of JSON, as are the integers of numpy, which a row has when all columns are integers.
pub record Frames (V : Type 0) : Type 0 where
  pub from_records : List (Dict String V) → List (Dict String V)
  pub dumps : List (String × V) → Option String
  pub hashfunc : String → String
  pub is_null : V → Bool
  pub fits : String → V → Bool

module _ {V : Type 0} where
  -- `sorted(data, key=lambda t: t[0])`
  unfoldable pub insert_sorted : String × V → List (String × V) → List (String × V)
  unfolding text_leb
  insert_sorted x [] = x ∷ []
  insert_sorted x (y ∷ ys) =
      let further = y ∷ insert_sorted x ys in if text_leb x.0 y.0 then x ∷ y ∷ ys else further

  unfoldable pub sorted_entries : List (String × V) → List (String × V)
  unfolding insert_sorted
  sorted_entries [] = []
  sorted_entries (x ∷ xs) = insert_sorted x (sorted_entries xs)

  -- `drop_duplicates(…, keep="last")`
  unfoldable pub drop_duplicates : List (String × Dict String V) → List (String × Dict String V)
  drop_duplicates [] = []
  drop_duplicates (row ∷ rows) =
      let rest = drop_duplicates rows in if contains (keys rows) row.0 then rest else row ∷ rest

  -- `ON CONFLICT DO NOTHING`
  abbrev pub insert_row :
      Dict String (Dict String V) → String × Dict String V → Dict String (Dict String V)
  insert_row rows row = if contains (keys rows) row.0 then rows else rows ++ row ∷ []

module _ {V : Type 0} (frames : Frames V) where
  open frames use {from_records, dumps, hashfunc, is_null, fits}

  -- `_get_hash_func`
  unfoldable pub compute_hash : String → Dict String V → Option String
  unfolding sorted_entries
  compute_hash table_name row =
      Option.map (λ data_string. hashfunc (table_name <> "_" <> data_string))
        (dumps (sorted_entries row))

  -- `apply` to the rows
  unfoldable pub with_ids : String → List (Dict String V) → Option (List (String × Dict String V))
  unfolding compute_hash
  with_ids table_name [] = some []
  with_ids table_name (row ∷ rows) = elim (compute_hash table_name row) [
    | none ↦ none
    | some id ↦ Option.map (λ rest. (id, row) ∷ rest) (with_ids table_name rows)
  ]

  unfoldable pub frame_of : String → List (Dict String V) → Option (List (String × Dict String V))
  unfolding with_ids drop_duplicates
  frame_of table_name records =
      Option.map drop_duplicates (with_ids table_name (from_records records))

  -- the cells that are not NULL
  abbrev pub stored : Dict String V → Dict String V
  stored [] = []
  stored ((column, v) ∷ row) = if is_null v then stored row else (column, v) ∷ stored row

  -- a cell of a column that the table has, with a value that it takes
  abbrev pub cell_fits : Dict String Column → String × V → Bool
  cell_fits columns (column, v) = elim (lookup column columns) [
    | none ↦ false
    | some found ↦ if is_null v then true else fits found.data_type v
  ]

  unfoldable pub has_misfit : Dict String Column → List (String × Dict String V) → Bool
  has_misfit columns = any (λ row. any (λ cell. not (cell_fits columns cell)) row.1)

  unfoldable pub insert_raw_data :
      String → List (String × Dict String V) → State V → Result (State V)
  unfolding alter has_misfit
  insert_raw_data table_name [] db = ok db
  insert_raw_data table_name (row ∷ rows) db =
      alter table_name
        (λ raw_table.
          if has_misfit raw_table.columns (row ∷ rows)
          then failed rejected
          else ok (record raw_table {
            rows = foldl insert_row raw_table.rows (map (λ r. (r.0, stored r.1)) (row ∷ rows));
          }))
        db

abbrev pub kept : {A : Type 0} → A → Result A → A × Bool
kept a (failed e) = (a, false)
kept a (ok changed) = (changed, true)

abbrev pub kept_outcome : {A : Type 0} → A → Outcome A → A × Bool
kept_outcome a (raised e) = (a, false)
kept_outcome a (done changed) = (changed, true)

-- The two writes are on connections of their own threads, each committed by itself; the request
-- fails if one of them does. Nothing is written if a row has no id.
unfoldable pub add_data :
    {V : Type 0} → Frames V → String → List (Dict String V) → State V × Db → (State V × Db) × Bool
unfolding frame_of insert_raw_data
add_data frames table_name records (tables, db) = elim (frame_of frames table_name records) [
  | none ↦ ((tables, db), false)
  | some rows ↦
      let (inserted, first) = kept tables (insert_raw_data frames table_name rows tables) in
      let (registered, second) =
        kept_outcome db (register_records (ids tables.registry) table_name (keys rows) db) in
      ((inserted, registered), first && second)
]
