-- ===== src/Layer1/Saving.antt =====
-- Writing layer 1: `save_structured_data` of app/data/repositories/layer1.py, and
-- app/adminapi/domain/layer1_write.py. A row has its record and its other cells, `none` for NULL. That
-- DISTINCT leaves out repeated numbers does not matter to dating them.
use db_app.Base.{
  String, Bool, true, false, ◌&&◌, ◌||◌, not, Option, none, some, List, [], ◌∷◌, Dict, nat_eq,
  string_eq, Eq, ◌==◌, length, lookup, insert, update, keys, contains, any, filter, foldl, or_else,
  if◌then◌else◌,
}
use db_app.Layer0.{Db}
use db_app.Layer0.Records.{touch_pgcs, has_duplicates}
use db_app.Layer0.Merge.{previous_pgcs}

pub data SaveError : Type 0 where
  missing_units : List String → SaveError
  -- a wrong number of ids or cells, a unit or a number that is none
  bad_request : SaveError
  foreign_key : SaveError
  -- an unknown column, a column twice, no unique key for `ON CONFLICT`, or another constraint of the table
  constraint : SaveError

pub data Saved {ℓ} (A : Type ℓ) : Type ℓ where
  refused : SaveError → Saved A
  saved : A → Saved A

infixl 5 ◌>>=◌
abbrev pub ◌>>=◌ {ℓ κ} : {A : Type ℓ} {B : Type κ} → Saved A → (A → Saved B) → Saved B
refused e >>= f = refused e
saved a >>= f = f a

abbrev pub Row : Type 0 → Type 0
Row C = String × Dict String (Option C)

module _ {C : Type 0} where
  abbrev pub cell_of : String → Row C → Option C
  cell_of column row = or_else (lookup column row.1) none

  -- `dict(zip(columns, values))`, if there are as many
  unfoldable pub cells : List String → List (Option C) → Saved (Dict String (Option C))
  cells [] [] = saved []
  cells [] (v ∷ vals) = refused bad_request
  cells (c ∷ columns) [] = refused bad_request
  cells (c ∷ columns) (v ∷ vals) = cells columns vals >>= λ rest. saved ((c, v) ∷ rest)

  -- `zip(ids, data, strict=True)`
  unfoldable pub rows_of : List String → List String → List (List (Option C)) → Saved (List (Row C))
  unfolding cells
  rows_of columns [] [] = saved []
  rows_of columns [] (vals ∷ data_rows) = refused bad_request
  rows_of columns (id ∷ ids) [] = refused bad_request
  rows_of columns (id ∷ ids) (vals ∷ data_rows) = cells columns vals >>= λ row.
      rows_of columns ids data_rows >>= λ rest. saved ((id, row) ∷ rest)

  abbrev pub copy_cell : Row C → Dict String (Option C) → String → Dict String (Option C)
  copy_cell new row column =
      if column == "record_id" then row else insert column (cell_of column new) row

  -- `DO UPDATE SET c = EXCLUDED.c`, for these columns
  unfoldable pub updated_row : List String → Row C → Row C → Row C
  updated_row update_columns new old = (
    if contains update_columns "record_id" then new.0 else old.0,
    foldl (copy_cell new) old.1 update_columns,
  )

abbrev pub update_columns_of : List String → List String → List String
update_columns_of conflict_keys columns =
    filter (λ c. not (contains conflict_keys c)) ("record_id" ∷ columns)

-- A table of layer 1 as the migrations make it: its columns with their defaults, its one unique key,
-- whether NULL is unlike NULL there, and what it takes of rows: types, NOT NULL, CHECK, and foreign
-- keys but that of the record.
pub record Rules (C : Type 0) : Type 0 where
  pub defaults : Dict String (Option C)
  pub unique_key : List String
  pub nulls_distinct : Bool
  pub accepts : Row C → Bool

-- every one of these is among those
abbrev pub is_part : List String → List String → Bool
is_part names others = not (any (λ name. not (contains others name)) names)

module _ {C : Type 0} (rules : Rules C) where
  open rules use {defaults, unique_key, accepts}

  -- `ON CONFLICT (…)` names the columns of the unique key, in any order.
  abbrev pub is_arbiter : List String → Bool
  is_arbiter conflict_keys = is_part conflict_keys unique_key && is_part unique_key conflict_keys

  -- what the statement needs: a unique key, and no column twice
  abbrev pub is_statement : List String → List String → Bool
  is_statement conflict_keys columns =
      is_arbiter conflict_keys && not (has_duplicates ("record_id" ∷ columns))

  -- a row with the defaults of the columns that it does not give
  abbrev pub completed : Row C → Row C
  completed row = (row.0, update defaults row.1)

  -- `DO NOTHING` without a column to update
  unfoldable pub replaced : List String → List (Row C) → Row C → Row C → Saved (List (Row C))
  unfolding updated_row
  replaced [] rows new old = saved (old ∷ rows)
  replaced (c ∷ update_columns) rows new old =
      let updated = updated_row (c ∷ update_columns) new old in
      if accepts updated then saved (updated ∷ rows) else refused constraint

module _ {C : Type 0} ⦃e : Eq C⦄ (rules : Rules C) where
  open rules use {defaults, nulls_distinct, accepts}

  abbrev pub same_cell : Option C → Option C → Bool
  same_cell none none = not nulls_distinct
  same_cell none (some b) = false
  same_cell (some a) none = false
  same_cell (some a) (some b) = a == b

  unfoldable pub conflicts : List String → Row C → Row C → Bool
  conflicts [] new old = true
  conflicts (k ∷ conflict_keys) new old =
      (if k == "record_id" then old.0 == new.0 else same_cell (cell_of k old) (cell_of k new))
      && conflicts conflict_keys new old

  unfoldable pub place : List String → List String → List (Row C) → Row C → Saved (List (Row C))
  unfolding conflicts replaced
  place conflict_keys update_columns [] new = saved (new ∷ [])
  place conflict_keys update_columns (old ∷ rows) new =
      let rest = place conflict_keys update_columns rows new in
      if conflicts conflict_keys new old
      then replaced rules update_columns rows new old
      else (rest >>= λ placed. saved (old ∷ placed))

  -- `INSERT … ON CONFLICT`; the row is checked before a conflict is looked for
  unfoldable pub upsert_row :
      List String → List String → List (Row C) → Row C → Saved (List (Row C))
  unfolding place
  upsert_row conflict_keys update_columns table new =
      if is_part (keys new.1) (keys defaults) && accepts (completed rules new)
      then place conflict_keys update_columns table (completed rules new)
      else refused constraint

  -- `execute_batch`
  unfoldable pub upsert_rows :
      List String → List String → List (Row C) → List (Row C) → Saved (List (Row C))
  unfolding upsert_row
  upsert_rows conflict_keys update_columns table [] = saved table
  upsert_rows conflict_keys update_columns table (row ∷ rows) =
      upsert_row conflict_keys update_columns table row >>= λ changed.
      upsert_rows conflict_keys update_columns changed rows

  -- Without rows no statement is sent.
  unfoldable pub save_structured_data :
      List String
      → List String
      → List (List (Option C))
      → List String
      → List (Row C)
      → Db
      → Saved (List (Row C) × Db)
  unfolding rows_of upsert_rows touch_pgcs previous_pgcs
  save_structured_data columns ids data_rows conflict_keys table db =
      rows_of columns ids data_rows >>= λ rows.
      if length rows == 0 || is_statement rules conflict_keys columns
      then (if any (λ row. not (contains (keys db.records) row.0)) rows
          then refused foreign_key
          else (upsert_rows conflict_keys (update_columns_of conflict_keys columns) table rows
              >>= λ changed. saved (changed, touch_pgcs (previous_pgcs ids db) db)))
      else refused constraint

-- the columns that need a unit and have none
abbrev pub missing : List String → Dict String String → Dict String String → List String
missing columns internal_units units =
    filter (λ col. contains (keys internal_units) col && not (contains (keys units) col)) columns

-- `Layer1Writer.save_data`, for the table of the request's catalog: the factor between two units, and
-- a value in the other unit, are astropy's and Python's, and may fail.
module _ {C F : Type 0} ⦃e : Eq C⦄ (factor : String → String → Option F)
    (scale : C → F → Option C) where
  -- `none` is a column without a unit
  unfoldable pub factor_of : Dict String String → Dict String String → String → Saved (Option F)
  factor_of internal_units units col = elim (lookup col internal_units) [
    | none ↦ saved none
    | some internal ↦ elim (lookup col units) [
      | none ↦ saved none
      | some unit ↦ elim (factor unit internal) [
        | none ↦ refused bad_request
        | some f ↦ saved (some f)
      ]
    ]
  ]

  unfoldable pub factors :
      Dict String String → Dict String String → List String → Saved (List (Option F))
  unfolding factor_of
  factors internal_units units [] = saved []
  factors internal_units units (col ∷ columns) = factor_of internal_units units col >>= λ first.
      factors internal_units units columns >>= λ rest. saved (first ∷ rest)

  -- `float(value) * factor`; None is no number
  abbrev pub scaled : Option F → Option C → Saved (Option C)
  scaled none v = saved v
  scaled (some f) none = refused bad_request
  scaled (some f) (some v) = elim (scale v f) [
    | none ↦ refused bad_request
    | some w ↦ saved (some w)
  ]

  unfoldable pub convert_row : List (Option C) → List (Option F) → Saved (List (Option C))
  convert_row [] [] = saved []
  convert_row [] (f ∷ fs) = refused bad_request
  convert_row (v ∷ row) [] = refused bad_request
  convert_row (v ∷ row) (f ∷ fs) =
      scaled f v >>= λ first. convert_row row fs >>= λ rest. saved (first ∷ rest)

  unfoldable pub convert_rows :
      List (List (Option C)) → List (Option F) → Saved (List (List (Option C)))
  unfolding convert_row
  convert_rows [] fs = saved []
  convert_rows (row ∷ rows) fs =
      convert_row row fs >>= λ first. convert_rows rows fs >>= λ rest. saved (first ∷ rest)

  unfoldable pub save_data :
      Rules C
      → Dict String String
      → List String
      → List String
      → Dict String String
      → List String
      → List (List (Option C))
      → List (Row C)
      → Db
      → Saved (List (Row C) × Db)
  unfolding factors convert_rows save_structured_data
  save_data rules internal_units conflict_keys columns units ids data_rows table db =
      let missing_columns = missing columns internal_units units in
      if length missing_columns == 0
      then (factors internal_units units columns >>= λ fs.
          convert_rows data_rows fs >>= λ converted.
          save_structured_data rules columns ids converted conflict_keys table db)
      else refused (missing_units missing_columns)
