-- ===== src/Layer0.antt =====
-- The tables of layer 0 that the program keeps about records (app/data/repositories/layer0,
-- app/data/model/records.py, app/lib/storage/enums.py), and the crossmatch metadata.
-- Tables with a primary key are dictionaries by that key; `now` is the time of the transaction.
pub mod Records
pub mod Assign
pub mod Assigned
pub mod Submit
pub mod Merge
pub mod Merged
use db_app.Base.{
  ℕ, String, Bool, true, false, Option, none, some, List, [], ◌∷◌, map, Dict, string_eq, lookup,
}

pub data DataType : Type 0 where
  regular reprocessing preliminary compilation : DataType

pub data RecordTriageStatus : Type 0 where
  pending resolved : RecordTriageStatus

pub data RecordCrossmatchStatus : Type 0 where
  unprocessed new collided existing : RecordCrossmatchStatus

-- The values of a metadata object: JSON null, a number, a list of numbers.
pub data Value : Type 0 where
  null : Value
  int : ℕ → Value
  ints : List ℕ → Value

abbrev pub Metadata : Type 0
Metadata = Dict String Value

-- A row of `layer0.records`, without its id.
pub record Record : Type 0 where
  pub table_id : ℕ
  pub pgc : Option ℕ

-- A row of `layer0.crossmatch`, without its record id.
pub record Crossmatch : Type 0 where
  pub triage_status : RecordTriageStatus
  pub metadata : Metadata

pub record Db : Type 0 where
  pub tables : Dict ℕ DataType
  pub records : Dict String Record
  pub crossmatch : Dict String Crossmatch
  -- `common.pgc`: the modification time of each number
  pub pgcs : Dict ℕ ℕ
  -- the next value of its sequence
  pub pgc_seq : ℕ
  pub now : ℕ

-- `_candidates_to_metadata`
unfoldable pub candidates_to_metadata : List ℕ → Metadata
candidates_to_metadata [] = []
candidates_to_metadata (pgc ∷ []) = ("pgc", int pgc) ∷ []
candidates_to_metadata candidates = ("possible_matches", ints candidates) ∷ []

-- a key that is there with a value that is not null
abbrev pub present : String → Metadata → Option Value
present key metadata = elim (lookup key metadata) [
  | none ↦ none
  | some value ↦ elim value [ null ↦ none | int n ↦ some (int n) | ints ns ↦ some (ints ns) ]
]

-- `metadata_to_candidates`. `none` stands for the exception of `int` on a list, or of a loop over a
-- number.
unfoldable pub metadata_to_candidates : Option Metadata → Option (List ℕ)
metadata_to_candidates none = some []
metadata_to_candidates (some metadata) = elim (present "pgc" metadata) [
  | some value ↦ elim value [ null ↦ none | int n ↦ some (n ∷ []) | ints ns ↦ none ]
  | none ↦ elim (present "possible_matches" metadata) [
    | some value ↦ elim value [ null ↦ none | int n ↦ none | ints ns ↦ some ns ]
    | none ↦ some []
  ]
]
