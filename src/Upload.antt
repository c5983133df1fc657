-- ===== src/Upload.antt =====
-- Uploading tables (app/adminapi/domain/table_upload.py, app/data/repositories/common.py,
-- app/lib/storage/mapping.py): the columns that a request describes, and its source.
pub mod Columns
pub mod Sources
pub mod Created
pub mod Manager
pub mod Rows
pub mod Again
pub mod Added
pub mod Patched
pub mod Changed
pub mod Steps
pub mod Settings
pub mod Presented
pub mod Schemas
pub mod Listing
pub mod Listed
use mathlib.Core.Option
use db_app.Base.{
  ℕ, suc, String, ◌<>◌, starts_with, Bool, true, false, ◌&&◌, Option, none, some, List, [], ◌∷◌,
  Dict, nat_eq, string_eq, ◌==◌, is_some, or_else, lookup, insert, contains, take, if◌then◌else◌,
  strip, lstrip, ends_with, without_last, drop_text,
}
use db_app.Layer0.{DataType}
use db_app.Tables.{
  internal_id_column, Error, reserved, unknown_type, invalid_ucd, no_source, rejected, Result,
  failed, ok, ◌>>=◌, ColumnDescription, TableMeta, initiated, MetaStore, Units, State, Bibliography,
}
use db_app.Tables.Registry.{create_table}

abbrev pub type_map : Dict String String
type_map =
    ("str", "text")
    ∷ ("string", "text")
    ∷ ("character varying", "text")
    ∷ ("text", "text")
    ∷ ("character", "text")
    ∷ ("char", "text")
    ∷ ("short", "integer")
    ∷ ("int", "integer")
    ∷ ("long", "bigint")
    ∷ ("integer", "integer")
    ∷ ("smallint", "integer")
    ∷ ("float", "double precision")
    ∷ ("double", "double precision")
    ∷ ("double precision", "double precision")
    ∷ ("real", "double precision")
    ∷ ("timestamp without time zone", "timestamp without time zone")
    ∷ ("unsignedLong", "bigint")
    ∷ ("unsignedInt", "integer")
    ∷ ("unsignedShort", "integer")
    ∷ ("unsignedByte", "integer")
    ∷ ("positiveInteger", "integer")
    ∷ ("number", "double precision")
    ∷ []

-- `adminapi.ColumnDescription`
pub record ColumnRequest : Type 0 where
  pub name : String
  pub data_type : String
  pub ucd : Option String
  pub unit : Option String
  pub description : Option String

-- The logarithm is named dex.
unfoldable pub unit_text : String → String
unit_text text =
    if starts_with text "log(" && ends_with ")" text
    then "dex(" <> without_last (drop_text 4 text) <> ")"
    else text

-- A unit that is not known goes to the description.
unfoldable pub with_unit : Option String → String → String
unfolding lstrip
with_unit description unit = lstrip (or_else description "" <> " (unit " <> unit <> ")")

module _ {U : Type 0} where
  abbrev pub internal_id : ColumnDescription U
  internal_id = record {
    name = internal_id_column;
    data_type = "text";
    is_primary_key = true;
    unit = none;
    description = none;
    ucd = none;
  }

-- `type_map.get(text.strip())`
unfoldable pub data_type_of : String → Option String
unfolding strip
data_type_of text = lookup (strip text) type_map

module _ {U : Type 0} (parse : String → Option U) where
  -- `get_unit`; its error is caught
  unfoldable pub get_unit : String → Option U
  unfolding unit_text
  get_unit text = parse (unit_text text)

  unfoldable pub requested_unit : Option String → Option U
  unfolding get_unit
  requested_unit none = none
  requested_unit (some text) = get_unit text

  unfoldable pub requested_description : ColumnRequest → Option String
  unfolding get_unit with_unit
  requested_description col = elim col.unit [
    | none ↦ col.description
    | some text ↦
        if is_some (get_unit text) then col.description else some (with_unit col.description text)
  ]

module _ {U : Type 0} (parse : String → Option U) (check_ucd : Option String → Bool) where
  -- the body of the loop
  unfoldable pub requested_column : ColumnRequest → Result (ColumnDescription U)
  unfolding requested_unit requested_description data_type_of
  requested_column col = elim (data_type_of col.data_type) [
    | none ↦ failed (unknown_type col.data_type)
    | some data_type ↦
        if check_ucd col.ucd
        then ok (record {
          name = col.name;
          data_type = data_type;
          is_primary_key = false;
          unit = requested_unit parse col.unit;
          description = requested_description parse col;
          ucd = col.ucd;
        })
        else failed invalid_ucd
  ]

  unfoldable pub requested_columns : List ColumnRequest → Result (List (ColumnDescription U))
  unfolding requested_column
  requested_columns [] = ok []
  requested_columns (col ∷ columns) =
      requested_column col >>= λ first. requested_columns columns >>= λ rest. ok (first ∷ rest)

  unfoldable pub domain_descriptions_to_data :
      List ColumnRequest → Result (List (ColumnDescription U))
  unfolding requested_columns
  domain_descriptions_to_data columns =
      requested_columns columns >>= λ rest. ok (internal_id ∷ rest)

-- a publication of ADS, with the characters of its date
pub record Publication : Type 0 where
  pub titles : List String
  pub author : List String
  pub pubdate : List ℕ

-- `create_bibliography`: the code is unique, and a source that is there keeps its number.
unfoldable pub create_bibliography :
    {V : Type 0} → String → ℕ → List String → String → State V → ℕ × State V
create_bibliography code year authors title db = elim (lookup code db.bibs) [
  | none ↦ (
    db.next_bib,
    record db {
      bibs =
          insert code (record { id = db.next_bib; year = year; authors = authors; title = title })
            db.bibs;
      next_bib = suc db.next_bib;
    },
  )
  | some bib ↦ (
    bib.id,
    record db {
      bibs =
          insert code (record { id = bib.id; year = year; authors = authors; title = title })
            db.bibs;
    },
  )
]

-- `xs[0]`
abbrev pub first : List String → Option String
first [] = none
first (x ∷ xs) = some x

-- The pattern of bibcodes, the client of ADS, which raises or lists publications, and `int`.
module _ (is_bibcode : String → Bool) (ads : String → Option (List Publication))
    (int_of : List ℕ → Option ℕ) {V : Type 0} where
  -- An answer without a publication, a title or a year raises another error.
  unfoldable pub create_publication : String → List Publication → State V → Result (ℕ × State V)
  unfolding create_bibliography
  create_publication code [] db = failed rejected
  create_publication code (publication ∷ rest) db = elim (first publication.titles) [
    | none ↦ failed rejected
    | some title ↦ elim (int_of (take 4 publication.pubdate)) [
      | none ↦ failed rejected
      | some year ↦ ok (create_bibliography code year publication.author title db)
    ]
  ]

  unfoldable pub ensure_source_id : String → State V → Result (ℕ × State V)
  unfolding create_publication
  ensure_source_id code db =
      if is_bibcode code
      then elim (ads code) [
        | none ↦ failed (no_source code)
        | some publications ↦ create_publication code publications db
      ]
      else elim (lookup code db.bibs) [
        | none ↦ failed (no_source code)
        | some bib ↦ ok (bib.id, db)
      ]

pub record CreateTableRequest : Type 0 where
  pub table_name : String
  pub columns : List ColumnRequest
  pub bibcode : String
  pub datatype : DataType
  pub description : String

unfoldable pub check_names : List ColumnRequest → Result (Unit {0})
check_names [] = ok tt
check_names (col ∷ columns) =
    let rest = check_names columns in
    if col.name == internal_id_column then failed (reserved col.name) else rest
