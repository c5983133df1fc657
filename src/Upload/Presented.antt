-- ===== src/Upload/Presented.antt =====
-- `_column_description_to_presentation` of app/adminapi/domain/table_upload.py: the columns that
-- `get_table` shows.
use mathlib.Core.Option
use db_app.Base.{
  ℕ, String, ◌≡◌, refl, ap, Bool, true, false, not, Option, none, some, List, [], ◌∷◌, map, arith,
  nat_eq, string_eq, ◌==◌, eq_of_beq, or_else, keys, lookup, contains, any, All-lookup, Bool-cases,
  Option-cases, inl, inr, if◌then◌else◌, strip,
}
use db_app.Layer0.Records.{has_duplicates}
use db_app.Tables.{
  internal_id_column, missing_key, Result, failed, ok, ◌>>=◌, ColumnDescription, MetaStore, Units,
  State,
}
use db_app.Tables.Registry.{fetch_metadata_by_name}
use db_app.Tables.Described.{shown}
use db_app.Upload.{
  type_map, ColumnRequest, CreateTableRequest, Publication, data_type_of, ensure_source_id,
}
use db_app.Upload.Columns.{is_reserved, is_valid, described}
use db_app.Upload.Manager.{create}
use db_app.Upload.Created.{has_bad_column, create-fetch_metadata_by_name}

module _ {U : Type 0} (units : Units U) where
  open units use {to_string}

  abbrev pub column_request : ColumnDescription U → ColumnRequest
  column_request col = record {
    name = col.name;
    data_type = col.data_type;
    ucd = col.ucd;
    unit = Option.map to_string col.unit;
    description = col.description;
  }

  -- `DatatypeEnum[…]` has the keys of `type_map`.
  unfoldable pub column_description_to_presentation :
      List (ColumnDescription U) → Result (List ColumnRequest)
  column_description_to_presentation [] = ok []
  column_description_to_presentation (col ∷ columns) =
      let rest = column_description_to_presentation columns in
      if col.name == internal_id_column
      then rest
      else if contains (keys type_map) col.data_type
      then (rest >>= λ res. ok (column_request col ∷ res))
      else failed (missing_key col.data_type)

  -- the columns in the response of `get_table`
  unfoldable pub get_columns : {V : Type 0} → String → State V → Result (List ColumnRequest)
  unfolding column_description_to_presentation
  get_columns table_name db = fetch_metadata_by_name units table_name db >>= λ meta.
      column_description_to_presentation meta.column_descriptions

-- stored as bigint, as long and unsignedLong are
abbrev pub is_long : ColumnRequest → Bool
is_long col = or_else (data_type_of col.data_type) "" == "bigint"

stored_type :
    (text t : String)
    → data_type_of text ≡ some t
    → contains (keys type_map) t ≡ not (t == "bigint")
unfolding data_type_of
stored_type text t found =
    All-lookup (λ e. contains (keys type_map) e.1 ≡ not (e.1 == "bigint")) (strip text) t type_map
      (
        refl,
        (
          refl,
          (
            refl,
            (
              refl,
              (
                refl,
                (
                  refl,
                  (
                    refl,
                    (
                      refl,
                      (
                        refl,
                        (
                          refl,
                          (
                            refl,
                            (
                              refl,
                              (
                                refl,
                                (
                                  refl,
                                  (
                                    refl,
                                    (refl, (refl, (refl, (refl, (refl, (refl, (refl, tt))))))),
                                  ),
                                ),
                              ),
                            ),
                          ),
                        ),
                      ),
                    ),
                  ),
                ),
              ),
            ),
          ),
        ),
      )
      found

is_shown :
    (check_ucd : Option String → Bool) (col : ColumnRequest)
    → is_valid check_ucd col ≡ true
    → contains (keys type_map) (or_else (data_type_of col.data_type) "") ≡ not (is_long col)
unfolding is_valid
is_shown check_ucd col h = elim (Option-cases (data_type_of col.data_type)) [
  | inl unknown ↦ absurd (ground (arith, unknown, h))
  | inr (t, known) ↦ rw known (stored_type col.data_type t known)
]

module _ {U : Type 0} (units : Units U) where
  open units use {parse}

  -- what is shown of the columns of a request
  abbrev pub presented : List ColumnRequest → Result (List ColumnRequest)
  presented columns =
      if any is_long columns
      then failed (missing_key "bigint")
      else ok (map (λ col. column_request units (described parse col)) columns)

module _ {U : Type 0} (units : Units U) (check_ucd : Option String → Bool) where
  open units use {parse}

  columns-presented :
      (columns : List ColumnRequest)
      → any is_reserved columns ≡ false
      → any (λ col. not (is_valid check_ucd col)) columns ≡ false
      → column_description_to_presentation units (map shown (map (described parse) columns))
        ≡ presented units columns
  unfolding column_description_to_presentation
  columns-presented [] free valid = refl
  columns-presented (col ∷ columns) free valid =
      let no_id : is_reserved col ≡ false = ground (arith, free) in
      let known = is_shown check_ucd col (ground (arith, valid)) in
      let later = columns-presented columns (ground (arith, free)) (ground (arith, valid)) in
      elim (Bool-cases (is_long col)) [
        | inl long ↦
            rw (no_id, known, long)
              (ap (λ t. failed (missing_key t))
                (eq_of_beq (or_else (data_type_of col.data_type) "") "bigint" long))
        | inr short ↦ elim (Bool-cases (any is_long columns)) [
          | inl later_long ↦ rw (no_id, known, later, short, later_long) refl
          | inr never ↦ rw (no_id, known, later, short, never) refl
        ]
      ]

  -- The columns of a table that was made by a request are shown, without the key of the records,
  -- as the request described them with the types of the database, unless one of them was stored as
  -- bigint: then showing the table fails, as there is no such key.
  pub get_columns-created :
      {V : Type 0} (meta : MetaStore) (is_bibcode : String → Bool)
      (ads : String → Option (List Publication)) (int_of : List ℕ → Option ℕ)
      (r : CreateTableRequest) (db sourced : State V) (source_id : ℕ)
      → ensure_source_id is_bibcode ads int_of r.bibcode db ≡ ok (source_id, sourced)
      → lookup r.table_name db.registry ≡ none
      → contains (keys db.raw) r.table_name ≡ false
      → has_bad_column check_ucd r ≡ false
      → has_duplicates (map (λ c. c.name) r.columns) ≡ false
      → (created : State V) × (create meta units check_ucd is_bibcode ads int_of r db
          ≡ (ok (db.next_id, true), created))
        × (get_columns units r.table_name created ≡ presented units r.columns)
  unfolding get_columns column_description_to_presentation
  get_columns-created meta is_bibcode ads int_of r db sourced source_id found fresh fresh_raw good
        distinct =
      let (created, e, fetched) =
        create-fetch_metadata_by_name meta units check_ucd is_bibcode ads int_of r db sourced
          source_id found fresh fresh_raw good distinct in
      (
        created,
        e,
        rw fetched (columns-presented r.columns (ground (arith, good)) (ground (arith, good))),
      )
