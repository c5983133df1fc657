-- ===== src/Upload/Created.antt =====
-- The table that a request makes.
use mathlib.Core.Path.{ap₂}
use db_app.Base.{
  All-lookup, strip, Option-cases, ℕ, String, ◌≡◌, refl, ap, ◌∙◌, Bool, true, false, ◌||◌, not,
  Option, none, some, List, [], ◌∷◌, map, arith, nat_eq, string_eq, ==_comm, keys, lookup, contains,
  any, Bool-cases, inl, inr,
}
use db_app.Layer0.Records.{has_duplicates}
use db_app.Tables.{
  internal_id_column, Error, failed, ok, initiated, TableMeta, MetaStore, Units, State,
}
use db_app.Tables.Registry.{fetch_metadata_by_name}
use db_app.Tables.Created.{two_keys, created_meta, create_table-fetch_metadata_by_name}
use db_app.Upload.{
  data_type_of, type_map, ColumnRequest, CreateTableRequest, Publication, internal_id,
  domain_descriptions_to_data, ensure_source_id,
}
use db_app.Upload.Manager.{create_described, create}
use db_app.Upload.Columns.{
  is_reserved, is_valid, described, check_names-reserved, check_names-ok, requested_columns-valid,
  requested_columns-invalid,
}
use db_app.Upload.Sources.{ensure_source_id-IsSourced}

contains-reserved :
    (columns : List ColumnRequest)
    → contains (map (λ c. c.name) columns) internal_id_column ≡ any is_reserved columns
contains-reserved [] = refl
contains-reserved (col ∷ columns) =
    ground (arith, ==_comm internal_id_column col.name, contains-reserved columns)

module _ {U : Type 0} (parse : String → Option U) where
  names-described :
      (columns : List ColumnRequest)
      → map (λ c. c.name) (map (described parse) columns) ≡ map (λ c. c.name) columns
  names-described [] = refl
  names-described (col ∷ columns) = ap (λ names. col.name ∷ names) (names-described columns)

  -- what the request describes, for the source of this number
  abbrev pub described_meta : CreateTableRequest → ℕ → TableMeta U
  described_meta r source_id = record {
    table_name = r.table_name;
    column_descriptions = internal_id ∷ map (described parse) r.columns;
    bibliography_id = source_id;
    datatype = r.datatype;
    status = initiated;
    modification_dt = none;
    description = some r.description;
    table_id = none;
  }

-- A type that a request can name is one that the database has.
is_type-stored :
    (meta : MetaStore) (text t : String) → data_type_of text ≡ some t → meta.is_type t ≡ true
unfolding data_type_of
is_type-stored meta text t found =
    let w = meta.is_type_written in
    let text_type = w.0 in
    let integer = w.1.0 in
    let bigint = w.1.1.0 in
    let double = w.1.1.1.0 in
    let timestamp = w.1.1.1.1.0 in
    All-lookup (λ e. meta.is_type e.1 ≡ true) (strip text) t type_map
      (
        text_type,
        (
          text_type,
          (
            text_type,
            (
              text_type,
              (
                text_type,
                (
                  text_type,
                  (
                    integer,
                    (
                      integer,
                      (
                        bigint,
                        (
                          integer,
                          (
                            integer,
                            (
                              double,
                              (
                                double,
                                (
                                  double,
                                  (
                                    double,
                                    (
                                      timestamp,
                                      (
                                        bigint,
                                        (integer, (integer, (integer, (integer, (double, tt))))),
                                      ),
                                    ),
                                  ),
                                ),
                              ),
                            ),
                          ),
                        ),
                      ),
                    ),
                  ),
                ),
              ),
            ),
          ),
        ),
      )
      found

module _ {U : Type 0} (parse : String → Option U) where
  any_key-described :
      (columns : List ColumnRequest)
      → any (λ d. d.is_primary_key) (map (described parse) columns) ≡ false
  any_key-described [] = refl
  any_key-described (col ∷ columns) = any_key-described columns

  two_keys-described :
      (columns : List ColumnRequest) → two_keys (map (described parse) columns) ≡ false
  two_keys-described [] = refl
  two_keys-described (col ∷ columns) = two_keys-described columns

  types-described :
      (meta : MetaStore) (check_ucd : Option String → Bool) (columns : List ColumnRequest)
      → any (λ col. not (is_valid check_ucd col)) columns ≡ false
      → any (λ c. not (meta.is_type c.data_type)) (map (described parse) columns) ≡ false
  unfolding is_valid
  types-described meta check_ucd [] h = refl
  types-described meta check_ucd (col ∷ columns) h =
      elim (Option-cases (data_type_of col.data_type)) [
        | inl unknown ↦ absurd (ground (arith, unknown, h))
        | inr (t, known) ↦
            rw (known, is_type-stored meta col.data_type t known)
              (types-described meta check_ucd columns (ground (arith, h)))
      ]

module _ (check_ucd : Option String → Bool) where
  -- A column that is reserved, of an unknown type or with an unknown UCD.
  abbrev pub has_bad_column : CreateTableRequest → Bool
  has_bad_column r =
      any is_reserved r.columns || any (λ col. not (is_valid check_ucd col)) r.columns

module _ (meta : MetaStore) {U : Type 0} (units : Units U) (check_ucd : Option String → Bool)
    {V : Type 0} where
  open units use {parse}

  module _ (is_bibcode : String → Bool) (ads : String → Option (List Publication))
      (int_of : List ℕ → Option ℕ) where
    -- A request whose source is found, with a new name and distinct columns that are neither
    -- reserved nor of an unknown type or UCD, creates a table, under the next number. The metadata
    -- that is read then has the key of the records as its first column, and after it the columns of
    -- the request, in order, with the types of the database.
    pub create-fetch_metadata_by_name :
        (r : CreateTableRequest) (db sourced : State V) (source_id : ℕ)
        → ensure_source_id is_bibcode ads int_of r.bibcode db ≡ ok (source_id, sourced)
        → lookup r.table_name db.registry ≡ none
        → contains (keys db.raw) r.table_name ≡ false
        → has_bad_column check_ucd r ≡ false
        → has_duplicates (map (λ c. c.name) r.columns) ≡ false
        → (created : State V) × (create meta units check_ucd is_bibcode ads int_of r db
            ≡ (ok (db.next_id, true), created))
          × (fetch_metadata_by_name units r.table_name created
              ≡ ok (created_meta (described_meta parse r source_id) db.next_id db.now))
    unfolding create create_described domain_descriptions_to_data
    create-fetch_metadata_by_name r db sourced source_id found fresh fresh_raw good distinct =
        let s =
          ensure_source_id-IsSourced is_bibcode ads int_of r.bibcode db sourced source_id found in
        let (created, e, fetched, again) =
          create_table-fetch_metadata_by_name meta units (described_meta parse r source_id) sourced
            (ap (lookup r.table_name) s.same_registry ∙ fresh)
            (ap (λ raw. contains (keys raw) r.table_name) s.same_raw ∙ fresh_raw) s.stored
            (record {
              distinct = ground (
                arith,
                names-described parse r.columns,
                contains-reserved r.columns,
                good,
                distinct,
              );
              typed = ground (
                arith,
                meta.is_type_written.0,
                types-described parse meta check_ucd r.columns (ground (arith, good)),
              );
              one_key = rw (any_key-described parse r.columns) (two_keys-described parse r.columns);
            }) in
        (
          created,
          ground (
            arith,
            found,
            check_names-ok r.columns (ground (arith, good)),
            requested_columns-valid parse check_ucd r.columns (ground (arith, good)),
            e,
            s.same_next,
          ),
          fetched
              ∙ ap ok
                  (ap₂ (created_meta (described_meta parse r source_id)) s.same_next s.same_now),
        )

    -- A request whose source is found, but which has a column that is reserved or of an unknown type
    -- or UCD, fails, and no table has changed.
    pub create_refuses :
        (r : CreateTableRequest) (db sourced : State V) (source_id : ℕ)
        → ensure_source_id is_bibcode ads int_of r.bibcode db ≡ ok (source_id, sourced)
        → has_bad_column check_ucd r ≡ true
        → (e : Error) × (left : State V) × (create meta units check_ucd is_bibcode ads int_of r db
            ≡ (failed e, left))
          × (left.registry ≡ db.registry)
          × (left.raw ≡ db.raw)
    unfolding create create_described domain_descriptions_to_data
    create_refuses r db sourced source_id found bad =
        let s =
          ensure_source_id-IsSourced is_bibcode ads int_of r.bibcode db sourced source_id found in
        elim (Bool-cases (any is_reserved r.columns)) [
          | inl some_reserved ↦
              let (e, refused) = check_names-reserved r.columns some_reserved in
              (e, sourced, ground (arith, found, refused), s.same_registry, s.same_raw)
          | inr none_reserved ↦
              let (e, refused) =
                requested_columns-invalid parse check_ucd r.columns
                  (ground (arith, bad, none_reserved)) in
              (
                e,
                sourced,
                ground (arith, found, check_names-ok r.columns none_reserved, refused),
                s.same_registry,
                s.same_raw,
              )
        ]
