-- ===== src/Upload/Listed.antt =====
-- What the response to a request for records shows.
use mathlib.Core.Option
use db_app.Base.{
  ℕ, String, ◌≡◌, refl, ap, Bool, true, ◌&&◌, Option, none, List, [], ◌∷◌, map, arith, Dict,
  string_eq, ◌==◌, eq_of_beq, is_some, or_else, update, All, Option-cases, Bool-cases, inl, inr,
  sym,
}
use db_app.Layer0.{Db}
use db_app.Layer1.ByRecord.{
  DesignationRecord, NatureRecord, Layer1Tables, redshift_of, last_of, records_by_id-last_of,
  get_designation_records, get_icrs_records, get_redshift_records, get_nature_records,
}
use db_app.Tables.{Result, ok, State}
use db_app.Tables.Fetch.{Reading, TableRecord, fetch_records}
use db_app.Tables.Triage.{is_status}
use db_app.Upload.Schemas.{
  Info, TableSchemaInfo, column_schema, get_schema, original_data_schema, build_catalog_schema,
}
use db_app.Upload.Listing.{
  CrossmatchTriageStatus, unprocessed, pending, resolved, triage_text, triage_status_of,
  GetRecordsRequest, records_query, CatalogValues, catalog_values, icrs_values, redshift_values,
  RecordInfo, GetRecordsResponse, record_infos, get_records,
}

-- The table and the catalogs whose columns are described are there.
abbrev pub has_schemas : Info → String → Bool
has_schemas info table_name =
    is_some (info.table_info "rawdata" table_name)
    && (is_some (info.table_info "designation" "data")
        && (is_some (info.table_info "icrs" "data") && is_some (info.table_info "nature" "data")))

get_schema-ok :
    (info : Info) (schema_name table_name : String)
    → is_some (info.table_info schema_name table_name) ≡ true
    → (schema : TableSchemaInfo) × (get_schema info schema_name table_name ≡ ok schema)
unfolding get_schema
get_schema-ok info schema_name table_name h =
    elim (Option-cases (info.table_info schema_name table_name)) [
      | inl missing ↦ absurd (ground (arith, missing, h))
      | inr (description, found) ↦ (
        record {
          table_description = or_else description "";
          columns = map column_schema (info.column_info schema_name table_name);
        },
        rw (found, get_schema) refl,
      )
    ]

triage_status_of-ok :
    (value : String)
    → is_status value ≡ true
    → (status : CrossmatchTriageStatus) × (triage_status_of value ≡ ok status)
      × (triage_text status ≡ value)
triage_status_of-ok value h = elim (Bool-cases (value == "unprocessed")) [
  | inl first ↦ (unprocessed, rw first refl, sym (eq_of_beq value "unprocessed" first))
  | inr no_first ↦ elim (Bool-cases (value == "pending")) [
    | inl second ↦ (pending, rw (no_first, second) refl, sym (eq_of_beq value "pending" second))
    | inr no_second ↦
        let third : (value == "resolved") ≡ true = ground (arith, h, no_first, no_second) in
        (resolved, rw (no_first, no_second, third) refl, sym (eq_of_beq value "resolved" third))
  ]
]

module _ {R : Type 0} (cz_to_z : R → R) (default_e_cz : R) where
  -- what layer 1 has for a record: of each catalog the last of its rows
  abbrev pub values_of : Layer1Tables R → String → CatalogValues R
  values_of layer1 id = record {
    designation = last_of id layer1.designation none;
    icrs = Option.map icrs_values (last_of id layer1.icrs none);
    redshift =
        Option.map (λ row. redshift_values cz_to_z (redshift_of default_e_cz row))
          (last_of id layer1.cz none);
    nature = last_of id layer1.nature none;
  }

module _ {V R : Type 0} where
  -- the parts of a record in the response, and of a record of a page with these measurements
  abbrev pub shown_parts :
      RecordInfo V R
      → String × Dict String (Option V) × Option ℕ × String × List ℕ × CatalogValues R
  shown_parts i =
      (i.id, i.original_data, i.pgc, triage_text i.triage_status, i.candidates, i.catalogs)

  abbrev pub record_parts :
      (String → CatalogValues R)
      → TableRecord V
      → String × Dict String (Option V) × Option ℕ × String × List ℕ × CatalogValues R
  record_parts catalogs rec = (
    rec.id,
    rec.original_data,
    rec.pgc,
    rec.triage_status,
    rec.crossmatch_candidates,
    catalogs rec.id,
  )

abbrev pub designation_record : String → DesignationRecord
designation_record design = record { design = design }

abbrev pub nature_record : String → NatureRecord
nature_record type_name = record { type_name = type_name }

module _ {R : Type 0} (cz_to_z : R → R) (default_e_cz : R) (layer1 : Layer1Tables R) where
  catalog_values-values_of :
      (id : String)
      → catalog_values cz_to_z
          (Option.map designation_record (last_of id layer1.designation none))
          (Option.map (λ row. row) (last_of id layer1.icrs none))
          (Option.map (redshift_of default_e_cz) (last_of id layer1.cz none))
          (Option.map nature_record (last_of id layer1.nature none))
        ≡ values_of cz_to_z default_e_cz layer1 id
  catalog_values-values_of id =
      rw
        (
          Option.map-map (λ (d : DesignationRecord). d.design) designation_record
              (last_of id layer1.designation none),
          ap (λ f. f (last_of id layer1.designation none)) Option.map-id,
          ap (λ f. f (last_of id layer1.icrs none)) Option.map-id,
          Option.map-map (redshift_values cz_to_z) (redshift_of default_e_cz)
              (last_of id layer1.cz none),
          Option.map-map (λ (n : NatureRecord). n.type_name) nature_record
              (last_of id layer1.nature none),
          ap (λ f. f (last_of id layer1.nature none)) Option.map-id,
        )
        refl

module _ {V R : Type 0} (cz_to_z : R → R) (default_e_cz : R) (layer1 : Layer1Tables R) where
  abbrev infos_from : List (TableRecord V) → Result (List (RecordInfo V R))
  infos_from recs =
      record_infos cz_to_z recs
        (map (λ id. Option.map designation_record (last_of id layer1.designation none))
          (map (λ rec. rec.id) recs))
        (map (λ id. Option.map (λ row. row) (last_of id layer1.icrs none))
          (map (λ rec. rec.id) recs))
        (map (λ id. Option.map (redshift_of default_e_cz) (last_of id layer1.cz none))
          (map (λ rec. rec.id) recs))
        (map (λ id. Option.map nature_record (last_of id layer1.nature none))
          (map (λ rec. rec.id) recs))

  infos_from-shown :
      (recs : List (TableRecord V))
      → All (λ rec. is_status rec.triage_status ≡ true) recs
      → (infos : List (RecordInfo V R)) × (infos_from recs ≡ ok infos)
        × (map shown_parts infos ≡ map (record_parts (values_of cz_to_z default_e_cz layer1)) recs)
  unfolding record_infos
  infos_from-shown [] h = ([], refl, refl)
  infos_from-shown (rec ∷ recs) h =
      let (status, read, text) = triage_status_of-ok rec.triage_status h.0 in
      let (infos, e, parts) = infos_from-shown recs h.1 in
      (
        record {
          id = rec.id;
          original_data = rec.original_data;
          pgc = rec.pgc;
          triage_status = status;
          candidates = rec.crossmatch_candidates;
          catalogs = values_of cz_to_z default_e_cz layer1 rec.id;
        }
            ∷ infos,
        rw (catalog_values-values_of cz_to_z default_e_cz layer1 rec.id, read, e) refl,
        rw (text, parts) refl,
      )

  record_infos-shown :
      (recs : List (TableRecord V))
      → record_infos cz_to_z recs
          (get_designation_records (map (λ rec. rec.id) recs) layer1)
          (get_icrs_records (map (λ rec. rec.id) recs) layer1)
          (get_redshift_records default_e_cz (map (λ rec. rec.id) recs) layer1)
          (get_nature_records (map (λ rec. rec.id) recs) layer1)
        ≡ infos_from recs
  unfolding get_designation_records get_icrs_records get_redshift_records get_nature_records
  record_infos-shown recs =
      let ids = map (λ rec. rec.id) recs in
      rw
        (
          records_by_id-last_of designation_record ids layer1.designation,
          records_by_id-last_of (λ row. row) ids layer1.icrs,
          records_by_id-last_of (redshift_of default_e_cz) ids layer1.cz,
          records_by_id-last_of nature_record ids layer1.nature,
        )
        refl

  -- When the records of the page are fetched, with statuses that the response can show, and the
  -- table and the catalogs have descriptions, the response shows these records, in order, each with
  -- its data, its number and its crossmatch result as fetched and, of each catalog of layer 1, the
  -- last row of the record or nothing.
  pub get_records-shown :
      (reading : Reading V) (tables : State V) (db : Db) (info : Info)
      (object_types : List (String × String)) (r : GetRecordsRequest)
      (raw_records : List (TableRecord V))
      → fetch_records reading tables db r.table_name (records_query r) ≡ ok raw_records
      → All (λ rec. is_status rec.triage_status ≡ true) raw_records
      → has_schemas info r.table_name ≡ true
      → (response : GetRecordsResponse V R) × (get_records cz_to_z default_e_cz reading tables db
            layer1 info object_types r
          ≡ ok response)
        × (map shown_parts response.records
            ≡ map (record_parts (values_of cz_to_z default_e_cz layer1)) raw_records)
  unfolding get_records
  get_records-shown reading tables db info object_types r raw_records fetched statuses described =
      let (schema, e1) = get_schema-ok info "rawdata" r.table_name (ground (arith, described)) in
      let (designation, e2) = get_schema-ok info "designation" "data" (ground (arith, described)) in
      let (icrs, e3) = get_schema-ok info "icrs" "data" (ground (arith, described)) in
      let (nature, e4) = get_schema-ok info "nature" "data" (ground (arith, described)) in
      let (infos, e5, parts) = infos_from-shown raw_records statuses in
      (
        record {
          records = infos;
          original_data =
              original_data_schema (record { description = []; unit = []; ucd = [] })
                schema.columns;
          catalogs = build_catalog_schema designation icrs nature (update [] object_types);
        },
        rw (fetched, e1, e2, e3, e4, record_infos-shown raw_records, e5) refl,
        parts,
      )
