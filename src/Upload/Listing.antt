-- ===== src/Upload/Listing.antt =====
-- `get_records` of app/adminapi/domain/table_upload.py: the records of a table with their
-- measurements (requests and responses: app/adminapi/presentation/records.py). The queries run in
-- threads and read only; one that fails makes the whole request fail. `V` are the values of cells, `R`
-- real numbers.
use db_app.Base.{
  ℕ, ◌*◌, String, Bool, true, false, ◌&&◌, ◌||◌, not, Option, none, some, List, [], ◌∷◌, map, Dict,
  string_eq, ◌==◌, is_some, if◌then◌else◌, update,
}
use mathlib.Core.Option
use db_app.Layer0.{Db}
use db_app.Layer1.ByRecord.{
  DesignationRecord, IcrsRecord, RedshiftRecord, NatureRecord, Layer1Tables,
  get_designation_records, get_icrs_records, get_redshift_records, get_nature_records,
}
use db_app.Tables.{Result, failed, ok, ◌>>=◌, rejected, State}
use db_app.Tables.Fetch.{Reading, RecordsQuery, TableRecord, fetch_records}
use db_app.Upload.Schemas.{
  Info, CatalogSchema, OriginalDataSchema, get_schema, build_catalog_schema, original_data_schema,
}

pub data UploadStatus : Type 0 where
  uploaded not_uploaded : UploadStatus

pub data CrossmatchTriageStatus : Type 0 where
  unprocessed pending resolved : CrossmatchTriageStatus

abbrev pub triage_text : CrossmatchTriageStatus → String
triage_text unprocessed = "unprocessed"
triage_text pending = "pending"
triage_text resolved = "resolved"

-- `CrossmatchTriageStatus(value)`; another text raises
abbrev pub triage_status_of : String → Result CrossmatchTriageStatus
triage_status_of value =
    if value == "unprocessed"
    then ok unprocessed
    else if value == "pending"
    then ok pending
    else if value == "resolved"
    then ok resolved
    else failed rejected

-- Pages are counted from 0; a negative page or size is an error of the database.
pub record GetRecordsRequest : Type 0 where
  pub table_name : String
  pub page : ℕ
  pub page_size : ℕ
  pub pgc : Option ℕ
  pub upload_status : Option UploadStatus
  pub triage_status : Option CrossmatchTriageStatus

abbrev pub has_pgc_of : Option UploadStatus → Option Bool
has_pgc_of none = none
has_pgc_of (some uploaded) = some true
has_pgc_of (some not_uploaded) = some false

abbrev pub is_uploaded : Option UploadStatus → Bool
is_uploaded none = false
is_uploaded (some uploaded) = true
is_uploaded (some not_uploaded) = false

-- `check_exclusive_pgc_filter` and `check_upload_status_and_triage_status`
unfoldable pub is_valid_request : GetRecordsRequest → Bool
is_valid_request r =
    not (is_some r.pgc && (is_some r.upload_status || is_some r.triage_status))
    && not (is_uploaded r.upload_status && is_some r.triage_status)

pub record IcrsValues (R : Type 0) : Type 0 where
  pub ra : R
  pub ra_error : R
  pub dec : R
  pub dec_error : R

pub record CatalogValues (R : Type 0) : Type 0 where
  pub designation : Option String
  pub icrs : Option (IcrsValues R)
  -- the redshift and its error
  pub redshift : Option (R × R)
  pub nature : Option String

pub record RecordInfo (V R : Type 0) : Type 0 where
  pub id : String
  pub original_data : Dict String (Option V)
  pub pgc : Option ℕ
  pub triage_status : CrossmatchTriageStatus
  pub candidates : List ℕ
  pub catalogs : CatalogValues R

pub record GetRecordsResponse (V R : Type 0) : Type 0 where
  pub records : List (RecordInfo V R)
  pub original_data : OriginalDataSchema
  pub catalogs : CatalogSchema

module _ {R : Type 0} where
  abbrev pub icrs_values : IcrsRecord R → IcrsValues R
  icrs_values ir = record { ra = ir.ra; ra_error = ir.e_ra; dec = ir.dec; dec_error = ir.e_dec }

  -- `cz_to_z` is `heliocentric_cz_to_z` of a velocity in km/s
  abbrev pub redshift_values : (R → R) → RedshiftRecord R → R × R
  redshift_values cz_to_z rr = (cz_to_z rr.cz, cz_to_z rr.e_cz)

  abbrev pub catalog_values :
      (R → R)
      → Option DesignationRecord
      → Option (IcrsRecord R)
      → Option (RedshiftRecord R)
      → Option NatureRecord
      → CatalogValues R
  catalog_values cz_to_z dr ir rr nr = record {
    designation = Option.map (λ d. d.design) dr;
    icrs = Option.map icrs_values ir;
    redshift = Option.map (redshift_values cz_to_z) rr;
    nature = Option.map (λ n. n.type_name) nr;
  }

module _ {V R : Type 0} where
  abbrev pub record_info : TableRecord V → CatalogValues R → Result (RecordInfo V R)
  record_info rec values = triage_status_of rec.triage_status >>= λ status. ok (record {
    id = rec.id;
    original_data = rec.original_data;
    pgc = rec.pgc;
    triage_status = status;
    candidates = rec.crossmatch_candidates;
    catalogs = values;
  })

  -- `zip(…, strict=True)`
  unfoldable pub record_infos :
      (R → R)
      → List (TableRecord V)
      → List (Option DesignationRecord)
      → List (Option (IcrsRecord R))
      → List (Option (RedshiftRecord R))
      → List (Option NatureRecord)
      → Result (List (RecordInfo V R))
  record_infos cz_to_z [] [] [] [] [] = ok []
  record_infos cz_to_z (rec ∷ recs) (dr ∷ drs) (ir ∷ irs) (rr ∷ rrs) (nr ∷ nrs) =
      record_info rec (catalog_values cz_to_z dr ir rr nr) >>= λ first.
      record_infos cz_to_z recs drs irs rrs nrs >>= λ rest. ok (first ∷ rest)
  record_infos cz_to_z recs drs irs rrs nrs = failed rejected

abbrev pub records_query : GetRecordsRequest → RecordsQuery
records_query r = record {
  limit = r.page_size;
  row_offset = r.page * r.page_size;
  order_direction = "asc";
  has_pgc = has_pgc_of r.upload_status;
  pgc_value = r.pgc;
  triage_status = Option.map triage_text r.triage_status;
}

-- with the conversion of a velocity to a redshift, and the default error of velocities
module _ {V R : Type 0} (cz_to_z : R → R) (default_e_cz : R) where
  unfoldable pub get_records :
      Reading V
      → State V
      → Db
      → Layer1Tables R
      → Info
      → List (String × String)
      → GetRecordsRequest
      → Result (GetRecordsResponse V R)
  unfolding record_infos get_schema original_data_schema build_catalog_schema
  get_records reading tables db layer1 info object_types r =
      fetch_records reading tables db r.table_name (records_query r) >>= λ raw_records.
      get_schema info "rawdata" r.table_name >>= λ schema_info.
      get_schema info "designation" "data" >>= λ designation_schema.
      get_schema info "icrs" "data" >>= λ icrs_schema.
      get_schema info "nature" "data" >>= λ nature_schema.
      (let record_ids = map (λ rec. rec.id) raw_records in
        record_infos cz_to_z raw_records (get_designation_records record_ids layer1)
          (get_icrs_records record_ids layer1) (get_redshift_records default_e_cz record_ids layer1)
          (get_nature_records record_ids layer1))
      >>= λ records_list. ok (record {
        records = records_list;
        original_data =
            original_data_schema (record { description = []; unit = []; ucd = [] })
              schema_info.columns;
        catalogs =
            build_catalog_schema designation_schema icrs_schema nature_schema
              (update [] object_types);
      })
