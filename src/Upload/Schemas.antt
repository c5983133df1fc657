-- ===== src/Upload/Schemas.antt =====
-- The descriptions of columns that are shown with records: `get_schema` of
-- app/data/repositories/common.py, `_column_meta` and `_build_catalog_schema` of
-- app/adminapi/domain/table_upload.py, and the loop over the columns in `get_records`.
use db_app.Base.{
  String, Option, none, some, List, [], ◌∷◌, map, Dict, string_eq, ◌==◌, or_else, insert,
  if◌then◌else◌,
}
use db_app.Tables.{internal_id_column, no_row, Result, failed, ok}

-- the objects in the comments of columns
pub record ColumnComment : Type 0 where
  pub description : Option String
  pub unit : Option String
  pub ucd : Option String

-- The views `meta.table_info` and `meta.column_info`, by schema and table: the description of a table
-- that is there, if it has one, and its columns with their comments.
pub record Info : Type 0 where
  pub table_info : String → String → Option (Option String)
  pub column_info : String → String → List (String × Option ColumnComment)

pub record ColumnSchemaInfo : Type 0 where
  pub name : String
  pub description : Option String
  pub unit : Option String
  pub ucd : Option String

pub record TableSchemaInfo : Type 0 where
  pub table_description : String
  pub columns : List ColumnSchemaInfo

abbrev pub column_schema : String × Option ColumnComment → ColumnSchemaInfo
column_schema (name, none) = record { name = name; description = none; unit = none; ucd = none }
column_schema (name, some param) = record {
  name = name;
  description = param.description;
  unit = param.unit;
  ucd = param.ucd;
}

unfoldable pub get_schema : Info → String → String → Result TableSchemaInfo
get_schema info schema_name table_name = elim (info.table_info schema_name table_name) [
  | none ↦ failed no_row
  | some description ↦ ok (record {
    table_description = or_else description "";
    columns = map column_schema (info.column_info schema_name table_name);
  })
]

-- the description and the unit of a column
unfoldable pub column_meta : List ColumnSchemaInfo → String → String × String
column_meta [] name = ("", "")
column_meta (c ∷ columns) name =
    let rest = column_meta columns name in
    if c.name == name then (or_else c.description "", or_else c.unit "") else rest

pub record IcrsTexts : Type 0 where
  pub ra : String
  pub ra_error : String
  pub dec : String
  pub dec_error : String

-- `RecordCatalogSchema`, with the texts of its parts
pub record CatalogSchema : Type 0 where
  pub designation_name : String
  pub icrs_unit : IcrsTexts
  pub icrs_description : IcrsTexts
  pub redshift_z : String
  pub redshift_z_error : String
  pub nature_type_name : String
  pub nature_types : Dict String String

unfoldable pub build_catalog_schema :
    TableSchemaInfo → TableSchemaInfo → TableSchemaInfo → Dict String String → CatalogSchema
unfolding column_meta
build_catalog_schema designation_schema icrs_schema nature_schema nature_object_types =
    let (design_desc, design_unit) = column_meta designation_schema.columns "design" in
    let (ra_desc, ra_unit) = column_meta icrs_schema.columns "ra" in
    let (e_ra_desc, e_ra_unit) = column_meta icrs_schema.columns "e_ra" in
    let (dec_desc, dec_unit) = column_meta icrs_schema.columns "dec" in
    let (e_dec_desc, e_dec_unit) = column_meta icrs_schema.columns "e_dec" in
    let (type_name_desc, type_name_unit) = column_meta nature_schema.columns "type_name" in
    record {
      designation_name = design_desc;
      icrs_unit = record {
        ra = ra_unit;
        ra_error = e_ra_unit;
        dec = dec_unit;
        dec_error = e_dec_unit;
      };
      icrs_description = record {
        ra = ra_desc;
        ra_error = e_ra_desc;
        dec = dec_desc;
        dec_error = e_dec_desc;
      };
      redshift_z = "Heliocentric redshift";
      redshift_z_error = "Heliocentric redshift error";
      nature_type_name = type_name_desc;
      nature_types = nature_object_types;
    }

pub record OriginalDataSchema : Type 0 where
  pub description : Dict String String
  pub unit : Dict String String
  pub ucd : Dict String String

abbrev pub set_text : String → Option String → Dict String String → Dict String String
set_text name none texts = texts
set_text name (some value) texts = insert name value texts

-- one round of the loop over the columns
abbrev pub add_column : OriginalDataSchema → ColumnSchemaInfo → OriginalDataSchema
add_column schema col = if col.name == internal_id_column then schema else record {
  description = set_text col.name col.description schema.description;
  unit = set_text col.name col.unit schema.unit;
  ucd = set_text col.name col.ucd schema.ucd;
}

unfoldable pub original_data_schema :
    OriginalDataSchema → List ColumnSchemaInfo → OriginalDataSchema
original_data_schema schema [] = schema
original_data_schema schema (col ∷ columns) = original_data_schema (add_column schema col) columns
