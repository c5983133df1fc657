-- ===== src/Search/Objects.antt =====
-- Objects of layer 2 by number (app/data/repositories/layer2/repository.py, `query_pgc` and the
-- queries of its catalogs; app/data/model/layer2.py; app/data/model/interface.py). `R` are the real
-- numbers; a column that can be NULL is an option. The queries of an object run in threads and read
-- only; a query that fails makes the whole call fail.
use db_app.Base.{
  ℕ, String, Bool, true, false, Option, none, some, List, [], ◌∷◌, ◌++◌, map, Dict, nat_eq,
  string_eq, leb, or_else, lookup, insert, update, contains, foldl, flat_map, take, drop,
  if◌then◌else◌,
}

pub data RawCatalog : Type 0 where
  icrs designation additional_designations redshift nature photometry_total photometry_isophotal :
      RawCatalog
  geometry spectroscopy_integrated_flux_density spectroscopy_energy_flux kinematics_line_width :
      RawCatalog
  note : RawCatalog

unfoldable pub catalog_value : RawCatalog → String
catalog_value icrs = "icrs"
catalog_value designation = "designation"
catalog_value additional_designations = "additional_designations"
catalog_value redshift = "redshift"
catalog_value nature = "nature"
catalog_value photometry_total = "photometry_total"
catalog_value photometry_isophotal = "photometry_isophotal"
catalog_value geometry = "geometry"
catalog_value spectroscopy_integrated_flux_density = "spectroscopy_integrated_flux_density"
catalog_value spectroscopy_energy_flux = "spectroscopy_energy_flux"
catalog_value kinematics_line_width = "kinematics_line_width"
catalog_value note = "note"

-- `catalog in catalogs`; the values of an enumeration are distinct
unfoldable pub is_asked : RawCatalog → List RawCatalog → Bool
unfolding catalog_value
is_asked catalog catalogs = contains (map catalog_value catalogs) (catalog_value catalog)

pub record Source : Type 0 where
  pub bibcode : String
  pub title : String
  pub authors : List String
  pub year : ℕ

-- the columns of a source; `author` is null, a list, or the text of another value
pub data Author : Type 0 where
  nobody : Author
  several : List String → Author
  single : String → Author

pub record SourceRow : Type 0 where
  pub code : Option String
  pub title : Option String
  pub author : Author
  pub year : Option ℕ

abbrev pub authors_of : Author → List String
authors_of nobody = []
authors_of (several authors) = authors
authors_of (single author) = author ∷ []

-- `_source_from_row`
abbrev pub source_from_row : SourceRow → Source
source_from_row row = record {
  bibcode = or_else row.code "";
  title = or_else row.title "";
  authors = authors_of row.author;
  year = or_else row.year 0;
}

-- a name or a note with its source
pub record Sourced : Type 0 where
  pub words : String
  pub source : Source

pub record SourcedRow : Type 0 where
  pub words : Option String
  pub source : SourceRow

abbrev pub sourced : SourcedRow → Sourced
sourced row = record { words = or_else row.words ""; source = source_from_row row.source }

module _ (R : Type 0) where
  pub record Coordinates : Type 0 where
    pub ra : R
    pub e_ra : R
    pub dec : R
    pub e_dec : R

  pub record CoordinatesRow : Type 0 where
    pub ra : Option R
    pub e_ra : Option R
    pub dec : Option R
    pub e_dec : Option R

  pub record Measurement : Type 0 where
    pub band : String
    pub magsys : Option String
    pub method : String
    pub wavelength : R
    pub mag : R
    pub e_mag : Option R

  pub record Catalogs : Type 0 where
    pub designation : Option String
    pub additional_designations : Option (List Sourced)
    pub icrs : Option Coordinates
    pub redshift : Option (R × R)
    pub nature : Option String
    pub notes : Option (List Sourced)
    pub photometry_total : Option (List Measurement)

  pub record Layer2Object : Type 0 where
    pub pgc : ℕ
    pub catalogs : Catalogs

  -- The tables and views, each in the order of its query; a number has one row in the first four.
  pub record Layer2Tables : Type 0 where
    pub designation : List (ℕ × String)
    pub icrs : List (ℕ × CoordinatesRow)
    pub cz : List (ℕ × (Option R × Option R))
    pub nature : List (ℕ × Option String)
    pub designations : List (ℕ × SourcedRow)
    pub notes : List (ℕ × SourcedRow)
    pub photometry_total : List (ℕ × Measurement)

-- `{pgc: … for row in rows if …}` on `WHERE pgc = ANY(pgcs)`
module _ {A B : Type 0} (convert : A → Option B) where
  abbrev pub chosen : List ℕ → ℕ × A → List (ℕ × B)
  chosen pgcs (pgc, row) =
      if contains pgcs pgc then elim (convert row) [ none ↦ [] | some b ↦ (pgc, b) ∷ [] ] else []

  unfoldable pub query_one : List ℕ → List (ℕ × A) → Dict ℕ B
  query_one [] rows = []
  query_one (pgc ∷ pgcs) rows = update [] (flat_map (chosen (pgc ∷ pgcs)) rows)

-- `result.setdefault(pgc, []).append(…)`
module _ {A B : Type 0} (convert : A → B) where
  unfoldable pub append_row : List ℕ → Dict ℕ (List B) → ℕ × A → Dict ℕ (List B)
  append_row pgcs result (pgc, row) =
      if contains pgcs pgc
      then insert pgc (or_else (lookup pgc result) [] ++ convert row ∷ []) result
      else result

  unfoldable pub query_many : List ℕ → List (ℕ × A) → Dict ℕ (List B)
  unfolding append_row
  query_many [] rows = []
  query_many (pgc ∷ pgcs) rows = foldl (append_row (pgc ∷ pgcs)) [] rows

module _ {R : Type 0} where
  -- the rows whose columns are all there
  abbrev pub coordinates : CoordinatesRow R → Option (Coordinates R)
  coordinates row = all_of row.ra row.e_ra row.dec row.e_dec
    where
      all_of : Option R → Option R → Option R → Option R → Option (Coordinates R)
      all_of (some ra) (some e_ra) (some dec) (some e_dec) =
          some (record { ra = ra; e_ra = e_ra; dec = dec; e_dec = e_dec })
      all_of ra e_ra dec e_dec = none

  abbrev pub both_there : Option R × Option R → Option (R × R)
  both_there (some cz, some e_cz) = some (cz, e_cz)
  both_there (cz, e_cz) = none

-- `task.result() if task is not None else {}`
abbrev pub if_asked : {A : Type 0} → Bool → Dict ℕ A → Dict ℕ A
if_asked true result = result
if_asked false result = []

abbrev pub get_if : {A : Type 0} → Bool → Option A → Option A
get_if true a = a
get_if false a = none

-- `sorted`
unfoldable pub insert_number : ℕ → List ℕ → List ℕ
insert_number x [] = x ∷ []
insert_number x (y ∷ ys) =
    let further = y ∷ insert_number x ys in if leb x y then x ∷ y ∷ ys else further

unfoldable pub sorted_numbers : List ℕ → List ℕ
unfolding insert_number
sorted_numbers [] = []
sorted_numbers (x ∷ xs) = insert_number x (sorted_numbers xs)

module _ {R : Type 0} where
  unfoldable pub layer2_object : List RawCatalog → Layer2Tables R → List ℕ → ℕ → Layer2Object R
  unfolding is_asked query_one query_many
  layer2_object catalogs tables pgcs pgc = record {
    pgc = pgc;
    catalogs = record {
      designation = get_if (is_asked designation catalogs) (
          lookup pgc
            (if_asked (is_asked designation catalogs) (query_one some pgcs tables.designation)));
      additional_designations = get_if (is_asked additional_designations catalogs) (
          lookup pgc (
            if_asked (is_asked additional_designations catalogs)
              (query_many sourced pgcs tables.designations)));
      icrs =
          get_if (is_asked icrs catalogs) (
            lookup pgc
              (if_asked (is_asked icrs catalogs) (query_one coordinates pgcs tables.icrs)));
      redshift = get_if (is_asked redshift catalogs) (
          lookup pgc (if_asked (is_asked redshift catalogs) (query_one both_there pgcs tables.cz)));
      nature = get_if (is_asked nature catalogs) (
          lookup pgc (if_asked (is_asked nature catalogs) (query_one (λ t. t) pgcs tables.nature)));
      notes =
          get_if (is_asked note catalogs)
            (lookup pgc (if_asked (is_asked note catalogs) (query_many sourced pgcs tables.notes)));
      photometry_total = get_if (is_asked photometry_total catalogs) (
          lookup pgc (
            if_asked (is_asked photometry_total catalogs)
              (query_many (λ m. m) pgcs tables.photometry_total)));
    };
  }

  unfoldable pub query_pgc :
      List RawCatalog → List ℕ → ℕ → ℕ → Layer2Tables R → List (Layer2Object R)
  unfolding layer2_object sorted_numbers
  query_pgc [] pgc_numbers limit offset tables = []
  query_pgc (catalog ∷ catalogs) pgc_numbers limit offset tables =
      let pgcs_page = take limit (drop offset (sorted_numbers pgc_numbers)) in
      map (layer2_object (catalog ∷ catalogs) tables pgcs_page) pgcs_page
