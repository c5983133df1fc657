-- ===== src/Search.antt =====
-- The search filters of layer 2 and the statement that a batch of searches makes
-- (app/data/repositories/layer2/filters.py, params.py, and `_construct_batch_query` of
-- repository.py). A statement is a list of pieces: text, and the placeholders `%s`.
pub mod Batch
pub mod Placeholders
pub mod Statement
pub mod Driving
pub mod Objects
pub mod Queried
pub mod Catalogs
use db_app.Base.{
  ℕ, zero, suc, String, Bool, true, false, ◌&&◌, ◌||◌, not, Option, none, some, List, [], ◌∷◌, ◌++◌,
  map, Dict, nat_eq, string_eq, ◌==◌, contains, filter, flat_map, length, if◌then◌else◌,
}

pub data Piece : Type 0 where
  text : String → Piece
  placeholder : Piece

-- what is bound to a placeholder; `real` numbers are those of a parameter type
pub data Param (R : Type 0) : Type 0 where
  number : ℕ → Param R
  words : String → Param R
  real : R → Param R

module _ (R : Type 0) where
  mutual
    pub data Filter : Type 0 where
      pgc_one_of : List ℕ → Filter
      and_filter : Filters → Filter
      or_filter : Filters → Filter
      designation_equals : String → Filter
      designation_close : ℕ → Filter
      designation_like : Filter
      -- with the radius in meters
      coordinates_in_radius : R → Filter

    pub data Filters : Type 0 where
      nil : Filters
      cons : Filter → Filters → Filters

-- `separator.join(parts)`
unfoldable pub join : String → List (List Piece) → List Piece
join separator [] = []
join separator (part ∷ []) = part
join separator (part ∷ next ∷ parts) = part ++ text separator ∷ join separator (next ∷ parts)

-- `… or "1=1"`
abbrev pub or_true : List Piece → List Piece
or_true [] = text "1=1" ∷ []
or_true (piece ∷ pieces) = piece ∷ pieces

abbrev pub in_parens : List Piece → List Piece
in_parens pieces = text "(" ∷ pieces ++ text ")" ∷ []

abbrev pub marks : List ℕ → List (List Piece)
marks [] = []
marks (pgc ∷ pgcs) = (placeholder ∷ []) ∷ marks pgcs

module _ {R : Type 0} where
  unfoldable mutual
    unfolding join

    pub get_query : Filter R → List Piece
    get_query (pgc_one_of pgcs) = text "pgc IN (" ∷ join ", " (marks pgcs) ++ text ")" ∷ []
    get_query (and_filter filters) = or_true (join " AND " (get_queries filters))
    get_query (or_filter filters) = or_true (join " OR " (get_queries filters))
    get_query (designation_equals designation) = text "designation.design = " ∷ placeholder ∷ []
    get_query (designation_close distance) =
        text "levenshtein_less_equal(layer2.designation.design, sp.params->>'design', "
        ∷ placeholder
        ∷ text ") < "
        ∷ placeholder
        ∷ []
    get_query designation_like =
        text "layer2.designations.design ILIKE CONCAT('%%', sp.params->>'design', '%%')" ∷ []
    get_query (coordinates_in_radius radius) =
        text
          "ST_DWithin(ST_MakePoint((sp.params->>'ra')::float, (sp.params->>'dec')::float)::geography, ST_MakePoint(layer2.icrs.ra, layer2.icrs.dec)::geography, "
        ∷ placeholder
        ∷ text ", false)"
        ∷ []

    pub get_queries : Filters R → List (List Piece)
    get_queries nil = []
    get_queries (cons f filters) = in_parens (get_query f) ∷ get_queries filters

  unfoldable mutual
    pub get_params : Filter R → List (Param R)
    get_params (pgc_one_of pgcs) = map number pgcs
    get_params (and_filter filters) = all_params filters
    get_params (or_filter filters) = all_params filters
    get_params (designation_equals designation) = words designation ∷ []
    get_params (designation_close distance) = number distance ∷ number distance ∷ []
    get_params designation_like = []
    get_params (coordinates_in_radius radius) = real radius ∷ []

    pub all_params : Filters R → List (Param R)
    all_params nil = []
    all_params (cons f filters) = get_params f ++ all_params filters

abbrev pub same_table : Option String → Option String → Bool
same_table none none = true
same_table none (some b) = false
same_table (some a) none = false
same_table (some a) (some b) = a == b

-- `tables.pop() if len(tables) == 1`, for the set of these tables
unfoldable pub only_table : List (Option String) → Option String
only_table [] = none
only_table (t ∷ []) = t
only_table (t ∷ next ∷ tables) =
    let rest = only_table (next ∷ tables) in
    if same_table t next then (if same_table t rest then t else none) else none

-- the first of the tables that is not None
abbrev pub first_table : Option String → Option String → Option String
first_table none rest = rest
first_table (some t) rest = some t

module _ {R : Type 0} where
  unfoldable mutual
    unfolding only_table

    pub driving_table : Filter R → Option String
    driving_table (pgc_one_of pgcs) = none
    driving_table (and_filter filters) = first_driving_table filters
    driving_table (or_filter filters) = only_table (driving_tables filters)
    driving_table (designation_equals designation) = some "layer2.designation"
    driving_table (designation_close distance) = some "layer2.designation"
    driving_table designation_like = some "layer2.designations"
    driving_table (coordinates_in_radius radius) = some "layer2.icrs"

    pub first_driving_table : Filters R → Option String
    first_driving_table nil = none
    first_driving_table (cons f filters) =
        first_table (driving_table f) (first_driving_table filters)

    pub driving_tables : Filters R → List (Option String)
    driving_tables nil = []
    driving_tables (cons f filters) = driving_table f ∷ driving_tables filters

-- A catalog with its table of layer 2, and a search with the name of its type and its parameters as
-- JSON.
pub record CatalogTable : Type 0 where
  pub value : String
  pub table : String
  pub keys : List String

pub record SearchParams : Type 0 where
  pub name : String
  pub params : String

-- `ICRSDistanceOrdering`
pub record Ordering (R : Type 0) : Type 0 where
  pub ra : R
  pub dec : R

abbrev pub ordering_query : {R : Type 0} → Option (Ordering R) → List Piece
ordering_query none = []
ordering_query (some ordering) =
    text "ORDER BY ST_Distance(ST_MakePoint("
    ∷ placeholder
    ∷ text ", "
    ∷ placeholder
    ∷ text ")::geography, ST_MakePoint(layer2.icrs.ra, layer2.icrs.dec)::geography, false), pgc"
    ∷ []

abbrev pub ordering_params : {R : Type 0} → Option (Ordering R) → List (Param R)
ordering_params none = []
ordering_params (some ordering) = real ordering.ra ∷ real ordering.dec ∷ []

abbrev pub value_lines : Dict String SearchParams → List (List Piece)
value_lines [] = []
value_lines (search ∷ searches) =
    (text "("
      ∷ placeholder
      ∷ text ", "
      ∷ placeholder
      ∷ text ", "
      ∷ placeholder
      ∷ text "::jsonb)"
      ∷ [])
    ∷ value_lines searches

abbrev pub value_params : {R : Type 0} → Dict String SearchParams → List (Param R)
value_params [] = []
value_params ((record_id, search) ∷ searches) =
    words record_id ∷ words search.name ∷ words search.params ∷ value_params searches

abbrev pub columns_of : CatalogTable → List (List Piece)
columns_of catalog =
    map
      (λ column.
        text catalog.table
        ∷ text "."
        ∷ text column
        ∷ text " AS \""
        ∷ text catalog.value
        ∷ text "|"
        ∷ text column
        ∷ text "\""
        ∷ [])
      catalog.keys
    ++ (text "CASE WHEN "
        ∷ text catalog.table
        ∷ text ".pgc IS NOT NULL THEN true ELSE false END AS \""
        ∷ text catalog.value
        ∷ text "|_present\""
        ∷ [])
      ∷ []

abbrev pub using_pgc : String → List Piece
using_pgc table = text table ∷ text " USING (pgc)" ∷ []
