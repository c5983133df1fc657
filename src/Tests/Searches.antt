-- ===== src/Tests/Searches.antt =====
-- The theorems on searches, at a batch of two types of search.
use db_app.Base.{
  ℕ, String, ◌≡◌, refl, true, Option, none, some, List, [], ◌∷◌, Dict, length, unique_after,
  string_eq, ◌==◌,
}
use db_app.Search.{
  Piece, Param, words, number, real, Filter, pgc_one_of, and_filter, or_filter,
  coordinates_in_radius, nil, cons, CatalogTable, SearchParams,
}
use db_app.Search.Objects.{RawCatalog, icrs, designation, nature}
use db_app.Search.Catalogs.{
  Outcome, first_bad, resolve_query_catalogs, resolve_query_catalogs-Outcome,
}
use db_app.Search.Batch.{construct_batch_query}
use db_app.Search.Placeholders.{placeholders}
use db_app.Search.Statement.{construct_batch_query-params}
use db_app.Search.Driving.{Row}

abbrev types : Dict String (Filter ℕ)
types =
    ("cone", and_filter (cons (pgc_one_of (5 ∷ 9 ∷ [])) (cons (coordinates_in_radius 3) nil)))
    ∷ ("near", or_filter (cons (coordinates_in_radius 1) (cons (coordinates_in_radius 2) nil)))
    ∷ []

abbrev searches : Dict String SearchParams
searches = ("a", record { name = "cone"; params = "{}" }) ∷ []

abbrev catalogs : List CatalogTable
catalogs = record { value = "icrs"; table = "layer2.icrs"; keys = "ra" ∷ "dec" ∷ [] } ∷ []

-- the statement that the batch makes, with its parameters
abbrev batch : Option (List Piece × List (Param ℕ))
unfolding construct_batch_query
batch = construct_batch_query catalogs types searches 10 0 none

abbrev pieces_of : Option (List Piece × List (Param ℕ)) → List Piece
pieces_of none = []
pieces_of (some made) = made.0

abbrev params : List (Param ℕ)
params =
    words "a"
    ∷ words "cone"
    ∷ words "{}"
    ∷ number 5
    ∷ number 9
    ∷ real 3
    ∷ real 1
    ∷ real 2
    ∷ number 10
    ∷ number 0
    ∷ []

construct_batch_query-params_example : placeholders (pieces_of batch) ≡ length params
unfolding batch
construct_batch_query-params_example =
    construct_batch_query-params catalogs types searches 10 0 none (pieces_of batch) params refl

abbrev rows : List (Row ℕ)
rows =
    record { pgc = 5; has = λ table. table == "layer2.icrs"; says = λ f. true }
    ∷ record { pgc = 9; has = λ table. table == "layer2.designation"; says = λ f. true }
    ∷ []

abbrev asked_names : List String
asked_names = "icrs" ∷ "nature" ∷ "icrs" ∷ []

abbrev default_catalogs : List RawCatalog
default_catalogs = designation ∷ icrs ∷ nature ∷ []

resolve_query_catalogs-Outcome_example :
    Outcome
      (first_bad default_catalogs asked_names)
      (unique_after [] asked_names)
      (resolve_query_catalogs (some asked_names) default_catalogs)
resolve_query_catalogs-Outcome_example =
    resolve_query_catalogs-Outcome default_catalogs asked_names (λ same. cc same)
