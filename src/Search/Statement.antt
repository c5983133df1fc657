-- ===== src/Search/Statement.antt =====
-- The placeholders and the parameters of the statement of a batch.
use db_app.Base.{
  Option-cases, inl, inr, ℕ, String, ◌+◌, ◌≡◌, refl, sym, ap, ◌∙◌, not, Option, none, some, List,
  [], ◌∷◌, ◌++◌, map, arith, Dict, string_eq, ◌==◌, length, length-append, filter, flat_map,
}
use db_app.Search.{
  Piece, text, placeholder, Param, number, Filter, join, get_query, get_params, CatalogTable,
  SearchParams, Ordering, ordering_query, ordering_params, value_lines, value_params, columns_of,
  using_pgc,
}
use db_app.Search.Batch.{
  joined_tables, choose_driving, condition_of, condition_params, statement, with_params,
  construct_batch_query,
}
use db_app.Search.Placeholders.{
  placeholders, in_all, placeholders-append, placeholders-join, closed, placeholders-get_query,
}

in_all-value_lines :
    (R : Type 0) (searches : Dict String SearchParams)
    → in_all (value_lines searches) ≡ length (value_params {R = R} searches)
in_all-value_lines R [] = refl
in_all-value_lines R (search ∷ searches) = omega (arith, in_all-value_lines R searches)

in_all-append : (a b : List (List Piece)) → in_all (a ++ b) ≡ in_all a + in_all b
in_all-append [] b = omega arith
in_all-append (part ∷ a) b = omega (arith, in_all-append a b)

in_all-columns :
    (catalog : CatalogTable) (columns : List String)
    → in_all (
        map
          (λ column.
            text catalog.table
            ∷ text "."
            ∷ text column
            ∷ text " AS \""
            ∷ text catalog.value
            ∷ text "|"
            ∷ text column
            ∷ text "\""
            ∷ [])
          columns)
      ≡ 0
in_all-columns catalog [] = refl
in_all-columns catalog (column ∷ columns) = omega (arith, in_all-columns catalog columns)

in_all-columns_of : (catalogs : List CatalogTable) → in_all (flat_map columns_of catalogs) ≡ 0
in_all-columns_of [] = refl
in_all-columns_of (catalog ∷ catalogs) =
    in_all-append (columns_of catalog) (flat_map columns_of catalogs)
    ∙ omega (
      arith,
      in_all-append _ (
          (text "CASE WHEN "
            ∷ text catalog.table
            ∷ text ".pgc IS NOT NULL THEN true ELSE false END AS \""
            ∷ text catalog.value
            ∷ text "|_present\""
            ∷ [])
          ∷ []),
      in_all-columns catalog catalog.keys,
      in_all-columns_of catalogs,
    )

in_all-using_pgc : (tables : List String) → in_all (map using_pgc tables) ≡ 0
in_all-using_pgc [] = refl
in_all-using_pgc (table ∷ tables) = omega (arith, in_all-using_pgc tables)

placeholders-joined_tables :
    (driving : Option String) (tables : List String) (pieces : List Piece)
    → joined_tables driving tables ≡ some pieces
    → placeholders pieces ≡ 0
unfolding joined_tables
placeholders-joined_tables (some driving) tables pieces h =
    let others = filter (λ table. not (table == driving)) tables in
    let same : join " LEFT JOIN " ((text driving ∷ []) ∷ map using_pgc others) ≡ pieces = cc h in
    rw (sym same) (
      placeholders-join " LEFT JOIN " ((text driving ∷ []) ∷ map using_pgc others)
      ∙ omega (arith, in_all-using_pgc others))
placeholders-joined_tables none [] pieces h = absurd (cc h)
placeholders-joined_tables none (table ∷ tables) pieces h =
    let same : join " FULL JOIN " ((text table ∷ []) ∷ map using_pgc tables) ≡ pieces = cc h in
    rw (sym same) (
      placeholders-join " FULL JOIN " ((text table ∷ []) ∷ map using_pgc tables)
      ∙ omega (arith, in_all-using_pgc tables))

in_all-conditions :
    {R : Type 0} (types : Dict String (Filter R))
    → in_all (map condition_of types) ≡ length (condition_params types)
unfolding condition_of condition_params
in_all-conditions [] = refl
in_all-conditions (entry ∷ types) = omega (
  arith,
  closed (get_query entry.1) ")",
  placeholders-get_query entry.1,
  in_all-conditions types,
  length-append (get_params entry.1) (condition_params types),
)

placeholders-ordering :
    {R : Type 0} (ordering : Option (Ordering R))
    → placeholders (ordering_query ordering) ≡ length (ordering_params ordering)
placeholders-ordering none = refl
placeholders-ordering (some ordering) = refl

with_params-some :
    {R : Type 0} (params ps : List (Param R)) (o : Option (List Piece)) (pieces : List Piece)
    → with_params params o ≡ some (pieces, ps)
    → (o ≡ some pieces) × (params ≡ ps)
with_params-some params ps none pieces h = absurd (cc h)
with_params-some params ps (some found) pieces h =
    let both : ◌≡◌ {A = List Piece × List (Param _)} (found, params) (pieces, ps) = cc h in
    (ap (λ b. some b.0) both, ap (λ b. b.1) both)

-- the parts of the statement, and the two placeholders of the limit and the offset
placeholders-statement :
    {R : Type 0} (search_params : Dict String SearchParams) (catalogs : List CatalogTable)
    (types : Dict String (Filter R)) (ordering : Option (Ordering R)) (joined pieces : List Piece)
    → placeholders joined ≡ 0
    → statement search_params catalogs types ordering (some joined) ≡ some pieces
    → placeholders pieces
      ≡ in_all (value_lines search_params)
        + (length (condition_params types) + (length (ordering_params ordering) + 2))
unfolding statement
placeholders-statement search_params catalogs types ordering joined pieces closed_join h =
    let tail =
      ordering_query ordering
      ++ (text " LIMIT " ∷ placeholder ∷ text " OFFSET " ∷ placeholder ∷ []) in
    let where_part = join " OR " (map condition_of types) ++ (text " " ∷ tail) in
    let from_part = joined ++ (text " WHERE " ∷ where_part) in
    let columns =
      join "," (flat_map columns_of catalogs)
      ++ (text " FROM search_params sp CROSS JOIN " ∷ from_part) in
    let values_part = join "," (value_lines search_params) in
    let head =
      text ") AS t(record_id, search_type, params)) SELECT sp.record_id, pgc, " ∷ columns in
    let same : text "WITH search_params AS (SELECT * FROM (VALUES " ∷ values_part ++ head ≡ pieces =
      cc h in
    sym (ap placeholders same)
    ∙ omega (
      arith,
      placeholders-append values_part head,
      placeholders-append (join "," (flat_map columns_of catalogs))
          (text " FROM search_params sp CROSS JOIN " ∷ from_part),
      placeholders-append joined (text " WHERE " ∷ where_part),
      placeholders-append (join " OR " (map condition_of types)) (text " " ∷ tail),
      placeholders-append (ordering_query ordering)
          (text " LIMIT " ∷ placeholder ∷ text " OFFSET " ∷ placeholder ∷ []),
      placeholders-join "," (value_lines search_params),
      placeholders-join "," (flat_map columns_of catalogs),
      placeholders-join " OR " (map condition_of types),
      in_all-columns_of catalogs,
      in_all-conditions types,
      placeholders-ordering ordering,
      closed_join,
    )

-- The statement of a batch has as many placeholders as it has parameters, for all filters, however
-- they are nested, and all searches, catalogs and orderings.
pub construct_batch_query-params :
    {R : Type 0} (catalogs : List CatalogTable) (search_types : Dict String (Filter R))
    (search_params : Dict String SearchParams) (limit offset : ℕ) (ordering : Option (Ordering R))
    (pieces : List Piece) (params : List (Param R))
    → construct_batch_query catalogs search_types search_params limit offset ordering
      ≡ some (pieces, params)
    → placeholders pieces ≡ length params
unfolding construct_batch_query statement
construct_batch_query-params {R} catalogs search_types [] limit offset ordering pieces params h =
    let both : ◌≡◌ {A = List Piece × List (Param R)}
        (text "SELECT NULL as record_id, NULL as pgc WHERE FALSE" ∷ [], []) (pieces, params) =
      cc h in
    ap (λ b. placeholders b.0) (sym both) ∙ ap (λ b. length b.1) both
construct_batch_query-params {R} catalogs search_types (search ∷ searches) limit offset ordering
      pieces params h =
    elim (Option-cases
      (joined_tables (choose_driving search_types) (map (λ catalog. catalog.table) catalogs))) [
        | inl missing ↦
            let nothing : none ≡ some pieces = rw (missing, statement) at stated.0 in
            absurd (cc nothing)
        | inr (joined, e) ↦
            let written : statement (search ∷ searches) catalogs search_types ordering (some joined)
                ≡ some pieces =
              ap (statement (search ∷ searches) catalogs search_types ordering) (sym e)
              ∙ stated.0 in
            placeholders-statement (search ∷ searches) catalogs search_types ordering joined pieces
              (placeholders-joined_tables _ _ joined e) written
            ∙ omega (
              arith,
              in_all-value_lines R (search ∷ searches),
              length-append (value_params {R = R} (search ∷ searches)) (
                  condition_params search_types
                  ++ (ordering_params ordering ++ (number limit ∷ number offset ∷ []))),
              length-append (condition_params search_types)
                  (ordering_params ordering ++ (number limit ∷ number offset ∷ [])),
              length-append (ordering_params ordering) (number limit ∷ number offset ∷ []),
            )
            ∙ ap length stated.1
      ]
  where
    stated :
        (statement
            (search ∷ searches)
            catalogs
            search_types
            ordering
            (joined_tables (choose_driving search_types) (map (λ catalog. catalog.table) catalogs))
          ≡ some pieces)
        × (value_params (search ∷ searches)
              ++ (condition_params search_types
                  ++ (ordering_params ordering ++ (number limit ∷ number offset ∷ [])))
            ≡ params)
    stated = with_params-some _ params _ pieces h
