-- ===== src/Search/Batch.antt =====
-- `_construct_batch_query`: the statement of a batch of searches, with its parameters.
use db_app.Base.{
  ℕ, String, not, Option, none, some, List, [], ◌∷◌, ◌++◌, map, Dict, nat_eq, string_eq, ◌==◌,
  filter, flat_map,
}
use db_app.Search.{
  Piece, text, placeholder, Param, number, Filter, join, get_query, get_params, driving_table,
  only_table, CatalogTable, SearchParams, Ordering, ordering_query, ordering_params, value_lines,
  value_params, columns_of, using_pgc,
}

-- `FROM search_params sp CROSS JOIN …`; `none` is the index out of range of `table_names[0]`
unfoldable pub joined_tables : Option String → List String → Option (List Piece)
unfolding join
joined_tables (some driving) table_names = some (
    join " LEFT JOIN "
      ((text driving ∷ []) ∷ map using_pgc (filter (λ table. not (table == driving)) table_names)))
joined_tables none [] = none
joined_tables none (table ∷ tables) =
    some (join " FULL JOIN " ((text table ∷ []) ∷ map using_pgc tables))

module _ {R : Type 0} where
  -- the table of the join, if the filters of the search types agree on one
  unfoldable pub choose_driving : Dict String (Filter R) → Option String
  unfolding only_table driving_table
  choose_driving search_types = only_table (map (λ entry. driving_table entry.1) search_types)

  unfoldable pub condition_of : String × Filter R → List Piece
  unfolding get_query
  condition_of entry =
      text "(sp.search_type = '" ∷ text entry.0 ∷ text "' AND " ∷ get_query entry.1 ++ text ")" ∷ []

  unfoldable pub condition_params : Dict String (Filter R) → List (Param R)
  unfolding get_params
  condition_params [] = []
  condition_params (entry ∷ entries) = get_params entry.1 ++ condition_params entries

  unfoldable pub statement :
      Dict String SearchParams
      → List CatalogTable
      → Dict String (Filter R)
      → Option (Ordering R)
      → Option (List Piece)
      → Option (List Piece)
  unfolding join condition_of
  statement search_params catalogs search_types ordering none = none
  statement search_params catalogs search_types ordering (some joined) = some (
      text "WITH search_params AS (SELECT * FROM (VALUES " ∷ join "," (value_lines search_params)
      ++ (text ") AS t(record_id, search_type, params)) SELECT sp.record_id, pgc, "
            ∷ join "," (flat_map columns_of catalogs)
          ++ (text " FROM search_params sp CROSS JOIN " ∷ joined
              ++ (text " WHERE " ∷ join " OR " (map condition_of search_types)
                  ++ (text " " ∷ ordering_query ordering
                      ++ (text " LIMIT " ∷ placeholder ∷ text " OFFSET " ∷ placeholder ∷ []))))))

  abbrev pub with_params :
      List (Param R) → Option (List Piece) → Option (List Piece × List (Param R))
  with_params params none = none
  with_params params (some pieces) = some (pieces, params)

  unfoldable pub construct_batch_query :
      List CatalogTable
      → Dict String (Filter R)
      → Dict String SearchParams
      → ℕ
      → ℕ
      → Option (Ordering R)
      → Option (List Piece × List (Param R))
  unfolding statement joined_tables choose_driving condition_params
  construct_batch_query catalogs search_types [] limit offset ordering =
      some (text "SELECT NULL as record_id, NULL as pgc WHERE FALSE" ∷ [], [])
  construct_batch_query catalogs search_types (search ∷ searches) limit offset ordering =
      with_params
        (value_params (search ∷ searches)
          ++ (condition_params search_types
              ++ (ordering_params ordering ++ (number limit ∷ number offset ∷ []))))
        (statement (search ∷ searches) catalogs search_types ordering
          (joined_tables (choose_driving search_types) (map (λ catalog. catalog.table) catalogs)))
