-- ===== src/Tests/Reading.antt =====
-- The theorems on lists that are grouped and read in batches, at concrete inputs.
use db_app.Base.{
  ℕ, String, ◌≡◌, refl, none, some, List, [], ◌∷◌, map, arith, nat_eq, string_eq, filter, flat_map,
  keys, lookup, unique_after, ltb,
}
use db_app.Containers.{group_by, read_batches}
use db_app.Containers.Group.{of_key, with_objects, group_by_groups}
use db_app.Containers.Batch.{is_empty, last_key, page, read_batches_complete}
use db_app.Layer1.{no_join, query_new_pgc_records}
use db_app.Layer1.Pages.{rows_of, updated_pgcs, query_new_pgc_records-page}
use db_app.Tests.{sample, names}

abbrev pairs : List (ℕ × String)
pairs = (5, "a") ∷ (9, "b") ∷ (5, "c") ∷ []

abbrev number : ℕ × String → ℕ
number row = row.0

group_by_groups_example :
    (keys (group_by pairs number) ≡ unique_after [] (map number pairs))
    × ((k : ℕ)
        → lookup k (group_by pairs number) ≡ with_objects number none (of_key number k pairs))
group_by_groups_example = group_by_groups number pairs

abbrev twice : ℕ → List ℕ
twice key = key ∷ key ∷ []

read_batches_complete_example :
    (batches : List (ℕ × List ℕ)) × (read_batches 4
        (page (λ n. n) (2 ∷ 3 ∷ 5 ∷ []) twice)
        is_empty
        2
        (last_key (λ n. n))
        1
      ≡ some batches)
    × (flat_map (λ b. b.1) batches ≡ flat_map twice (filter (ltb 2) (2 ∷ 3 ∷ 5 ∷ [])))
read_batches_complete_example =
    read_batches_complete (λ n. n) (2 ∷ 3 ∷ 5 ∷ []) twice 1 2 4
      ((omega arith, (omega arith, tt)), ((omega arith, tt), (tt, tt)))
      (
        record { row = 2; rest = 2 ∷ []; rows = refl; last = λ d. refl },
        (
          record { row = 3; rest = 3 ∷ []; rows = refl; last = λ d. refl },
          (record { row = 5; rest = 5 ∷ []; rows = refl; last = λ d. refl }, tt),
        ),
      )
      (omega arith) (omega arith)

query_new_pgc_records-page_example :
    query_new_pgc_records no_join sample names 10 1 5
    ≡ page (λ row. row.0) (updated_pgcs sample names 10) (rows_of no_join sample names) 1 5
query_new_pgc_records-page_example = query_new_pgc_records-page no_join sample names 10 1 5
