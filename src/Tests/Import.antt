-- ===== src/Tests/Import.antt =====
-- The theorems on the tasks of layer 2, at the sample tables.
use db_app.Base.{
  ℕ, Bool, String, ◌≡◌, refl, true, false, not, Option, some, List, [], ◌∷◌, map, arith, nat_eq,
  string_eq, length, contains, filter, any, keys, unique_after,
}
use db_app.Layer0.{DataType, regular, compilation}
use db_app.Layer1.{no_join, sort_distinct, insert_distinct}
use db_app.Layer1.Pages.{rows_of, updated_pgcs}
use db_app.Tasks.{
  each_group, vote, majority_vote_by_pgc, Layer2, has_source, finalize_catalog, save, run_import,
  exclude_compilations_with_primary,
}
use db_app.Tasks.Vote.{count, IsFirstMax, vote_elects}
use db_app.Tasks.Primary.{pgcs_of, exclude_keeps_pgcs}
use db_app.Tasks.Groupwise.{majority_vote-IsGroupwise}
use db_app.Tasks.Import.{to_import, run_import_complete}
use db_app.Tasks.Order.{run_import_batch_size}
use mathlib.Core.List.{Permᴰ}
use db_app.Tasks.Orphans.{finalize_catalog_orphans, run_import_skips}
use db_app.Tasks.Cleanup.{Catalog, run_cleanup, orphaned_in, kept_in, run_cleanup_keeps}
use db_app.Base.{◌+◌, Dict}
use db_app.Tasks.AllCatalogs.{Task, run_layer2_import, Import, run_layer2_import-Import}
use db_app.Tests.{sample, names, saved_names, options, groups, groups-GroupsByKey}

abbrev vote_names : List (ℕ × String) → Option (List (ℕ × String))
vote_names = majority_vote_by_pgc groups

abbrev as_is : String → String
as_is name = name

run_import_complete_example :
    (ws : List (ℕ × String)) × (each_group vote
        (map (rows_of no_join sample names) (to_import sample names saved_names options))
      ≡ some ws)
    × (map (λ w. w.0) ws ≡ to_import sample names saved_names options)
    × (run_import no_join vote_names as_is 9 options sample names saved_names ≡ (
        let (final, orphans) =
          finalize_catalog options sample names
            (record saved_names { table = save as_is ws saved_names.table }) in
        some (final, length ws, orphans)))
unfolding updated_pgcs sort_distinct insert_distinct
run_import_complete_example =
    run_import_complete no_join vote_names vote
      (majority_vote-IsGroupwise groups groups-GroupsByKey) as_is 9 sample
      (λ id r v found. (v, refl)) names saved_names options (omega arith) (omega arith)

-- the same rows in another order
abbrev other_names : List (String × String)
other_names = ("a", "M 1") ∷ ("a", "NGC 1952") ∷ ("b", "M 1") ∷ ("e", "M 31") ∷ ("c", "M 33") ∷ []

run_import_batch_size_example :
    run_import no_join vote_names as_is 9 options sample names saved_names
    ≡ run_import no_join vote_names as_is 9
        (record options { batch_size = 500 })
        sample
        other_names
        saved_names
unfolding updated_pgcs sort_distinct insert_distinct rows_of vote
run_import_batch_size_example =
    run_import_batch_size no_join vote_names vote
      (majority_vote-IsGroupwise groups groups-GroupsByKey) as_is 9 sample
      (λ id r v found. (v, refl)) names other_names saved_names options 500
      (Permᴰ.cons refl (Permᴰ.swap refl refl)) (refl, (refl, tt)) (omega arith) (omega arith)
      (omega arith)

finalize_catalog_orphans_example :
    ((finalize_catalog options sample names saved_names).0 ≡ record {
      table = filter (λ row. has_source sample names row.0) saved_names.table;
      last_update = 300;
    })
    × ((finalize_catalog options sample names saved_names).1
        ≡ length (filter (λ pgc. not (has_source sample names pgc)) (keys saved_names.table)))
finalize_catalog_orphans_example = finalize_catalog_orphans options sample names saved_names refl

-- what the run of the first witness returns
abbrev final : Layer2 String
final = record { table = (5, "M 1") ∷ (9, "M 31") ∷ []; last_update = 300 }

run_import_skips_example :
    contains (to_import (record sample { pgcs = (5, 250) ∷ [] }) names final options) 5 ≡ false
unfolding run_import insert_distinct majority_vote_by_pgc
run_import_skips_example =
    run_import_skips no_join vote_names as_is 9 options sample names saved_names final 2 1
      (record sample { pgcs = (5, 250) ∷ [] }) names options 5 250 refl refl refl refl (omega arith)

abbrev catalogs : List (Catalog String String)
catalogs =
    record { layer1_table = names; table = (5, "M 1") ∷ (6, "lost") ∷ [] }
    ∷ record { layer1_table = []; table = (5, "Sb") ∷ [] }
    ∷ []

run_cleanup_keeps_example :
    (run_cleanup true sample catalogs).0
    ≡ map (kept_in (λ pgc. not (any (orphaned_in sample pgc) catalogs))) catalogs
run_cleanup_keeps_example = run_cleanup_keeps true sample catalogs

vote_elects_example :
    (w : String) × (vote ((5, "M 1") ∷ (5, "NGC 1952") ∷ (5, "NGC 1952") ∷ []) ≡ some (5, w))
    × IsFirstMax
        (λ v. count v ("M 1" ∷ "NGC 1952" ∷ "NGC 1952" ∷ []))
        (unique_after [] ("M 1" ∷ "NGC 1952" ∷ "NGC 1952" ∷ []))
        w
vote_elects_example = vote_elects (5, "M 1") ((5, "NGC 1952") ∷ (5, "NGC 1952") ∷ [])

abbrev observed : List (ℕ × (String × DataType))
observed = (5, ("M 1", compilation)) ∷ (5, ("M 1", regular)) ∷ (9, ("M 31", compilation)) ∷ []

exclude_keeps_pgcs_example :
    contains (pgcs_of (exclude_compilations_with_primary observed)) 9
    ≡ contains (pgcs_of observed) 9
exclude_keeps_pgcs_example = exclude_keeps_pgcs observed 9

abbrev adding : ℕ → ℕ → ℕ × Bool
adding n table = (table + n, true)

-- a task that saves a part and then raises
abbrev stopping : ℕ → ℕ × Bool
stopping table = (table + 1, false)

abbrev tasks : Dict String (Task ℕ)
tasks = ("icrs", adding 1) ∷ ("nature", stopping) ∷ ("redshift", adding 3) ∷ []

run_layer2_import-Import_example :
    Import tasks []
      ("redshift" ∷ "nature" ∷ "icrs" ∷ [])
      (λ c. 0)
      (run_layer2_import tasks ("icrs" ∷ []) ("redshift" ∷ "nature" ∷ "icrs" ∷ []) (λ c. 0))
run_layer2_import-Import_example =
    run_layer2_import-Import tasks ("icrs" ∷ []) ("redshift" ∷ "nature" ∷ "icrs" ∷ []) (λ c. 0) refl
      refl
