-- ===== src/Tasks/Orphans.antt =====
-- `finalize_catalog`: which rows it removes, and what the next import reads.
use db_app.Base.{
  ℕ, String, ◌≤◌, ◌≡◌, refl, sym, ap, ◌∙◌, Bool, true, false, not, Option, none, some, List, [],
  ◌∷◌, map, arith, Dict, nat_eq, ltb, length, contains, contains-filter, filter, keys, All, All-map,
  All-contains-keys, lookup, or_else, if◌then◌else◌,
}
use db_app.Layer0.{Db, Record}
use db_app.Layer1.{joined, no_join, modified_since}
use db_app.Layer1.Pages.{updated_pgcs, contains-sort_distinct}
use db_app.Tasks.{
  Layer2, Options, has_source, get_orphaned_pgcs, remove_pgcs, finalize_catalog, finish, run_import,
}
use db_app.Tasks.Import.{to_import}

filter_congr :
    {W : Type 0} (p q : ℕ × W → Bool) (rows : List (ℕ × W))
    → All (λ row. p row ≡ q row) rows
    → filter p rows ≡ filter q rows
filter_congr p q [] h = refl
filter_congr p q (row ∷ rows) h = rw (h.0, filter_congr p q rows h.1)

-- Removing the keys that fail a test keeps the rows whose keys pass it.
pub remove_pgcs-filter :
    {W : Type 0} (test : ℕ → Bool) (table : Dict ℕ W)
    → remove_pgcs (filter (λ pgc. not (test pgc)) (keys table)) table
      ≡ filter (λ row. test row.0) table
unfolding remove_pgcs
remove_pgcs-filter test table =
    filter_congr _ (λ row. test row.0) table
      (All-map _ _ (λ row h. kept row.0 h) table (All-contains-keys table))
  where
    kept :
        (pgc : ℕ)
        → contains (keys table) pgc ≡ true
        → not (contains (filter (λ pgc'. not (test pgc')) (keys table)) pgc) ≡ test pgc
    kept pgc h = rw (contains-filter (λ pgc'. not (test pgc')) (keys table) pgc, h) (ground arith)

-- Unless it is a dry run, a task that cleans up leaves exactly the rows of numbers that some record
-- with a row of layer 1 has, in the order in which they were, and dates the catalog to the clock. A
-- dry run changes nothing. Both count the numbers that no such record has.
pub finalize_catalog_orphans :
    {V W : Type 0} (options : Options) (db : Db) (layer1_table : List (String × V))
    (layer2 : Layer2 W)
    → options.cleanup_orphans ≡ true
    → ((finalize_catalog options db layer1_table layer2).0 ≡ (
        if options.dry_run then layer2 else record {
          table = filter (λ row. has_source db layer1_table row.0) layer2.table;
          last_update = options.clock;
        }))
      × ((finalize_catalog options db layer1_table layer2).1
          ≡ length (filter (λ pgc. not (has_source db layer1_table pgc)) (keys layer2.table)))
unfolding finalize_catalog get_orphaned_pgcs
finalize_catalog_orphans options db layer1_table layer2 cleanup =
    ground (arith, cleanup, remove_pgcs-filter (has_source db layer1_table) layer2.table)

last_update-finish :
    {V W : Type 0} (options : Options) (db : Db) (layer1_table : List (String × V))
    (layer2 : Layer2 W) (o : Option (Dict ℕ W × ℕ)) (final : Layer2 W) (saved orphans : ℕ)
    → options.dry_run ≡ false
    → finish options db layer1_table layer2 o ≡ some (final, saved, orphans)
    → final.last_update ≡ options.clock
unfolding finalize_catalog
last_update-finish options db layer1_table layer2 none final saved orphans wet ran = absurd (cc)
last_update-finish options db layer1_table layer2 (some (table, n)) final saved orphans wet ran =
    let ended : (finalize_catalog options db layer1_table (record layer2 { table = table })).0
        ≡ final =
      cc (ran) in
    sym (ap (λ l. l.last_update) ended) ∙ rw wet

-- Whatever the tables hold by then, the import after a run that was no dry run skips each number
-- whose last modification is no later than the end of that run, also if it came after the run had
-- read the number.
pub run_import_skips :
    {V B W : Type 0} (extra_join : Db → Record → V → Option B)
    (aggregate : List (ℕ × B) → Option (List (ℕ × W))) (convert : W → W) (fuel : ℕ)
    (options : Options) (db : Db) (layer1_table : List (String × V)) (layer2 : Layer2 W)
    (final : Layer2 W) (saved orphans : ℕ) (db' : Db) (layer1_table' : List (String × V))
    (options' : Options) (pgc time : ℕ)
    → run_import extra_join aggregate convert fuel options db layer1_table layer2
      ≡ some (final, saved, orphans)
    → options.dry_run ≡ false
    → options'.since ≡ none
    → lookup pgc db'.pgcs ≡ some time
    → time ≤ options.clock
    → contains (to_import db' layer1_table' final options') pgc ≡ false
unfolding updated_pgcs run_import
run_import_skips extra_join aggregate convert fuel options db layer1_table layer2 final saved
      orphans db' layer1_table' options' pgc time ran wet since found early =
    let dated : final.last_update ≡ options.clock =
      last_update-finish options db layer1_table layer2 _ final saved orphans wet ran in
    let late : modified_since db' (or_else options'.since final.last_update) pgc ≡ false =
      rw (since, dated) (ground (arith, found, early)) in
    contains-filter (ltb 0)
      (updated_pgcs db' layer1_table' (or_else options'.since final.last_update)) pgc
    ∙ rw
        (
          contains-sort_distinct pgc (
              filter (modified_since db' (or_else options'.since final.last_update))
                (map (λ row. row.0) (joined no_join db' layer1_table'))),
          contains-filter (modified_since db' (or_else options'.since final.last_update))
              (map (λ row. row.0) (joined no_join db' layer1_table')) pgc,
          late,
        )
        (ground arith)
