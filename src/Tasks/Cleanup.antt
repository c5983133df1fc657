-- ===== src/Tasks/Cleanup.antt =====
-- app/tasks/layer2_orphan_cleanup.py: the rows of numbers without a source leave the catalogs.
use db_app.Base.{
  ℕ, String, ◌+◌, ◌≡◌, refl, ap, ◌∙◌, Bool, true, false, ◌&&◌, not, List, [], ◌∷◌, map, Dict,
  nat_eq, length, contains, contains-append, contains-filter, filter, any, flat_map, foldl, keys,
  if◌then◌else◌,
}
use db_app.Layer0.{Db}
use db_app.Layer1.{sort_distinct}
use db_app.Layer1.Pages.{contains-sort_distinct}
use db_app.Tasks.{has_source, get_orphaned_pgcs, remove_pgcs}

-- A catalog of the list `catalogs`, with its rows of layer 1 and of layer 2. One type of values
-- serves for all of the catalogs.
pub record Catalog (V W : Type 0) : Type 0 where
  pub layer1_table : List (String × V)
  pub table : Dict ℕ W

filter_by :
    {W : Type 0} (p q : ℕ → Bool) (same : (k : ℕ) → p k ≡ q k) (table : Dict ℕ W)
    → filter (λ row. p row.0) table ≡ filter (λ row. q row.0) table
filter_by p q same [] = refl
filter_by p q same (row ∷ rows) = rw (same row.0, filter_by p q same rows)

module _ {V W : Type 0} where
  abbrev pub orphans_of : Db → Catalog V W → List ℕ
  orphans_of db catalog = get_orphaned_pgcs db catalog.layer1_table catalog.table

  abbrev pub remove_from : List ℕ → Catalog V W → Catalog V W
  remove_from pgcs catalog = record catalog { table = remove_pgcs pgcs catalog.table }

  -- `Layer2OrphanCleanupTask.run`: the catalogs after it, and the total that it logs
  unfoldable pub run_cleanup : Bool → Db → List (Catalog V W) → List (Catalog V W) × ℕ
  unfolding get_orphaned_pgcs remove_pgcs sort_distinct
  run_cleanup write db catalogs =
      let orphaned = map (orphans_of db) catalogs in
      let total = foldl (λ n pgcs. n + length pgcs) 0 orphaned in
      let pgcs_to_remove = sort_distinct (flat_map (λ pgcs. pgcs) orphaned) in
      ((if write then map (remove_from pgcs_to_remove) catalogs else catalogs), total)

  -- a row of the number in the catalog has no source there
  abbrev pub orphaned_in : Db → ℕ → Catalog V W → Bool
  orphaned_in db pgc catalog =
      contains (keys catalog.table) pgc && not (has_source db catalog.layer1_table pgc)

  contains-orphans :
      (db : Db) (pgc : ℕ) (catalogs : List (Catalog V W))
      → contains (flat_map (λ pgcs. pgcs) (map (orphans_of db) catalogs)) pgc
        ≡ any (orphaned_in db pgc) catalogs
  unfolding get_orphaned_pgcs
  contains-orphans db pgc [] = refl
  contains-orphans db pgc (c ∷ cs) =
      contains-append (orphans_of db c) (flat_map (λ pgcs. pgcs) (map (orphans_of db) cs)) pgc
      ∙ rw (
        contains-filter (λ p. not (has_source db c.layer1_table p)) (keys c.table) pgc,
        contains-orphans db pgc cs,
      )

  -- the rows of the catalog whose numbers pass a test
  abbrev pub kept_in : (ℕ → Bool) → Catalog V W → Catalog V W
  kept_in test catalog = record catalog { table = filter (λ row. test row.0) catalog.table }

  map_remove :
      (p q : ℕ → Bool) (same : (k : ℕ) → p k ≡ q k) (catalogs : List (Catalog V W))
      → map (kept_in p) catalogs ≡ map (kept_in q) catalogs
  map_remove p q same [] = refl
  map_remove p q same (c ∷ cs) = rw (filter_by p q same c.table, map_remove p q same cs)

  -- With `write`, each catalog keeps, in order, the rows of the numbers that are orphaned in no catalog of
  -- the list: a row with a source goes too, if its number is orphaned in another catalog. Without
  -- it nothing changes.
  pub run_cleanup_keeps :
      (write : Bool) (db : Db) (catalogs : List (Catalog V W))
      → (run_cleanup write db catalogs).0 ≡ (
          if write
          then map (kept_in (λ pgc. not (any (orphaned_in db pgc) catalogs))) catalogs
          else catalogs)
  unfolding run_cleanup remove_pgcs
  run_cleanup_keeps false db catalogs = refl
  run_cleanup_keeps true db catalogs =
      map_remove _ (λ pgc. not (any (orphaned_in db pgc) catalogs))
        (λ pgc. ap not (
          contains-sort_distinct pgc (flat_map (λ pgcs. pgcs) (map (orphans_of db) catalogs))
          ∙ contains-orphans db pgc catalogs))
        catalogs
