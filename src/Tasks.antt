-- ===== src/Tasks.antt =====
-- app/tasks: the import tasks of layer 2 and the orphan cleanup. A task reads layers 0 and 1, which
-- do not change while it runs, and writes one table of layer 2. `none` is an exception, or fuel
-- that ran out. Logging and `print_table` are left out, but for the numbers that they show.
pub mod Vote
pub mod Primary
pub mod Aggregate
pub mod Catalogs
pub mod Groupwise
pub mod Saving
pub mod Import
pub mod Order
pub mod Orphans
pub mod Cleanup
pub mod AllCatalogs
use mathlib.Core.Option
use db_app.Base.{
  ℕ, zero, suc, ◌+◌, Bool, true, false, ◌&&◌, ◌||◌, not, Option, none, some, String, List, [], ◌∷◌,
  ◌++◌, map, Dict, nat_eq, string_eq, Eq, ◌==◌, ltb, length, lookup, insert, update, keys, or_else,
  is_some, contains, filter, any, foldl, flat_map, if◌then◌else◌,
}
use db_app.Containers.{read_batches}
use db_app.Containers.Batch.{last_key, is_empty}
use db_app.Layer0.{Db, Record, DataType, compilation}
use db_app.Layer1.{join_table, no_join, query_new_pgc_records}

-- layer2_common.py

module _ {V : Type 0} ⦃e : Eq V⦄ where
  unfoldable pub count_value : Dict V ℕ → V → Dict V ℕ
  count_value counts key = insert key (or_else (lookup key counts) 0 + 1) counts

  -- `max(counts, key=…)`: the first of the keys with the largest count
  unfoldable pub max_from : V → ℕ → Dict V ℕ → V
  max_from best n [] = best
  max_from best n ((key, m) ∷ counts) =
      max_from (if ltb n m then key else best) (if ltb n m then m else n) counts

  unfoldable pub max_key : Dict V ℕ → Option V
  unfolding max_from
  max_key [] = none
  max_key ((key, n) ∷ counts) = some (max_from key n counts)

  -- one round of the loop over the groups
  unfoldable pub vote : List (ℕ × V) → Option (ℕ × V)
  unfolding count_value max_key
  vote [] = none
  vote (row ∷ group) =
      Option.map (λ value. (row.0, value))
        (max_key (foldl count_value [] (map (λ r. r.1) (row ∷ group))))

abbrev pub prepend : {W : Type 0} → Option W → Option (List W) → Option (List W)
prepend none rest = none
prepend (some row) none = none
prepend (some row) (some rows) = some (row ∷ rows)

-- a loop over groups, each of which gives one row or raises
unfoldable pub each_group : {R W : Type 0} → (R → Option W) → List R → Option (List W)
each_group f [] = some []
each_group f (group ∷ groups) = prepend (f group) (each_group f groups)

-- The two lists that the source returns are one list of pairs.
unfoldable pub majority_vote_by_pgc :
    {V : Type 0} ⦃e : Eq V⦄
    → (List (ℕ × V) → List (List (ℕ × V)))
    → List (ℕ × V)
    → Option (List (ℕ × V))
unfolding each_group vote
majority_vote_by_pgc group_by tbl = each_group vote (group_by tbl)

abbrev pub is_compilation : {V : Type 0} → ℕ × (V × DataType) → Bool
is_compilation row = elim row.1.1 [ compilation ↦ true | _ ↦ false ]

abbrev pub has_primary : {V : Type 0} → List (ℕ × (V × DataType)) → ℕ × (V × DataType) → Bool
has_primary tbl row = contains (map (λ r. r.0) (filter (λ r. not (is_compilation r)) tbl)) row.0

unfoldable pub exclude_compilations_with_primary :
    {V : Type 0} → List (ℕ × (V × DataType)) → List (ℕ × (V × DataType))
exclude_compilations_with_primary tbl =
    filter (λ row. not (is_compilation row) || not (has_primary tbl row)) tbl

unfoldable pub import_summary_rows : ℕ → ℕ → Bool → List (String × ℕ)
import_summary_rows objects_count orphans_count dry_run =
    if dry_run
    then ("Objects to be saved", objects_count) ∷ ("Orphans to be deleted", orphans_count) ∷ []
    else ("Objects saved", objects_count) ∷ ("Orphans deleted", orphans_count) ∷ []

-- One table of layer 2, by its primary key `pgc`, and the catalog's row of `layer2.last_update`.
pub record Layer2 (W : Type 0) : Type 0 where
  pub table : Dict ℕ W
  pub last_update : ℕ

-- The arguments of a task. `clock` is what `datetime.now` returns when the task ends.
pub record Options : Type 0 where
  pub batch_size : ℕ
  pub dry_run : Bool
  pub since : Option ℕ
  pub cleanup_orphans : Bool
  pub clock : ℕ

abbrev pub is_number : ℕ → Option ℕ → Bool
is_number pgc none = false
is_number pgc (some p) = p == pgc

abbrev pub owns : ℕ → Option Record → Bool
owns pgc none = false
owns pgc (some r) = is_number pgc r.pgc

-- The `NOT EXISTS` of `get_orphaned_pgcs`: a row of layer 1 whose record has the number.
unfoldable pub has_source : {V : Type 0} → Db → List (String × V) → ℕ → Bool
has_source db layer1_table pgc = any (λ row. owns pgc (lookup row.0 db.records)) layer1_table

unfoldable pub get_orphaned_pgcs : {V W : Type 0} → Db → List (String × V) → Dict ℕ W → List ℕ
unfolding has_source
get_orphaned_pgcs db layer1_table table =
    filter (λ pgc. not (has_source db layer1_table pgc)) (keys table)

-- `DELETE … WHERE pgc = ANY(pgcs)`
unfoldable pub remove_pgcs : {W : Type 0} → List ℕ → Dict ℕ W → Dict ℕ W
remove_pgcs pgcs table = filter (λ row. not (contains pgcs row.0)) table

unfoldable pub finalize_catalog :
    {V W : Type 0} → Options → Db → List (String × V) → Layer2 W → Layer2 W × ℕ
unfolding get_orphaned_pgcs remove_pgcs
finalize_catalog options db layer1_table layer2 =
    let orphans =
      if options.cleanup_orphans then get_orphaned_pgcs db layer1_table layer2.table else [] in
    let kept = if not options.dry_run then remove_pgcs orphans layer2.table else layer2.table in
    (
      (if options.dry_run then layer2 else record { table = kept; last_update = options.clock }),
      length orphans,
    )

-- `Layer2Repository.save`: units are converted, then the rows are upserted by their number.
unfoldable pub save : {W : Type 0} → (W → W) → List (ℕ × W) → Dict ℕ W → Dict ℕ W
save convert rows table = update table (map (λ row. (row.0, convert row.1)) rows)

-- The body of the loop over the batches, with the count `objects_to_save`.
unfoldable pub process_batch :
    {B W : Type 0}
    → (List (ℕ × B) → Option (List (ℕ × W)))
    → (W → W)
    → Bool
    → Option (Dict ℕ W × ℕ)
    → ℕ × List (ℕ × B)
    → Option (Dict ℕ W × ℕ)
unfolding save
process_batch aggregate convert dry_run none batch = none
process_batch aggregate convert dry_run (some (table, count)) (offset, tbl) = elim (aggregate tbl) [
  | none ↦ none
  | some agg ↦ some ((if dry_run then table else save convert agg table), count + length agg)
]

abbrev pub save_batches :
    {B W : Type 0}
    → (List (ℕ × B) → Option (List (ℕ × W)))
    → (W → W)
    → Bool
    → Dict ℕ W
    → Option (List (ℕ × List (ℕ × B)))
    → Option (Dict ℕ W × ℕ)
save_batches aggregate convert dry_run table none = none
save_batches aggregate convert dry_run table (some batches) =
    foldl (process_batch aggregate convert dry_run) (some (table, 0)) batches

abbrev pub finish :
    {V W : Type 0}
    → Options
    → Db
    → List (String × V)
    → Layer2 W
    → Option (Dict ℕ W × ℕ)
    → Option (Layer2 W × ℕ × ℕ)
finish options db layer1_table layer2 none = none
finish options db layer1_table layer2 (some (table, objects_to_save)) =
    let (final, orphans_to_delete) =
      finalize_catalog options db layer1_table (record layer2 { table = table }) in
    some (final, objects_to_save, orphans_to_delete)

-- `run` of the four import tasks, which differ in the query, the aggregation and the table. The
-- result has the new state of layer 2, the number of saved objects and that of orphans.
unfoldable pub run_import :
    {V B W : Type 0}
    → (Db → Record → V → Option B)
    → (List (ℕ × B) → Option (List (ℕ × W)))
    → (W → W)
    → ℕ
    → Options
    → Db
    → List (String × V)
    → Layer2 W
    → Option (Layer2 W × ℕ × ℕ)
unfolding process_batch read_batches query_new_pgc_records finalize_catalog
run_import extra_join aggregate convert fuel options db layer1_table layer2 =
    let last_update_dt = or_else options.since layer2.last_update in
    let batches =
      read_batches fuel (query_new_pgc_records extra_join db layer1_table last_update_dt) is_empty 0
        (last_key (λ row. row.0)) options.batch_size in
    finish options db layer1_table layer2
      (save_batches aggregate convert options.dry_run layer2.table batches)
