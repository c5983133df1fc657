-- ===== src/Tasks/Import.antt =====
-- What an import task leaves in layer 2.
use mathlib.Core.List.{map-append}
use db_app.Base.{
  ℕ, String, ◌+◌, ◌<◌, ◌≡◌, refl, sym, ap, ◌∙◌, Bool, Option, some, List, [], ◌∷◌, ◌++◌, map, arith,
  Dict, nat_eq, length, filter, All, All-map, All-filter, flat_map, foldl, or_else, ltb, fun_ext,
  if◌then◌else◌,
}
use db_app.Containers.{read_batches}
use db_app.Containers.Batch.{
  Ascending, page, IsKeyed, is_empty, last_key, chunks, flatten-chunks, read_batches_pages,
  filter-Ascending, chunks-Ascending, All-chunks,
}
use db_app.Layer0.{Db, Record}
use db_app.Layer1.{query_new_pgc_records}
use db_app.Layer1.Pages.{
  rows_of, updated_pgcs, query_new_pgc_records-page, JoinsAll, updated_pgcs-IsKeyed,
  updated_pgcs-Ascending,
}
use db_app.Tasks.{
  each_group, Layer2, Options, finalize_catalog, save, process_batch, run_import, save_batches,
  finish,
}
use db_app.Tasks.Aggregate.{OfKey}
use db_app.Tasks.Groupwise.{IsGroupwise}
use db_app.Tasks.Saving.{each_group-append, All-filter_key, saved, saved_twice}

module _ {B W : Type 0} (aggregate : List (ℕ × B) → Option (List (ℕ × W)))
    (of_group : List (ℕ × B) → Option (ℕ × W)) (groupwise : IsGroupwise aggregate of_group)
    (rows : ℕ → List (ℕ × B)) where
  each_group-rows :
      (ts : List ℕ)
      → All (OfKey rows) ts
      → (ws : List (ℕ × W)) × (each_group of_group (map rows ts) ≡ some ws)
        × (map (λ r. r.0) ws ≡ ts)
  unfolding each_group
  each_group-rows [] of = ([], refl, refl)
  each_group-rows (t ∷ ts) of =
      let (w, e) = groupwise.on_group rows t of.0 in
      let (ws, es, keyed) = each_group-rows ts of.1 in ((t, w) ∷ ws, rw (e, es), rw keyed)

  -- The loop over the batches saves the rows of all their numbers, in order.
  foldl-process_batch :
      (convert : W → W) (dry_run : Bool) (batches : List (ℕ × List (ℕ × B))) (cs : List (List ℕ))
      (table : Dict ℕ W) (n : ℕ)
      → map (λ b. b.1) batches ≡ map (flat_map rows) cs
      → All Ascending cs
      → All (All (OfKey rows)) cs
      → (ws : List (ℕ × W)) × (each_group of_group (map rows (flat_map (λ (c : List ℕ). c) cs))
          ≡ some ws)
        × (foldl (process_batch aggregate convert dry_run) (some (table, n)) batches
            ≡ some ((if dry_run then table else save convert ws table), n + length ws))
  unfolding process_batch each_group save
  foldl-process_batch convert dry_run [] [] table n e asc of = ([], refl, ground arith)
  foldl-process_batch convert dry_run [] (c ∷ cs) table n e asc of = absurd (cc)
  foldl-process_batch convert dry_run (b ∷ bs) [] table n e asc of = absurd (cc)
  foldl-process_batch convert dry_run ((offset, tbl) ∷ bs) (c ∷ cs) table n e asc of =
      let saved = if dry_run then table else save convert ws table in
      let (ws', es', ran) =
        foldl-process_batch convert dry_run bs cs saved (n + length ws) (cc) asc.1 of.1 in
      (
        ws ++ ws',
        rw map-append
            (each_group-append of_group (map rows c) _ ws ws' (each_group-rows c of.0).1 es'),
        rw (aggregated, process_batch) ran ∙ ap some (saved_twice convert ws ws' table n dry_run),
      )
    where
      ws : List (ℕ × W)
      ws = (each_group-rows c of.0).0

      aggregated : aggregate tbl ≡ some ws
      aggregated =
          ap aggregate (tbl_is e) ∙ groupwise.on_page rows c asc.0 of.0 ∙ (each_group-rows c of.0).1
        where
          tbl_is :
              tbl ∷ map (λ b. b.1) bs ≡ flat_map rows c ∷ map (flat_map rows) cs
              → tbl ≡ flat_map rows c
          tbl_is h = cc

-- the rows of a number that a query returns are there, and have it
keyed-OfKey :
    {V B : Type 0} (extra_join : Db → Record → V → Option B) (db : Db)
    (layer1_table : List (String × V)) (keys : List ℕ) (t : ℕ)
    → IsKeyed (λ row. row.0) keys (rows_of extra_join db layer1_table) t
    → OfKey (rows_of extra_join db layer1_table) t
unfolding rows_of
keyed-OfKey extra_join db layer1_table keys t k = record {
  first = k.row;
  rest = k.rest;
  rows = k.rows;
  named = All-filter_key t _;
}

-- the numbers that a run with these options looks at
abbrev pub to_import : {V W : Type 0} → Db → List (String × V) → Layer2 W → Options → List ℕ
to_import db layer1_table layer2 options =
    filter (ltb 0) (updated_pgcs db layer1_table (or_else options.since layer2.last_update))

module _ {V B W : Type 0} (extra_join : Db → Record → V → Option B)
    (aggregate : List (ℕ × B) → Option (List (ℕ × W))) (of_group : List (ℕ × B) → Option (ℕ × W))
    (groupwise : IsGroupwise aggregate of_group) (convert : W → W) (fuel : ℕ) (db : Db)
    (joins : JoinsAll extra_join db) (layer1_table : List (String × V)) (layer2 : Layer2 W) where
  -- For an aggregation that works group by group and a join that has a row for every record, with a
  -- positive batch size and fuel for more rounds than there are numbers to import: the run
  -- reads every positive number that was modified since the last update, and the table has for each
  -- the row of all its rows of layer 1, however the rows fell into batches. Then the task is
  -- finalised. A dry run counts the same rows and leaves the table as it was.
  pub run_import_complete :
      (options : Options)
      → 0 < options.batch_size
      → length (to_import db layer1_table layer2 options) < fuel
      → (ws : List (ℕ × W)) × (each_group of_group
            (map (rows_of extra_join db layer1_table) (to_import db layer1_table layer2 options))
          ≡ some ws)
        × (map (λ w. w.0) ws ≡ to_import db layer1_table layer2 options)
        × (run_import extra_join aggregate convert fuel options db layer1_table layer2 ≡ (
            let (final, orphans) = finalize_catalog options db layer1_table (record layer2 {
              table = if options.dry_run then layer2.table else save convert ws layer2.table;
            }) in
            some (final, length ws, orphans)))
  unfolding run_import
  run_import_complete options pos enough =
      let pages : query_new_pgc_records extra_join db layer1_table dt
          ≡ page (λ row. row.0) all_pgcs rows =
        fun_ext λ limit.
          fun_ext λ offset. query_new_pgc_records-page extra_join db layer1_table dt limit offset in
      let (batches, ran, read) =
        read_batches_pages (λ row. row.0) all_pgcs rows fuel options.batch_size 0 pgcs refl asc
          keyed pos enough in
      let cs = chunks fuel options.batch_size pgcs in
      let (ws, es, processed) =
        foldl-process_batch aggregate of_group groupwise rows convert options.dry_run batches cs
          layer2.table 0 read (chunks-Ascending fuel options.batch_size pgcs asc)
          (All-chunks _ fuel options.batch_size pgcs of) in
      let all_read : flat_map (λ (c : List ℕ). c) cs ≡ pgcs =
        flatten-chunks fuel options.batch_size pgcs pos (omega arith) in
      let grouped : each_group of_group (map rows pgcs) ≡ some ws = rw all_read at es in
      let (ws', es', named) = each_group-rows aggregate of_group groupwise rows pgcs of in
      let none_before : 0 + length ws ≡ length ws = omega arith in
      let same : ws' ≡ ws = cc (grouped, es') in
      (
        ws,
        grouped,
        ap (map (λ w. w.0)) (sym same) ∙ named,
        ap
              (λ query.
                completed
                  (read_batches fuel query is_empty 0 (last_key (λ row. row.0)) options.batch_size))
              pages
            ∙ ap completed ran
            ∙ ap (finish options db layer1_table layer2) processed
            ∙ ap
                (λ n.
                  finish options db layer1_table layer2
                    (some (saved convert options.dry_run ws layer2.table, n)))
                none_before,
      )
    where
      completed : Option (List (ℕ × List (ℕ × B))) → Option (Layer2 W × ℕ × ℕ)
      completed batches =
          finish options db layer1_table layer2
            (save_batches aggregate convert options.dry_run layer2.table batches)

      pgcs : List ℕ
      pgcs = to_import db layer1_table layer2 options

      rows : ℕ → List (ℕ × B)
      rows = rows_of extra_join db layer1_table

      dt : ℕ
      dt = or_else options.since layer2.last_update

      all_pgcs : List ℕ
      all_pgcs = updated_pgcs db layer1_table dt

      keyed :
          All
            (IsKeyed (λ row. row.0) all_pgcs (rows_of extra_join db layer1_table))
            (to_import db layer1_table layer2 options)
      keyed =
          All-filter _ (ltb 0) all_pgcs (updated_pgcs-IsKeyed extra_join db joins layer1_table dt)

      asc : Ascending (to_import db layer1_table layer2 options)
      asc = filter-Ascending (ltb 0) all_pgcs (updated_pgcs-Ascending db layer1_table dt)

      of : All (OfKey rows) pgcs
      of = All-map _ _ (λ t k. keyed-OfKey extra_join db layer1_table all_pgcs t k) pgcs keyed
