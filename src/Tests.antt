-- ===== src/Tests.antt =====
-- Sample tables, at which the theorems are applied.
mod Reading
mod Import
mod Submit
mod Searches
mod Sessions
mod Statistics
mod Requests
mod Rows
mod Uploads
use db_app.Base.{
  ℕ, String, ◌≡◌, refl, true, false, none, some, List, [], ◌∷◌, Dict, nat_eq, map, filter, ◌==◌,
}
use db_app.Layer0.{Db, Record, Crossmatch, regular, compilation, pending, resolved, int, ints}
use db_app.Layer1.{sort_distinct}
use db_app.Tasks.{Layer2, Options}
use db_app.Tasks.Aggregate.{GroupsByKey}

abbrev pub sample : Db
sample = record {
  tables = (1, regular) ∷ (2, compilation) ∷ [];
  records =
      ("a", record { table_id = 1; pgc = some 5 })
      ∷ ("b", record { table_id = 2; pgc = some 5 })
      ∷ ("c", record { table_id = 1; pgc = none })
      ∷ ("d", record { table_id = 1; pgc = none })
      ∷ ("e", record { table_id = 1; pgc = some 9 })
      ∷ [];
  crossmatch =
      ("c", record { triage_status = resolved; metadata = ("pgc", int 7) ∷ [] })
      ∷ ("d", record { triage_status = resolved; metadata = [] })
      ∷ (
        "e",
        record { triage_status = pending; metadata = ("possible_matches", ints (5 ∷ 9 ∷ [])) ∷ [] },
      )
      ∷ [];
  pgcs = (5, 100) ∷ (7, 50) ∷ (9, 60) ∷ [];
  pgc_seq = 20;
  now = 200;
}

abbrev pub names : List (String × String)
names = ("a", "M 1") ∷ ("b", "M 1") ∷ ("a", "NGC 1952") ∷ ("e", "M 31") ∷ ("c", "M 33") ∷ []

abbrev pub saved_names : Layer2 String
saved_names = record { table = (5, "old") ∷ (6, "lost") ∷ []; last_update = 10 }

abbrev pub options : Options
options = record {
  batch_size = 1;
  dry_run = false;
  since = none;
  cleanup_orphans = true;
  clock = 300;
}

-- a grouping as astropy's
abbrev pub groups : {V : Type 0} → List (ℕ × V) → List (List (ℕ × V))
unfolding sort_distinct
groups rows =
    map (λ pgc. filter (λ row. row.0 == pgc) rows) (sort_distinct (map (λ row. row.0) rows))

pub groups-GroupsByKey : {V : Type 0} → GroupsByKey {V = V} groups
unfolding groups
groups-GroupsByKey rows = refl
