-- ===== src/Tasks/AllCatalogs.antt =====
-- app/tasks/layer2_import.py: the import of several catalogs, one task after the other. A task works
-- on what layer 2 has of its own catalog, of type `L`, and leaves there what it has committed, also
-- when it fails. The tables of layer 2 are a function of the catalog.
use db_app.Base.{
  String, ◌≡◌, refl, sym, ap, ◌∙◌, not, Bool, true, false, Option, none, some, List, [], ◌∷◌, ◌++◌,
  arith, Dict, string_eq, ◌==◌, ==_refl, eq_of_beq, append_assoc, subst, is_some, is_some-lookup,
  Option-cases, Bool-cases, inl, inr, lookup, keys, contains, contains-append, filter, All,
  All-append, if◌then◌else◌,
}
use db_app.Layer0.Records.{has_duplicates, has_duplicates-append}

-- what a run leaves, and whether it succeeds
abbrev pub Task : Type 0 → Type 0
Task L = L → L × Bool

abbrev pub Tables : Type 0 → Type 0
Tables L = String → L

-- The end of an import: the request is refused when the task is made, a task raises, or all have run.
pub data Ended (L : Type 0) : Type 0 where
  unknown_catalogs : List String → Ended L
  failed_in : String → Tables L → Ended L
  completed : Tables L → Ended L

-- the catalogs of a request
abbrev pub requested : List String → List String → List String
requested defaults [] = defaults
requested defaults (catalog ∷ catalogs) = catalog ∷ catalogs

module _ {L : Type 0} where
  -- the names that are no keys of `CATALOG_TASKS`
  abbrev pub unknown_names : Dict String (Task L) → List String → List String
  unknown_names tasks catalogs = filter (λ c. not (contains (keys tasks) c)) catalogs

  -- `Layer2ImportTask.__init__`: the catalogs of the task, or the names that are unknown
  abbrev pub checked_catalogs : List String → List String → (List String → Ended L) → Ended L
  checked_catalogs [] catalogs run = run catalogs
  checked_catalogs (name ∷ unknown) catalogs run = unknown_catalogs (name ∷ unknown)

  unfoldable pub choose_catalogs :
      Dict String (Task L) → List String → List String → (List String → Ended L) → Ended L
  choose_catalogs tasks defaults [] run = run defaults
  choose_catalogs tasks defaults (catalog ∷ catalogs) run =
      checked_catalogs (unknown_names tasks (catalog ∷ catalogs)) (catalog ∷ catalogs) run

  -- the tables with other contents of one catalog
  abbrev pub with_table : String → L → Tables L → Tables L
  with_table catalog table tables other = if other == catalog then table else tables other

  -- after a task: the exception goes through the loop
  abbrev pub go_on : String → (Tables L → Ended L) → Tables L → L × Bool → Ended L
  go_on catalog rest tables (table, true) = rest (with_table catalog table tables)
  go_on catalog rest tables (table, false) = failed_in catalog (with_table catalog table tables)

  abbrev pub run_found : String → (Tables L → Ended L) → Tables L → Option (Task L) → Ended L
  run_found catalog rest tables none = failed_in catalog tables
  run_found catalog rest tables (some task) = go_on catalog rest tables (task (tables catalog))

  -- `Layer2ImportTask.run`
  unfoldable pub run_catalogs : Dict String (Task L) → List String → Tables L → Ended L
  run_catalogs tasks [] tables = completed tables
  run_catalogs tasks (catalog ∷ catalogs) tables =
      run_found catalog (run_catalogs tasks catalogs) tables (lookup catalog tasks)

  unfoldable pub run_layer2_import :
      Dict String (Task L) → List String → List String → Tables L → Ended L
  unfolding choose_catalogs run_catalogs
  run_layer2_import tasks defaults catalogs tables =
      choose_catalogs tasks defaults catalogs (λ chosen. run_catalogs tasks chosen tables)

  -- what the task of a catalog does by itself
  abbrev pub alone : Dict String (Task L) → String → L → L × Bool
  alone tasks catalog table = elim (lookup catalog tasks) [
    | none ↦ (table, false)
    | some task ↦ task table
  ]

  -- a catalog's table, after the tasks of these catalogs
  abbrev pub after : Dict String (Task L) → List String → Tables L → String → L
  after tasks ran tables catalog =
      if contains ran catalog then (alone tasks catalog (tables catalog)).0 else tables catalog

  -- After the tasks of `ran`, with `rest` still to come: the import has completed, or the next task
  -- has failed; the other catalogs are as they were.
  abbrev pub EndsAfter :
      Dict String (Task L) → Tables L → List String → List String → Ended L → Type 0
  EndsAfter tasks tables ran [] ended =
      (final : Tables L) × (ended ≡ completed final)
      × ((c : String) → final c ≡ after tasks ran tables c)
  EndsAfter tasks tables ran (catalog ∷ rest) ended =
      ((alone tasks catalog (tables catalog)).1 ≡ false)
      × (final : Tables L) × (ended ≡ failed_in catalog final)
      × ((c : String) → final c ≡ after tasks (ran ++ catalog ∷ []) tables c)

  -- a run of the catalogs: those before the first task that fails, and their tables
  abbrev pub Ends : Dict String (Task L) → List String → Tables L → Ended L → Type 0
  Ends tasks catalogs tables ended =
      (ran : List String) × (rest : List String) × (catalogs ≡ ran ++ rest)
      × All (λ c. (alone tasks c (tables c)).1 ≡ true) ran
      × EndsAfter tasks tables ran rest ended

  -- an import whose request has these unknown names
  abbrev pub Import : Dict String (Task L) → List String → List String → Tables L → Ended L → Type 0
  Import tasks (name ∷ unknown) catalogs tables ended = ended ≡ unknown_catalogs (name ∷ unknown)
  Import tasks [] catalogs tables ended = Ends tasks catalogs tables ended

  alone-known :
      (tasks : Dict String (Task L)) (catalog : String)
      → contains (keys tasks) catalog ≡ true
      → (task : Task L) × (lookup catalog tasks ≡ some task)
  alone-known tasks catalog h = elim (Option-cases (lookup catalog tasks)) [
    | inl missing ↦ absurd (ground (arith, is_some-lookup catalog tasks, ap is_some missing, h))
    | inr found ↦ found
  ]

  all_known :
      (tasks : Dict String (Task L)) (names : List String)
      → unknown_names tasks names ≡ []
      → All (λ c. contains (keys tasks) c ≡ true) names
  all_known tasks [] h = tt
  all_known tasks (c ∷ names) h = elim (Bool-cases (contains (keys tasks) c)) [
    | inl known ↦ (known, all_known tasks names (rw known at h))
    | inr unknown ↦
        (let none_left : c ∷ unknown_names tasks names ≡ [] = rw unknown at h in
          absurd (cc none_left))
  ]

  -- the tables after one task more
  after-next :
      (tasks : Dict String (Task L)) (ran : List String) (catalog : String)
      (current tables : Tables L)
      → contains ran catalog ≡ false
      → ((c : String) → current c ≡ after tasks ran tables c)
      → (c : String)
      → with_table catalog (alone tasks catalog (current catalog)).0 current c
        ≡ after tasks (ran ++ catalog ∷ []) tables c
  after-next tasks ran catalog current tables new same c = elim (Bool-cases (c == catalog)) [
    | inl this ↦
        let here : current catalog ≡ tables catalog = same catalog ∙ rw new refl in
        let named : c ≡ catalog = eq_of_beq c catalog this in
        rw (this, contains-append ran (catalog ∷ []) c, named, here, new)
          (rw (==_refl catalog) refl)
    | inr other ↦
        let apart : contains (ran ++ catalog ∷ []) c ≡ contains ran c =
          contains-append ran (catalog ∷ []) c ∙ ground (arith, other) in
        rw (other, apart) (same c)
  ]

  alone-found :
      (tasks : Dict String (Task L)) (catalog : String) (task : Task L) (table : L)
      → lookup catalog tasks ≡ some task
      → alone tasks catalog table ≡ task table
  alone-found tasks catalog task table found = rw (found, alone) refl

  go_on-succeeded :
      (catalog : String) (rest : Tables L → Ended L) (tables : Tables L) (left : L × Bool)
      → left.1 ≡ true
      → go_on catalog rest tables left ≡ rest (with_table catalog left.0 tables)
  go_on-succeeded catalog rest tables (table, true) h = refl
  go_on-succeeded catalog rest tables (table, false) h = absurd (cc h)

  go_on-failed :
      (catalog : String) (rest : Tables L → Ended L) (tables : Tables L) (left : L × Bool)
      → left.1 ≡ false
      → go_on catalog rest tables left ≡ failed_in catalog (with_table catalog left.0 tables)
  go_on-failed catalog rest tables (table, true) h = absurd (cc h)
  go_on-failed catalog rest tables (table, false) h = refl

  run_catalogs-next :
      (tasks : Dict String (Task L)) (catalog : String) (catalogs : List String) (tables : Tables L)
      → contains (keys tasks) catalog ≡ true
      → run_catalogs tasks (catalog ∷ catalogs) tables
        ≡ go_on catalog (run_catalogs tasks catalogs) tables (alone tasks catalog (tables catalog))
  unfolding run_catalogs
  run_catalogs-next tasks catalog catalogs tables known =
      let (task, found) = alone-known tasks catalog known in
      ap (run_found catalog (run_catalogs tasks catalogs) tables) found
      ∙ ap (go_on catalog (run_catalogs tasks catalogs) tables)
          (sym (alone-found tasks catalog task (tables catalog) found))

  run_catalogs-Ends :
      (tasks : Dict String (Task L)) (ran catalogs : List String) (current tables : Tables L)
      → has_duplicates (ran ++ catalogs) ≡ false
      → All (λ c. contains (keys tasks) c ≡ true) catalogs
      → All (λ c. (alone tasks c (tables c)).1 ≡ true) ran
      → ((c : String) → current c ≡ after tasks ran tables c)
      → Ends tasks (ran ++ catalogs) tables (run_catalogs tasks catalogs current)
  unfolding run_catalogs
  run_catalogs-Ends tasks ran [] current tables distinct known succeeded same =
      (ran, [], refl, succeeded, (current, refl, same))
  run_catalogs-Ends tasks ran (catalog ∷ catalogs) current tables distinct known succeeded same =
      let new = has_duplicates-append ran catalog catalogs distinct in
      let here : current catalog ≡ tables catalog = same catalog ∙ rw new refl in
      let next = after-next tasks ran catalog current tables new same in
      elim (Bool-cases (alone tasks catalog (current catalog)).1) [
        | inl well ↦
            subst
              (λ (names : List String).
                Ends tasks names tables (run_catalogs tasks (catalog ∷ catalogs) current))
              (append_assoc ran (catalog ∷ []) catalogs)
              (subst (Ends tasks ((ran ++ catalog ∷ []) ++ catalogs) tables)
                (sym (
                  run_catalogs-next tasks catalog catalogs current known.0
                  ∙ go_on-succeeded catalog (run_catalogs tasks catalogs) current _ well))
                (run_catalogs-Ends tasks (ran ++ catalog ∷ []) catalogs _ tables
                  (ap has_duplicates (append_assoc ran (catalog ∷ []) catalogs) ∙ distinct) known.1
                  (All-append _ ran (catalog ∷ []) succeeded
                    (ap (λ table. (alone tasks catalog table).1) (sym here) ∙ well, tt))
                  next))
        | inr badly ↦ (
          ran,
          catalog ∷ catalogs,
          refl,
          succeeded,
          (
            ap (λ table. (alone tasks catalog table).1) (sym here) ∙ badly,
            with_table catalog (alone tasks catalog (current catalog)).0 current,
            run_catalogs-next tasks catalog catalogs current known.0
                ∙ go_on-failed catalog (run_catalogs tasks catalogs) current _ badly,
            next,
          ),
        )
      ]

  -- An import of distinct catalogs, the default ones if the request has none, is refused with the
  -- names that are unknown, before any task, if there are such names. Otherwise the tasks before the
  -- first that fails have succeeded, and the table of each is what its task leaves by itself; the
  -- table of the task that fails is what it leaves, and the other catalogs are as they were.
  pub run_layer2_import-Import :
      (tasks : Dict String (Task L)) (defaults catalogs : List String) (tables : Tables L)
      → filter (λ c. not (contains (keys tasks) c)) defaults ≡ []
      → has_duplicates (requested defaults catalogs) ≡ false
      → Import tasks
          (filter (λ c. not (contains (keys tasks) c)) catalogs)
          (requested defaults catalogs)
          tables
          (run_layer2_import tasks defaults catalogs tables)
  unfolding run_layer2_import choose_catalogs
  run_layer2_import-Import tasks defaults [] tables known distinct =
      run_catalogs-Ends tasks [] defaults tables tables distinct (all_known tasks defaults known) tt
        (λ c. refl)
  run_layer2_import-Import tasks defaults (catalog ∷ catalogs) tables known distinct =
      go (unknown_names tasks (catalog ∷ catalogs)) refl
    where
      go :
          (unknown : List String)
          → unknown ≡ unknown_names tasks (catalog ∷ catalogs)
          → Import tasks unknown (catalog ∷ catalogs) tables (
              checked_catalogs unknown
                (catalog ∷ catalogs)
                (λ chosen. run_catalogs tasks chosen tables))
      go [] e =
          run_catalogs-Ends tasks [] (catalog ∷ catalogs) tables tables distinct
            (all_known tasks (catalog ∷ catalogs) (sym e)) tt (λ c. refl)
      go (name ∷ unknown) e = refl
